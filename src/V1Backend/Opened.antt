-- ===== src/V1Backend/Opened.antt =====
-- What holds of every device that `FreenectV1Backend::openDevice` returns
-- (src/backends/freenect_v1_backend.cpp).
use Prim.Native.String.{String}
use text.Mathlib.Text.{◌==◌ as str_eq}
use mac_kinect_native.Base.{ℕ, zero, suc, Bool, true, not, ◌&&◌, Option, none, some, List, [], ◌∷◌}
use mac_kinect_native.Base.Tests.{if◌then◌else◌, if_rule}
use mac_kinect_native.Base.Int.{ℤ, negsuc}
use mac_kinect_native.V1Device.Calls.{Library}
use mac_kinect_native.V1Device.State.{Device, new_device, is_synthetic_index_serial}
use mac_kinect_native.V1Device.Streaming.{open_device as open_handle}
use mac_kinect_native.V1Backend.Context.{Freenect1, ContextState, ContextCall, log_call}
use mac_kinect_native.V1Backend.Opening.{
  candidates, try_open, or_else, try_candidates, attempt, attempts, open_device,
}

-- A property of a device that was just opened, under any library.
module _ (lib : Freenect1) (P : Device → Type 0) (serial : String) where
  abbrev pub HoldsWhenOpened : Type 0
  HoldsWhenOpened =
      (l : Library) (index : ℤ) (audio : Bool)
      → P (open_handle l (new_device true index serial audio)).0

  abbrev pub HoldsOfResult : ContextState × Option Device → Type 0
  HoldsOfResult (b, none) = Unit
  HoldsOfResult (b, some d) = P d

  or_else_rule :
      (x y : ContextState × Option Device)
      → HoldsOfResult x
      → HoldsOfResult y
      → HoldsOfResult (or_else x y)
  or_else_rule (b, none) y h k = k
  or_else_rule (b, some d) y h k = h

  module _ (opened : HoldsWhenOpened) where
    try_open_rule : (index : ℤ) (b : ContextState) → HoldsOfResult (try_open lib index serial b)
    unfolding try_open
    try_open_rule index b =
        let (d, succeeded) =
          open_handle (lib.device_library b.log)
            (new_device true index serial b.has_audio_firmware) in
        let b1 = log_call (ContextCall.tries_open index serial) b in
        if_rule {A = ContextState × Option Device} HoldsOfResult (not succeeded) (b1, none)
          {y = (b1, some d)} (λ _. tt)
          (λ _. opened (lib.device_library b.log) index b.has_audio_firmware)

    try_candidates_rule :
        (indices : List ℤ) (b : ContextState) → HoldsOfResult (try_candidates lib indices serial b)
    unfolding try_candidates
    try_candidates_rule [] b = tt
    try_candidates_rule (index ∷ indices) b =
        or_else_rule (try_open lib index serial b) _ (try_open_rule index b)
          (try_candidates_rule indices _)

    attempt_rule : (b : ContextState) → HoldsOfResult (attempt lib serial b)
    unfolding attempt
    attempt_rule b =
        let by_serial = not (str_eq serial "") && not (is_synthetic_index_serial serial) in
        let first = if by_serial then try_open lib (negsuc 0) serial b else (b, none) in
        or_else_rule first _
          (if_rule {A = ContextState × Option Device} HoldsOfResult by_serial
            (try_open lib (negsuc 0) serial b) {y = (b, none)} (λ _. try_open_rule (negsuc 0) b)
            (λ _. tt))
          (try_candidates_rule (candidates lib serial first.0).1 _)

    attempts_rule : (n : ℕ) (b : ContextState) → HoldsOfResult (attempts lib n serial b)
    unfolding attempts
    attempts_rule zero b = tt
    attempts_rule (suc n) b =
        or_else_rule (attempt lib serial b) _ (attempt_rule b) (attempts_rule n _)

    pub open_device_rule : (b : ContextState) → HoldsOfResult (open_device lib serial b)
    unfolding open_device
    open_device_rule b =
        if_rule {A = ContextState × Option Device} HoldsOfResult (not b.has_ctx) (b, none) (λ _. tt)
          (λ _. attempts_rule 6 b)
