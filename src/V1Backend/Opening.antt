-- ===== src/V1Backend/Opening.antt =====
-- `FreenectV1Backend::openDevice` of src/backends/freenect_v1_backend.cpp.
use Prim.Native.String.{String}
use text.Mathlib.Text.{starts_with, ◌==◌ as str_eq}
use mac_kinect_native.Base.{
  ℕ, zero, suc, Bool, true, false, not, ◌&&◌, ◌||◌, Option, none, some, List, [], ◌∷◌, ◌++◌,
}
use mac_kinect_native.Base.Tests.{◌==◌, if◌then◌else◌}
use mac_kinect_native.Base.Int.{ℤ, pos, negsuc, pos_part, max_ℤ}
use mac_kinect_native.Backend.{DeviceInfo}
use mac_kinect_native.V1Device.State.{Device, new_device, is_synthetic_index_serial}
use mac_kinect_native.V1Device.Streaming.{open_device as open_handle}
use mac_kinect_native.V1Backend.Context.{
  ContextCall, Freenect1, ContextState, log_call, enumerate_count_with_retries,
}
use mac_kinect_native.V1Backend.Serials.{list_devices, stoi, drop_text}

abbrev pub same_int : ℤ → ℤ → Bool
same_int (pos m) (pos n) = m == n
same_int (negsuc m) (negsuc n) = m == n
same_int _ _ = false

abbrev pub contains : ℤ → List ℤ → Bool
contains k [] = false
contains k (n ∷ ns) = same_int k n || contains k ns

abbrev pub as_list : Option ℤ → List ℤ
as_list none = []
as_list (some n) = n ∷ []

-- The index of the first device with the serial.
unfoldable pub index_of : String → ℕ → List DeviceInfo → List ℤ
index_of serial i [] = []
index_of serial i (info ∷ devices) =
    let rest = index_of serial (suc i) devices in
    if str_eq info.serial serial then pos i ∷ [] else rest

-- The n indices from the i-th that are not seen yet.
unfoldable pub unseen : ℕ → ℕ → List ℤ → List ℤ
unseen zero i seen = []
unseen (suc n) i seen =
    let rest = unseen n (suc i) (if contains (pos i) seen then seen else pos i ∷ seen) in
    if contains (pos i) seen then rest else pos i ∷ rest

-- The first of two ways to a device that gives one.
abbrev pub or_else :
    ContextState × Option Device → ContextState × Option Device → ContextState × Option Device
or_else (b, none) rest = rest
or_else (b, some d) rest = (b, some d)

module _ (lib : Freenect1) where
  -- The index that the serial asks for, if any.
  unfoldable pub requested : String → ContextState → ContextState × List ℤ
  requested serial b =
      let (b1, devices) = list_devices lib b in
      if starts_with serial "DeviceIndex-"
      then (b, as_list (stoi (drop_text 12 serial)))
      else if not (str_eq serial "")
      then (b1, index_of serial 0 devices)
      else (b, [])

  unfoldable pub candidates : String → ContextState → ContextState × List ℤ
  candidates serial b =
      let (b1, found) = enumerate_count_with_retries lib (pos 2) 80 b in
      let count = pos_part (max_ℤ (pos 0) found) in
      let (b2, front) = requested serial b1 in (b2, front ++ unseen count 0 front)

  -- A fresh device, opened; `none` is that it did not open.
  unfoldable pub try_open : ℤ → String → ContextState → ContextState × Option Device
  try_open index serial b =
      let (d, opened) =
        open_handle (lib.device_library b.log)
          (new_device true index serial b.has_audio_firmware) in
      let b1 = log_call (ContextCall.tries_open index serial) b in
      if not opened then (b1, none) else (b1, some d)

  unfoldable pub try_candidates : List ℤ → String → ContextState → ContextState × Option Device
  try_candidates [] serial b = (b, none)
  try_candidates (index ∷ indices) serial b =
      let first = try_open index serial b in or_else first (try_candidates indices serial first.0)

  -- One attempt: by the serial itself, and then by each candidate.
  unfoldable pub attempt : String → ContextState → ContextState × Option Device
  attempt serial b =
      let by_serial = not (str_eq serial "") && not (is_synthetic_index_serial serial) in
      let first = if by_serial then try_open (negsuc 0) serial b else (b, none) in
      let (b1, indices) = candidates serial first.0 in
      or_else first (try_candidates indices serial b1)

  unfoldable pub attempts : ℕ → String → ContextState → ContextState × Option Device
  attempts zero serial b = (b, none)
  attempts (suc n) serial b =
      let tried = attempt serial b in
      or_else tried (attempts n serial (log_call (ContextCall.sleeps_ms 250) tried.0))

  -- `none` is null.
  unfoldable pub open_device : String → ContextState → ContextState × Option Device
  open_device serial b = if not b.has_ctx then (b, none) else attempts 6 serial b
