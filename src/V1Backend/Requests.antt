-- ===== src/V1Backend/Requests.antt =====
-- How `FreenectV1Backend::openDevice` of src/backends/freenect_v1_backend.cpp reads the serials that
-- `listDevices` makes up.
use Prim.Native.String.{String}
use text.Mathlib.Text.{starts_with, ◌==◌ as str_eq}
use mac_kinect_native.Base.{
  ℕ, ◌^◌, ◌<◌, ◌≡◌, refl, ap, ◌∙◌, Bool, true, false, not, ◌&&◌, Option, [], ◌∷◌, ◌++◌, arith,
}
use mac_kinect_native.Base.Tests.{is_some}
use mac_kinect_native.Base.Int.{pos, pos_part, max_ℤ}
use mac_kinect_native.V1Device.State.{Device, is_synthetic_index_serial}
use mac_kinect_native.V1Backend.Context.{Freenect1, ContextState, enumerate_count_with_retries}
use mac_kinect_native.V1Backend.Serials.{index_serial, stoi-index_serial}
use mac_kinect_native.V1Backend.Found.{or_else_first, attempts_first, open_device_ctx}
use mac_kinect_native.V1Backend.Opening.{
  unseen, requested, candidates, try_open, try_candidates, attempt, open_device,
}

not_by_serial : (a b : Bool) → b ≡ true → (not a && not b) ≡ false
not_by_serial a b h = ground arith

module _ (lib : Freenect1) (index : ℕ) (fits : index < 2 ^ 31) where
  abbrev serial : String
  serial = index_serial index

  -- What opening by the index comes to, once the devices are counted.
  abbrev pub opens_by_index : ContextState → ContextState × Option Device
  opens_by_index b =
      try_open lib (pos index) serial (enumerate_count_with_retries lib (pos 2) 80 b).0

  requested-index_serial : (b : ContextState) → requested lib serial b ≡ (b, pos index ∷ [])
  unfolding requested
  requested-index_serial b =
      let (starts, reads) = stoi-index_serial index fits in rw (starts, reads) refl

  candidates-index_serial :
      (b : ContextState)
      → let (b1, found) = enumerate_count_with_retries lib (pos 2) 80 b in
        let front = pos index ∷ [] in
        candidates lib serial b ≡ (b1, front ++ unseen (pos_part (max_ℤ (pos 0) found)) 0 front)
  unfolding candidates
  candidates-index_serial b =
      rw (requested-index_serial (enumerate_count_with_retries lib (pos 2) 80 b).0) refl

  attempt-index_serial :
      (b : ContextState)
      → is_some (opens_by_index b).1 ≡ true
      → attempt lib serial b ≡ opens_by_index b
  unfolding attempt try_candidates is_synthetic_index_serial
  attempt-index_serial b h =
      let (starts, reads) = stoi-index_serial index fits in
      let by_index = not_by_serial (str_eq serial "") (starts_with serial "DeviceIndex-") starts in
      rw (by_index, candidates-index_serial b) (or_else_first (opens_by_index b) _ h)

  -- `openDevice` reads the index in a serial that `listDevices` made up for it, for every index that
  -- is an `int`, with no call: it asks for that index. And on a backend with a context, if the device
  -- with that index opens after the devices are counted, then that is the device that `openDevice`
  -- gives, and no other is tried before.
  pub open_device-index_serial :
      (b : ContextState)
      → b.has_ctx ≡ true
      → is_some (opens_by_index b).1 ≡ true
      → (requested lib serial b ≡ (b, pos index ∷ []))
        × (open_device lib serial b ≡ opens_by_index b)
  open_device-index_serial b ctx h =
      let first = attempt-index_serial b h in
      let found = ap (λ r. is_some r.1) first ∙ h in
      (
        requested-index_serial b,
        open_device_ctx lib index serial b ctx ∙ attempts_first lib index serial 5 b found ∙ first,
      )
