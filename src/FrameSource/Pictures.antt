-- ===== src/FrameSource/Pictures.antt =====
-- The sizes of the images of `KinectFrameSource` (src/dal_plugin/KinectCameraDALPlugin.cpp), from the
-- law of its backends.
use mac_kinect_native.Base.{
  ℕ, ◌*◌, ◌<◌, ◌≡◌, ◌⊎◌, inl, inr, false, not, ◌||◌, Option, none, some, List, [], ◌∷◌, arith,
}
use mac_kinect_native.Base.Tests.{◌==◌, if_rule, is_some}
use mac_kinect_native.Base.Lists.{length, is_empty}
use mac_kinect_native.Backend.{StreamKind, FrameData, DeviceInfo}
use mac_kinect_native.FrameSource.Api.{KinectApi, IsRgbSized, HoldsIf, IsSizedApi}
use mac_kinect_native.FrameSource.Source.{
  RgbImage, rgb_image, Attempt, nothing_tried, try_device, try_first, try_backend, next_image, Held,
  hold_v1, hold_first, FrameSource, new_source, stop_held, stop_source, start_source, next_held,
  next_rgb, SourceCall, call_source, call_sources,
}

-- A width and a height above 0, of which Q holds, and three bytes for each pixel.
abbrev pub IsImageSized : (ℕ → ℕ → Type 0) → RgbImage → Type 0
IsImageSized Q (rgb, width, height) =
    (0 < width) × (0 < height) × (length rgb ≡ width * height * 3) × Q width height

sized_of_rgb :
    (Q : ℕ → ℕ → Type 0) (rgb : List ℕ) (width height : ℕ)
    → (length rgb ≡ 0) ⊎ (length rgb ≡ width * height * 3)
    → Q width height
    → (is_empty rgb || (width == 0) || (height == 0)) ≡ false
    → IsImageSized Q (rgb, width, height)
sized_of_rgb Q [] width height size q e = absurd (ground arith)
sized_of_rgb Q (x ∷ rgb) width height (inl h) q e = absurd (omega arith)
sized_of_rgb Q (x ∷ rgb) width height (inr h) q e = (ground arith, ground arith, h, q)

rgb_image-IsImageSized :
    (Q : ℕ → ℕ → Type 0) (frame : Option FrameData)
    → IsRgbSized frame
    → HoldsIf (λ (f : FrameData). Q f.width f.height) frame
    → HoldsIf (IsImageSized Q) (rgb_image frame)
unfolding rgb_image
rgb_image-IsImageSized Q none h q = tt
rgb_image-IsImageSized Q (some f) h q =
    if_rule {A = Option RgbImage} (HoldsIf (IsImageSized Q)) _ none (λ _. tt)
      (sized_of_rgb Q f.rgb f.width f.height h q)

module _ (Q : ℕ → ℕ → Type 0) (k : KinectApi) (law : IsSizedApi Q k) where
  abbrev pub IsGoodPair : k.Backend × k.Device → Type 0
  IsGoodPair (b, d) = law.Good d

  abbrev IsGoodAttempt : Attempt k → Type 0
  IsGoodAttempt a = HoldsIf IsGoodPair a.kept

  try_device-IsGood :
      (b : k.Backend) (device : Option k.Device)
      → HoldsIf law.Good device
      → IsGoodAttempt (try_device k b device)
  unfolding try_device
  try_device-IsGood b none h = tt
  try_device-IsGood b (some d) h =
      let d1 = k.set_stream_kind StreamKind.rgb d in
      let (d2, started) = k.start d1 in
      if_rule {A = Attempt k} IsGoodAttempt (not started)
        (record { kept = none; dropped = some (k.destroy d2) })
        {y = record { kept = some (b, d2); dropped = none }} (λ _. tt)
        (λ _. law.started d1 (law.kind_set StreamKind.rgb d h))

  try_first-IsGood :
      (b : k.Backend) (devices : List DeviceInfo) → IsGoodAttempt (try_first k b devices)
  unfolding try_first
  try_first-IsGood b [] = tt
  try_first-IsGood b (front ∷ devices) = try_device-IsGood _ _ (law.opened front.serial b)

  pub try_backend-IsGood : (b : k.Backend) → IsGoodAttempt (try_backend k b)
  unfolding try_backend
  try_backend-IsGood b =
      let (b1, result) = k.probe b in
      let (b2, devices) = k.list_devices b1 in
      if_rule {A = Attempt k} IsGoodAttempt (not result.available) (nothing_tried k) (λ _. tt)
        (λ _. try_first-IsGood b2 devices)

  pub next_image-IsGood :
      (d : k.Device)
      → law.Good d
      → law.Good (next_image k d).0 × HoldsIf (IsImageSized Q) (next_image k d).1
  unfolding next_image
  next_image-IsGood d h =
      let d0 = k.set_stream_kind StreamKind.rgb d in
      let h1 = law.updated d0 (law.kind_set StreamKind.rgb d h) in
      let (d1, updated) = k.update d0 in
      if_rule {A = k.Device × Option RgbImage} (λ r. law.Good r.0 × HoldsIf (IsImageSized Q) r.1)
        (not updated) (d1, none) (λ _. (h1, tt))
        (λ _. (
          law.taken d1 h1,
          rgb_image-IsImageSized Q _ (law.rgb_sized d1 h1) (law.size_holds d1 h1),
        ))

module _ (Q : ℕ → ℕ → Type 0) (k1 k2 : KinectApi) (law1 : IsSizedApi Q k1)
    (law2 : IsSizedApi Q k2) where
  abbrev pub IsGoodHeld : Held k1 k2 → Type 0
  IsGoodHeld Held.no_device = Unit
  IsGoodHeld (Held.holds_v1 b d) = law1.Good d
  IsGoodHeld (Held.holds_v2 b d) = law2.Good d

  abbrev IsGoodSource : FrameSource k1 k2 → Type 0
  IsGoodSource s = IsGoodHeld s.held

  pub hold_v1-IsGood :
      (first : Option (k1.Backend × k1.Device))
      → HoldsIf (IsGoodPair Q k1 law1) first
      → IsGoodHeld (hold_v1 k1 k2 first)
  unfolding hold_v1
  hold_v1-IsGood none h = tt
  hold_v1-IsGood (some x) h = h

  pub hold_first-IsGood :
      (second : Option (k2.Backend × k2.Device)) (first : Option (k1.Backend × k1.Device))
      → HoldsIf (IsGoodPair Q k2 law2) second
      → HoldsIf (IsGoodPair Q k1 law1) first
      → IsGoodHeld (hold_first k1 k2 second first)
  unfolding hold_first
  hold_first-IsGood none first h g = hold_v1-IsGood first g
  hold_first-IsGood (some x) first h g = h

  stop_source-IsGood : (s : FrameSource k1 k2) → IsGoodSource s → IsGoodSource (stop_source k1 k2 s)
  unfolding stop_source
  stop_source-IsGood s h = by_held s.held h
    where
      by_held : (held : Held k1 k2) → IsGoodHeld held → IsGoodSource (stop_held k1 k2 s held)
      by_held Held.no_device g = h
      by_held (Held.holds_v1 b d) g = tt
      by_held (Held.holds_v2 b d) g = tt

  start_source-IsGood : (s : FrameSource k1 k2) → IsGoodSource (start_source k1 k2 s).0
  unfolding start_source
  start_source-IsGood s =
      let v2 = try_backend k2 k2.create in
      hold_first-IsGood v2.kept _ (try_backend-IsGood Q k2 law2 k2.create) (
        if_rule {A = Attempt k1} (IsGoodAttempt Q k1 law1) (is_some v2.kept) (nothing_tried k1)
          (λ _. tt) (λ _. try_backend-IsGood Q k1 law1 k1.create))

  pub next_rgb-IsGood :
      (s : FrameSource k1 k2)
      → IsGoodSource s
      → IsGoodSource (next_rgb k1 k2 s).0 × HoldsIf (IsImageSized Q) (next_rgb k1 k2 s).1
  unfolding next_rgb
  next_rgb-IsGood s h = by_held s.held h
    where
      by_held :
          (held : Held k1 k2)
          → IsGoodHeld held
          → IsGoodSource (next_held k1 k2 s held).0
            × HoldsIf (IsImageSized Q) (next_held k1 k2 s held).1
      by_held Held.no_device g = (h, tt)
      by_held (Held.holds_v1 b d) g = next_image-IsGood Q k1 law1 d g
      by_held (Held.holds_v2 b d) g = next_image-IsGood Q k2 law2 d g

  call_source-IsGood :
      (c : SourceCall) (s : FrameSource k1 k2)
      → IsGoodSource s
      → IsGoodSource (call_source k1 k2 c s)
  unfolding call_source
  call_source-IsGood SourceCall.starts_source s h = start_source-IsGood s
  call_source-IsGood SourceCall.stops_source s h = stop_source-IsGood s h
  call_source-IsGood SourceCall.takes_rgb s h = (next_rgb-IsGood s h).0

  call_sources-IsGood :
      (cs : List SourceCall) (s : FrameSource k1 k2)
      → IsGoodSource s
      → IsGoodSource (call_sources k1 k2 cs s)
  unfolding call_sources
  call_sources-IsGood [] s h = h
  call_sources-IsGood (c ∷ cs) s h =
      call_sources-IsGood cs (call_source k1 k2 c s) (call_source-IsGood c s h)

  -- An image that `nextRGB` gives, after any calls, has a size above 0 and all of its bytes.
  pub next_rgb-IsImageSized :
      (cs : List SourceCall)
      → HoldsIf (IsImageSized Q) (next_rgb k1 k2 (call_sources k1 k2 cs (new_source k1 k2))).1
  next_rgb-IsImageSized cs = (next_rgb-IsGood _ (call_sources-IsGood cs (new_source k1 k2) tt)).1
