-- ===== src/FrameSource/Source.antt =====
-- `KinectFrameSource` of src/dal_plugin/KinectCameraDALPlugin.cpp over the two backends. A method
-- is one step: the mutex makes `stop` and `nextRGB` so, and `start` runs while there is no producer
-- thread.

use mac_kinect_native.Base.{ℕ, Bool, true, false, not, ◌||◌, Option, none, some, List, [], ◌∷◌}
use mac_kinect_native.Base.Tests.{◌==◌, if◌then◌else◌, is_some}
use mac_kinect_native.Base.Lists.{is_empty}
use mac_kinect_native.Backend.{StreamKind, FrameData, DeviceInfo}
use mac_kinect_native.FrameSource.Api.{KinectApi}

-- The bytes, the width and the height that `nextRGB` stores.
abbrev pub RgbImage : Type 0
RgbImage = List ℕ × ℕ × ℕ

-- The image of a frame, if it has one in color.
unfoldable pub rgb_image : Option FrameData → Option RgbImage
rgb_image none = none
rgb_image (some f) =
    if is_empty f.rgb || (f.width == 0) || (f.height == 0)
    then none
    else some (f.rgb, f.width, f.height)

module _ (k : KinectApi) where
  -- A backend and its device, or the device that was destroyed since it did not start.
  pub record Attempt : Type 0 where
    pub kept : Option (k.Backend × k.Device)
    pub dropped : Option k.Device

  abbrev pub nothing_tried : Attempt
  nothing_tried = record { kept = none; dropped = none }

  unfoldable pub try_device : k.Backend → Option k.Device → Attempt
  try_device b none = nothing_tried
  try_device b (some d) =
      let (d1, started) = k.start (k.set_stream_kind StreamKind.rgb d) in
      if not started
      then record { kept = none; dropped = some (k.destroy d1) }
      else record { kept = some (b, d1); dropped = none }

  unfoldable pub try_first : k.Backend → List DeviceInfo → Attempt
  unfolding try_device
  try_first b [] = nothing_tried
  try_first b (front ∷ devices) =
      let (b1, device) = k.open_device front.serial b in try_device b1 device

  -- The lambda `try_backend`.
  unfoldable pub try_backend : k.Backend → Attempt
  unfolding try_first
  try_backend b =
      let (b1, result) = k.probe b in
      let (b2, devices) = k.list_devices b1 in
      if not result.available then nothing_tried else try_first b2 devices

  -- `nextRGB` on the device.
  unfoldable pub next_image : k.Device → k.Device × Option RgbImage
  unfolding rgb_image
  next_image d =
      let (d1, updated) = k.update (k.set_stream_kind StreamKind.rgb d) in
      let (d2, frame) = k.get_frame d1 in if not updated then (d1, none) else (d2, rgb_image frame)

module _ (k1 k2 : KinectApi) where
  pub data Held : Type 0 where
    no_device : Held
    holds_v1 : k1.Backend → k1.Device → Held
    holds_v2 : k2.Backend → k2.Device → Held

  unfoldable pub hold_v1 : Option (k1.Backend × k1.Device) → Held
  hold_v1 none = no_device
  hold_v1 (some (b, d)) = holds_v1 b d

  -- The first that is kept, Kinect v2 before v1.
  unfoldable pub hold_first :
      Option (k2.Backend × k2.Device) → Option (k1.Backend × k1.Device) → Held
  unfolding hold_v1
  hold_first none second = hold_v1 second
  hold_first (some (b, d)) second = holds_v2 b d

  -- The devices that `KinectFrameSource` has destroyed are kept after the one that it holds.
  pub record FrameSource : Type 0 where
    pub held : Held
    pub gone_v1 : List k1.Device
    pub gone_v2 : List k2.Device

  abbrev pub new_source : FrameSource
  new_source = record { held = no_device; gone_v1 = []; gone_v2 = [] }

  abbrev pub add_gone : {A : Type 0} → Option A → List A → List A
  add_gone none gone = gone
  add_gone (some a) gone = a ∷ gone

  -- `stop`, by what is held.
  abbrev pub stop_held : FrameSource → Held → FrameSource
  stop_held s no_device = s
  stop_held s (holds_v1 b d) = record s {
    held = no_device;
    gone_v1 = k1.destroy (k1.stop d).0 ∷ s.gone_v1;
  }
  stop_held s (holds_v2 b d) = record s {
    held = no_device;
    gone_v2 = k2.destroy (k2.stop d).0 ∷ s.gone_v2;
  }

  unfoldable pub stop_source : FrameSource → FrameSource
  stop_source s = stop_held s s.held

  abbrev pub has_device : Held → Bool
  has_device no_device = false
  has_device _ = true

  -- The second backend is tried only if the first kept no device.
  unfoldable pub start_source : FrameSource → FrameSource × Bool
  unfolding stop_source hold_first
  start_source s =
      let s1 = stop_source s in
      let v2 = try_backend k2 k2.create in
      let v1 = if is_some v2.kept then nothing_tried k1 else try_backend k1 k1.create in
      let held = hold_first v2.kept v1.kept in
      (
        record {
          held = held;
          gone_v1 = add_gone v1.dropped s1.gone_v1;
          gone_v2 = add_gone v2.dropped s1.gone_v2;
        },
        has_device held,
      )

  -- `nextRGB`, by what is held.
  abbrev pub next_held : FrameSource → Held → FrameSource × Option RgbImage
  next_held s no_device = (s, none)
  next_held s (holds_v1 b d) =
      let (d1, image) = next_image k1 d in (record s { held = holds_v1 b d1 }, image)
  next_held s (holds_v2 b d) =
      let (d1, image) = next_image k2 d in (record s { held = holds_v2 b d1 }, image)

  unfoldable pub next_rgb : FrameSource → FrameSource × Option RgbImage
  next_rgb s = next_held s s.held

pub data SourceCall : Type 0 where
  starts_source : SourceCall
  stops_source : SourceCall
  takes_rgb : SourceCall

module _ (k1 k2 : KinectApi) where
  unfoldable pub call_source : SourceCall → FrameSource k1 k2 → FrameSource k1 k2
  unfolding start_source next_rgb
  call_source SourceCall.starts_source s = (start_source k1 k2 s).0
  call_source SourceCall.stops_source s = stop_source k1 k2 s
  call_source SourceCall.takes_rgb s = (next_rgb k1 k2 s).0

  unfoldable pub call_sources : List SourceCall → FrameSource k1 k2 → FrameSource k1 k2
  unfolding call_source
  call_sources [] s = s
  call_sources (c ∷ cs) s = call_sources cs (call_source c s)
