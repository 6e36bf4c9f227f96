-- ===== src/Gui/Idles.antt =====
-- What the window of src/gui/app.cpp shows after any calls of `Idle`, with the backends of
-- src/backends.
use mac_kinect_native.Base.{ℕ, zero, suc, Option}
use mac_kinect_native.Float32.{Float32}
use mac_kinect_native.V2Device.Backends.{Context}
use mac_kinect_native.FrameSource.Api.{KinectApi}
use mac_kinect_native.FrameSource.Source.{Held}
use mac_kinect_native.Gui.App.{Textures, App}
use mac_kinect_native.Gui.Shown.{shown}

module _ (k : KinectApi) where
  abbrev pub idle_device_shown : k.Device → Textures → k.Device × Textures
  idle_device_shown d t = let (d1, frame) = k.get_frame d in ((k.update d1).0, shown frame t)

module _ (k1 k2 : KinectApi) where
  abbrev pub shown_held : App k1 k2 → Held k1 k2 → App k1 k2
  shown_held a Held.no_device = a
  shown_held a (Held.holds_v1 b d) =
      let (d1, textures) = idle_device_shown k1 d a.textures in
      record { held = Held.holds_v1 b d1; textures = textures }
  shown_held a (Held.holds_v2 b d) =
      let (d1, textures) = idle_device_shown k2 d a.textures in
      record { held = Held.holds_v2 b d1; textures = textures }

  -- An `Idle` that shows the device's next frame whole.
  abbrev pub idle_shown : App k1 k2 → App k1 k2
  idle_shown a = shown_held a a.held

  abbrev pub idles_shown : ℕ → App k1 k2 → App k1 k2
  idles_shown zero a = a
  idles_shown (suc n) a = idles_shown n (idle_shown a)
