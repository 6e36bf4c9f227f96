-- ===== src/V1Device/Controls.antt =====
-- The hardware controls of `FreenectV1Device` (src/backends/freenect_v1_backend.cpp).
use mac_kinect_native.Base.{Bool}
use mac_kinect_native.Base.Tests.{if◌then◌else◌}
use mac_kinect_native.Base.Int.{ℤ, pos, negsuc, clamp}
use mac_kinect_native.Backend.{StreamKind}
use mac_kinect_native.V1Device.Calls.{
  Call, mirror_depth, mirror_video, auto_exposure, auto_flicker, auto_white_balance, near_mode,
  Library,
}
use mac_kinect_native.V1Device.State.{Device}
use mac_kinect_native.V1Device.Streaming.{send}

unfoldable pub set_stream_kind : StreamKind → Device → Device
set_stream_kind kind d = record d { requested_stream = kind }

module _ (lib : Library) where
  unfoldable pub set_tilt : ℤ → Device → Device
  unfolding send
  set_tilt angle d =
      if d.has_dev then send lib (Call.set_tilt_degs (clamp (negsuc 29) (pos 30) angle)) d else d

  unfoldable pub set_led : ℤ → Device → Device
  unfolding send
  set_led mode d = if d.has_dev then send lib (Call.set_led (clamp (pos 0) (pos 6) mode)) d else d

  unfoldable pub set_mirror : Bool → Device → Device
  unfolding send
  set_mirror enabled d =
      if d.has_dev
      then send lib (Call.set_flag mirror_video enabled)
          (send lib (Call.set_flag mirror_depth enabled) d)
      else d

  unfoldable pub set_auto_exposure : Bool → Device → Device
  unfolding send
  set_auto_exposure enabled d =
      if d.has_dev
      then send lib (Call.set_flag auto_flicker enabled)
          (send lib (Call.set_flag auto_exposure enabled) d)
      else d

  unfoldable pub set_auto_white_balance : Bool → Device → Device
  unfolding send
  set_auto_white_balance enabled d =
      if d.has_dev then send lib (Call.set_flag auto_white_balance enabled) d else d

  unfoldable pub set_near_mode : Bool → Device → Device
  unfolding send
  set_near_mode enabled d = if d.has_dev then send lib (Call.set_flag near_mode enabled) d else d

  unfoldable pub set_manual_exposure_us : ℤ → Device → Device
  unfolding send
  set_manual_exposure_us value d =
      if d.has_dev then send lib (Call.set_exposure (clamp (pos 1000) (pos 200000) value)) d else d

  -- The clamped value fits the `uint16_t` that it is cast to.
  unfoldable pub set_ir_brightness : ℤ → Device → Device
  unfolding send
  set_ir_brightness value d =
      if d.has_dev then send lib (Call.set_ir_brightness (clamp (pos 1) (pos 50) value)) d else d
