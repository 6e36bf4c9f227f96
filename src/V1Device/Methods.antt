-- ===== src/V1Device/Methods.antt =====
-- A client's calls of the methods of one open device, in any order
-- (the interface `KinectDevice` of src/backends/backend.h, as `FreenectV1Device` implements it).
use mac_kinect_native.Base.{Bool, List, [], ◌∷◌}
use mac_kinect_native.Base.Int.{ℤ}
use mac_kinect_native.Backend.{StreamKind}
use mac_kinect_native.V1Device.Calls.{Library}
use mac_kinect_native.V1Device.State.{Device}
use mac_kinect_native.V1Device.Streaming.{start, stop, set_audio_enabled}
use mac_kinect_native.V1Device.Controls.{
  set_stream_kind, set_tilt, set_led, set_mirror, set_auto_exposure, set_auto_white_balance,
  set_near_mode, set_manual_exposure_us, set_ir_brightness,
}
use mac_kinect_native.V1Device.Frames.{update, get_frame}

pub data Method : Type 0 where
  starts stops updates gets_frame : Method
  sets_tilt sets_led sets_exposure sets_ir_brightness : ℤ → Method
  sets_stream : StreamKind → Method
  sets_mirror sets_auto_exposure sets_white_balance sets_near_mode sets_audio : Bool → Method

module _ (lib : Library) where
  unfoldable pub call_method : Method → Device → Device
  call_method Method.starts d = (start lib d).0
  call_method Method.stops d = (stop lib d).0
  call_method Method.updates d = (update lib d).0
  call_method Method.gets_frame d = (get_frame d).0
  call_method (Method.sets_tilt n) d = set_tilt lib n d
  call_method (Method.sets_led n) d = set_led lib n d
  call_method (Method.sets_exposure n) d = set_manual_exposure_us lib n d
  call_method (Method.sets_ir_brightness n) d = set_ir_brightness lib n d
  call_method (Method.sets_stream k) d = set_stream_kind k d
  call_method (Method.sets_mirror b) d = set_mirror lib b d
  call_method (Method.sets_auto_exposure b) d = set_auto_exposure lib b d
  call_method (Method.sets_white_balance b) d = set_auto_white_balance lib b d
  call_method (Method.sets_near_mode b) d = set_near_mode lib b d
  call_method (Method.sets_audio b) d = (set_audio_enabled lib b d).0

  unfoldable pub call_methods : List Method → Device → Device
  call_methods [] d = d
  call_methods (m ∷ ms) d = call_methods ms (call_method m d)
