-- ===== src/V2Device/Methods.antt =====
-- The methods of `FreenectV2Device` (src/backends/freenect_v2_backend.cpp), and a client's calls of
-- them in any order.
use mac_kinect_native.Base.{Bool, true, false, not, ◌||◌, Option, none, some, List, [], ◌∷◌}
use mac_kinect_native.Base.Tests.{if◌then◌else◌}
use mac_kinect_native.Backend.{StreamKind, FrameData}
use mac_kinect_native.Float32.{Float32}
use mac_kinect_native.V2Device.State.{FrameMap, DeviceCall, Freenect2, Device}
use mac_kinect_native.V2Device.Pictures.{color_picture, depth_picture, ir_picture, choose_frame}

abbrev pub record_call : DeviceCall → Bool → Device → Device
record_call c answer d = record d { log = (c, answer) ∷ d.log }

unfoldable pub get_frame : Device → Device × Option FrameData
get_frame d =
    if not d.has_new_frame then (d, none) else (record d { has_new_frame = false }, some d.frame)

abbrev pub set_stream_kind : StreamKind → Device → Device
set_stream_kind kind d = record d { selected_stream = kind }

-- `setTilt` and `setLed` do nothing.
pub data Method : Type 0 where
  starts : Method
  stops : Method
  updates : Method
  gets_frame : Method
  sets_stream : StreamKind → Method
  sets_tilt : Method
  sets_led : Method

-- The chosen frame, if any, is the new one.
abbrev pub assign_next : Device → Option FrameData → Device × Bool
assign_next d none = (d, false)
assign_next d (some f) = (record d { frame = f; has_new_frame = true }, true)

module _ (fl : Float32) (lib : Freenect2 fl) where
  -- The method `open`.
  unfoldable pub open_handle : Device → Device × Bool
  open_handle d =
      let opened = lib.open_answer d.log d.serial in
      let d1 = record (record_call (DeviceCall.opens d.serial) opened d) { has_dev = opened } in
      let d2 =
        record_call DeviceCall.sets_depth_listener true
          (record_call DeviceCall.sets_color_listener true d1) in
      if not d.has_ctx then (d, false) else if not d1.has_dev then (d1, false) else (d2, true)

  unfoldable pub start : Device → Device × Bool
  start d =
      let started = lib.start_answer d.log in
      let d1 = record_call DeviceCall.starts_device started d in
      if not d.has_dev || d.running
      then (d, d.has_dev)
      else if not started
      then (d1, false)
      else (record d1 { running = true }, true)

  unfoldable pub stop : Device → Device × Bool
  stop d =
      if not d.has_dev
      then (d, false)
      else if d.running
      then (record (record_call DeviceCall.stops_device true d) { running = false }, true)
      else (d, true)

  -- The destructor.
  unfoldable pub destroy : Device → Device
  unfolding stop
  destroy d =
      let d1 = (stop d).0 in
      if d1.has_dev then record (record_call DeviceCall.closes true d1) { has_dev = false } else d1

  -- `update`, once frames have arrived.
  unfoldable pub take_frames : FrameMap fl → Device → Device × Bool
  unfolding choose_frame color_picture depth_picture ir_picture
  take_frames frames d =
      let next =
        choose_frame d.selected_stream (color_picture frames.color) (depth_picture fl frames.depth)
          (ir_picture fl frames.ir) in
      let (d1, assigned) = assign_next d next in (record_call DeviceCall.releases true d1, assigned)

  -- `update`, by what the wait gave.
  abbrev pub received : Device → Option (FrameMap fl) → Device × Bool
  received d none = (record_call DeviceCall.times_out false d, false)
  received d (some frames) = take_frames frames (record_call DeviceCall.gets_frames true d)

  unfoldable pub update : Device → Device × Bool
  unfolding take_frames
  update d = if not d.running then (d, false) else received d (lib.new_frames d.log)

  unfoldable pub call_method : Method → Device → Device
  unfolding start stop update get_frame
  call_method Method.starts d = (start d).0
  call_method Method.stops d = (stop d).0
  call_method Method.updates d = (update d).0
  call_method Method.gets_frame d = (get_frame d).0
  call_method (Method.sets_stream kind) d = set_stream_kind kind d
  call_method Method.sets_tilt d = d
  call_method Method.sets_led d = d

  unfoldable pub call_methods : List Method → Device → Device
  unfolding call_method
  call_methods [] d = d
  call_methods (m ∷ ms) d = call_methods ms (call_method m d)

  -- A device that was made, opened, and used.
  abbrev pub device_after : Device → List Method → Device
  device_after d ms = call_methods ms (open_handle d).0
