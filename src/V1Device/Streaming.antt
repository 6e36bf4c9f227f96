-- ===== src/V1Device/Streaming.antt =====
-- The methods of `FreenectV1Device` that open, start and stop it and choose its streams
-- (src/backends/freenect_v1_backend.cpp).
use text.Mathlib.Text.{◌==◌ as str_eq}
use mac_kinect_native.Base.{Bool, true, false, not, ◌&&◌, ◌||◌, ◌∷◌}
use mac_kinect_native.Base.Tests.{if◌then◌else◌}
use mac_kinect_native.Base.Int.{pos, ltb_ℤ}
use mac_kinect_native.Backend.{StreamKind}
use mac_kinect_native.V1Device.Calls.{
  Rc, is_failure, is_success, VideoFormat, video_rgb, video_ir_8bit, Call, Library,
}
use mac_kinect_native.V1Device.State.{Device, is_synthetic_index_serial}

unfoldable pub video_format : StreamKind → VideoFormat
video_format StreamKind.ir = video_ir_8bit
video_format _ = video_rgb

module _ (lib : Library) where
  -- One call of the library: its answer, and the device with the call in its log.
  unfoldable pub issue : Call → Device → Device × Rc
  issue c d = let rc = lib.answer d.log c in (record d { log = (c, rc) ∷ d.log }, rc)

  -- A call whose answer the source drops.
  unfoldable pub send : Call → Device → Device
  unfolding issue
  send c d = (issue c d).0

  unfoldable pub stop_video_if_started : Device → Device
  unfolding send
  stop_video_if_started d =
      if d.video_started then record (send Call.stop_video d) { video_started = false } else d

  unfoldable pub apply_video_mode : Device → Device × Bool
  unfolding issue video_format stop_video_if_started
  apply_video_mode d =
      let format = video_format d.requested_stream in
      let d1 = stop_video_if_started d in
      let (d2, set_rc) = issue (Call.set_video_mode format) d1 in
      let (d3, start_rc) = issue Call.start_video d2 in
      if not d.has_dev
      then (d, false)
      else if not (lib.video_mode_is_valid format)
      then (d, false)
      else if is_failure set_rc
      then (d2, false)
      else if is_failure start_rc
      then (d3, false)
      else (record d3 { video_started = true; active_stream = d3.requested_stream }, true)

  unfoldable pub set_audio_enabled : Bool → Device → Device × Bool
  unfolding issue send
  set_audio_enabled enabled d =
      let d1 = record d { audio_enabled = enabled } in
      let (d2, rc) = issue Call.start_audio d1 in
      let started =
        if d1.audio_started
        then d1
        else if is_success rc
        then record d2 { audio_started = true }
        else d2 in
      let stopped =
        if d1.audio_started
        then record (send Call.stop_audio d1) { audio_started = false }
        else d1 in
      let d' = if enabled then started else stopped in
      if not d.audio_supported
      then (record d { audio_enabled = false }, false)
      else if not d.has_dev || not d.running
      then (d1, false)
      else (d', d'.audio_started)

  -- `start`, once the depth stream is started: the video stream, if the mode did not start it.
  unfoldable pub start_video_if_needed : Device → Device × Bool
  unfolding issue send
  start_video_if_needed d =
      let (d1, rc) = issue Call.start_video d in
      if d.video_started
      then (d, true)
      else if is_failure rc
      then (record (send Call.stop_depth d1) { depth_started = false }, false)
      else (record d1 { video_started = true }, true)

  -- The end of `start`: the device runs, and its audio starts if it was asked for.
  unfoldable pub set_running : Device → Device
  unfolding set_audio_enabled
  set_running d =
      let d1 = record d { running = true } in
      if d1.audio_enabled then (set_audio_enabled true d1).0 else d1

  unfoldable pub start : Device → Device × Bool
  unfolding issue apply_video_mode start_video_if_needed set_running
  start d =
      let (d1, depth_rc) = issue Call.set_depth_mode d in
      let (d2, applied) = apply_video_mode d1 in
      let (d3, start_rc) = issue Call.start_depth d2 in
      let (d4, video_ok) = start_video_if_needed (record d3 { depth_started = true }) in
      if not d.has_dev || d.running
      then (d, d.has_dev)
      else if not lib.depth_mode_is_valid
      then (d, false)
      else if is_failure depth_rc
      then (d1, false)
      else if not applied
      then (d2, false)
      else if is_failure start_rc
      then (d3, false)
      else if not video_ok
      then (d4, false)
      else (set_running d4, true)

  unfoldable pub stop : Device → Device × Bool
  unfolding send stop_video_if_started
  stop d =
      let d1 =
        if d.audio_started then record (send Call.stop_audio d) { audio_started = false } else d in
      let d2 = stop_video_if_started d1 in
      let d3 =
        if d2.depth_started
        then record (send Call.stop_depth d2) { depth_started = false }
        else d2 in
      if not d.has_dev
      then (d, false)
      else if not d.running
      then (d, true)
      else (record d3 { running = false }, true)

  -- The destructor.
  unfoldable pub destroy : Device → Device
  unfolding stop send
  destroy d =
      let d1 = (stop d).0 in
      if d1.has_dev then record (send Call.close_device d1) { has_dev = false } else d1

  -- A call that stores a device handle, or a null one.
  unfoldable pub open_call : Call → Device → Device × Rc
  unfolding issue
  open_call c d = let (d1, rc) = issue c d in (record d1 { has_dev = lib.gives_device d.log c }, rc)

  unfoldable pub register_callbacks : Device → Device
  unfolding send
  register_callbacks d =
      let d1 = send Call.set_video_callback (send Call.set_depth_callback (send Call.set_user d)) in
      if d1.audio_supported then send Call.set_audio_in_callback d1 else d1

  unfoldable pub open_device : Device → Device × Bool
  unfolding open_call register_callbacks
  open_device d =
      let by_serial = (open_call (Call.open_device_by_camera_serial d.serial) d).0 in
      let d1 =
        if not (str_eq d.serial "") && not (is_synthetic_index_serial d.serial)
        then by_serial
        else d in
      let (d2, rc) = open_call (Call.open_device d1.index) d1 in
      let try_index = not d1.has_dev && not (ltb_ℤ d1.index (pos 0)) in
      let d3 = if try_index then d2 else d1 in
      if not d.has_ctx
      then (d, false)
      else if try_index && (is_failure rc || not d2.has_dev)
      then (d2, false)
      else if not d3.has_dev
      then (d3, false)
      else (register_callbacks d3, true)
