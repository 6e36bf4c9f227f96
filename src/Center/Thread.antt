-- ===== src/Center/Thread.antt =====
-- `freenect_threadfunc` of src/control_center_v1.cpp. The buffer that it gives to
-- libfreenect is in Center.Buffers.
use mac_kinect_native.Base.{true, false, not}
use mac_kinect_native.Base.Tests.{if◌then◌else◌}
use mac_kinect_native.V1Device.Calls.{is_failure}
use mac_kinect_native.Center.Formats.{Led, same_video, same_depth}
use mac_kinect_native.Center.Settings.{
  Command, Freenect, Status, Center, set_status, ask, tell, apply_mirror,
  apply_auto_exposure_bundle, apply_white_balance, apply_near_mode, apply_manual_exposure,
  apply_ir_brightness,
}

module _ (lib : Freenect) where
  -- A stream that does not start ends the thread's loop before its first round.
  unfoldable pub start_or_die : Command → Status → Center → Center
  start_or_die m s c =
      let (c1, rc) = ask lib m c in
      if is_failure rc then record (set_status s c1) { die = true } else c1

  unfoldable pub start_audio_stream : Center → Center
  start_audio_stream c =
      let (c1, rc) = ask lib Command.start_audio c in
      if is_failure rc
      then set_status Status.audio_unavailable (record c1 { audio_stream_available = false })
      else set_status Status.all_streams_started (record c1 { audio_stream_available = true })

  -- The settings that the thread applies first.
  unfoldable pub apply_all : Center → Center
  unfolding apply_mirror apply_auto_exposure_bundle apply_white_balance apply_near_mode
      apply_ir_brightness apply_manual_exposure
  apply_all c =
      let c1 = tell lib (Command.set_tilt_degs c.freenect_angle) c in
      let c2 = tell lib (Command.set_led c1.led_mode) c1 in
      let c3 = apply_auto_exposure_bundle lib (apply_mirror lib c2) in
      let c4 = apply_near_mode lib (apply_white_balance lib c3) in
      apply_manual_exposure lib (apply_ir_brightness lib c4)

  unfoldable pub register_all : Center → Center
  register_all c =
      let c1 = tell lib Command.set_video_callback (tell lib Command.set_depth_callback c) in
      let c2 = tell lib Command.set_audio_in_callback c1 in
      let c3 = tell lib (Command.set_video_mode c2.current_video_format) c2 in
      let c4 = tell lib (Command.set_depth_mode c3.current_depth_format) c3 in
      tell lib Command.set_video_buffer c4

  -- The thread up to its loop.
  unfoldable pub thread_setup : Center → Center
  unfolding apply_all register_all start_or_die start_audio_stream
  thread_setup c =
      let c1 = register_all (apply_all c) in
      let c2 = start_or_die Command.start_depth Status.depth_not_started c1 in
      let c3 = start_or_die Command.start_video Status.video_not_started c2 in start_audio_stream c3

  unfoldable pub change_video_format : Center → Center
  change_video_format c =
      let c1 = tell lib Command.stop_video c in
      let c2 =
        if lib.video_is_valid c1.requested_video_format
        then set_status (Status.video_mode_changed c1.requested_video_format)
            (record (tell lib (Command.set_video_mode c1.requested_video_format) c1) {
              current_video_format = c1.requested_video_format;
            })
        else record (set_status Status.video_mode_not_valid c1) {
          requested_video_format = c1.current_video_format;
        } in
      if not (same_video c.requested_video_format c.current_video_format)
      then tell lib Command.start_video (tell lib Command.set_video_buffer c2)
      else c

  unfoldable pub change_depth_format : Center → Center
  change_depth_format c =
      let c1 = tell lib Command.stop_depth c in
      let c2 =
        if lib.depth_is_valid c1.requested_depth_format
        then set_status (Status.depth_mode_changed c1.requested_depth_format)
            (record (tell lib (Command.set_depth_mode c1.requested_depth_format) c1) {
              current_depth_format = c1.requested_depth_format;
            })
        else record (set_status Status.depth_mode_not_valid c1) {
          requested_depth_format = c1.current_depth_format;
        } in
      if not (same_depth c.requested_depth_format c.current_depth_format)
      then tell lib Command.start_depth c2
      else c

  -- After the loop.
  unfoldable pub thread_finish : Center → Center
  thread_finish c =
      let c0 = tell lib Command.stop_audio_recording_locked c in
      let c1 = tell lib Command.stop_video (tell lib Command.stop_depth c0) in
      let c2 = if c1.audio_stream_available then tell lib Command.stop_audio c1 else c1 in
      let c3 = tell lib Command.close_device (tell lib (Command.set_led Led.off) c2) in
      record (set_status Status.shutdown_complete (tell lib Command.shutdown c3)) {
        thread_ended = true;
      }

  -- One test of `while (!g_die)` and the round after it, or the end of the thread.
  unfoldable pub thread_round : Center → Center
  unfolding change_video_format change_depth_format thread_finish
  thread_round c =
      let (c1, rc) = ask lib Command.process_events_timeout c in
      if c.die
      then thread_finish c
      else if is_failure rc
      then thread_finish (set_status Status.processing_failed c1)
      else change_depth_format (change_video_format c1)
