-- ===== src/Center/Settings.antt =====
-- The settings of src/control_center_v1.cpp and the functions that apply them. libfreenect is a
-- parameter whose answers may depend on all the calls that came before.
use mac_kinect_native.Base.{Bool, true, false, not, List, [], ◌∷◌}
use mac_kinect_native.Base.Tests.{if◌then◌else◌}
use mac_kinect_native.Base.Int.{ℤ, pos, negsuc, clamp}
use mac_kinect_native.V1Device.Calls.{Rc, Flag}
use mac_kinect_native.Center.Formats.{VideoFormat, DepthFormat, Led}

-- The calls of libfreenect, and those of `StopAudioRecordingLocked`, which is in the module Wav.
pub data Command : Type 0 where
  set_tilt_degs : ℤ → Command
  set_led : Led → Command
  set_flag : Flag → Bool → Command
  set_exposure : ℤ → Command
  set_ir_brightness : ℤ → Command
  set_depth_callback : Command
  set_video_callback : Command
  set_audio_in_callback : Command
  set_video_mode : VideoFormat → Command
  set_depth_mode : DepthFormat → Command
  set_video_buffer : Command
  start_depth : Command
  start_video : Command
  start_audio : Command
  stop_depth : Command
  stop_video : Command
  stop_audio : Command
  process_events_timeout : Command
  close_device : Command
  shutdown : Command
  stop_audio_recording_locked : Command

-- The newest call first, each with what it returned.
abbrev pub Commands : Type 0
Commands = List (Command × Rc)

pub record Freenect : Type 0 where
  pub answer : Commands → Command → Rc
  pub video_is_valid : VideoFormat → Bool
  pub depth_is_valid : DepthFormat → Bool

-- The texts that `SetStatus` is given, with the value in them.
pub data Status : Type 0 where
  ready : Status
  tilt_increased : Status
  tilt_decreased : Status
  tilt_centered : Status
  requested_video_mode : VideoFormat → Status
  requested_depth_mode : DepthFormat → Status
  mirror_set : Bool → Status
  auto_exposure_set : Bool → Status
  auto_white_balance_set : Bool → Status
  near_mode_not_supported : Status
  manual_exposure_set : ℤ → Status
  ir_brightness_set : ℤ → Status
  led_set : Led → Status
  depth_not_started : Status
  video_not_started : Status
  audio_unavailable : Status
  all_streams_started : Status
  processing_failed : Status
  video_mode_changed : VideoFormat → Status
  video_mode_not_valid : Status
  depth_mode_changed : DepthFormat → Status
  depth_mode_not_valid : Status
  shutdown_complete : Status

-- The globals, the calls made, and whether the thread of libfreenect and the program have ended.
pub record Center : Type 0 where
  pub has_dev : Bool
  pub die : Bool
  pub freenect_angle : ℤ
  pub led_mode : Led
  pub requested_video_format : VideoFormat
  pub current_video_format : VideoFormat
  pub requested_depth_format : DepthFormat
  pub current_depth_format : DepthFormat
  pub auto_exposure : Bool
  pub auto_white_balance : Bool
  pub mirror : Bool
  pub near_mode : Bool
  pub manual_exposure_us : ℤ
  pub ir_brightness : ℤ
  pub audio_stream_available : Bool
  pub status : Status
  pub commands : Commands
  pub thread_ended : Bool
  pub exited : Bool

-- The globals once `main` has opened the device.
unfoldable pub initial_center : Center
initial_center = record {
  has_dev = true;
  die = false;
  freenect_angle = pos 0;
  led_mode = Led.green;
  requested_video_format = VideoFormat.rgb;
  current_video_format = VideoFormat.rgb;
  requested_depth_format = DepthFormat.registered;
  current_depth_format = DepthFormat.registered;
  auto_exposure = true;
  auto_white_balance = true;
  mirror = true;
  near_mode = false;
  manual_exposure_us = pos 33333;
  ir_brightness = pos 20;
  audio_stream_available = false;
  status = Status.ready;
  commands = [];
  thread_ended = false;
  exited = false;
}

abbrev pub set_status : Status → Center → Center
set_status s c = record c { status = s }

module _ (lib : Freenect) where
  -- One call, and its answer.
  abbrev pub ask : Command → Center → Center × Rc
  ask m c = let rc = lib.answer c.commands m in (record c { commands = (m, rc) ∷ c.commands }, rc)

  abbrev pub tell : Command → Center → Center
  tell m c = (ask m c).0

  unfoldable pub apply_tilt : Center → Center
  apply_tilt c =
      let angle = clamp (negsuc 29) (pos 30) c.freenect_angle in
      if not c.has_dev
      then c
      else tell (Command.set_tilt_degs angle) (record c { freenect_angle = angle })

  unfoldable pub apply_mirror : Center → Center
  apply_mirror c =
      if not c.has_dev
      then c
      else tell (Command.set_flag Flag.mirror_video c.mirror)
          (tell (Command.set_flag Flag.mirror_depth c.mirror) c)

  unfoldable pub apply_auto_exposure_bundle : Center → Center
  apply_auto_exposure_bundle c =
      if not c.has_dev
      then c
      else tell (Command.set_flag Flag.auto_white_balance c.auto_exposure) (
          tell (Command.set_flag Flag.auto_flicker c.auto_exposure)
            (tell (Command.set_flag Flag.auto_exposure c.auto_exposure) c))

  unfoldable pub apply_white_balance : Center → Center
  apply_white_balance c =
      if not c.has_dev
      then c
      else tell (Command.set_flag Flag.auto_white_balance c.auto_white_balance) c

  unfoldable pub apply_near_mode : Center → Center
  apply_near_mode c =
      if not c.has_dev then c else tell (Command.set_flag Flag.near_mode c.near_mode) c

  unfoldable pub apply_manual_exposure : Center → Center
  apply_manual_exposure c =
      if not c.has_dev
      then c
      else if not c.auto_exposure
      then tell (Command.set_exposure c.manual_exposure_us) c
      else c

  unfoldable pub apply_ir_brightness : Center → Center
  apply_ir_brightness c =
      let brightness = clamp (pos 1) (pos 50) c.ir_brightness in
      if not c.has_dev
      then c
      else tell (Command.set_ir_brightness brightness) (record c { ir_brightness = brightness })
