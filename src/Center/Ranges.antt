-- ===== src/Center/Ranges.antt =====
-- The values that src/control_center_v1.cpp commands a Kinect to take, over any keys and rounds.
use mac_kinect_native.Base.{◌≡◌, Bool, true, List, arith}
use mac_kinect_native.Base.Lists.{All}
use mac_kinect_native.Base.Int.{pos, negsuc, ◌≤ℤ◌, clamp}
use mac_kinect_native.V1Device.Calls.{Rc}
use mac_kinect_native.Center.Formats.{VideoFormat, DepthFormat, Led}
use mac_kinect_native.Center.Settings.{
  Command, Freenect, Center, initial_center, apply_tilt, apply_mirror, apply_auto_exposure_bundle,
  apply_white_balance, apply_near_mode, apply_manual_exposure, apply_ir_brightness,
}
use mac_kinect_native.Center.Thread.{
  start_or_die, start_audio_stream, apply_all, register_all, thread_setup, change_video_format,
  change_depth_format, thread_finish,
}
use mac_kinect_native.Center.Keys.{
  shutdown_and_exit, add_tilt, center_tilt, cycle_video, cycle_depth, toggle_mirror,
  toggle_auto_exposure, toggle_white_balance, add_exposure, add_brightness, choose_led,
}
use mac_kinect_native.Center.StepRule.{IsKept, take_steps_kept}
use mac_kinect_native.Center.Steps.{Step, started_center, center_after}

abbrev pub IsColor : VideoFormat → Type 0
IsColor VideoFormat.rgb = Unit
IsColor VideoFormat.yuv_rgb = Unit
IsColor _ = ⊥

abbrev pub IsMillimeters : DepthFormat → Type 0
IsMillimeters DepthFormat.registered = Unit
IsMillimeters DepthFormat.mm = Unit
IsMillimeters _ = ⊥

-- The ranges of the hardware, and the formats whose images are in RGB and in millimeters.
abbrev pub IsSafeCommand : Command → Type 0
IsSafeCommand (Command.set_tilt_degs n) = (negsuc 29 ≤ℤ n) × (n ≤ℤ pos 30)
IsSafeCommand (Command.set_exposure n) = (pos 1000 ≤ℤ n) × (n ≤ℤ pos 200000)
IsSafeCommand (Command.set_ir_brightness n) = (pos 1 ≤ℤ n) × (n ≤ℤ pos 50)
IsSafeCommand (Command.set_video_mode f) = IsColor f
IsSafeCommand (Command.set_depth_mode f) = IsMillimeters f
IsSafeCommand _ = Unit

-- The settings are in range, and so is every command so far.
pub record InRange (c : Center) : Type 0 where
  pub dev : c.has_dev ≡ true
  pub tilt : (negsuc 29 ≤ℤ c.freenect_angle) × (c.freenect_angle ≤ℤ pos 30)
  pub exposure : (pos 1000 ≤ℤ c.manual_exposure_us) × (c.manual_exposure_us ≤ℤ pos 200000)
  pub brightness : (pos 1 ≤ℤ c.ir_brightness) × (c.ir_brightness ≤ℤ pos 50)
  pub requested_color : IsColor c.requested_video_format
  pub current_color : IsColor c.current_video_format
  pub requested_depth : IsMillimeters c.requested_depth_format
  pub current_depth : IsMillimeters c.current_depth_format
  pub safe : All (λ (e : Command × Rc). IsSafeCommand e.0) c.commands

module _ (lib : Freenect) where
  add_tilt-InRange : (up : Bool) (c : Center) → InRange c → InRange (add_tilt lib up c)
  unfolding add_tilt apply_tilt clamp
  add_tilt-InRange up c h = ground arith

  toggle_auto_exposure-InRange : (c : Center) → InRange c → InRange (toggle_auto_exposure lib c)
  unfolding toggle_auto_exposure apply_auto_exposure_bundle apply_manual_exposure
  toggle_auto_exposure-InRange c h = ground arith

  add_exposure-InRange : (up : Bool) (c : Center) → InRange c → InRange (add_exposure lib up c)
  unfolding add_exposure apply_manual_exposure
  add_exposure-InRange up c h = ground arith

  add_brightness-InRange : (up : Bool) (c : Center) → InRange c → InRange (add_brightness lib up c)
  unfolding add_brightness apply_ir_brightness clamp
  add_brightness-InRange up c h = ground arith

  choose_led-InRange : (led : Led) (c : Center) → InRange c → InRange (choose_led lib led c)
  unfolding choose_led
  choose_led-InRange led c h = ground arith

  center_tilt-InRange : (c : Center) → InRange c → InRange (center_tilt lib c)
  unfolding center_tilt apply_tilt clamp
  center_tilt-InRange c h = ground arith

  toggle_mirror-InRange : (c : Center) → InRange c → InRange (toggle_mirror lib c)
  unfolding toggle_mirror apply_mirror
  toggle_mirror-InRange c h = ground arith

  toggle_white_balance-InRange : (c : Center) → InRange c → InRange (toggle_white_balance lib c)
  unfolding toggle_white_balance apply_white_balance
  toggle_white_balance-InRange c h = ground arith

  thread_finish-InRange : (c : Center) → InRange c → InRange (thread_finish lib c)
  unfolding thread_finish
  thread_finish-InRange c h = ground arith

  shutdown_and_exit-InRange : (c : Center) → InRange c → InRange (shutdown_and_exit lib c)
  unfolding shutdown_and_exit thread_finish
  shutdown_and_exit-InRange c h = ground arith

  change_video_format-InRange : (c : Center) → InRange c → InRange (change_video_format lib c)
  unfolding change_video_format
  change_video_format-InRange c h = ground arith

  change_depth_format-InRange : (c : Center) → InRange c → InRange (change_depth_format lib c)
  unfolding change_depth_format
  change_depth_format-InRange c h = ground arith

  started-InRange : InRange (started_center lib)
  unfolding started_center thread_setup initial_center apply_all register_all start_or_die
      start_audio_stream apply_mirror apply_auto_exposure_bundle apply_white_balance apply_near_mode
      apply_manual_exposure apply_ir_brightness clamp
  started-InRange = ground arith

  center-IsKept : IsKept lib InRange
  unfolding cycle_video cycle_depth
  center-IsKept = record {
    exit = λ c _ h. shutdown_and_exit-InRange c h;
    tilt = add_tilt-InRange;
    centered = center_tilt-InRange;
    video = λ c h. ground arith;
    depth = λ c h. ground arith;
    mirrored = toggle_mirror-InRange;
    auto_exposed = toggle_auto_exposure-InRange;
    balanced = toggle_white_balance-InRange;
    exposed = add_exposure-InRange;
    brightened = add_brightness-InRange;
    lit = choose_led-InRange;
    said = λ s c h. ground arith;
    processed = λ c h. ground arith;
    video_changed = λ c _ h. change_video_format-InRange c h;
    depth_changed = λ c _ h. change_depth_format-InRange c h;
    finished = λ c _ h. thread_finish-InRange c h;
  }

  -- Whatever the library answers, after any keys and rounds of the thread, every command so far is
  -- in the range of the hardware: a tilt within 30 degrees, an exposure from 1000 to 200000
  -- microseconds, an IR brightness from 1 to 50, a video format in RGB and a depth format in
  -- millimeters. The settings that the next key starts from are in these ranges too.
  pub take_steps-InRange : (steps : List Step) → InRange (center_after lib steps)
  take_steps-InRange steps =
      take_steps_kept lib InRange center-IsKept steps (started_center lib) started-InRange
