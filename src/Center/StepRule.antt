-- ===== src/Center/StepRule.antt =====
-- A property of the settings of src/control_center_v1.cpp that every function which a key or a round
-- of the thread calls preserves.
use mac_kinect_native.Base.{◌≡◌, ◌∙◌, ℕ, Bool, true, false, List, [], ◌∷◌, arith}
use mac_kinect_native.Base.Tests.{if_rule}
use mac_kinect_native.V1Device.Calls.{is_failure}
use mac_kinect_native.Center.Formats.{Led}
use mac_kinect_native.Center.Settings.{Command, Freenect, Status, Center, set_status, ask}
use mac_kinect_native.Center.Thread.{
  change_video_format, change_depth_format, thread_finish, thread_round,
}
use mac_kinect_native.Center.Keys.{
  shutdown_and_exit, add_tilt, center_tilt, cycle_video, cycle_depth, toggle_mirror,
  toggle_auto_exposure, toggle_white_balance, add_exposure, add_brightness, choose_led,
  digit_pressed, key_pressed,
}
use mac_kinect_native.Center.Steps.{Step, take_step, take_steps}

pub change_video_format_runs :
    (lib : Freenect) (c : Center) → (change_video_format lib c).thread_ended ≡ c.thread_ended
unfolding change_video_format
change_video_format_runs lib c = ground arith

module _ (lib : Freenect) (P : Center → Type 0) where
  abbrev Kept : (Center → Center) → Type 0
  Kept f = (c : Center) → P c → P (f c)

  -- The same before the thread has ended.
  abbrev WhileRunning : (Center → Center) → Type 0
  WhileRunning f = (c : Center) → c.thread_ended ≡ false → P c → P (f c)

  pub record IsKept : Type 0 where
    pub exit : (c : Center) → c.exited ≡ false → P c → P (shutdown_and_exit lib c)
    pub tilt : (up : Bool) → Kept (add_tilt lib up)
    pub centered : Kept (center_tilt lib)
    pub video : Kept cycle_video
    pub depth : Kept cycle_depth
    pub mirrored : Kept (toggle_mirror lib)
    pub auto_exposed : Kept (toggle_auto_exposure lib)
    pub balanced : Kept (toggle_white_balance lib)
    pub exposed : (up : Bool) → Kept (add_exposure lib up)
    pub brightened : (up : Bool) → Kept (add_brightness lib up)
    pub lit : (led : Led) → Kept (choose_led lib led)
    pub said : (s : Status) → Kept (set_status s)
    pub processed : Kept (λ c. (ask lib Command.process_events_timeout c).0)
    pub video_changed : WhileRunning (change_video_format lib)
    pub depth_changed : WhileRunning (change_depth_format lib)
    pub finished : WhileRunning (thread_finish lib)

  module _ (k : IsKept) where
    digit_pressed_kept : (key : ℕ) (c : Center) → P c → P (digit_pressed lib key c)
    unfolding digit_pressed
    digit_pressed_kept key c h = ground (
      arith,
      k.lit Led.off c h,
      k.lit Led.green c h,
      k.lit Led.red c h,
      k.lit Led.yellow c h,
      k.lit Led.blink_green c h,
      k.lit Led.blink_red_yellow c h,
    )

    pub key_pressed_kept :
        (key : ℕ) (c : Center) → c.exited ≡ false → P c → P (key_pressed lib key c).0
    unfolding key_pressed
    key_pressed_kept key c here h = ground (
      arith,
      k.exit c here h,
      k.tilt true c h,
      k.tilt false c h,
      k.centered c h,
      k.video c h,
      k.depth c h,
      k.mirrored c h,
      k.auto_exposed c h,
      k.balanced c h,
      k.said Status.near_mode_not_supported c h,
      k.exposed false c h,
      k.exposed true c h,
      k.brightened false c h,
      k.brightened true c h,
      digit_pressed_kept key c h,
    )

    pub thread_round_kept : (c : Center) → c.thread_ended ≡ false → P c → P (thread_round lib c)
    unfolding thread_round
    thread_round_kept c runs h =
        let (c1, rc) = ask lib Command.process_events_timeout c in
        let h1 = k.processed c h in
        if_rule P c.die (thread_finish lib c) (λ _. k.finished c runs h)
          (λ _.
            if_rule P (is_failure rc) (thread_finish lib (set_status Status.processing_failed c1))
              (λ _. k.finished _ runs (k.said Status.processing_failed c1 h1))
              (λ _.
                k.depth_changed (change_video_format lib c1)
                  (change_video_format_runs lib c1 ∙ runs) (k.video_changed c1 runs h1)))

    take_step_kept : (s : Step) (c : Center) → P c → P (take_step lib s c)
    unfolding take_step
    take_step_kept (Step.presses key) c h =
        if_rule P c.exited _ (λ _. h) (λ here. key_pressed_kept key c here h)
    take_step_kept Step.rounds c h =
        if_rule P c.exited _ (λ _. h)
          (λ _. if_rule P c.thread_ended _ (λ _. h) (λ runs. thread_round_kept c runs h))

    pub take_steps_kept : (steps : List Step) (c : Center) → P c → P (take_steps lib steps c)
    unfolding take_steps
    take_steps_kept [] c h = h
    take_steps_kept (s ∷ steps) c h =
        take_steps_kept steps (take_step lib s c) (take_step_kept s c h)
