-- ===== src/Center/Closing.antt =====
-- How src/control_center_v1.cpp leaves the device and its streams when its thread ends.
use mac_kinect_native.Base.{ℕ, suc, ◌≡◌, ◌∙◌, refl, Bool, true, false, List, [], ◌∷◌, arith}
use mac_kinect_native.Base.Tests.{if◌then◌else◌}
use mac_kinect_native.Base.Int.{ℤ, pos, negsuc, clamp, ◌+ℤ◌}
use mac_kinect_native.V1Device.Calls.{Rc, failure}
use mac_kinect_native.Center.Settings.{
  Command, Commands, Freenect, Center, initial_center, apply_tilt, apply_mirror,
  apply_auto_exposure_bundle, apply_white_balance, apply_near_mode, apply_manual_exposure,
  apply_ir_brightness,
}
use mac_kinect_native.Center.Thread.{
  start_or_die, start_audio_stream, apply_all, register_all, thread_setup, change_video_format,
  change_depth_format, thread_finish,
}
use mac_kinect_native.Center.Keys.{
  shutdown_and_exit, add_tilt, center_tilt, cycle_video, cycle_depth, toggle_mirror,
  toggle_auto_exposure, toggle_white_balance, add_exposure, add_brightness, choose_led, key_pressed,
}
use mac_kinect_native.Center.Ranges.{take_steps-InRange}
use mac_kinect_native.Center.Steps.{Step, take_step, started_center, center_after}
use mac_kinect_native.Center.StepRule.{IsKept, take_steps_kept}

-- What the commands left open: a stream that started without failure is open until it is stopped.
pub record Open : Type 0 where
  pub depth_open : Bool
  pub video_open : Bool
  pub audio_open : Bool
  pub closes : ℕ
  pub shutdowns : ℕ

unfoldable pub effect : Command → Rc → Open → Open
effect Command.start_depth failure o = o
effect Command.start_depth _ o = record o { depth_open = true }
effect Command.start_video failure o = o
effect Command.start_video _ o = record o { video_open = true }
effect Command.start_audio failure o = o
effect Command.start_audio _ o = record o { audio_open = true }
effect Command.stop_depth _ o = record o { depth_open = false }
effect Command.stop_video _ o = record o { video_open = false }
effect Command.stop_audio _ o = record o { audio_open = false }
effect Command.close_device _ o = record o { closes = suc o.closes }
effect Command.shutdown _ o = record o { shutdowns = suc o.shutdowns }
effect _ _ o = o

unfoldable pub left_open : Commands → Open
unfolding effect
left_open [] = record {
  depth_open = false;
  video_open = false;
  audio_open = false;
  closes = 0;
  shutdowns = 0;
}
left_open ((m, rc) ∷ commands) = effect m rc (left_open commands)

-- How often something has happened that the end of the thread does once.
abbrev pub once_ended : Center → ℕ
once_ended c = if c.thread_ended then 1 else 0

pub record IsTidy (c : Center) : Type 0 where
  pub closed : (left_open c.commands).closes ≡ once_ended c
  pub shut_down : (left_open c.commands).shutdowns ≡ once_ended c
  pub audio_flag :
      c.thread_ended ≡ false → (left_open c.commands).audio_open ≡ c.audio_stream_available
  pub depth_stopped : c.thread_ended ≡ true → (left_open c.commands).depth_open ≡ false
  pub video_stopped : c.thread_ended ≡ true → (left_open c.commands).video_open ≡ false
  pub audio_stopped : c.thread_ended ≡ true → (left_open c.commands).audio_open ≡ false
  pub ended_first : c.exited ≡ true → c.thread_ended ≡ true

module _ (lib : Freenect) where
  add_tilt-IsTidy : (up : Bool) (c : Center) → IsTidy c → IsTidy (add_tilt lib up c)
  unfolding add_tilt apply_tilt left_open effect
  add_tilt-IsTidy up c h = ground arith

  toggle_auto_exposure-IsTidy : (c : Center) → IsTidy c → IsTidy (toggle_auto_exposure lib c)
  unfolding toggle_auto_exposure apply_auto_exposure_bundle apply_manual_exposure left_open effect
  toggle_auto_exposure-IsTidy c h = ground arith

  thread_finish-IsTidy :
      (c : Center) → c.thread_ended ≡ false → IsTidy c → IsTidy (thread_finish lib c)
  unfolding thread_finish left_open effect
  thread_finish-IsTidy c runs h = ground arith

  shutdown_and_exit-IsTidy :
      (c : Center) → c.exited ≡ false → IsTidy c → IsTidy (shutdown_and_exit lib c)
  unfolding shutdown_and_exit thread_finish left_open effect
  shutdown_and_exit-IsTidy c here h = ground arith

  change_video_format-IsTidy :
      (c : Center) → c.thread_ended ≡ false → IsTidy c → IsTidy (change_video_format lib c)
  unfolding change_video_format left_open effect
  change_video_format-IsTidy c runs h = ground arith

  started-IsTidy : IsTidy (started_center lib)
  unfolding started_center thread_setup initial_center apply_all register_all start_or_die
      start_audio_stream apply_mirror apply_auto_exposure_bundle apply_white_balance apply_near_mode
      apply_manual_exposure apply_ir_brightness left_open effect
  started-IsTidy = ground arith

  change_depth_format-IsTidy :
      (c : Center) → c.thread_ended ≡ false → IsTidy c → IsTidy (change_depth_format lib c)
  unfolding change_depth_format left_open effect
  change_depth_format-IsTidy c runs h = ground arith

  center-IsKept : IsKept lib IsTidy
  unfolding center_tilt apply_tilt cycle_video cycle_depth toggle_mirror apply_mirror
      toggle_white_balance apply_white_balance add_exposure apply_manual_exposure add_brightness
      apply_ir_brightness choose_led left_open effect
  center-IsKept = record {
    exit = shutdown_and_exit-IsTidy;
    tilt = add_tilt-IsTidy;
    centered = λ c h. ground arith;
    video = λ c h. ground arith;
    depth = λ c h. ground arith;
    mirrored = λ c h. ground arith;
    auto_exposed = toggle_auto_exposure-IsTidy;
    balanced = λ c h. ground arith;
    exposed = λ up c h. ground arith;
    brightened = λ up c h. ground arith;
    lit = λ led c h. ground arith;
    said = λ s c h. ground arith;
    processed = λ c h. ground arith;
    video_changed = change_video_format-IsTidy;
    depth_changed = change_depth_format-IsTidy;
    finished = thread_finish-IsTidy;
  }

  -- Whatever the library answers, after any keys and rounds of the thread: the device has been
  -- closed and the library shut down exactly once if the thread has ended, and not at all before;
  -- when it has ended, every stream that had started was stopped; and the program does not exit
  -- before the thread has ended.
  pub take_steps-IsTidy : (steps : List Step) → IsTidy (center_after lib steps)
  take_steps-IsTidy steps =
      take_steps_kept lib IsTidy center-IsKept steps (started_center lib) started-IsTidy

  -- A fault: once the thread has ended without an exit (a failed event processing ends it), the
  -- device has been closed, and the key `w` still sends a tilt to it: the handle is never reset.
  pub tilt_after_close :
      (steps : List Step)
      → (center_after lib steps).thread_ended ≡ true
      → (center_after lib steps).exited ≡ false
      → let c = center_after lib steps in
        ((left_open c.commands).closes ≡ 1)
        × ((angle : ℤ) × (rc : Rc) × ((take_step lib (Step.presses b'w') c).commands
              ≡ (Command.set_tilt_degs angle, rc) ∷ c.commands))
  unfolding take_step key_pressed add_tilt apply_tilt
  tilt_after_close steps ended here =
      let c = center_after lib steps in
      let closed = (take_steps-IsTidy steps).closed in
      let dev = (take_steps-InRange lib steps).dev in
      let angle = clamp (negsuc 29) (pos 30) (c.freenect_angle +ℤ pos 2) in
      (
        closed ∙ rw ended refl,
        (angle, lib.answer c.commands (Command.set_tilt_degs angle), rw (here, dev) refl),
      )
