-- ===== src/Center/Steps.antt =====
-- The threads of src/control_center_v1.cpp together: keys on the one, rounds of the loop on the
-- other, in any order. A key and a round are taken as whole steps; the code has no lock on the
-- settings.
use mac_kinect_native.Base.{ℕ, List, [], ◌∷◌}
use mac_kinect_native.Base.Tests.{if◌then◌else◌}
use mac_kinect_native.Center.Settings.{Freenect, Center, initial_center}
use mac_kinect_native.Center.Thread.{thread_setup, thread_round}
use mac_kinect_native.Center.Keys.{key_pressed}

pub data Step : Type 0 where
  presses : ℕ → Step
  rounds : Step

module _ (lib : Freenect) where
  -- Nothing happens once the program has exited, and no round once the thread has ended.
  unfoldable pub take_step : Step → Center → Center
  unfolding key_pressed thread_round
  take_step (Step.presses key) c = if c.exited then c else (key_pressed lib key c).0
  take_step Step.rounds c = if c.exited then c else if c.thread_ended then c else thread_round lib c

  unfoldable pub take_steps : List Step → Center → Center
  unfolding take_step
  take_steps [] c = c
  take_steps (s ∷ steps) c = take_steps steps (take_step s c)

  -- The program when the thread enters its loop.
  unfoldable pub started_center : Center
  unfolding thread_setup initial_center
  started_center = thread_setup lib initial_center

  -- The program after these steps.
  abbrev pub center_after : List Step → Center
  center_after steps = take_steps steps started_center
