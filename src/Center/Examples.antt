-- ===== src/Center/Examples.antt =====
-- The theorems on src/control_center_v1.cpp at concrete libraries, keys and frames.

use mac_kinect_native.Base.{
  none, ℕ, ◌-◌, ◌*◌, ◌/◌, ◌%◌, ◌≡◌, refl, true, false, some, List, [], ◌∷◌, arith,
}
use mac_kinect_native.Base.Tests.{ltb}
use mac_kinect_native.Base.Int.{pos, ℤ}
use mac_kinect_native.Float32.{Float32}
use mac_kinect_native.V1Device.Calls.{Rc, success, failure}
use mac_kinect_native.Center.Formats.{VideoFormat}
use mac_kinect_native.Center.Main.{
  MainAnswers, IsReleased, run_main, all_good, device_index, run_main-IsReleased,
}
use mac_kinect_native.Center.Buffers.{Display, allocated, DisplayEvent, run_display, freed_buffers}
use mac_kinect_native.Center.LatestFrame.{view, run_screen, IsSeparate, run_display-view}
use mac_kinect_native.Center.Freed.{freed_buffers-Perm}
use mac_kinect_native.Center.Settings.{
  Command, Commands, Freenect, Center, initial_center, apply_mirror, apply_auto_exposure_bundle,
  apply_white_balance, apply_near_mode, apply_manual_exposure, apply_ir_brightness,
}
use mac_kinect_native.Center.Keys.{escape}
use mac_kinect_native.Center.Thread.{
  start_or_die, start_audio_stream, apply_all, register_all, thread_finish, thread_round,
  thread_setup,
}
use mac_kinect_native.Center.Steps.{Step, take_step, take_steps, started_center, center_after}
use mac_kinect_native.Center.Ranges.{InRange, take_steps-InRange}
use mac_kinect_native.Center.Closing.{IsTidy, left_open, take_steps-IsTidy, tilt_after_close}
use mac_kinect_native.Center.FormatChange.{IsSettled, thread_round-IsSettled}
use mac_kinect_native.Center.Captures.Save.{Stream}
use mathlib.Core.Option.{map}
use mathlib.Core.List.{Perm}

-- A processor that only knows whole numbers.
abbrev whole : Float32
whole = record {
  Float = ℕ;
  literal = λ n. n;
  from_uint16 = λ n. n;
  sub = λ a b. a - b;
  mul = λ a b. a * b;
  div = λ a b. a / b;
  fmod = λ a b. a % b;
  abs = λ a. a;
  is_less = ltb;
  to_uint8 = λ a. a % 256;
  to_uint16 = λ a. a % 65536;
}

abbrev buffers : Display
buffers = allocated 1 2 3 4 5 6 7

buffers-IsSeparate : IsSeparate buffers
unfolding allocated
buffers-IsSeparate = ground arith

-- Two color frames before a drawing, a partial frame, and a depth frame.
abbrev frames : List DisplayEvent
frames =
    DisplayEvent.completes_color VideoFormat.rgb (1 ∷ [])
    ∷ DisplayEvent.completes_color VideoFormat.yuv_rgb (2 ∷ [])
    ∷ DisplayEvent.receives (3 ∷ [])
    ∷ DisplayEvent.draws
    ∷ DisplayEvent.completes_depth (λ i. i)
    ∷ DisplayEvent.sets_video_buffer
    ∷ DisplayEvent.draws
    ∷ []

run_display-view_example :
    map view (run_display whole frames buffers) ≡ some (run_screen whole frames (view buffers))
run_display-view_example = run_display-view whole frames buffers buffers-IsSeparate

freed_buffers-Perm_example :
    (d' : Display) × (run_display whole frames buffers ≡ some d')
    × Perm (freed_buffers d') (freed_buffers buffers)
freed_buffers-Perm_example = freed_buffers-Perm whole frames buffers buffers-IsSeparate

-- Every call succeeds, or all but the processing of events.
abbrev willing : Freenect
willing = record {
  answer = λ commands m. success;
  video_is_valid = λ f. true;
  depth_is_valid = λ f. true;
}

abbrev unplugged_answer : Commands → Command → Rc
unplugged_answer commands Command.process_events_timeout = failure
unplugged_answer commands _ = success

abbrev unplugged : Freenect
unplugged = record willing { answer = unplugged_answer }

abbrev session : List Step
session =
    Step.presses b'w'
    ∷ Step.presses b'v'
    ∷ Step.rounds
    ∷ Step.presses b'e'
    ∷ Step.presses b'['
    ∷ Step.presses b'6'
    ∷ Step.presses escape
    ∷ []

take_steps-InRange_example : InRange (center_after willing session)
take_steps-InRange_example = take_steps-InRange willing session

take_steps-IsTidy_example : IsTidy (center_after willing session)
take_steps-IsTidy_example = take_steps-IsTidy willing session

abbrev unplugged_steps : List Step
unplugged_steps = Step.rounds ∷ []

unplugged_ended : (center_after unplugged unplugged_steps).thread_ended ≡ true
unfolding take_steps take_step started_center thread_setup initial_center apply_all register_all
    start_or_die start_audio_stream apply_mirror apply_auto_exposure_bundle apply_white_balance
    apply_near_mode apply_manual_exposure apply_ir_brightness thread_round thread_finish
unplugged_ended = refl

unplugged_runs : (center_after unplugged unplugged_steps).exited ≡ false
unfolding take_steps take_step started_center thread_setup initial_center apply_all register_all
    start_or_die start_audio_stream apply_mirror apply_auto_exposure_bundle apply_white_balance
    apply_near_mode apply_manual_exposure apply_ir_brightness thread_round thread_finish
unplugged_runs = refl

tilt_after_close_example :
    ((left_open (center_after unplugged unplugged_steps).commands).closes ≡ 1)
    × ((angle : ℤ) × (rc : Rc) × ((take_step unplugged
            (Step.presses b'w')
            (center_after unplugged unplugged_steps)).commands
          ≡ (Command.set_tilt_degs angle, rc) ∷ (center_after unplugged unplugged_steps).commands))
tilt_after_close_example = tilt_after_close unplugged unplugged_steps unplugged_ended unplugged_runs

abbrev asking : Center
asking = record initial_center { requested_video_format = VideoFormat.yuv_rgb }

asking_runs : asking.die ≡ false
unfolding initial_center
asking_runs = refl

thread_round-IsSettled_example : IsSettled willing asking (thread_round willing asking)
thread_round-IsSettled_example = thread_round-IsSettled willing asking asking_runs refl

-- The space of the camera as it is, and a capture of the cleared buffers.
abbrev flat : ℕ → ℕ → ℕ → ℕ × ℕ
flat x y d = (x, y)

abbrev opening : Stream
opening = record { is_open = true; good = true }

-- The second of two devices, whose thread is not made.
abbrev no_thread : MainAnswers
no_thread = record {
  buffers_made = true;
  inited = true;
  device_count = pos 2;
  opens_well = true;
  attributes = record { count = pos 2; nodes = some (none ∷ some "A002" ∷ []) };
  thread_made = false;
}

run_main-IsReleased_example :
    IsReleased (run_main no_thread (some "1"))
    × ((run_main no_thread (some "1")).goes_on ≡ all_good no_thread (device_index (some "1")))
run_main-IsReleased_example = run_main-IsReleased no_thread (some "1")
