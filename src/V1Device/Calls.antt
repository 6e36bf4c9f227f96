-- ===== src/V1Device/Calls.antt =====
-- The libfreenect calls that src/backends/freenect_v1_backend.cpp makes on one device, as a log.
-- libfreenect is a parameter: what it answers may depend on all the calls that came before.
use Prim.Native.String.{String}
use mac_kinect_native.Base.{ℕ, Bool, true, false, Option, List, [], ◌∷◌}
use mac_kinect_native.Base.Int.{ℤ}

-- An `int` return code, as far as the code tests it: `< 0`, `== 0`, or neither.
pub data Rc : Type 0 where
  failure success positive : Rc

abbrev pub is_failure : Rc → Bool
is_failure failure = true
is_failure _ = false

abbrev pub is_success : Rc → Bool
is_success success = true
is_success _ = false

pub data VideoFormat : Type 0 where
  video_rgb video_ir_8bit : VideoFormat

pub data Flag : Type 0 where
  mirror_depth mirror_video auto_exposure auto_flicker auto_white_balance near_mode : Flag

pub data Call : Type 0 where
  open_device_by_camera_serial : String → Call
  open_device : ℤ → Call
  set_user set_depth_callback set_video_callback set_audio_in_callback : Call
  set_depth_mode : Call
  set_video_mode : VideoFormat → Call
  start_depth stop_depth start_video stop_video start_audio stop_audio : Call
  process_events_timeout : ℕ → Call
  set_tilt_degs : ℤ → Call
  set_led : ℤ → Call
  set_flag : Flag → Bool → Call
  set_exposure : ℤ → Call
  set_ir_brightness : ℤ → Call
  close_device : Call

-- The newest call first, each with what it returned.
abbrev pub Log : Type 0
Log = List (Call × Rc)

-- A callback that the library runs while it processes events. A buffer is a pointer: `none` is null,
-- and `some p` has `p i` as its i-th element.
pub data Callback : Type 0 where
  depth_frame : Option (ℕ → ℕ) → ℕ → Callback
  video_frame : Option (ℕ → ℕ) → ℕ → Callback
  audio_frame : ℤ → Option (ℕ → ℤ) → Callback

pub record Library : Type 0 where
  pub answer : Log → Call → Rc
  pub gives_device : Log → Call → Bool
  pub delivers : Log → List Callback
  pub depth_mode_is_valid : Bool
  pub video_mode_is_valid : VideoFormat → Bool

-- The streams that are open on the device: each was started with success, and neither stopped since
-- nor closed with the device.
pub record Streams : Type 0 where
  pub depth_open : Bool
  pub video_open : Bool
  pub audio_open : Bool

abbrev pub all_closed : Streams
all_closed = record { depth_open = false; video_open = false; audio_open = false }

-- What one call does to the streams.
abbrev pub after : Call → Rc → Streams → Streams
after start_depth failure s = s
after start_depth _ s = record s { depth_open = true }
after stop_depth _ s = record s { depth_open = false }
after start_video failure s = s
after start_video _ s = record s { video_open = true }
after stop_video _ s = record s { video_open = false }
after start_audio success s = record s { audio_open = true }
after start_audio _ s = s
after stop_audio _ s = record s { audio_open = false }
after close_device _ s = all_closed
after _ _ s = s

unfoldable pub opened : Log → Streams
opened [] = all_closed
opened ((c, rc) ∷ log) = after c rc (opened log)
