-- ===== src/V1Device/State.antt =====
-- `FreenectV1Device` of src/backends/freenect_v1_backend.cpp: a Kinect v1 as its driver sees it.
-- A method takes the device and returns it with the method's result. The mutex and the messages on
-- `std::cerr` are left out: callbacks run only inside `update`, on the same thread.
use Prim.Native.String.{String}
use text.Mathlib.Text.{starts_with}
use mac_kinect_native.Base.{ℕ, ◌*◌, Bool, false, []}
use mac_kinect_native.Base.Int.{ℤ}
use mac_kinect_native.Backend.{StreamKind, FrameData, empty_frame}
use mac_kinect_native.V1Device.Calls.{Log}

abbrev pub k_width : ℕ
k_width = 640

abbrev pub k_height : ℕ
k_height = 480

abbrev pub k_pixel_count : ℕ
k_pixel_count = k_width * k_height

-- `audio_level_` is the root of `energy / samples`, divided by 32768; it starts at 0.
pub record AudioLevel : Type 0 where
  pub energy : ℕ
  pub samples : ℕ

pub record Device : Type 0 where
  pub has_ctx : Bool
  pub has_dev : Bool
  pub index : ℤ
  pub serial : String
  pub audio_supported : Bool
  pub running : Bool
  pub depth_started : Bool
  pub video_started : Bool
  pub audio_started : Bool
  pub audio_enabled : Bool
  pub requested_stream : StreamKind
  pub active_stream : StreamKind
  pub frame : FrameData
  pub has_new_frame : Bool
  pub audio_level : AudioLevel
  -- The calls made so far; no field of the source.
  pub log : Log

unfoldable pub new_device : Bool → ℤ → String → Bool → Device
new_device ctx index serial audio_supported = record {
  has_ctx = ctx;
  has_dev = false;
  index = index;
  serial = serial;
  audio_supported = audio_supported;
  running = false;
  depth_started = false;
  video_started = false;
  audio_started = false;
  audio_enabled = false;
  requested_stream = StreamKind.rgb;
  active_stream = StreamKind.rgb;
  frame = empty_frame;
  has_new_frame = false;
  audio_level = record { energy = 0; samples = 1 };
  log = [];
}

unfoldable pub is_synthetic_index_serial : String → Bool
is_synthetic_index_serial serial = starts_with serial "DeviceIndex-"
