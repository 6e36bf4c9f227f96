-- ===== src/V2Device/State.antt =====
-- A `FreenectV2Device` of src/backends/freenect_v2_backend.cpp and the calls of libfreenect2 that it
-- makes, as a log. libfreenect2 is a parameter: what it answers may depend on all the calls that came
-- before.
use Prim.Native.String.{String}
use mac_kinect_native.Base.{ℕ, Bool, false, Option, List, []}
use mac_kinect_native.Backend.{StreamKind, FrameData, empty_frame}
use mac_kinect_native.Float32.{Float32}

-- A frame of libfreenect2: a pointer has `pixels i` as its i-th element. Its width and height fit an
-- `int`.
pub record RawFrame (Sample : Type 0) : Type 0 where
  pub width : ℕ
  pub height : ℕ
  pub timestamp : ℕ
  pub pixels : ℕ → Sample

-- The frames that arrived together; a kind that did not arrive is `none`.
pub record FrameMap (fl : Float32) : Type 0 where
  pub color : Option (RawFrame ℕ)
  pub depth : Option (RawFrame fl.Float)
  pub ir : Option (RawFrame fl.Float)

pub data DeviceCall : Type 0 where
  opens : String → DeviceCall
  sets_color_listener : DeviceCall
  sets_depth_listener : DeviceCall
  starts_device : DeviceCall
  stops_device : DeviceCall
  closes : DeviceCall
  -- The wait gave frames, or it timed out.
  gets_frames : DeviceCall
  times_out : DeviceCall
  releases : DeviceCall

-- The newest call first, and whether it succeeded.
abbrev pub DeviceLog : Type 0
DeviceLog = List (DeviceCall × Bool)

pub record Freenect2 (fl : Float32) : Type 0 where
  pub open_answer : DeviceLog → String → Bool
  pub start_answer : DeviceLog → Bool
  pub new_frames : DeviceLog → Option (FrameMap fl)

pub record Device : Type 0 where
  pub has_ctx : Bool
  pub serial : String
  pub has_dev : Bool
  pub frame : FrameData
  pub has_new_frame : Bool
  pub running : Bool
  pub selected_stream : StreamKind
  -- No field of the source.
  pub log : DeviceLog

unfoldable pub new_device : Bool → String → Device
new_device ctx serial = record {
  has_ctx = ctx;
  serial = serial;
  has_dev = false;
  frame = empty_frame;
  has_new_frame = false;
  running = false;
  selected_stream = StreamKind.rgb;
  log = [];
}
