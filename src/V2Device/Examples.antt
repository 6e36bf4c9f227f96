-- ===== src/V2Device/Examples.antt =====
-- The theorems on a Kinect v2 device at a concrete library and calls.
use mac_kinect_native.Base.{ℕ, ◌-◌, ◌*◌, ◌/◌, ◌%◌, ◌≡◌, true, none, some, List, [], ◌∷◌}
use mac_kinect_native.Base.Tests.{ltb, if◌then◌else◌}
use mac_kinect_native.Base.Int.{pos}
use mac_kinect_native.Backend.{StreamKind}
use mac_kinect_native.Float32.{Float32}
use mac_kinect_native.V2Device.State.{Freenect2, new_device}
use mac_kinect_native.V2Device.Methods.{Method, get_frame, destroy, device_after}
use mac_kinect_native.V2Device.WholeFrames.{IsWholeIf, get_frame-IsWhole}
use mac_kinect_native.V2Device.Balance.{Phase, replay, phase_of, device_after-replay}
use mac_kinect_native.V2Device.Backends.{Context, open_device}
use mac_kinect_native.V2Device.Previews.{IsReportedIf, preview_opened-IsReported}

-- A processor that only knows whole numbers.
abbrev whole : Float32
whole = record {
  Float = ℕ;
  literal = λ n. n;
  from_uint16 = λ n. n;
  sub = λ a b. a - b;
  mul = λ a b. a * b;
  div = λ a b. a / b;
  fmod = λ a b. a % b;
  abs = λ a. a;
  is_less = ltb;
  to_uint8 = λ a. a % 256;
  to_uint16 = λ a. a % 65536;
}

-- Each wait brings a color frame of 2 by 1 and a depth frame of 1 by 1.
abbrev willing : Freenect2 whole
willing = record {
  open_answer = λ log serial. true;
  start_answer = λ log. true;
  new_frames = λ log. some (record {
    color = some (record { width = 2; height = 1; timestamp = 7; pixels = λ i. i });
    depth = some (record { width = 1; height = 1; timestamp = 8; pixels = λ i. 70000 });
    ir = none;
  });
}

abbrev session : List Method
session = Method.starts ∷ Method.updates ∷ Method.sets_stream StreamKind.depth ∷ Method.updates ∷ []

get_frame-IsWhole_example :
    IsWholeIf (get_frame (device_after whole willing (new_device true "V2") session)).1
get_frame-IsWhole_example = get_frame-IsWhole whole willing true "V2" session

device_after-replay_example :
    let d = device_after whole willing (new_device true "V2") session in
    (replay d.log ≡ some (phase_of d))
    × (replay (destroy whole willing d).log ≡ some (if d.has_dev then Phase.gone else Phase.closed))
device_after-replay_example = device_after-replay whole willing true "V2" session

abbrev one_device : Context whole
one_device = record { device_count = pos 1; device_serial = λ i. "V2"; library = willing }

preview_opened-IsReported_example :
    IsReportedIf whole one_device 3 (open_device whole one_device "V2")
preview_opened-IsReported_example = preview_opened-IsReported whole one_device 3 "V2"
