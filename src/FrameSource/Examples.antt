-- ===== src/FrameSource/Examples.antt =====
-- The theorem on the camera's frame source at a concrete Kinect v2 sensor.
use mac_kinect_native.Base.{
  arith, ℕ, ◌-◌, ◌*◌, ◌/◌, ◌%◌, ◌≡◌, refl, true, false, none, some, List, [], ◌∷◌,
}
use mac_kinect_native.Base.Tests.{ltb}
use mac_kinect_native.Base.Lists.{tabulate}
use mac_kinect_native.Base.Int.{pos}
use mac_kinect_native.Float32.{Float32}
use mac_kinect_native.V1Device.Calls.{Library, success}
use mac_kinect_native.V1Backend.Context.{Freenect1, ContextState}
use mac_kinect_native.V2Device.State.{Freenect2}
use mac_kinect_native.V2Device.Methods.{start, update, get_frame}
use mac_kinect_native.V2Device.Backends.{Context, probe, list_devices, open_device}
use mac_kinect_native.V2Device.FrameSizes.{DeliversSizes}
use mac_kinect_native.Dal.Pixels.{FitsInt}
use mac_kinect_native.FrameSource.Source.{
  FrameSource, next_rgb, SourceCall, call_sources, try_backend, next_image,
}
use mac_kinect_native.FrameSource.Devices.{v1_api, v2_api}
use mac_kinect_native.FrameSource.Drawn.{Shows, create_picture, source_after, create_picture-Shows}

-- No Kinect v1 is connected.
abbrev pub silent : Library
silent = record {
  answer = λ log c. success;
  gives_device = λ log c. false;
  delivers = λ log. [];
  depth_mode_is_valid = true;
  video_mode_is_valid = λ f. true;
}

abbrev pub no_devices : Freenect1
no_devices = record {
  count_answer = λ log. pos 0;
  attributes_answer = λ log. record { count = pos 0; nodes = none };
  device_library = λ log. silent;
}

abbrev pub ready : ContextState
ready = record { has_ctx = true; has_audio_firmware = true; log = [] }

-- A processor that only knows whole numbers.
abbrev pub whole : Float32
whole = record {
  Float = ℕ;
  literal = λ n. n;
  from_uint16 = λ n. n;
  sub = λ a b. a - b;
  mul = λ a b. a * b;
  div = λ a b. a / b;
  fmod = λ a b. a % b;
  abs = λ a. a;
  is_less = ltb;
  to_uint8 = λ a. a % 256;
  to_uint16 = λ a. a % 65536;
}

-- Each wait brings a color frame of 4 by 1.
abbrev willing : Freenect2 whole
willing = record {
  open_answer = λ log serial. true;
  start_answer = λ log. true;
  new_frames = λ log. some (record {
    color = some (record { width = 4; height = 1; timestamp = 7; pixels = λ i. i });
    depth = none;
    ir = none;
  });
}

abbrev pub one_device : Context whole
one_device = record { device_count = pos 1; device_serial = λ i. "V2"; library = willing }

abbrev calls : List SourceCall
calls = SourceCall.starts_source ∷ SourceCall.takes_rgb ∷ []

abbrev source : FrameSource (v1_api no_devices silent ready) (v2_api whole one_device)
source = source_after no_devices silent ready whole one_device calls

pub delivers_small : (Q : ℕ → ℕ → Type 0) → Q 4 1 → DeliversSizes Q whole willing
delivers_small Q q log = (q, tt, tt)

create_picture-Shows_example : Shows 5 (next_rgb _ _ source).1 (create_picture _ _ 5 6 source).1
create_picture-Shows_example =
    create_picture-Shows no_devices silent ready whole one_device calls 5 6 (
      delivers_small FitsInt
        (record { bytes = omega arith; wide = omega arith; high = omega arith }))

the_image :
    (next_rgb _ _ source).1 ≡ some (2 ∷ 1 ∷ 0 ∷ 6 ∷ 5 ∷ 4 ∷ 10 ∷ 9 ∷ 8 ∷ 14 ∷ 13 ∷ 12 ∷ [], 4, 1)
unfolding next_rgb call_sources try_backend probe list_devices tabulate open_device start next_image
    update get_frame
the_image = refl
