-- ===== src/FrameSource/Devices.antt =====
-- The Kinect v1 and v2 backends (src/backends) behind the interface of src/backends/backend.h, and
-- that their frames are sized.
use Prim.Native.String.{String}
use mac_kinect_native.Base.{ℕ, inl, inr, Bool, true, not, Option, none, some, arith}
use mac_kinect_native.Base.Tests.{if_rule}
use mac_kinect_native.Backend.{FrameData}
use mac_kinect_native.Base.Int.{ℤ}
use mac_kinect_native.Float32.{Float32}
use mac_kinect_native.V1Device.Calls.{Library}
use mac_kinect_native.V1Device.State.{
  k_width, k_height, Device as Device1, new_device as new_device1,
}
use mac_kinect_native.V1Device.Streaming.{
  start as start1, stop as stop1, destroy as destroy1, open_device as open_handle1,
}
use mac_kinect_native.V1Device.Controls.{set_stream_kind as set_stream_kind1}
use mac_kinect_native.V1Device.Frames.{update as update1, get_frame as get_frame1}
use mac_kinect_native.V1Device.Methods.{Method as Method1, call_method as call_method1}
use mac_kinect_native.V1Device.Shapes.{
  Shaped, call_method-Shaped, open_device-SameFrame, SameFrame-Shaped, new_device-Shaped,
}
use mac_kinect_native.V1Backend.Context.{Freenect1, ContextState, probe as probe1}
use mac_kinect_native.V1Backend.Serials.{list_devices as list_devices1}
use mac_kinect_native.V1Backend.Opening.{open_device as open_device1}
use mac_kinect_native.V1Backend.Opened.{HoldsOfResult, open_device_rule}
use mac_kinect_native.V2Device.State.{Device as Device2, new_device as new_device2}
use mac_kinect_native.V2Device.Methods.{
  get_frame as get_frame2, start as start2, stop as stop2, destroy as destroy2, update as update2,
  set_stream_kind as set_stream_kind2, open_handle as open_handle2,
}
use mac_kinect_native.V2Device.Backends.{
  Context, probe as probe2, list_devices as list_devices2, open_device as open_device2,
  is_empty_text,
}
use mac_kinect_native.V2Device.NewFrames.{
  NewHolds, HoldsOf, get_frame_keeps, get_frame_holds, update_keeps, start_keeps, open_handle_holds,
}
use mac_kinect_native.V2Device.WholeFrames.{IsWholeIf}
use mac_kinect_native.V2Device.FrameSizes.{DeliversSizes, IsWholeSized, all_sized}
use mac_kinect_native.FrameSource.Api.{KinectApi, IsRgbSized, IsDepthSized, HoldsIf, IsSizedApi}

-- The Kinect v1 backend in this state; libfreenect treats an opened device as this library.
abbrev pub v1_api : Freenect1 → Library → ContextState → KinectApi
v1_api lib device b0 = record {
  Backend = ContextState;
  Device = Device1;
  create = b0;
  probe = probe1 lib;
  list_devices = list_devices1 lib;
  open_device = open_device1 lib;
  set_stream_kind = set_stream_kind1;
  start = start1 device;
  stop = stop1 device;
  update = update1 device;
  get_frame = get_frame1;
  destroy = destroy1 device;
}

abbrev pub v2_api : (fl : Float32) → Context fl → KinectApi
v2_api fl ctx = record {
  Backend = Unit;
  Device = Device2;
  create = tt;
  probe = λ b. (b, probe2 fl ctx);
  list_devices = λ b. (b, list_devices2 fl ctx);
  open_device = λ serial b. (b, open_device2 fl ctx serial);
  set_stream_kind = set_stream_kind2;
  start = start2 fl ctx.library;
  stop = stop2 fl ctx.library;
  update = update2 fl ctx.library;
  get_frame = get_frame2;
  destroy = destroy2 fl ctx.library;
}

abbrev IsShaped : Device1 → Type 0
IsShaped d = Shaped d.frame d.has_new_frame

get_frame1_sized : (d : Device1) → IsShaped d → IsRgbSized (get_frame1 d).1
unfolding get_frame1
get_frame1_sized d h =
    if_rule {A = Device1 × Option FrameData} (λ r. IsRgbSized r.1) d.has_new_frame _
      (λ new. ground (arith, h.image.rgb_size, h.full new)) (λ _. tt)

get_frame1_deep : (d : Device1) → IsShaped d → IsDepthSized (get_frame1 d).1
unfolding get_frame1
get_frame1_deep d h =
    if_rule {A = Device1 × Option FrameData} (λ r. IsDepthSized r.1) d.has_new_frame _
      (λ new. ground (arith, h.image.depth_size, h.full new)) (λ _. tt)

get_frame2_deep : (f : Option FrameData) → IsWholeIf f → IsDepthSized f
get_frame2_deep none h = tt
get_frame2_deep (some f) h = elim h.one_image [
  | inl color ↦ inl color.1
  | inr (inl deep) ↦ inr deep.1
  | inr (inr infrared) ↦ inl infrared.1
]

get_frame2_sized : (f : Option FrameData) → IsWholeIf f → IsRgbSized f
get_frame2_sized none h = tt
get_frame2_sized (some f) h = elim h.one_image [
  | inl color ↦ inr color.0
  | inr (inl deep) ↦ inl deep.0
  | inr (inr infrared) ↦ inl infrared.0
]

opened1_sized :
    (lib : Freenect1) (serial : String) (r : ContextState × Option Device1)
    → HoldsOfResult lib IsShaped serial r
    → HoldsIf IsShaped r.1
opened1_sized lib serial (b, none) h = tt
opened1_sized lib serial (b, some d) h = h

opened1_IsShaped :
    (l : Library) (serial : String) (index : ℤ) (audio : Bool)
    → IsShaped (open_handle1 l (new_device1 true index serial audio)).0
opened1_IsShaped l serial index audio =
    SameFrame-Shaped (open_device-SameFrame l (new_device1 true index serial audio))
      (new_device-Shaped true index serial audio)

get_frame1_size :
    (Q : ℕ → ℕ → Type 0) (d : Device1)
    → Q k_width k_height
    → IsShaped d
    → HoldsIf (λ (f : FrameData). Q f.width f.height) (get_frame1 d).1
unfolding get_frame1
get_frame1_size Q d q h =
    if_rule {A = Device1 × Option FrameData}
      (λ r. HoldsIf (λ (f : FrameData). Q f.width f.height) r.1) d.has_new_frame _
      (λ new. rw ((h.full new).width_set, (h.full new).height_set) q) (λ _. tt)

pub v1_api-IsSized :
    (Q : ℕ → ℕ → Type 0) (lib : Freenect1) (device : Library) (b0 : ContextState)
    → Q k_width k_height
    → IsSizedApi Q (v1_api lib device b0)
unfolding call_method1
v1_api-IsSized Q lib device b0 q = record {
  Good = IsShaped;
  opened = λ serial b.
      opened1_sized lib serial (open_device1 lib serial b)
        (open_device_rule lib IsShaped serial (λ l. opened1_IsShaped l serial) b);
  kind_set = λ kind d h. call_method-Shaped device (Method1.sets_stream kind) d h;
  started = λ d h. call_method-Shaped device Method1.starts d h;
  updated = λ d h. call_method-Shaped device Method1.updates d h;
  taken = λ d h. call_method-Shaped device Method1.gets_frame d h;
  rgb_sized = get_frame1_sized;
  depth_sized = get_frame1_deep;
  size_holds = λ d h. get_frame1_size Q d q h;
}

whole_of_sized :
    (Q : ℕ → ℕ → Type 0) (f : Option FrameData) → HoldsOf (IsWholeSized Q) f → IsWholeIf f
whole_of_sized Q none h = tt
whole_of_sized Q (some f) h = h.0

size_of_sized :
    (Q : ℕ → ℕ → Type 0) (f : Option FrameData)
    → HoldsOf (IsWholeSized Q) f
    → HoldsIf (λ (f : FrameData). Q f.width f.height) f
size_of_sized Q none h = tt
size_of_sized Q (some f) h = h.1

module _ (Q : ℕ → ℕ → Type 0) (fl : Float32) (ctx : Context fl)
    (delivers : DeliversSizes Q fl ctx.library) where
  abbrev IsReady : Device2 → Type 0
  IsReady = NewHolds (IsWholeSized Q)

  open_device2_ready : (serial : String) → HoldsIf IsReady (open_device2 fl ctx serial)
  unfolding open_device2
  open_device2_ready serial =
      let (d, opened) = open_handle2 fl ctx.library (new_device2 true serial) in
      if_rule {A = Option Device2} (HoldsIf IsReady) (is_empty_text serial) none (λ _. tt)
        (λ _.
          if_rule {A = Option Device2} (HoldsIf IsReady) (not opened) none {y = some d} (λ _. tt)
            (λ _.
              open_handle_holds fl ctx.library (IsWholeSized Q)
                (all_sized Q fl ctx.library delivers) true serial))

  pub v2_api-IsSized : IsSizedApi Q (v2_api fl ctx)
  v2_api-IsSized =
      let all = all_sized Q fl ctx.library delivers in
      let frame = λ (d : Device2) (h : IsReady d). get_frame_holds (IsWholeSized Q) d h in
      record {
        Good = IsReady;
        opened = λ serial b. open_device2_ready serial;
        kind_set = λ kind d h. h;
        started = start_keeps fl ctx.library (IsWholeSized Q) all;
        updated = update_keeps fl ctx.library (IsWholeSized Q) all;
        taken = get_frame_keeps (IsWholeSized Q);
        rgb_sized = λ d h. get_frame2_sized (get_frame2 d).1 (whole_of_sized Q _ (frame d h));
        depth_sized = λ d h. get_frame2_deep (get_frame2 d).1 (whole_of_sized Q _ (frame d h));
        size_holds = λ d h. size_of_sized Q (get_frame2 d).1 (frame d h);
      }
