-- ===== src/V1Backend/Previews.antt =====
-- `FreenectV1Backend::preview` of src/backends/freenect_v1_backend.cpp: what it counts and leaves.
use Prim.Native.String.{String}
use mac_kinect_native.Base.{
  ℕ, zero, suc, ◌+◌, ◌≤◌, ◌≡◌, refl, Bool, true, false, not, Option, none, some, List, [], ◌∷◌,
  arith, inl, inr,
}
use mac_kinect_native.Base.Tests.{ltb, if◌then◌else◌, if_rule, Bool-cases}
use mac_kinect_native.Base.Int.{ℤ}
use mac_kinect_native.Backend.{FrameData, DeviceInfo, PreviewResult}
use mac_kinect_native.V1Device.Calls.{Library, all_closed, opened}
use mac_kinect_native.V1Device.State.{Device, new_device}
use mac_kinect_native.V1Device.Streaming.{start, stop, destroy, open_device as open_handle}
use mac_kinect_native.V1Device.Frames.{get_frame, update}
use mac_kinect_native.V1Device.Methods.{Method, call_method, call_methods}
use mac_kinect_native.V1Device.Invariant.{Inv, start-Inv, stop-Inv}
use mac_kinect_native.V1Device.Reachable.{call_method-Inv, opened_device-Inv}
use mac_kinect_native.V1Device.Lifecycle.{destroy_closes}
use mac_kinect_native.V1Device.Preview.{
  Counts, count_frame, preview_round, preview_rounds, preview as preview_device,
}
use mac_kinect_native.V1Backend.Context.{Freenect1, ContextState}
use mac_kinect_native.V1Backend.Serials.{list_devices}
use mac_kinect_native.V1Backend.Opening.{open_device}
use mac_kinect_native.V1Backend.Opened.{HoldsOfResult, open_device_rule}

-- A preview that ends before its loop.
abbrev no_preview : String → PreviewResult
no_preview detail = record { success = false; detail = detail; color_frames = 0; depth_frames = 0 }

unfoldable pub result_of : Option (Bool × Counts) → PreviewResult
result_of none = no_preview "Could not start Kinect v1 preview."
result_of (some (success, n)) = record {
  success = success;
  detail = if success then "Preview captured." else "No frames captured.";
  color_frames = n.color_frames;
  depth_frames = n.depth_frames;
}

-- libfreenect treats the opened device as this library.
module _ (lib : Freenect1) (device : Library) (rounds : ℕ) where
  -- With the device as its destructor leaves it.
  unfoldable pub preview_if_open : Option Device → Option Device × PreviewResult
  unfolding result_of
  preview_if_open none = (none, result_of none)
  preview_if_open (some d) =
      let (d1, result) = preview_device device rounds d in
      (some (destroy device d1), result_of result)

  unfoldable pub preview_front :
      ContextState → List DeviceInfo → ContextState × (Option Device × PreviewResult)
  unfolding preview_if_open
  preview_front b [] = (b, (none, no_preview "No Kinect v1 device available for preview."))
  preview_front b (front ∷ devices) =
      let (b1, d) = open_device lib front.serial b in (b1, preview_if_open d)

  unfoldable pub preview : ContextState → ContextState × (Option Device × PreviewResult)
  unfolding preview_front
  preview b = let (b1, devices) = list_devices lib b in preview_front b1 devices

-- At most one frame of each kind was counted in a round.
record Counted (k : ℕ) (m n : Counts) : Type 0 where
  colors : n.color_frames ≤ m.color_frames + k
  depths : n.depth_frames ≤ m.depth_frames + k

count_frame-Counted : (frame : Option FrameData) (n : Counts) → Counted 1 n (count_frame frame n)
unfolding count_frame
count_frame-Counted none n = ground arith
count_frame-Counted (some f) n = ground arith

abbrev IsCounted : ℕ → Counts → Device × Counts → Type 0
IsCounted k m r = Inv r.0 × Counted k m r.1

preview_rounds-IsCounted :
    (device : Library) (rounds : ℕ) (d : Device) (n : Counts)
    → Inv d
    → IsCounted rounds n (preview_rounds device rounds d n)
unfolding preview_rounds preview_round call_method
preview_rounds-IsCounted device zero d n v = (v, ground arith)
preview_rounds-IsCounted device (suc rounds) d n v =
    let d1 = (update device d).0 in
    let v1 = call_method-Inv device Method.updates d v in
    let (d2, frame) = get_frame d1 in
    let v2 = call_method-Inv device Method.gets_frame d1 v1 in
    let one = count_frame-Counted frame n in
    let (v3, rest) = preview_rounds-IsCounted device rounds d2 (count_frame frame n) v2 in
    (
      v3,
      record {
        colors = omega (arith, one.colors, rest.colors);
        depths = omega (arith, one.depths, rest.depths);
      },
    )

-- The destructor leaves no stream open, with a handle or without.
destroy-all_closed :
    (device : Library) (d : Device) → Inv d → opened (destroy device d).log ≡ all_closed
unfolding destroy stop opened
destroy-all_closed device d v = elim (Bool-cases d.has_dev) [
  | inl dev ↦ destroy_closes device d v dev
  | inr no_dev ↦ ground arith
]

abbrev pub LeftClosed : Option Device → Type 0
LeftClosed none = Unit
LeftClosed (some d) = opened d.log ≡ all_closed

-- What a preview reports, and what it leaves of the device.
pub record IsReported (rounds : ℕ) (r : Option Device × PreviewResult) : Type 0 where
  pub colors : r.1.color_frames ≤ rounds
  pub depths : r.1.depth_frames ≤ rounds
  pub succeeded : r.1.success ≡ ltb 0 (r.1.color_frames + r.1.depth_frames)
  pub left_closed : LeftClosed r.0

abbrev IsReportedPreview : Library → ℕ → Device × Option (Bool × Counts) → Type 0
IsReportedPreview device rounds r = IsReported rounds (some (destroy device r.0), result_of r.1)

preview_device-IsReported :
    (device : Library) (rounds : ℕ) (d : Device)
    → Inv d
    → IsReportedPreview device rounds (preview_device device rounds d)
unfolding preview_device result_of
preview_device-IsReported device rounds d v =
    let (d1, started) = start device d in
    let v1 = start-Inv device d v in
    let none_yet : Counts = record { color_frames = 0; depth_frames = 0 } in
    let r = preview_rounds device rounds d1 none_yet in
    let (v2, counted) = preview_rounds-IsCounted device rounds d1 none_yet v1 in
    if_rule {A = Device × Option (Bool × Counts)} (IsReportedPreview device rounds) (not started)
      (d1, none)
      (λ _. record {
        colors = omega arith;
        depths = omega arith;
        succeeded = refl;
        left_closed = destroy-all_closed device d1 v1;
      })
      (λ _. record {
        colors = omega (arith, counted.colors);
        depths = omega (arith, counted.depths);
        succeeded = refl;
        left_closed = destroy-all_closed device _ (stop-Inv device r.0 v2);
      })

opened_Inv :
    (l : Library) (serial : String) (index : ℤ) (audio : Bool)
    → Inv (open_handle l (new_device true index serial audio)).0
unfolding call_methods
opened_Inv l serial index audio = opened_device-Inv l true index serial audio []

module _ (lib : Freenect1) (device : Library) (rounds : ℕ) where
  no_preview-IsReported : (detail : String) → IsReported rounds (none, no_preview detail)
  no_preview-IsReported detail = record {
    colors = omega arith;
    depths = omega arith;
    succeeded = refl;
    left_closed = tt;
  }

  preview_if_open-IsReported :
      (serial : String) (r : ContextState × Option Device)
      → HoldsOfResult lib Inv serial r
      → IsReported rounds (preview_if_open lib device rounds r.1)
  unfolding preview_if_open result_of
  preview_if_open-IsReported serial (b, none) h = no_preview-IsReported _
  preview_if_open-IsReported serial (b, some d) h = preview_device-IsReported device rounds d h

  preview_front-IsReported :
      (b : ContextState) (devices : List DeviceInfo)
      → IsReported rounds (preview_front lib device rounds b devices).1
  unfolding preview_front
  preview_front-IsReported b [] = no_preview-IsReported _
  preview_front-IsReported b (front ∷ devices) =
      preview_if_open-IsReported front.serial (open_device lib front.serial b)
        (open_device_rule lib Inv front.serial (λ l. opened_Inv l front.serial) b)

  -- Whatever libfreenect answers and delivers, for a backend in any state: a preview counts at most
  -- one color and one depth frame a round; it succeeds exactly if it counted a frame; and, whether
  -- the device started or not, every stream of the device is closed at the end.
  pub preview-IsReported : (b : ContextState) → IsReported rounds (preview lib device rounds b).1
  unfolding preview
  preview-IsReported b = preview_front-IsReported _ _
