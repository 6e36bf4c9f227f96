-- ===== src/V2Device/WholeFrames.antt =====
-- The frames that a Kinect v2 device hands out (src/backends/freenect_v2_backend.cpp).
use Prim.Native.String.{String}
use mac_kinect_native.Base.{
  ℕ, zero, suc, ◌*◌, ◌<◌, ◌≡◌, ◌⊎◌, inl, inr, refl, Bool, false, Option, none, some, List, arith,
}
use mac_kinect_native.Base.Tests.{if_rule}
use mac_kinect_native.Base.Lists.{length, length-tabulate}
use mac_kinect_native.Backend.{StreamKind, FrameData}
use mac_kinect_native.Float32.{Float32}
use mac_kinect_native.V2Device.State.{DeviceLog, RawFrame, FrameMap, Freenect2, Device, new_device}
use mac_kinect_native.V2Device.NewFrames.{
  HoldsOf, NewHolds, AllChosenHold, get_frame_holds, open_handle_holds, call_methods_keeps,
}
use mac_kinect_native.V2Device.Pictures.{
  Picture, rgb_from_bgra, color_picture, depth_value, depth_picture, ir_value, ir_picture,
  assign_rgb, assign_depth, assign_ir, or_assign, has_no_image, assign_selected, choose_frame,
}
use mac_kinect_native.V2Device.Methods.{get_frame, Method, device_after}

-- The sizes of the three buffers.
abbrev pub Sizes : FrameData → ℕ → ℕ → ℕ → Type 0
Sizes f rgb depth ir = (length f.rgb ≡ rgb) × (length f.depth ≡ depth) × (length f.ir ≡ ir)

-- One image of the frame's size, and no other.
pub record IsWhole (f : FrameData) : Type 0 where
  pub wide : 0 < f.width
  pub high : 0 < f.height
  pub one_image :
      Sizes f (f.width * f.height * 3) 0 0
      ⊎ (Sizes f 0 (f.width * f.height) 0 ⊎ Sizes f 0 0 (f.width * f.height))

abbrev pub IsWholeIf : Option FrameData → Type 0
IsWholeIf = HoldsOf IsWhole

-- The data has this many samples for each pixel.
abbrev IsSized : ℕ → Picture → Type 0
IsSized n p = length p.picture_data ≡ p.picture_width * p.picture_height * n

length-rgb_from_bgra : (n i : ℕ) (src : ℕ → ℕ) → length (rgb_from_bgra n i src) ≡ n * 3
unfolding rgb_from_bgra
length-rgb_from_bgra zero i src = omega arith
length-rgb_from_bgra (suc n) i src = omega (arith, length-rgb_from_bgra n (suc i) src)

color_picture-IsSized : (o : Option (RawFrame ℕ)) → IsSized 3 (color_picture o)
unfolding color_picture
color_picture-IsSized none = omega arith
color_picture-IsSized (some f) = length-rgb_from_bgra (f.width * f.height) 0 f.pixels

module _ (fl : Float32) where
  depth_picture-IsSized : (o : Option (RawFrame fl.Float)) → IsSized 1 (depth_picture fl o)
  unfolding depth_picture
  depth_picture-IsSized none = omega arith
  depth_picture-IsSized (some f) =
      omega (arith, length-tabulate (f.width * f.height) 0 (λ i. depth_value fl (f.pixels i)))

  ir_picture-IsSized : (o : Option (RawFrame fl.Float)) → IsSized 1 (ir_picture fl o)
  unfolding ir_picture
  ir_picture-IsSized none = omega arith
  ir_picture-IsSized (some f) =
      omega (arith, length-tabulate (f.width * f.height) 0 (λ i. ir_value fl (f.pixels i)))

has_image : (p : Picture) → has_no_image p ≡ false → (0 < p.picture_width) × (0 < p.picture_height)
has_image p h = ground arith

assign_rgb-IsWholeIf : (p : Picture) → IsSized 3 p → IsWholeIf (assign_rgb p)
unfolding assign_rgb
assign_rgb-IsWholeIf p h =
    if_rule {A = Option FrameData} IsWholeIf (has_no_image p) none (λ _. tt)
      (λ e. record {
        wide = (has_image p e).0;
        high = (has_image p e).1;
        one_image = inl (h, refl, refl);
      })

assign_depth-IsWholeIf : (p : Picture) → IsSized 1 p → IsWholeIf (assign_depth p)
unfolding assign_depth
assign_depth-IsWholeIf p h =
    if_rule {A = Option FrameData} IsWholeIf (has_no_image p) none (λ _. tt)
      (λ e. record {
        wide = (has_image p e).0;
        high = (has_image p e).1;
        one_image = inr (inl (refl, omega (arith, h), refl));
      })

assign_ir-IsWholeIf : (p : Picture) → IsSized 1 p → IsWholeIf (assign_ir p)
unfolding assign_ir
assign_ir-IsWholeIf p h =
    if_rule {A = Option FrameData} IsWholeIf (has_no_image p) none (λ _. tt)
      (λ e. record {
        wide = (has_image p e).0;
        high = (has_image p e).1;
        one_image = inr (inr (refl, refl, omega (arith, h)));
      })

or_assign-IsWholeIf :
    (a b : Option FrameData) → IsWholeIf a → IsWholeIf b → IsWholeIf (or_assign a b)
or_assign-IsWholeIf none b h k = k
or_assign-IsWholeIf (some f) b h k = h

choose_frame-IsWholeIf :
    (selected : StreamKind) (color depth ir : Picture)
    → IsSized 3 color
    → IsSized 1 depth
    → IsSized 1 ir
    → IsWholeIf (choose_frame selected color depth ir)
unfolding choose_frame
choose_frame-IsWholeIf selected color depth ir c d i = or_assign-IsWholeIf _ _ (by_kind selected) (
    or_assign-IsWholeIf _ _ (assign_rgb-IsWholeIf color c)
      (or_assign-IsWholeIf _ _ (assign_ir-IsWholeIf ir i) (assign_depth-IsWholeIf depth d)))
  where
    by_kind : (kind : StreamKind) → IsWholeIf (assign_selected color depth ir kind)
    by_kind StreamKind.rgb = assign_rgb-IsWholeIf color c
    by_kind StreamKind.ir = assign_ir-IsWholeIf ir i
    by_kind StreamKind.depth = assign_depth-IsWholeIf depth d

-- A device whose new frame, if it has one, is whole.
abbrev pub IsReady : Device → Type 0
IsReady = NewHolds IsWhole

module _ (fl : Float32) (lib : Freenect2 fl) where
  chosen-IsWhole : (frames : Option (FrameMap fl)) → AllChosenHold IsWhole fl frames
  chosen-IsWhole none = tt
  chosen-IsWhole (some frames) = λ selected.
      choose_frame-IsWholeIf selected _ _ _ (color_picture-IsSized frames.color)
        (depth_picture-IsSized fl frames.depth) (ir_picture-IsSized fl frames.ir)

  pub all-IsWhole : (log : DeviceLog) → AllChosenHold IsWhole fl (lib.new_frames log)
  all-IsWhole log = chosen-IsWhole (lib.new_frames log)

  -- Whatever libfreenect2 answers, a frame that a Kinect v2 device hands out, after any calls of its
  -- methods since it was made and opened, holds exactly one image, of its own width and height (three
  -- bytes a pixel for color, one value a pixel for depth and infrared); the other two buffers are
  -- empty, and neither the width nor the height is 0.
  pub get_frame-IsWhole :
      (ctx : Bool) (serial : String) (ms : List Method)
      → IsWholeIf (get_frame (device_after fl lib (new_device ctx serial) ms)).1
  get_frame-IsWhole ctx serial ms =
      let opened = open_handle_holds fl lib IsWhole all-IsWhole ctx serial in
      get_frame_holds IsWhole _ (call_methods_keeps fl lib IsWhole all-IsWhole ms _ opened)
