-- ===== src/V2Device/FrameSizes.antt =====
-- The sizes of the frames that a Kinect v2 device hands out, from those that libfreenect2 delivers
-- (src/backends/freenect_v2_backend.cpp).
use mac_kinect_native.Base.{ℕ, ◌≡◌, false, Option, none, some, arith}
use mac_kinect_native.Base.Tests.{if_rule}
use mac_kinect_native.Backend.{StreamKind, FrameData}
use mac_kinect_native.Float32.{Float32}
use mac_kinect_native.V2Device.State.{RawFrame, FrameMap, Freenect2, DeviceLog}
use mac_kinect_native.V2Device.NewFrames.{HoldsOf, AllChosenHold}
use mac_kinect_native.V2Device.Pictures.{
  Picture, color_picture, depth_picture, ir_picture, assign_rgb, assign_depth, assign_ir, or_assign,
  has_no_image, assign_selected, choose_frame,
}
use mac_kinect_native.V2Device.WholeFrames.{IsWhole, all-IsWhole}

-- A property of a width and a height.
module _ (Q : ℕ → ℕ → Type 0) where
  abbrev RawHolds : {Sample : Type 0} → Option (RawFrame Sample) → Type 0
  RawHolds none = Unit
  RawHolds (some f) = Q f.width f.height

  abbrev MapHolds : (fl : Float32) → Option (FrameMap fl) → Type 0
  MapHolds fl none = Unit
  MapHolds fl (some m) = RawHolds m.color × RawHolds m.depth × RawHolds m.ir

  -- All frames that the library delivers have such a size.
  abbrev pub DeliversSizes : (fl : Float32) → Freenect2 fl → Type 0
  DeliversSizes fl lib = (log : DeviceLog) → MapHolds fl (lib.new_frames log)

  -- A whole frame of such a size.
  abbrev pub IsWholeSized : FrameData → Type 0
  IsWholeSized f = IsWhole f × Q f.width f.height

  abbrev SizeHolds : FrameData → Type 0
  SizeHolds f = Q f.width f.height

  abbrev PictureHolds : Picture → Type 0
  PictureHolds p = has_no_image p ≡ false → Q p.picture_width p.picture_height

  color_holds : (o : Option (RawFrame ℕ)) → RawHolds o → PictureHolds (color_picture o)
  unfolding color_picture
  color_holds none h e = absurd (ground arith)
  color_holds (some f) h e = h

  or_assign_holds :
      (a b : Option FrameData)
      → HoldsOf SizeHolds a
      → HoldsOf SizeHolds b
      → HoldsOf SizeHolds (or_assign a b)
  or_assign_holds none b h k = k
  or_assign_holds (some f) b h k = h

  choose_frame_holds :
      (selected : StreamKind) (color depth ir : Picture)
      → PictureHolds color
      → PictureHolds depth
      → PictureHolds ir
      → HoldsOf SizeHolds (choose_frame selected color depth ir)
  unfolding choose_frame assign_rgb assign_depth assign_ir
  choose_frame_holds selected color depth ir c d i = or_assign_holds _ _ (by_kind selected) (
      or_assign_holds _ _ (by_kind StreamKind.rgb)
        (or_assign_holds _ _ (by_kind StreamKind.ir) (by_kind StreamKind.depth)))
    where
      by_kind : (kind : StreamKind) → HoldsOf SizeHolds (assign_selected color depth ir kind)
      by_kind StreamKind.rgb =
          if_rule {A = Option FrameData} (HoldsOf SizeHolds) (has_no_image color) none (λ _. tt) c
      by_kind StreamKind.ir =
          if_rule {A = Option FrameData} (HoldsOf SizeHolds) (has_no_image ir) none (λ _. tt) i
      by_kind StreamKind.depth =
          if_rule {A = Option FrameData} (HoldsOf SizeHolds) (has_no_image depth) none (λ _. tt) d

  both_hold :
      (o : Option FrameData) → HoldsOf IsWhole o → HoldsOf SizeHolds o → HoldsOf IsWholeSized o
  both_hold none h k = tt
  both_hold (some f) h k = (h, k)

  module _ (fl : Float32) (lib : Freenect2 fl) where
    depth_holds : (o : Option (RawFrame fl.Float)) → RawHolds o → PictureHolds (depth_picture fl o)
    unfolding depth_picture
    depth_holds none h e = absurd (ground arith)
    depth_holds (some f) h e = h

    ir_holds : (o : Option (RawFrame fl.Float)) → RawHolds o → PictureHolds (ir_picture fl o)
    unfolding ir_picture
    ir_holds none h e = absurd (ground arith)
    ir_holds (some f) h e = h

    chosen_sized :
        (frames : Option (FrameMap fl))
        → MapHolds fl frames
        → AllChosenHold IsWhole fl frames
        → AllChosenHold IsWholeSized fl frames
    chosen_sized none h whole = tt
    chosen_sized (some frames) (c, d, i) whole = λ selected. both_hold _ (whole selected) (
        choose_frame_holds selected _ _ _ (color_holds frames.color c) (depth_holds frames.depth d)
          (ir_holds frames.ir i))

    pub all_sized :
        DeliversSizes fl lib
        → (log : DeviceLog) → AllChosenHold IsWholeSized fl (lib.new_frames log)
    all_sized delivers log =
        chosen_sized (lib.new_frames log) (delivers log) (all-IsWhole fl lib log)
