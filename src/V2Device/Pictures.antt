-- ===== src/V2Device/Pictures.antt =====
-- How `FreenectV2Device::update` of src/backends/freenect_v2_backend.cpp converts the frames of
-- libfreenect2, and which one it chooses.
use mac_kinect_native.Base.{ℕ, zero, suc, ◌+◌, ◌*◌, Bool, ◌||◌, Option, none, some, List, [], ◌∷◌}
use mac_kinect_native.Base.Tests.{◌==◌, if◌then◌else◌}
use mac_kinect_native.Base.Lists.{is_empty, tabulate}
use mac_kinect_native.Backend.{StreamKind, FrameData, empty_frame}
use mac_kinect_native.Float32.{Float32, min_float, max_float}
use mac_kinect_native.V2Device.State.{RawFrame}

-- The local variables of one kind of image.
pub record Picture : Type 0 where
  pub picture_data : List ℕ
  pub picture_width : ℕ
  pub picture_height : ℕ
  pub picture_timestamp : ℕ

abbrev pub no_picture : Picture
no_picture = record {
  picture_data = [];
  picture_width = 0;
  picture_height = 0;
  picture_timestamp = 0;
}

-- The variables with the size of a frame, and this data.
abbrev pub picture_of : {Sample : Type 0} → RawFrame Sample → List ℕ → Picture
picture_of f samples = record {
  picture_data = samples;
  picture_width = f.width;
  picture_height = f.height;
  picture_timestamp = f.timestamp;
}

-- n pixels from the i-th, from BGRA to RGB.
unfoldable pub rgb_from_bgra : ℕ → ℕ → (ℕ → ℕ) → List ℕ
rgb_from_bgra zero i src = []
rgb_from_bgra (suc n) i src =
    src (i * 4 + 2) ∷ src (i * 4 + 1) ∷ src (i * 4 + 0) ∷ rgb_from_bgra n (suc i) src

unfoldable pub color_picture : Option (RawFrame ℕ) → Picture
unfolding rgb_from_bgra
color_picture none = no_picture
color_picture (some f) = picture_of f (rgb_from_bgra (f.width * f.height) 0 f.pixels)

module _ (fl : Float32) where
  unfoldable pub depth_value : fl.Float → ℕ
  depth_value mm = fl.to_uint16 (max_float fl (fl.literal 0) (min_float fl (fl.literal 65535) mm))

  unfoldable pub ir_value : fl.Float → ℕ
  ir_value sample =
      let v = fl.div sample (fl.literal 65535) in
      let scaled = fl.mul v (fl.literal 255) in
      fl.to_uint8 (max_float fl (fl.literal 0) (min_float fl (fl.literal 255) scaled))

  unfoldable pub depth_picture : Option (RawFrame fl.Float) → Picture
  unfolding depth_value
  depth_picture none = no_picture
  depth_picture (some f) =
      picture_of f (tabulate (f.width * f.height) 0 (λ i. depth_value (f.pixels i)))

  unfoldable pub ir_picture : Option (RawFrame fl.Float) → Picture
  unfolding ir_value
  ir_picture none = no_picture
  ir_picture (some f) = picture_of f (tabulate (f.width * f.height) 0 (λ i. ir_value (f.pixels i)))

-- `assign_rgb`, `assign_depth` and `assign_ir`: the next frame, if there is an image.
abbrev pub has_no_image : Picture → Bool
has_no_image p = is_empty p.picture_data || (p.picture_width == 0) || (p.picture_height == 0)

-- The next frame is fresh: it has no other image.
abbrev pub sized_frame : Picture → FrameData
sized_frame p = record empty_frame {
  width = p.picture_width;
  height = p.picture_height;
  timestamp = p.picture_timestamp;
}

unfoldable pub assign_rgb : Picture → Option FrameData
assign_rgb p =
    if has_no_image p then none else some (record (sized_frame p) { rgb = p.picture_data })

unfoldable pub assign_depth : Picture → Option FrameData
assign_depth p =
    if has_no_image p then none else some (record (sized_frame p) { depth = p.picture_data })

unfoldable pub assign_ir : Picture → Option FrameData
assign_ir p = if has_no_image p then none else some (record (sized_frame p) { ir = p.picture_data })

abbrev pub or_assign : {A : Type 0} → Option A → Option A → Option A
or_assign none second = second
or_assign (some frame) second = some frame

abbrev pub assign_selected : Picture → Picture → Picture → StreamKind → Option FrameData
assign_selected color depth ir StreamKind.rgb = assign_rgb color
assign_selected color depth ir StreamKind.ir = assign_ir ir
assign_selected color depth ir StreamKind.depth = assign_depth depth

-- The frame of the selected stream, or else the first in the order RGB, IR, depth.
unfoldable pub choose_frame : StreamKind → Picture → Picture → Picture → Option FrameData
unfolding assign_rgb assign_ir assign_depth
choose_frame selected color depth ir =
    or_assign (assign_selected color depth ir selected)
      (or_assign (assign_rgb color) (or_assign (assign_ir ir) (assign_depth depth)))
