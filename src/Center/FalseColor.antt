-- ===== src/Center/FalseColor.antt =====
-- `DepthToFalseColor` of src/control_center_v1.cpp, over a processor's 32-bit floats.
use mac_kinect_native.Base.{ℕ, not, ◌&&◌, List, [], ◌∷◌, ◌++◌}
use mac_kinect_native.Base.Tests.{◌==◌, if◌then◌else◌}
use mac_kinect_native.Float32.{Float32, min_float, max_float}

module _ (fl : Float32) where
  -- The components of red, green and blue at a sixth of the circle of hues.
  unfoldable pub hue_components : fl.Float → fl.Float → fl.Float × (fl.Float × fl.Float)
  hue_components hprime x =
      let c = fl.literal 1 in
      let zero = fl.literal 0 in
      let below = λ (k : ℕ). fl.is_less hprime (fl.literal k) in
      if not (fl.is_less hprime zero) && below 1
      then (c, (x, zero))
      else if below 2
      then (x, (c, zero))
      else if below 3
      then (zero, (c, x))
      else if below 4
      then (zero, (x, c))
      else if below 5
      then (x, (zero, c))
      else (c, (zero, x))

  -- The three bytes that are stored.
  unfoldable pub depth_to_false_color : ℕ → List ℕ
  unfolding hue_components
  depth_to_false_color mm =
      let clamped =
        max_float fl (fl.literal 400) (min_float fl (fl.literal 6000) (fl.from_uint16 mm)) in
      let t =
        fl.div (fl.sub clamped (fl.literal 400)) (fl.sub (fl.literal 6000) (fl.literal 400)) in
      let hue = fl.mul (fl.sub (fl.literal 1) t) (fl.literal 240) in
      let c = fl.literal 1 in
      let hprime = fl.div hue (fl.literal 60) in
      let x =
        fl.mul c (
          fl.sub (fl.literal 1) (fl.abs (fl.sub (fl.fmod hprime (fl.literal 2)) (fl.literal 1)))) in
      let (r, (g, b)) = hue_components hprime x in
      let byte = λ (v : fl.Float). fl.to_uint8 (fl.mul v (fl.literal 255)) in
      if mm == 0 then 0 ∷ 0 ∷ 0 ∷ [] else byte r ∷ byte g ∷ byte b ∷ []

  -- The loop over the pixels of an image.
  unfoldable pub false_colors : List ℕ → List ℕ
  unfolding depth_to_false_color
  false_colors [] = []
  false_colors (mm ∷ image) = depth_to_false_color mm ++ false_colors image
