-- ===== src/Gui/Shown.antt =====
-- What the window of src/gui/app.cpp shows of each frame.
use mac_kinect_native.Base.{
  ℕ, zero, suc, ◌<◌, ◌≤◌, ◌^◌, ◌++◌, ◌+◌, ◌*◌, ◌/◌, ◌%◌, ◌≡◌, ◌⊎◌, inl, inr, refl, ap, sym, ◌∙◌,
  false, Option, none, some, List, [], ◌∷◌, arith,
}
use mac_kinect_native.Base.Tests.{ltb, ◌==◌, Bool-cases, if◌then◌else◌, if_rule}
use mac_kinect_native.Base.Lists.{length, take, drop, length-drop, is_empty}
use mac_kinect_native.Base.Int.{as_int-some}
use mac_kinect_native.Backend.{FrameData}
use mac_kinect_native.FrameSource.Api.{IsRgbSized, IsDepthSized, HoldsIf}
use mac_kinect_native.Gui.App.{
  Texture, Textures, row_stride, bytes_read, unpack_rows, update_texture, shades, show_rgb,
  show_depth, show_frame,
}
use mathlib.Core.Option.{bind}

-- A texture of these bytes, whole.
abbrev texture_of : FrameData → List ℕ → Texture
texture_of f bytes = record { width = f.width; height = f.height; bytes = bytes }

-- Each depth as three equal bytes: a sixteenth, in 8 bits.
unfoldable pub gray : List ℕ → List ℕ
gray [] = []
gray (d ∷ depth) = let val = d / 16 % 256 in val ∷ val ∷ val ∷ gray depth

abbrev pub shown_rgb : FrameData → Textures → Textures
shown_rgb f t = if is_empty f.rgb then t else record t { rgb_tex = some (texture_of f f.rgb) }

abbrev pub shown_depth : FrameData → Textures → Textures
shown_depth f t = if is_empty f.depth then t else record t {
  depth_tex = some (texture_of f (gray f.depth));
  depth_buffer_visual = gray f.depth;
}

-- The whole color image and the whole depth image of a frame, those that it has.
abbrev pub shown : Option FrameData → Textures → Textures
shown none t = t
shown (some f) t =
    let t2 = shown_depth f (shown_rgb f t) in record t2 { redisplays = t2.redisplays + 1 }

full_if_some :
    {A : Type 0} (xs : List A) (n : ℕ)
    → (length xs ≡ 0) ⊎ (length xs ≡ n)
    → is_empty xs ≡ false
    → length xs ≡ n
full_if_some [] n h e = absurd (ground arith)
full_if_some (x ∷ xs) n (inl h) e = absurd (omega arith)
full_if_some (x ∷ xs) n (inr h) e = h

-- A width whose rows of three bytes a pixel end at a multiple of 4, and a count of pixels that an
-- `int` holds.
pub record IsAligned (width height : ℕ) : Type 0 where
  pub aligned : width % 4 ≡ 0
  pub counted : width * height < 2 ^ 31

row_stride-aligned : (width : ℕ) → width % 4 ≡ 0 → row_stride width ≡ width * 3
unfolding row_stride
row_stride-aligned width h = omega (arith, h)

take-drop : {A : Type 0} (n : ℕ) (xs : List A) → take n xs ++ drop n xs ≡ xs
take-drop zero xs = refl
take-drop (suc n) [] = refl
take-drop (suc n) (x ∷ xs) = ap (λ ys. x ∷ ys) (take-drop n xs)

unpack_rows_whole :
    (rows size : ℕ) (pixels : List ℕ)
    → length pixels ≡ rows * size
    → unpack_rows rows size size pixels ≡ pixels
unfolding unpack_rows
unpack_rows_whole zero size [] h = refl
unpack_rows_whole zero size (x ∷ pixels) h = absurd (omega arith)
unpack_rows_whole (suc rows) size pixels h =
    ap (λ rest. take size pixels ++ rest)
      (unpack_rows_whole rows size (drop size pixels) (omega (arith, h, length-drop size pixels)))
    ∙ take-drop size pixels

bytes_read-aligned :
    (width height : ℕ) → width % 4 ≡ 0 → bytes_read width height ≤ height * (width * 3)
unfolding bytes_read
bytes_read-aligned width zero h = omega arith
bytes_read-aligned width (suc rows) h =
    if_rule {A = ℕ} (λ n. n ≤ suc rows * (width * 3)) (width == 0) 0 (λ _. omega arith)
      (λ _. rw (row_stride-aligned width h) (omega arith))

update_texture_whole :
    (f : FrameData) (pixels : List ℕ)
    → IsAligned f.width f.height
    → length pixels ≡ f.width * f.height * 3
    → update_texture f.width f.height pixels ≡ some (texture_of f pixels)
unfolding update_texture
update_texture_whole f pixels fits size =
    let rows_size : length pixels ≡ f.height * (f.width * 3) = omega (arith, size) in
    let enough = bytes_read-aligned f.width f.height fits.aligned in
    if_rule {A = Option Texture} (λ o. o ≡ some (texture_of f pixels))
      (ltb (length pixels) (bytes_read f.width f.height)) none
      (λ short. absurd (ground (arith, enough, rows_size)))
      (λ _. rw (row_stride-aligned f.width fits.aligned) (
        ap (λ bytes. some (texture_of f bytes))
          (unpack_rows_whole f.height (f.width * 3) pixels rows_size)))

shades-gray : (depth : List ℕ) → shades (length depth) depth ≡ some (gray depth)
unfolding shades gray
shades-gray [] = refl
shades-gray (d ∷ depth) = rw (shades-gray depth) refl

length-gray : (depth : List ℕ) → length (gray depth) ≡ length depth * 3
unfolding gray
length-gray [] = omega arith
length-gray (d ∷ depth) = omega (arith, length-gray depth)

show_rgb-shown :
    (f : FrameData) (t : Textures)
    → IsAligned f.width f.height
    → IsRgbSized (some f)
    → show_rgb f t ≡ some (shown_rgb f t)
unfolding show_rgb
show_rgb-shown f t fits sized = elim (Bool-cases (is_empty f.rgb)) [
  | inl e ↦ rw e refl
  | inr e ↦ rw (e, update_texture_whole f f.rgb fits (full_if_some f.rgb _ sized e)) refl
]

show_depth-shown :
    (f : FrameData) (t : Textures)
    → IsAligned f.width f.height
    → IsDepthSized (some f)
    → show_depth f t ≡ some (shown_depth f t)
unfolding show_depth bind gray
show_depth-shown f t fits sized = elim (Bool-cases (is_empty f.depth)) [
  | inl e ↦ rw e refl
  | inr e ↦
      let size = full_if_some f.depth (f.width * f.height) sized e in
      let whole =
        update_texture_whole f (gray f.depth) fits (length-gray f.depth ∙ ap (λ n. n * 3) size) in
      let all_shades = ap (λ n. shades n f.depth) (sym size) ∙ shades-gray f.depth in
      rw (e, as_int-some (f.width * f.height) fits.counted, all_shades, whole) refl
]

pub show_frame-shown :
    (frame : Option FrameData) (t : Textures)
    → IsRgbSized frame
    → IsDepthSized frame
    → HoldsIf (λ (f : FrameData). IsAligned f.width f.height) frame
    → show_frame frame t ≡ some (shown frame t)
unfolding show_frame bind gray
show_frame-shown none t color deep fits = refl
show_frame-shown (some f) t color deep fits =
    rw (show_rgb-shown f t fits color, show_depth-shown f (shown_rgb f t) fits deep) refl
