-- ===== src/Dal/Pixels.antt =====
-- The pixels of a sample of src/dal_plugin/KinectCameraDALPlugin.cpp, 640 by 480 from a source of
-- any size. An image is its rows; the bytes that pad a row are not written and left out. A width or
-- height that is not above 0 is 0. An `int` that overflows is undefined, and so are the pixels then.
use mac_kinect_native.Base.{
  ℕ, zero, suc, ◌+◌, ◌*◌, ◌/◌, ◌%◌, ◌^◌, ◌<◌, ◌≤◌, ◌≡◌, refl, sym, ◌||◌, Option, none, some, List,
  [], ◌∷◌, arith,
}
use mac_kinect_native.Base.Tests.{ltb, ◌==◌, if◌then◌else◌, if_rule, or_false, ◌>>=◌}
use mac_kinect_native.Base.Int.{as_int, as_int-some}
use mac_kinect_native.Base.Lists.{length, get_elem?, tabulate, length-tabulate, All}
use mathlib.Core.Path.{subst}
use native.Mathlib.Nat.{mul-le-mul_right, mul-lt-mul_of_pos_left, div-lt_iff_lt-mul}

abbrev pub k_output_width : ℕ
k_output_width = 640

abbrev pub k_output_height : ℕ
k_output_height = 480

pub record Bgra : Type 0 where
  pub blue : ℕ
  pub green : ℕ
  pub red : ℕ
  pub alpha : ℕ

-- A pixel; `none` is undefined: a read out of the source's bounds, or an overflow on the way to it.
abbrev pub Image : Type 0
Image = List (List (Option Bgra))

-- The loops over y and x, of which each round writes one pixel.
unfoldable pub image_of : ℕ → ℕ → (ℕ → ℕ → Option Bgra) → Image
unfolding tabulate
image_of width height pixel = tabulate height 0 (λ y. tabulate width 0 (λ x. pixel x y))

-- The counter is 64 bits wide, and wrapping it does not change the value modulo 256.
unfoldable pub fallback_pixel : ℕ → ℕ → ℕ → Option Bgra
fallback_pixel frame x y = some (record {
  blue = (x + y + frame * 3) % 256;
  green = (y + frame * 2) % 256;
  red = (x + frame) % 256;
  alpha = 255;
})

-- The three bytes at an index, read from the last to the first.
unfoldable pub pixel_at : Option ℕ → Option ℕ → Option ℕ → Option Bgra
pixel_at none g r = none
pixel_at (some b) none r = none
pixel_at (some b) (some g) none = none
pixel_at (some b) (some g) (some r) = some (record { blue = b; green = g; red = r; alpha = 255 })

-- `(sy * src_width + sx) * 3`, with each of the products an `int`.
unfoldable pub source_index : ℕ → ℕ → ℕ → ℕ → Option ℕ
unfolding as_int
source_index width height x y = do
  down ← as_int (y * height)
  right ← as_int (x * width)
  rows ← as_int (down / k_output_height * width)
  pixels ← as_int (rows + right / k_output_width)
  as_int (pixels * 3)

unfoldable pub pixel_from : List ℕ → Option ℕ → Option Bgra
unfolding pixel_at
pixel_from rgb none = none
pixel_from rgb (some si) =
    pixel_at (get_elem? rgb (si + 2)) (get_elem? rgb (si + 1)) (get_elem? rgb si)

unfoldable pub rgb_pixel : List ℕ → ℕ → ℕ → ℕ → ℕ → Option Bgra
unfolding pixel_from source_index
rgb_pixel rgb width height x y = pixel_from rgb (source_index width height x y)

-- `FillFallbackPattern`, for a frame index.
unfoldable pub fill_fallback_pattern : ℕ → Image
unfolding image_of fallback_pixel
fill_fallback_pattern frame = image_of k_output_width k_output_height (fallback_pixel frame)

-- `src_width * src_height * 3` as an `int`.
unfoldable pub byte_count : ℕ → ℕ → Option ℕ
unfolding as_int
byte_count width height = do pixels ← as_int (width * height); as_int (pixels * 3)

-- Once the size is counted, or its count has overflowed.
unfoldable pub fill_counted : List ℕ → ℕ → ℕ → ℕ → Option ℕ → Image
unfolding image_of rgb_pixel fill_fallback_pattern
fill_counted rgb width height frame_counter none =
    image_of k_output_width k_output_height (λ x y. none)
fill_counted rgb width height frame_counter (some count) =
    if ltb (length rgb) count
    then fill_fallback_pattern frame_counter
    else image_of k_output_width k_output_height (rgb_pixel rgb width height)

-- `FillFromRGB`, with `gFrameCounter` for the fallback.
unfoldable pub fill_from_rgb : List ℕ → ℕ → ℕ → ℕ → Image
unfolding byte_count fill_counted
fill_from_rgb rgb width height frame_counter =
    if (width == 0) || (height == 0)
    then fill_fallback_pattern frame_counter
    else fill_counted rgb width height frame_counter (byte_count width height)

-- A size whose products in `FillFromRGB` are all below 2^31.
pub record FitsInt (width height : ℕ) : Type 0 where
  pub bytes : width * height * 3 < 2 ^ 31
  pub wide : k_output_width * width < 2 ^ 31
  pub high : k_output_height * height < 2 ^ 31

pub byte_count-some :
    (width height : ℕ) → FitsInt width height → byte_count width height ≡ some (width * height * 3)
unfolding byte_count
byte_count-some width height fits =
    let n = width * height in
    rw (as_int-some n (omega (arith, fits.bytes)), as_int-some (n * 3) fits.bytes) refl

get_elem?_inside : (xs : List ℕ) (i : ℕ) → i < length xs → (x : ℕ) × (get_elem? xs i ≡ some x)
get_elem?_inside [] i h = absurd (omega arith)
get_elem?_inside (x ∷ xs) zero h = (x, refl)
get_elem?_inside (x ∷ xs) (suc i) h = get_elem?_inside xs i (omega arith)

-- Scaling a coordinate below n from n down or up to m stays below m.
scaled_inside : (n m i : ℕ) → 0 < m → 0 < n → i < n → i * m / n < m
scaled_inside n m i pos npos h =
    (div-lt_iff_lt-mul {k = n} {x = i * m} {y = m} npos).1
      (omega (arith, mul-lt-mul_of_pos_left {m = i} {n = n} {k = m} h pos))

row_inside : (w h x y : ℕ) → x < w → y < h → y * w + x < w * h
row_inside w h x y xw yh = ground (arith, mul-le-mul_right {m = suc y} {n = h} w yh)

-- The index without a bound on the products.
abbrev exact_index : ℕ → ℕ → ℕ → ℕ → ℕ
exact_index width height x y =
    (y * height / k_output_height * width + x * width / k_output_width) * 3

module _ (width height x y : ℕ) (w : 0 < width) (h : 0 < height) (xs : x < k_output_width)
    (ys : y < k_output_height) where
  pixel_inside : y * height / k_output_height * width + x * width / k_output_width < width * height
  pixel_inside =
      row_inside width height (x * width / k_output_width) (y * height / k_output_height)
        (scaled_inside k_output_width width x w (omega arith) xs)
        (scaled_inside k_output_height height y h (omega arith) ys)

  source_index-some :
      FitsInt width height → source_index width height x y ≡ some (exact_index width height x y)
  unfolding source_index
  source_index-some fits =
      let rows = y * height / k_output_height * width in
      let right = x * width / k_output_width in
      let down_fits = mul-le-mul_right {m = y} {n = k_output_height} height (omega arith) in
      let right_fits = mul-le-mul_right {m = x} {n = k_output_width} width (omega arith) in
      rw
        (
          as_int-some (y * height) (omega (arith, down_fits, fits.high)),
          as_int-some (x * width) (omega (arith, right_fits, fits.wide)),
          as_int-some rows (omega (arith, pixel_inside, fits.bytes)),
          as_int-some (rows + right) (omega (arith, pixel_inside, fits.bytes)),
          as_int-some ((rows + right) * 3) (omega (arith, pixel_inside, fits.bytes)),
        )
        refl

abbrev pub IsRead : Option Bgra → Type 0
IsRead p = (q : Bgra) × (p ≡ some q) × (q.alpha ≡ 255)

pixel_from-IsRead :
    (rgb : List ℕ) (si : ℕ) → si + 2 < length rgb → IsRead (pixel_from rgb (some si))
unfolding pixel_from pixel_at
pixel_from-IsRead rgb si h =
    let r = get_elem?_inside rgb si (omega arith) in
    let g = get_elem?_inside rgb (si + 1) (omega arith) in
    let b = get_elem?_inside rgb (si + 2) h in rw (b.1, g.1, r.1) (_, refl, refl)

tabulate-All :
    {A : Type 0} (P : A → Type 0) (n i : ℕ) (f : ℕ → A)
    → ((j : ℕ) → j < i + n → P (f j))
    → All P (tabulate n i f)
unfolding tabulate
tabulate-All P zero i f h = tt
tabulate-All P (suc n) i f h =
    (h i (omega arith), tabulate-All P n (suc i) f (λ j b. h j (omega arith)))

abbrev pub IsRow : ℕ → List (Option Bgra) → Type 0
IsRow width row = (length row ≡ width) × All IsRead row

abbrev pub IsDrawn : ℕ → ℕ → Image → Type 0
IsDrawn width height image = (length image ≡ height) × All (IsRow width) image

image_of-IsDrawn :
    (width height : ℕ) (pixel : ℕ → ℕ → Option Bgra)
    → ((x y : ℕ) → x < width → y < height → IsRead (pixel x y))
    → IsDrawn width height (image_of width height pixel)
unfolding image_of
image_of-IsDrawn width height pixel h =
    let row = λ (y : ℕ). tabulate width 0 (λ x. pixel x y) in
    (
      length-tabulate height 0 row,
      tabulate-All (IsRow width) height 0 row (λ y ys. (
        length-tabulate width 0 (λ x. pixel x y),
        tabulate-All IsRead width 0 (λ x. pixel x y) (λ x xs. h x y (omega arith) (omega arith)),
      )),
    )

module _ (rgb : List ℕ) (width height frame_counter : ℕ) (fits : FitsInt width height) where
  rgb_pixel-IsRead :
      (x y : ℕ)
      → 0 < width
      → 0 < height
      → width * height * 3 ≤ length rgb
      → x < k_output_width
      → y < k_output_height
      → IsRead (rgb_pixel rgb width height x y)
  unfolding rgb_pixel
  rgb_pixel-IsRead x y w h enough xs ys =
      let inside = pixel_inside width height x y w h xs ys in
      rw (source_index-some width height x y w h xs ys fits)
        (pixel_from-IsRead rgb (exact_index width height x y) (omega (arith, inside)))

  fallback-IsDrawn : IsDrawn k_output_width k_output_height (fill_fallback_pattern frame_counter)
  unfolding fill_fallback_pattern fallback_pixel
  fallback-IsDrawn =
      image_of-IsDrawn k_output_width k_output_height (fallback_pixel frame_counter)
        (λ x y xs ys. (_, refl, refl))

  fill_counted-IsDrawn :
      0 < width
      → 0 < height
      → IsDrawn k_output_width k_output_height
          (fill_counted rgb width height frame_counter (some (width * height * 3)))
  unfolding fill_counted
  fill_counted-IsDrawn w h =
      if_rule (IsDrawn k_output_width k_output_height) (ltb (length rgb) (width * height * 3))
        (fill_fallback_pattern frame_counter) (λ _. fallback-IsDrawn)
        (λ e.
          image_of-IsDrawn k_output_width k_output_height (rgb_pixel rgb width height)
            (λ x y xs ys. rgb_pixel-IsRead x y w h (ground arith) xs ys))

  -- Whatever the source's bytes, and whatever size it claims that keeps the products of the source's
  -- width and height within an `int`, the image has 480 rows of 640 opaque pixels, and no read of
  -- the source is out of its bounds.
  pub fill_from_rgb-IsDrawn :
      IsDrawn k_output_width k_output_height (fill_from_rgb rgb width height frame_counter)
  unfolding fill_from_rgb
  fill_from_rgb-IsDrawn =
      if_rule (IsDrawn k_output_width k_output_height) ((width == 0) || (height == 0))
        (fill_fallback_pattern frame_counter) (λ _. fallback-IsDrawn)
        (λ e.
          let (w, h) = or_false (width == 0) (height == 0) e in
          subst
            (λ n.
              IsDrawn k_output_width k_output_height
                (fill_counted rgb width height frame_counter n))
            (sym (byte_count-some width height fits))
            (fill_counted-IsDrawn (ground arith) (ground arith)))
