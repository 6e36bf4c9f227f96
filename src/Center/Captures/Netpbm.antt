-- ===== src/Center/Captures/Netpbm.antt =====
-- A reader of the Netpbm formats PPM and PGM in binary, as their manual pages describe them, against
-- the writers of src/control_center_v1.cpp.
use mac_kinect_native.Base.{
  ℕ, zero, suc, ◌+◌, ◌-◌, ◌*◌, Bool, not, ◌&&◌, ◌||◌, Option, none, some, List, [], ◌∷◌,
}
use mac_kinect_native.Base.Tests.{leb, ltb, ◌==◌, if◌then◌else◌}
use mac_kinect_native.Base.Lists.{take}
use mathlib.Core.Option.{bind}

pub record Image : Type 0 where
  pub width : ℕ
  pub height : ℕ
  pub max_value : ℕ
  -- Rows from the top; for a PPM, three samples a pixel.
  pub samples : List ℕ

-- An image of 640 by 480.
abbrev pub frame_image : ℕ → List ℕ → Image
frame_image max_value samples = record {
  width = 640;
  height = 480;
  max_value = max_value;
  samples = samples;
}

is_white : ℕ → Bool
is_white c = (c == 32) || (leb 9 c && leb c 13)

-- The decimal after `acc`, and what follows the one white space after it.
read_number : ℕ → List ℕ → Option (ℕ × List ℕ)
unfolding is_white
read_number acc [] = none
read_number acc (c ∷ bytes) =
    let rest = read_number (acc * 10 + (c - 48)) bytes in
    if leb 48 c && leb c 57 then rest else if is_white c then some (acc, bytes) else none

-- n samples of one byte, and n samples of two with the high one first.
read_bytes : ℕ → List ℕ → List ℕ
read_bytes n bytes = take n bytes

read_pairs : ℕ → List ℕ → List ℕ
read_pairs zero bytes = []
read_pairs (suc n) (hi ∷ lo ∷ bytes) = (hi * 256 + lo) ∷ read_pairs n bytes
read_pairs (suc n) _ = []

-- The samples after the header, by the channels of the format and the maximal value.
read_samples : ℕ → ℕ → ℕ → ℕ → List ℕ → Image
read_samples channels width height max_value bytes = record {
  width = width;
  height = height;
  max_value = max_value;
  samples =
      let count = width * height * channels in
      if ltb max_value 256 then read_bytes count bytes else read_pairs count bytes;
}

-- The three numbers of the header and the samples.
read_body : ℕ → List ℕ → Option Image
unfolding read_number
read_body channels bytes = bind (read_number 0 bytes) (λ (w : ℕ × List ℕ).
    bind (read_number 0 w.1) (λ (h : ℕ × List ℕ).
      bind (read_number 0 h.1) (λ (m : ℕ × List ℕ). some (read_samples channels w.0 h.0 m.0 m.1))))

pub read_netpbm : List ℕ → Option Image
unfolding read_body
read_netpbm (p ∷ kind ∷ white ∷ bytes) =
    if not ((p == b'P') && (white == b'\n'))
    then none
    else if kind == b'6'
    then read_body 3 bytes
    else if kind == b'5'
    then read_body 1 bytes
    else none
read_netpbm _ = none

-- The image in a file of a capture, if the file was written.
abbrev pub image_in : Option (List ℕ) → Option Image
image_in file = bind file read_netpbm
