-- ===== src/Float32.antt =====
-- The 32-bit floats of C++, which the processor computes, as the code uses them in
-- src/control_center_v1.cpp and src/backends/freenect_v2_backend.cpp.
use mac_kinect_native.Base.{ℕ, Bool}
use mac_kinect_native.Base.Tests.{if◌then◌else◌}

pub record Float32 : Type 1 where
  pub Float : Type 0
  -- The literal of a whole number.
  pub literal : ℕ → Float
  pub from_uint16 : ℕ → Float
  pub sub : Float → Float → Float
  pub mul : Float → Float → Float
  pub div : Float → Float → Float
  pub fmod : Float → Float → Float
  pub abs : Float → Float
  pub is_less : Float → Float → Bool
  pub to_uint8 : Float → ℕ
  pub to_uint16 : Float → ℕ

-- `std::min(a, b)` is `(b < a) ? b : a`, and `std::max(a, b)` is `(a < b) ? b : a`.
abbrev pub min_float : (fl : Float32) → fl.Float → fl.Float → fl.Float
min_float fl a b = if fl.is_less b a then b else a

abbrev pub max_float : (fl : Float32) → fl.Float → fl.Float → fl.Float
max_float fl a b = if fl.is_less a b then b else a
