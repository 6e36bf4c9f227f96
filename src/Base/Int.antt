-- ===== src/Base/Int.antt =====
-- Signed integers over the native numbers: the C++ `int` of the calls that the source makes.
use Prim.Native.Nat.{ℕ, suc, ◌+◌, ◌-◌, ◌≤◌, ◌<◌, ◌^◌}
use mathlib.Core.Path.{◌≡◌}
use mathlib.Core.Bool.{Bool}
use mathlib.Core.Option.{Option, none, some}
use native.Mathlib.Omega.{arith}
use mac_kinect_native.Base.Tests.{ltb, leb, if◌then◌else◌}

-- `negsuc n` is -(n + 1).
pub data ℤ : Type 0 where
  pos : ℕ → ℤ
  negsuc : ℕ → ℤ

abbrev pub pos_part : ℤ → ℕ
pos_part (pos n) = n
pos_part (negsuc n) = 0

abbrev pub neg_part : ℤ → ℕ
neg_part (pos n) = 0
neg_part (negsuc n) = suc n

-- a - b, as an integer.
abbrev pub sub_ℕ : ℕ → ℕ → ℤ
sub_ℕ a b = if leb b a then pos (a - b) else negsuc (b - a - 1)

infixl 65 ◌+ℤ◌ ◌-ℤ◌
infix 50 ◌≤ℤ◌
abbrev pub ◌+ℤ◌ : ℤ → ℤ → ℤ
a +ℤ b = sub_ℕ (pos_part a + pos_part b) (neg_part a + neg_part b)

abbrev pub ◌-ℤ◌ : ℤ → ℤ → ℤ
a -ℤ b = sub_ℕ (pos_part a + neg_part b) (neg_part a + pos_part b)

abbrev pub ◌≤ℤ◌ : ℤ → ℤ → Type 0
a ≤ℤ b = pos_part a + neg_part b ≤ pos_part b + neg_part a

abbrev pub ltb_ℤ : ℤ → ℤ → Bool
ltb_ℤ a b = ltb (pos_part a + neg_part b) (pos_part b + neg_part a)

-- `std::min(a, b)` is `(b < a) ? b : a`, `std::max(a, b)` is `(a < b) ? b : a`.
abbrev pub min_ℤ : ℤ → ℤ → ℤ
min_ℤ a b = if ltb_ℤ b a then b else a

abbrev pub max_ℤ : ℤ → ℤ → ℤ
max_ℤ a b = if ltb_ℤ a b then b else a

-- `std::max(lo, std::min(hi, x))`.
unfoldable pub clamp : ℤ → ℤ → ℤ → ℤ
clamp lo hi x = max_ℤ lo (min_ℤ hi x)

pub le-clamp : (lo hi x : ℤ) → lo ≤ℤ clamp lo hi x
unfolding clamp
le-clamp lo hi x = ground arith

pub clamp-le : (lo hi x : ℤ) → lo ≤ℤ hi → clamp lo hi x ≤ℤ hi
unfolding clamp
clamp-le lo hi x h = ground arith

pub clamp_inside : (lo hi x : ℤ) → lo ≤ℤ x → x ≤ℤ hi → clamp lo hi x ≡ x
unfolding clamp
clamp_inside lo hi x h k = ground arith

-- A number that is not negative as an `int` of 32 bits; `none` is an overflow, which is undefined.
unfoldable pub as_int : ℕ → Option ℕ
as_int n = if ltb n (2 ^ 31) then some n else none

pub as_int-some : (n : ℕ) → n < 2 ^ 31 → as_int n ≡ some n
unfolding as_int
as_int-some n h = ground arith
