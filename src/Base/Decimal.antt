-- ===== src/Base/Decimal.antt =====
-- `std::to_string` of a number that is not negative, and how its digits are read back.
use Prim.Native.String.{String, [] as empty, ◌∷◌ as cons}
use Prim.Native.Char.{Char, code}
use Prim.Native.Nat.{ℕ, zero, suc, ◌+◌, ◌-◌, ◌*◌, ◌/◌, ◌%◌, ◌<◌}
use mathlib.Core.Path.{◌≡◌, refl, ap, ◌∙◌}
use mathlib.Core.Logic.{inl, inr}
use mathlib.Core.Bool.{Bool, true, ◌&&◌}
use native.Mathlib.Omega.{arith}
use mac_kinect_native.Base.Tests.{ltb, leb, ◌==◌, if◌then◌else◌, Bool-cases}

-- The character of a digit below 10.
unfoldable pub digit_char : ℕ → Char
digit_char d =
    if d == 0
    then "0"
    else if d == 1
    then "1"
    else if d == 2
    then "2"
    else if d == 3
    then "3"
    else if d == 4
    then "4"
    else if d == 5
    then "5"
    else if d == 6
    then "6"
    else if d == 7
    then "7"
    else if d == 8
    then "8"
    else "9"

pub code-digit_char : (d : ℕ) → d < 10 → code (digit_char d) ≡ 48 + d
unfolding digit_char
code-digit_char zero h = refl
code-digit_char (suc zero) h = refl
code-digit_char (suc (suc zero)) h = refl
code-digit_char (suc (suc (suc zero))) h = refl
code-digit_char (suc (suc (suc (suc zero)))) h = refl
code-digit_char (suc (suc (suc (suc (suc zero))))) h = refl
code-digit_char (suc (suc (suc (suc (suc (suc zero)))))) h = refl
code-digit_char (suc (suc (suc (suc (suc (suc (suc zero))))))) h = refl
code-digit_char (suc (suc (suc (suc (suc (suc (suc (suc zero)))))))) h = refl
code-digit_char (suc (suc (suc (suc (suc (suc (suc (suc (suc zero))))))))) h = refl
code-digit_char (suc (suc (suc (suc (suc (suc (suc (suc (suc (suc d)))))))))) h =
    absurd (omega arith)

-- The digits of n before `rest`, on fuel: one round for each digit.
unfoldable pub digits_before : ℕ → ℕ → String → String
unfolding digit_char
digits_before zero n rest = rest
digits_before (suc fuel) n rest =
    let here = cons (digit_char (n % 10)) rest in
    let more = digits_before fuel (n / 10) here in if ltb n 10 then here else more

-- n + 1 rounds are enough: each divides n by 10.
unfoldable pub to_string : ℕ → String
unfolding digits_before
to_string n = digits_before (suc n) n empty

abbrev pub is_digit_code : ℕ → Bool
is_digit_code c = leb 48 c && leb c 57

-- The number that the digits at the front spell, after `acc`.
unfoldable pub read_number : ℕ → String → ℕ
read_number acc empty = acc
read_number acc (cons c s) =
    let more = read_number (acc * 10 + (code c - 48)) s in
    if is_digit_code (code c) then more else acc

digit-IsDigit : (d : ℕ) → d < 10 → is_digit_code (48 + d) ≡ true
digit-IsDigit d h = ground arith

digit_value : (d : ℕ) → 48 + d - 48 ≡ d
digit_value d = omega arith

read_digit :
    (d acc : ℕ) (rest : String)
    → d < 10
    → read_number acc (cons (digit_char d) rest) ≡ read_number (acc * 10 + d) rest
unfolding read_number
read_digit d acc rest h = rw (code-digit_char d h, digit-IsDigit d h, digit_value d) refl

-- The digits of n read as n.
read_number-digits_before :
    (fuel n : ℕ) (rest : String)
    → n < fuel
    → read_number 0 (digits_before fuel n rest) ≡ read_number n rest
unfolding digits_before
read_number-digits_before zero n rest h = absurd (omega arith)
read_number-digits_before (suc fuel) n rest h =
    let last = read_digit (n % 10) (n / 10) rest (omega arith) in
    elim (Bool-cases (ltb n 10)) [
      | inl e ↦
          rw e
            (read_digit (n % 10) 0 rest (omega arith) ∙ ap (λ k. read_number k rest) (ground arith))
      | inr e ↦ rw e (
          read_number-digits_before fuel (n / 10) (cons (digit_char (n % 10)) rest) (ground arith)
          ∙ last
          ∙ ap (λ k. read_number k rest) (ground arith))
    ]

pub read_number-digits : (n : ℕ) → read_number 0 (digits_before (suc n) n empty) ≡ n
unfolding read_number
read_number-digits n = read_number-digits_before (suc n) n empty (omega arith)

pub to_string_lem : (n : ℕ) → to_string n ≡ digits_before (suc n) n empty
unfolding to_string
to_string_lem n = refl
