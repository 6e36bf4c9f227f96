-- ===== src/Cli/Numbers.antt =====
-- `std::stoi` as src/main.cpp uses it, and `ParsePositiveInt`. A text is the bytes of an argument;
-- bytes above 127 are neither spaces, signs nor digits.
use Prim.Native.String.{String, [] as empty, ◌∷◌ as cons}
use Prim.Native.Char.{code}
use mac_kinect_native.Base.{
  ℕ, ◌+◌, ◌-◌, ◌*◌, ◌^◌, Bool, true, false, not, ◌&&◌, ◌||◌, Option, none, some,
}
use mac_kinect_native.Base.Tests.{ltb, leb, ◌==◌, if◌then◌else◌}

unfoldable pub is_space : ℕ → Bool
is_space c = (c == 32) || (leb 9 c && leb c 13)

unfoldable pub is_digit : ℕ → Bool
is_digit c = leb 48 c && leb c 57

-- The number that the digits at the front spell, after `acc`.
unfoldable pub read_digits : ℕ → String → ℕ
read_digits acc empty = acc
read_digits acc (cons c s) =
    let rest = read_digits (acc * 10 + (code c - 48)) s in if is_digit (code c) then rest else acc

-- The sign is read, and at least one digit must follow. Of what `std::stoi` returns, only a number
-- above 0 matters: `none` is an exception, or a number that is not above 0.
unfoldable pub read_positive : Bool → String → Option ℕ
unfolding read_digits
read_positive negative empty = none
read_positive negative (cons c s) =
    let n = read_digits 0 (cons c s) in
    if not (is_digit (code c))
    then none
    else if negative || (n == 0)
    then none
    else if ltb (2 ^ 31 - 1) n
    then none
    else some n

unfoldable pub read_sign : String → Option ℕ
unfolding read_positive
read_sign empty = none
read_sign (cons c s) =
    if code c == 45
    then read_positive true s
    else if code c == 43
    then read_positive false s
    else read_positive false (cons c s)

-- `ParsePositiveInt`.
unfoldable pub parse_positive_int : String → Option ℕ
unfolding read_sign
parse_positive_int empty = none
parse_positive_int (cons c s) =
    let rest = parse_positive_int s in if is_space (code c) then rest else read_sign (cons c s)
