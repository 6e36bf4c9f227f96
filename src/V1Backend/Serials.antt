-- ===== src/V1Backend/Serials.antt =====
-- The serials of src/backends/freenect_v1_backend.cpp: a device without one is named by its index,
-- and the name is read back when it is opened.
use Prim.Native.String.{String, [] as empty, ◌∷◌ as cons, ◌++◌ as str_append}
use Prim.Native.String.append
use Prim.Native.Char.{code}
use text.Mathlib.Text.{starts_with}
use text.Mathlib.TextPositions.{starts_with-append}
use mac_kinect_native.Base.{
  ℕ, zero, suc, ◌+◌, ◌-◌, ◌^◌, ◌<◌, ◌≡◌, refl, sym, ap, ◌∙◌, Bool, true, false, not, ◌&&◌, ◌||◌,
  Option, none, some, List, [], ◌∷◌, arith, inl, inr, ◌/◌, ◌%◌,
}
use mac_kinect_native.Base.Tests.{ltb, leb, ◌==◌, if◌then◌else◌, Bool-cases}
use mac_kinect_native.Base.Lists.{tabulate}
use mac_kinect_native.Base.Int.{ℤ, pos, pos_part, ltb_ℤ, max_ℤ, sub_ℕ}
use mac_kinect_native.Base.Decimal.{
  to_string, digits_before, digit_char, read_number, is_digit_code, code-digit_char,
  read_number-digits, to_string_lem,
}
use mac_kinect_native.Backend.{KinectGeneration, DeviceInfo}
use mac_kinect_native.V1Backend.Context.{
  ContextCall, Freenect1, ContextState, log_call, enumerate_count_with_retries,
}

unfoldable pub index_serial : ℕ → String
unfolding to_string
index_serial index = str_append "DeviceIndex-" (to_string index)

-- The serial of a node of the list of attributes.
abbrev pub serial_or_index : ℕ → Option String → String
serial_or_index index none = index_serial index
serial_or_index index (some serial) = serial

abbrev pub v1_info : String → DeviceInfo
v1_info serial = record { generation = KinectGeneration.v1; serial = serial; name = "Kinect v1" }

unfoldable pub infos_from : ℕ → List (Option String) → List DeviceInfo
infos_from index [] = []
infos_from index (serial ∷ nodes) =
    v1_info (serial_or_index index serial) ∷ infos_from (suc index) nodes

module _ (lib : Freenect1) where
  -- After the attempts: the devices by index only.
  unfoldable pub list_by_index : ContextState → ContextState × List DeviceInfo
  unfolding enumerate_count_with_retries
  list_by_index b =
      let (b1, count) = enumerate_count_with_retries lib (pos 4) 80 b in
      (b1, tabulate (pos_part (max_ℤ (pos 0) count)) 0 (λ i. v1_info (index_serial i)))

  -- What an attempt does with the list: its devices, if it has some.
  abbrev pub listed : ℤ → Option (List (Option String)) → Option (List DeviceInfo)
  listed count none = none
  listed count (some nodes) = if ltb_ℤ (pos 0) count then some (infos_from 0 nodes) else none

  abbrev pub free_if_given : Option (List (Option String)) → ContextState → ContextState
  free_if_given none b = b
  free_if_given (some nodes) b = log_call ContextCall.free_device_attributes b

  abbrev pub listed_or :
      Option (List DeviceInfo)
      → ContextState
      → ContextState × List DeviceInfo
      → ContextState × List DeviceInfo
  listed_or none b rest = rest
  listed_or (some infos) b rest = (b, infos)

  -- The attempts that are left; the last one does not sleep.
  unfoldable pub list_attempts : ℕ → ContextState → ContextState × List DeviceInfo
  unfolding list_by_index infos_from
  list_attempts zero b = list_by_index b
  list_attempts (suc attempts) b =
      let attrs = lib.attributes_answer b.log in
      let b1 = free_if_given attrs.nodes (log_call ContextCall.list_device_attributes b) in
      let b2 = if ltb 0 attempts then log_call (ContextCall.sleeps_ms 80) b1 else b1 in
      let rest = list_attempts attempts b2 in listed_or (listed attrs.count attrs.nodes) b1 rest

  unfoldable pub list_devices : ContextState → ContextState × List DeviceInfo
  unfolding list_attempts
  list_devices b = if not b.has_ctx then (b, []) else list_attempts 4 b

-- `std::stoi`: `none` is an exception, for no digits or for a number that is no `int`.
unfoldable pub int_of_digits : Bool → String → Option ℤ
unfolding read_number
int_of_digits negative empty = none
int_of_digits negative (cons c s) =
    let n = read_number 0 (cons c s) in
    if not (is_digit_code (code c))
    then none
    else if negative
    then (if ltb (2 ^ 31) n then none else some (sub_ℕ 0 n))
    else if ltb (2 ^ 31 - 1) n
    then none
    else some (pos n)

unfoldable pub int_of_sign : String → Option ℤ
unfolding int_of_digits
int_of_sign empty = none
int_of_sign (cons c s) =
    if code c == 45
    then int_of_digits true s
    else if code c == 43
    then int_of_digits false s
    else int_of_digits false (cons c s)

abbrev pub is_white_code : ℕ → Bool
is_white_code c = (c == 32) || (leb 9 c && leb c 13)

unfoldable pub stoi : String → Option ℤ
unfolding int_of_sign
stoi empty = none
stoi (cons c s) =
    let rest = stoi s in if is_white_code (code c) then rest else int_of_sign (cons c s)

-- `serial.substr(12)`, for a serial that starts with the 12 characters of "DeviceIndex-".
unfoldable pub drop_text : ℕ → String → String
drop_text zero s = s
drop_text (suc n) empty = empty
drop_text (suc n) (cons c s) = drop_text n s

text_length : String → ℕ
text_length empty = 0
text_length (cons c s) = suc (text_length s)

drop_text-append : (s t : String) → drop_text (text_length s) (str_append s t) ≡ t
unfolding drop_text text_length
drop_text-append empty t = append.nil t
drop_text-append (cons c s) t =
    ap (drop_text (suc (text_length s))) (append.cons c s t) ∙ drop_text-append s t

drop_text-index_serial : (index : ℕ) → drop_text 12 (index_serial index) ≡ to_string index
unfolding index_serial text_length
drop_text-index_serial index = drop_text-append "DeviceIndex-" (to_string index)

-- A text that starts with a digit reads as its number.
StartsWithDigit : String → Type 0
StartsWithDigit s = (d : ℕ) × (rest : String) × (d < 10) × (s ≡ cons (digit_char d) rest)

digits_before-StartsWithDigit :
    (fuel n : ℕ) (rest : String) → n < fuel → StartsWithDigit (digits_before fuel n rest)
unfolding digits_before StartsWithDigit
digits_before-StartsWithDigit zero n rest h = absurd (omega arith)
digits_before-StartsWithDigit (suc fuel) n rest h = elim (Bool-cases (ltb n 10)) [
  | inl e ↦ (n % 10, rest, omega arith, rw e refl)
  | inr e ↦
      rw e (
        digits_before-StartsWithDigit fuel (n / 10) (cons (digit_char (n % 10)) rest)
          (ground arith))
]

no_prefix :
    (d : ℕ)
    → d < 10
    → (is_white_code (48 + d) ≡ false)
      × ((48 + d == 45) ≡ false)
      × ((48 + d == 43) ≡ false)
      × (is_digit_code (48 + d) ≡ true)
no_prefix d h = (ground arith, ground arith, ground arith, ground arith)

not_above : (n : ℕ) → n < 2 ^ 31 → ltb (2 ^ 31 - 1) n ≡ false
not_above n h = ground arith

stoi_digits :
    (d : ℕ) (rest : String) {n : ℕ}
    → d < 10
    → read_number 0 (cons (digit_char d) rest) ≡ n
    → n < 2 ^ 31
    → stoi (cons (digit_char d) rest) ≡ some (pos n)
unfolding stoi int_of_sign int_of_digits
stoi_digits d rest {n} h reads fits =
    let (white, minus, plus, digit) = no_prefix d h in
    rw (reads, code-digit_char d h, white, minus, plus, digit, not_above n fits) refl

-- The digits of an `int` that is not negative read as it.
pub stoi-to_string : (n : ℕ) → n < 2 ^ 31 → stoi (to_string n) ≡ some (pos n)
unfolding StartsWithDigit
stoi-to_string n fits =
    let (d, rest, small, e) = digits_before-StartsWithDigit (suc n) n empty (omega arith) in
    ap stoi (to_string_lem n ∙ e)
    ∙ stoi_digits d rest small (ap (read_number 0) (sym e) ∙ read_number-digits n) fits

-- The index in a serial that the backend made up is read back, for every index that is an `int`.
pub stoi-index_serial :
    (index : ℕ)
    → index < 2 ^ 31
    → (starts_with (index_serial index) "DeviceIndex-" ≡ true)
      × (stoi (drop_text 12 (index_serial index)) ≡ some (pos index))
unfolding index_serial
stoi-index_serial index fits = (
  starts_with-append "DeviceIndex-" (to_string index),
  ap stoi (drop_text-index_serial index) ∙ stoi-to_string index fits,
)
