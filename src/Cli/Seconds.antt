-- ===== src/Cli/Seconds.antt =====
-- The seconds of a preview that the arguments of src/main.cpp give.
use Prim.Native.String.{String, [] as empty, ◌∷◌ as cons}
use Prim.Native.Char.{code}
use text.Mathlib.Text.{starts_with, ◌==◌ as str_eq}
use mac_kinect_native.Base.{
  ℕ, ◌-◌, ◌^◌, ◌<◌, ◌≡◌, Bool, true, false, not, ◌||◌, Option, none, some, List, [], ◌∷◌, arith,
}
use mac_kinect_native.Base.Tests.{ltb, ◌==◌, if_rule}
use mathlib.Core.Path.{subst}
use mac_kinect_native.Cli.Numbers.{
  is_space, is_digit, read_digits, read_positive, read_sign, parse_positive_int,
}
use mac_kinect_native.Cli.Options.{
  BackendChoice, Options, Parsed, shows_usage, options, Expected, Step, take_argument, take_option,
  take_preview, set_seconds, set_backend, parse_backend_choice, parse_from, parse, initial_options,
  drop_front,
}

-- A number of seconds that an `int` above 0 holds.
abbrev pub IsSeconds : ℕ → Type 0
IsSeconds n = (0 < n) × (n < 2 ^ 31)

abbrev AllSeconds : Option ℕ → Type 0
AllSeconds none = Unit
AllSeconds (some n) = IsSeconds n

read_positive-AllSeconds : (negative : Bool) (s : String) → AllSeconds (read_positive negative s)
unfolding read_positive
read_positive-AllSeconds negative empty = tt
read_positive-AllSeconds negative (cons c s) =
    let n = read_digits 0 (cons c s) in
    if_rule AllSeconds (not (is_digit (code c))) none (λ _. tt)
      (λ _.
        if_rule AllSeconds (negative || (n == 0)) none (λ _. tt)
          (λ pos. if_rule AllSeconds (ltb (2 ^ 31 - 1) n) none (λ _. tt) (λ small. ground arith)))

read_sign-AllSeconds : (s : String) → AllSeconds (read_sign s)
unfolding read_sign
read_sign-AllSeconds empty = tt
read_sign-AllSeconds (cons c s) =
    if_rule AllSeconds (code c == 45) _ (λ _. read_positive-AllSeconds true s)
      (λ _.
        if_rule AllSeconds (code c == 43) _ (λ _. read_positive-AllSeconds false s)
          (λ _. read_positive-AllSeconds false (cons c s)))

parse_positive_int-AllSeconds : (s : String) → AllSeconds (parse_positive_int s)
unfolding parse_positive_int
parse_positive_int-AllSeconds empty = tt
parse_positive_int-AllSeconds (cons c s) =
    if_rule AllSeconds (is_space (code c)) _ (λ _. parse_positive_int-AllSeconds s)
      (λ _. read_sign-AllSeconds (cons c s))

-- The options that a result carries have such a number.
abbrev HasSeconds : Parsed → Type 0
HasSeconds (Parsed.options o) = IsSeconds o.preview_seconds
HasSeconds _ = Unit

abbrev KeepsSeconds : Step → Type 0
KeepsSeconds (Step.stops p) = HasSeconds p
KeepsSeconds (Step.goes_on e o) = IsSeconds o.preview_seconds

set_seconds-KeepsSeconds :
    (message : String) (n : Option ℕ) (o : Options)
    → AllSeconds n
    → KeepsSeconds (set_seconds message n o)
unfolding set_seconds
set_seconds-KeepsSeconds message none o h = tt
set_seconds-KeepsSeconds message (some n) o h = h

set_backend-KeepsSeconds :
    (raw : String) (choice : Option BackendChoice) (o : Options)
    → IsSeconds o.preview_seconds
    → KeepsSeconds (set_backend raw choice o)
unfolding set_backend
set_backend-KeepsSeconds raw none o h = tt
set_backend-KeepsSeconds raw (some choice) o h = h

take_preview-KeepsSeconds :
    (arg : String) (o : Options) → IsSeconds o.preview_seconds → KeepsSeconds (take_preview arg o)
unfolding take_preview
take_preview-KeepsSeconds arg o h =
    let o1 = record o { run_preview = true; cli_mode = true } in
    if_rule KeepsSeconds (str_eq arg "--preview") (Step.goes_on Expected.seconds_or_option o1)
      (λ _. h)
      (λ _.
        if_rule KeepsSeconds (starts_with arg "--preview=")
          (set_seconds arg (parse_positive_int (drop_front 10 arg)) o1)
          (λ _.
            set_seconds-KeepsSeconds arg (parse_positive_int (drop_front 10 arg)) o1
              (parse_positive_int-AllSeconds (drop_front 10 arg)))
          (λ _.
            if_rule KeepsSeconds (str_eq arg "--backend") (Step.goes_on Expected.a_backend o)
              (λ _. h) (λ _. h)))

take_option-KeepsSeconds :
    (arg : String) (o : Options) → IsSeconds o.preview_seconds → KeepsSeconds (take_option arg o)
unfolding take_option
take_option-KeepsSeconds arg o h =
    if_rule KeepsSeconds (str_eq arg "--help" || str_eq arg "-h") (Step.stops shows_usage) (λ _. tt)
      (λ _.
        if_rule KeepsSeconds (str_eq arg "--gui")
          (Step.goes_on Expected.an_option (record o { gui_mode = true })) (λ _. h)
          (λ _.
            if_rule KeepsSeconds (str_eq arg "--list")
              (Step.goes_on Expected.an_option (record o { list_devices = true; cli_mode = true }))
              (λ _. h) (λ _. take_preview-KeepsSeconds arg o h)))

take_argument-KeepsSeconds :
    (e : Expected) (arg : String) (o : Options)
    → IsSeconds o.preview_seconds
    → KeepsSeconds (take_argument e arg o)
unfolding take_argument
take_argument-KeepsSeconds Expected.an_option arg o h = take_option-KeepsSeconds arg o h
take_argument-KeepsSeconds Expected.seconds_or_option arg o h =
    if_rule KeepsSeconds (starts_with arg "-") (take_option arg o)
      (λ _. take_option-KeepsSeconds arg o h)
      (λ _.
        set_seconds-KeepsSeconds arg (parse_positive_int arg) o (parse_positive_int-AllSeconds arg))
take_argument-KeepsSeconds Expected.a_backend arg o h =
    set_backend-KeepsSeconds arg (parse_backend_choice arg) o h

parse_from-HasSeconds :
    (e : Expected) (args : List String) (o : Options)
    → IsSeconds o.preview_seconds
    → HasSeconds (parse_from e args o)
unfolding parse_from
parse_from-HasSeconds Expected.a_backend [] o h = tt
parse_from-HasSeconds Expected.an_option [] o h = h
parse_from-HasSeconds Expected.seconds_or_option [] o h = h
parse_from-HasSeconds e (arg ∷ args) o h =
    after (take_argument e arg o) (take_argument-KeepsSeconds e arg o h)
      (λ e1 o1 k. parse_from-HasSeconds e1 args o1 k)
  where
    after :
        (s : Step)
        → KeepsSeconds s
        → ((e1 : Expected) (o1 : Options)
            → IsSeconds o1.preview_seconds
            → HasSeconds (parse_from e1 args o1))
        → HasSeconds
            (elim s [ Step.stops parsed ↦ parsed | Step.goes_on next o1 ↦ parse_from next args o1 ])
    after (Step.stops p) k ih = k
    after (Step.goes_on e1 o1) k ih = ih e1 o1 k

-- Whatever the arguments, if they are accepted then the seconds of a preview are above 0 and fit an
-- `int`.
pub parse-IsSeconds :
    (args : List String) {o : Options} → parse args ≡ options o → IsSeconds o.preview_seconds
unfolding parse initial_options
parse-IsSeconds args e = subst HasSeconds e (
    parse_from-HasSeconds Expected.an_option args (initial_options args) (omega arith, omega arith))
