-- ===== src/Cli/Options.antt =====
-- The options of src/main.cpp and the loop over the arguments.
use Prim.Native.String.{String, [] as empty, ◌∷◌ as cons}
use text.Mathlib.Text.{starts_with, ◌==◌ as str_eq}
use mac_kinect_native.Base.{ℕ, suc, Bool, true, false, ◌||◌, Option, none, some, List, [], ◌∷◌}
use mac_kinect_native.Base.Tests.{if◌then◌else◌}
use mac_kinect_native.Cli.Numbers.{parse_positive_int}

pub data BackendChoice : Type 0 where
  auto only_v1 only_v2 : BackendChoice

-- `Options`, with the two modes.
pub record Options : Type 0 where
  pub run_preview : Bool
  pub list_devices : Bool
  pub preview_seconds : ℕ
  pub backend : BackendChoice
  pub gui_mode : Bool
  pub cli_mode : Bool

-- The initial values; `gui_mode` is set if there is no argument.
unfoldable pub initial_options : List String → Options
initial_options args = record {
  run_preview = false;
  list_devices = false;
  preview_seconds = 5;
  backend = BackendChoice.auto;
  gui_mode = elim args [ [] ↦ true | arg ∷ rest ↦ false ];
  cli_mode = false;
}

unfoldable pub parse_backend_choice : String → Option BackendChoice
parse_backend_choice raw =
    if str_eq raw "auto"
    then some BackendChoice.auto
    else if str_eq raw "v1"
    then some BackendChoice.only_v1
    else if str_eq raw "v2"
    then some BackendChoice.only_v2
    else none

-- What the arguments come to: `EXIT_SUCCESS` with the usage, `EXIT_FAILURE` with a message, or the
-- options to run with.
pub data Parsed : Type 0 where
  shows_usage : Parsed
  invalid_preview_seconds invalid_backend : String → Parsed
  missing_backend : Parsed
  options : Options → Parsed

-- What the next argument may be: an option, the seconds of `--preview`, or the value of
-- `--backend`.
pub data Expected : Type 0 where
  an_option seconds_or_option a_backend : Expected

pub data Step : Type 0 where
  stops : Parsed → Step
  goes_on : Expected → Options → Step

unfoldable pub set_seconds : String → Option ℕ → Options → Step
set_seconds message none o = Step.stops (invalid_preview_seconds message)
set_seconds message (some n) o = Step.goes_on Expected.an_option (record o { preview_seconds = n })

unfoldable pub set_backend : String → Option BackendChoice → Options → Step
set_backend raw none o = Step.stops (invalid_backend raw)
set_backend raw (some choice) o = Step.goes_on Expected.an_option (record o { backend = choice })

-- `text.substr(n)`, for n characters at the front that the caller has tested.
unfoldable pub drop_front : ℕ → String → String
drop_front ℕ.zero s = s
drop_front (suc n) empty = empty
drop_front (suc n) (cons c s) = drop_front n s

-- The options from `--preview` on.
unfoldable pub take_preview : String → Options → Step
unfolding set_seconds drop_front
take_preview arg o =
    if str_eq arg "--preview"
    then Step.goes_on Expected.seconds_or_option (record o { run_preview = true; cli_mode = true })
    else if starts_with arg "--preview="
    then set_seconds arg (parse_positive_int (drop_front 10 arg))
        (record o { run_preview = true; cli_mode = true })
    else if str_eq arg "--backend"
    then Step.goes_on Expected.a_backend o
    else Step.goes_on Expected.an_option o

unfoldable pub take_option : String → Options → Step
unfolding take_preview
take_option arg o =
    if str_eq arg "--help" || str_eq arg "-h"
    then Step.stops shows_usage
    else if str_eq arg "--gui"
    then Step.goes_on Expected.an_option (record o { gui_mode = true })
    else if str_eq arg "--list"
    then Step.goes_on Expected.an_option (record o { list_devices = true; cli_mode = true })
    else take_preview arg o

-- One argument.
unfoldable pub take_argument : Expected → String → Options → Step
unfolding take_option set_backend set_seconds
take_argument Expected.an_option arg o = take_option arg o
take_argument Expected.seconds_or_option arg o =
    if starts_with arg "-" then take_option arg o else set_seconds arg (parse_positive_int arg) o
take_argument Expected.a_backend arg o = set_backend arg (parse_backend_choice arg) o

-- The loop.
unfoldable pub parse_from : Expected → List String → Options → Parsed
unfolding take_argument
parse_from Expected.a_backend [] o = missing_backend
parse_from _ [] o = options o
parse_from expected (arg ∷ args) o = elim (take_argument expected arg o) [
  | Step.stops parsed ↦ parsed
  | Step.goes_on next o1 ↦ parse_from next args o1
]

unfoldable pub parse : List String → Parsed
unfolding parse_from initial_options
parse args = parse_from Expected.an_option args (initial_options args)
