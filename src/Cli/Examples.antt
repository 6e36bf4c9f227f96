-- ===== src/Cli/Examples.antt =====
-- The theorems on the command line at concrete arguments.
use Prim.Native.String.{String}
use mac_kinect_native.Base.{◌≡◌, refl, true, false, List, [], ◌∷◌}
use mac_kinect_native.Backend.{KinectGeneration}
use mac_kinect_native.Cli.Numbers.{
  parse_positive_int, read_sign, read_positive, read_digits, is_digit, is_space,
}
use mac_kinect_native.Cli.Options.{
  BackendChoice, Options, parse, parse_from, initial_options, options, take_argument, take_option,
  take_preview, set_seconds, set_backend, parse_backend_choice, drop_front,
}
use mac_kinect_native.Cli.Run.{Backend}
use mac_kinect_native.Cli.Seconds.{IsSeconds, parse-IsSeconds}

abbrev arguments : List String
arguments = "--preview" ∷ "12" ∷ "--backend" ∷ "v2" ∷ []

abbrev wanted : Options
wanted = record {
  run_preview = true;
  list_devices = false;
  preview_seconds = 12;
  backend = BackendChoice.only_v2;
  gui_mode = false;
  cli_mode = true;
}

arguments_parsed : parse arguments ≡ options wanted
unfolding parse parse_from initial_options take_argument take_option take_preview set_seconds
    set_backend parse_backend_choice drop_front parse_positive_int read_sign read_positive
    read_digits is_digit is_space
arguments_parsed = refl

abbrev camera_of : KinectGeneration → Backend
camera_of g = record {
  generation = g;
  available = true;
  devices = record { generation = g; serial = "A001"; name = "Kinect" } ∷ [];
}

parse-IsSeconds_example : IsSeconds wanted.preview_seconds
parse-IsSeconds_example = parse-IsSeconds arguments arguments_parsed
