-- ===== src/Cli/Outcomes.antt =====
-- What the command line of src/main.cpp comes to.
use Prim.Native.String.{String}
use mac_kinect_native.Base.{ℕ, ◌+◌, Bool, not, List, [], ◌++◌}
use mac_kinect_native.Base.Tests.{if◌then◌else◌}
use mac_kinect_native.Cli.Options.{BackendChoice, Options}
use mac_kinect_native.Cli.Run.{Backend, BackendCall, visit}

-- The calls for a choice, of a backend for each generation.
abbrev pub chosen_calls : Options → Backend → Backend → BackendChoice → List BackendCall
chosen_calls o b1 b2 BackendChoice.auto = visit o b1 ++ visit o b2
chosen_calls o b1 b2 BackendChoice.only_v1 = visit o b1
chosen_calls o b1 b2 BackendChoice.only_v2 = visit o b2

-- The loop over both backends, by whether each matches.
abbrev both_calls : Options → Backend → Backend → Bool → Bool → ℕ × List BackendCall
both_calls o b1 b2 m1 m2 =
    let rest = if not m2 then (0, []) else (1, visit o b2 ++ []) in
    if not m1 then rest else (rest.0 + 1, visit o b1 ++ rest.1)
