-- ===== src/Cli/Run.antt =====
-- `main` of src/main.cpp after the arguments. A backend is a parameter: what it answers.
use Prim.Native.String.{String}
use mac_kinect_native.Base.{ℕ, ◌+◌, Bool, true, false, not, ◌&&◌, List, [], ◌∷◌, ◌++◌}
use mac_kinect_native.Base.Tests.{◌==◌, if◌then◌else◌}
use mac_kinect_native.Base.Lists.{is_empty}
use mac_kinect_native.Backend.{KinectGeneration, DeviceInfo}
use mac_kinect_native.Cli.Options.{BackendChoice, Options, Parsed, parse}

pub record Backend : Type 0 where
  pub generation : KinectGeneration
  pub available : Bool
  pub devices : List DeviceInfo

-- The calls on a backend; a preview with its seconds.
pub data BackendCall : Type 0 where
  probes lists : KinectGeneration → BackendCall
  previews : KinectGeneration → ℕ → BackendCall

unfoldable pub matches_choice : KinectGeneration → BackendChoice → Bool
matches_choice generation BackendChoice.auto = true
matches_choice KinectGeneration.v1 BackendChoice.only_v1 = true
matches_choice KinectGeneration.v2 BackendChoice.only_v1 = false
matches_choice KinectGeneration.v1 BackendChoice.only_v2 = false
matches_choice KinectGeneration.v2 BackendChoice.only_v2 = true

-- The body of the loop for a backend that matches.
unfoldable pub visit : Options → Backend → List BackendCall
visit o b =
    let preview =
      if o.run_preview then BackendCall.previews b.generation o.preview_seconds ∷ [] else [] in
    if not b.available
    then BackendCall.probes b.generation ∷ []
    else if is_empty b.devices
    then BackendCall.probes b.generation ∷ BackendCall.lists b.generation ∷ []
    else BackendCall.probes b.generation ∷ BackendCall.lists b.generation ∷ preview

-- The loop: `selected_backends` and the calls.
unfoldable pub visit_all : Options → List Backend → ℕ × List BackendCall
visit_all o [] = (0, [])
visit_all o (b ∷ bs) =
    let rest = visit_all o bs in
    if not (matches_choice b.generation o.backend) then rest else (rest.0 + 1, visit o b ++ rest.1)

pub data Outcome : Type 0 where
  runs_gui : Outcome
  -- `EXIT_SUCCESS` or `EXIT_FAILURE`, after these calls.
  exits : Bool → List BackendCall → Outcome

unfoldable pub run_cli : Options → List Backend → Outcome
unfolding visit_all
run_cli o backends =
    let visited = visit_all o backends in
    if visited.0 == 0 then Outcome.exits false visited.1 else Outcome.exits true visited.1

unfoldable pub run_parsed : Parsed → List Backend → Outcome
unfolding run_cli
run_parsed Parsed.shows_usage backends = Outcome.exits true []
run_parsed (Parsed.invalid_preview_seconds text) backends = Outcome.exits false []
run_parsed (Parsed.invalid_backend text) backends = Outcome.exits false []
run_parsed Parsed.missing_backend backends = Outcome.exits false []
run_parsed (Parsed.options o) backends =
    if o.gui_mode && not o.cli_mode then Outcome.runs_gui else run_cli o backends

unfoldable pub main : List String → Backend → Backend → Outcome
unfolding run_parsed parse
main args v1_backend v2_backend = run_parsed (parse args) (v1_backend ∷ v2_backend ∷ [])
