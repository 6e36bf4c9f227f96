-- ===== src/V1Backend/Context.antt =====
-- A `FreenectV1Backend` of src/backends/freenect_v1_backend.cpp, and how it counts the devices.
-- libfreenect is a parameter: what it answers may depend on all the calls that came before.
use Prim.Native.String.{String, ◌++◌ as str_append}
use mac_kinect_native.Base.{ℕ, zero, suc, Bool, true, false, not, Option, List, [], ◌∷◌}
use mac_kinect_native.Base.Tests.{ltb, ◌==◌, if◌then◌else◌}
use mac_kinect_native.Base.Int.{ℤ, pos, negsuc, pos_part, ltb_ℤ, max_ℤ}
use mac_kinect_native.Base.Decimal.{to_string}
use mac_kinect_native.Backend.{ProbeResult}
use mac_kinect_native.V1Device.Calls.{Library}
use mac_kinect_native.V1Backend.Firmware.{Environment, is_empty_text, find_firmware_directory}

pub data ContextCall : Type 0 where
  inits shuts_down sets_log_level : ContextCall
  sets_firmware_path : String → ContextCall
  -- Whether the audio is selected with the camera and the motor.
  selects_subdevices : Bool → ContextCall
  num_devices : ContextCall
  list_device_attributes : ContextCall
  free_device_attributes : ContextCall
  sleeps_ms : ℕ → ContextCall
  tries_open : ℤ → String → ContextCall

abbrev pub ContextLog : Type 0
ContextLog = List ContextCall

-- The nodes of a list of attributes: the camera serial of each, or a null pointer.
pub record Attributes : Type 0 where
  pub count : ℤ
  pub nodes : Option (List (Option String))

pub record Freenect1 : Type 0 where
  pub count_answer : ContextLog → ℤ
  pub attributes_answer : ContextLog → Attributes
  -- How the library treats a device that is opened after these calls.
  pub device_library : ContextLog → Library

pub record ContextState : Type 0 where
  pub has_ctx : Bool
  pub has_audio_firmware : Bool
  -- No field of the source.
  pub log : ContextLog

abbrev pub log_call : ContextCall → ContextState → ContextState
log_call c b = record b { log = c ∷ b.log }

-- The constructor; `freenect_init` may fail.
unfoldable pub new_backend : Bool → Environment → ContextState
unfolding find_firmware_directory
new_backend inits_well env =
    let dir = find_firmware_directory env in
    let has_audio = not (is_empty_text dir) in
    let b : ContextState = record {
      has_ctx = true;
      has_audio_firmware = has_audio;
      log = ContextCall.inits ∷ [];
    } in
    let b1 = log_call ContextCall.sets_log_level b in
    let b2 = if has_audio then log_call (ContextCall.sets_firmware_path dir) b1 else b1 in
    if not inits_well
    then record { has_ctx = false; has_audio_firmware = false; log = ContextCall.inits ∷ [] }
    else log_call (ContextCall.selects_subdevices has_audio) b2

-- The destructor.
unfoldable pub destroy_backend : ContextState → ContextState
destroy_backend b =
    if b.has_ctx then record (log_call ContextCall.shuts_down b) { has_ctx = false } else b

abbrev pub is_zero : ℤ → Bool
is_zero (pos n) = n == 0
is_zero (negsuc n) = false

module _ (lib : Freenect1) where
  -- The rounds that are left; the last one does not sleep.
  unfoldable pub count_rounds : ℕ → ℕ → ContextState → ContextState × ℤ
  count_rounds zero delay b = (b, pos 0)
  count_rounds (suc rounds) delay b =
      let count = lib.count_answer b.log in
      let b1 = log_call ContextCall.num_devices b in
      let rest =
        count_rounds rounds delay
          (if ltb 0 rounds then log_call (ContextCall.sleeps_ms delay) b1 else b1) in
      if not (is_zero count) then (b1, count) else rest

  -- A delay is never negative here.
  unfoldable pub enumerate_count_with_retries : ℤ → ℕ → ContextState → ContextState × ℤ
  unfolding count_rounds
  enumerate_count_with_retries attempts delay b =
      if not b.has_ctx
      then (b, negsuc 0)
      else count_rounds (pos_part (max_ℤ (pos 1) attempts)) delay b

  unfoldable pub probe : ContextState → ContextState × ProbeResult
  unfolding enumerate_count_with_retries to_string
  probe b =
      let (b1, count) = enumerate_count_with_retries (pos 4) 80 b in
      let shown = to_string (pos_part count) in
      if not b.has_ctx
      then (b, record { available = false; detail = "libfreenect initialization failed." })
      else if ltb_ℤ count (pos 0)
      then (b1, record { available = false; detail = "Kinect v1 enumeration failed." })
      else if is_zero count
      then (
        b1,
        record {
          available = true;
          detail =
              if b.has_audio_firmware
              then "Backend ready. No Kinect v1 devices are currently attached."
              else "Backend ready (camera/depth only). No Kinect v1 devices are currently attached.";
        },
      )
      else if not b.has_audio_firmware
      then (
        b1,
        record {
          available = true;
          detail =
              str_append shown
                " Kinect v1 device(s) detected. Audio disabled because audios.bin firmware was not found.";
        },
      )
      else (
        b1,
        record { available = true; detail = str_append shown " Kinect v1 device(s) detected." },
      )
