-- ===== src/V1Backend/Firmware.antt =====
-- The search for the audio firmware in src/backends/freenect_v1_backend.cpp. The file system and the
-- environment are parameters.
use Prim.Native.String.{String, [] as empty, ◌∷◌ as cons, ◌++◌ as str_append}
use Prim.Native.Char.{code}
use mac_kinect_native.Base.{
  ◌≡◌, ◌⊎◌, inl, inr, refl, Bool, true, false, not, ◌||◌, Option, none, some, List, [], ◌∷◌, ◌++◌,
}
use mac_kinect_native.Base.Tests.{◌==◌, if◌then◌else◌, if_rule}

pub record Environment : Type 0 where
  -- `LIBFREENECT_FIRMWARE_PATH`.
  pub firmware_path : Option String
  -- What `BundleResourcesDir` returns: empty where there is no bundle.
  pub bundle_resources : String
  -- The current path, or `none` if it has an error.
  pub current_path : Option String
  pub exists : String → Bool

abbrev pub is_empty_text : String → Bool
is_empty_text empty = true
is_empty_text (cons c s) = false

unfoldable pub ends_with_slash : String → Bool
ends_with_slash empty = false
ends_with_slash (cons c s) = if is_empty_text s then code c == 47 else ends_with_slash s

-- `path / name` of `std::filesystem`, for a relative name.
unfoldable pub join : String → String → String
unfolding ends_with_slash
join dir name =
    if is_empty_text dir || ends_with_slash dir
    then str_append dir name
    else str_append dir (str_append "/" name)

module _ (env : Environment) where
  unfoldable pub firmware_exists_in_dir : String → Bool
  unfolding join
  firmware_exists_in_dir dir =
      if is_empty_text dir then false else env.exists (join dir "audios.bin")

  abbrev pub under_resources : List String
  under_resources =
      if not (is_empty_text env.bundle_resources)
      then join env.bundle_resources "libfreenect" ∷ env.bundle_resources ∷ []
      else []

  abbrev pub under_current_path : Option String → List String
  under_current_path none = []
  under_current_path (some cwd) =
      join cwd ".libfreenect"
      ∷ join cwd "libfreenect"
      ∷ join cwd "../libfreenect/src"
      ∷ join cwd "../libfreenect"
      ∷ []

  unfoldable pub firmware_candidates : List String
  unfolding join
  firmware_candidates =
      (under_resources ++ under_current_path env.current_path)
      ++ ("/usr/local/share/libfreenect" ∷ "/usr/share/libfreenect"
          ∷ "/opt/homebrew/share/libfreenect" ∷ [])

  unfoldable pub first_with_firmware : List String → String
  first_with_firmware [] = ""
  first_with_firmware (dir ∷ dirs) =
      let rest = first_with_firmware dirs in if firmware_exists_in_dir dir then dir else rest

  abbrev pub from_environment : Option String → Option String
  from_environment none = none
  from_environment (some dir) = if firmware_exists_in_dir dir then some dir else none

  abbrev pub or_search : Option String → String
  or_search none = first_with_firmware firmware_candidates
  or_search (some dir) = dir

  unfoldable pub find_firmware_directory : String
  unfolding firmware_exists_in_dir firmware_candidates first_with_firmware
  find_firmware_directory = or_search (from_environment env.firmware_path)

  -- A directory that has the firmware, or the empty text.
  abbrev HasFirmware : String → Type 0
  HasFirmware dir = (dir ≡ "") ⊎ (firmware_exists_in_dir dir ≡ true)

  first_with_firmware_found : (dirs : List String) → HasFirmware (first_with_firmware dirs)
  unfolding first_with_firmware
  first_with_firmware_found [] = inl refl
  first_with_firmware_found (dir ∷ dirs) =
      if_rule HasFirmware (firmware_exists_in_dir dir) dir (λ found. inr found)
        (λ _. first_with_firmware_found dirs)

  -- A directory that is found has the firmware.
  pub find_firmware_directory_found : HasFirmware find_firmware_directory
  unfolding find_firmware_directory
  find_firmware_directory_found = by_environment env.firmware_path
    where
      by_environment : (path : Option String) → HasFirmware (or_search (from_environment path))
      by_environment none = first_with_firmware_found firmware_candidates
      by_environment (some dir) =
          if_rule (λ o. HasFirmware (or_search o)) (firmware_exists_in_dir dir) (some dir)
            (λ found. inr found) (λ _. first_with_firmware_found firmware_candidates)
