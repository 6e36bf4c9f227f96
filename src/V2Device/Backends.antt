-- ===== src/V2Device/Backends.antt =====
-- `FreenectV2Backend` of src/backends/freenect_v2_backend.cpp. Its context is a parameter: how many
-- devices an enumeration finds, and the serial of each.
use Prim.Native.String.{String, [] as empty, ◌∷◌ as cons, ◌++◌ as str_append}
use mac_kinect_native.Base.{
  ℕ, zero, suc, ◌+◌, Bool, true, false, not, Option, none, some, List, [], ◌∷◌,
}
use mac_kinect_native.Base.Tests.{ltb, if◌then◌else◌}
use mac_kinect_native.Base.Lists.{is_empty, tabulate}
use mac_kinect_native.Base.Int.{ℤ, pos, pos_part, ltb_ℤ}
use mac_kinect_native.Base.Decimal.{to_string}
use mac_kinect_native.Backend.{KinectGeneration, DeviceInfo, FrameData, ProbeResult, PreviewResult}
use mac_kinect_native.Float32.{Float32}
use mac_kinect_native.V2Device.State.{Freenect2, Device, new_device}
use mac_kinect_native.V2Device.Methods.{get_frame, open_handle, start, stop, destroy, update}

pub record Context (fl : Float32) : Type 0 where
  pub device_count : ℤ
  pub device_serial : ℕ → String
  pub library : Freenect2 fl

abbrev pub is_empty_text : String → Bool
is_empty_text empty = true
is_empty_text (cons c s) = false

-- The counts of a preview so far.
pub record FrameCounts : Type 0 where
  pub colors : ℕ
  pub depths : ℕ

unfoldable pub add_frame : Option FrameData → FrameCounts → FrameCounts
add_frame none n = n
add_frame (some f) n = record {
  colors = if not (is_empty f.rgb) then n.colors + 1 else n.colors;
  depths = if not (is_empty f.depth) then n.depths + 1 else n.depths;
}

-- A preview that captured nothing, for this reason.
abbrev pub no_preview : String → PreviewResult
no_preview detail = record { success = false; detail = detail; color_frames = 0; depth_frames = 0 }

module _ (fl : Float32) (ctx : Context fl) where
  unfoldable pub probe : ProbeResult
  unfolding to_string
  probe =
      if not (ltb_ℤ (pos 0) ctx.device_count)
      then record { available = false; detail = "No Kinect v2 devices found." }
      else record {
        available = true;
        detail =
            str_append (to_string (pos_part ctx.device_count)) " Kinect v2 device(s) detected.";
      }

  unfoldable pub list_devices : List DeviceInfo
  list_devices = tabulate (pos_part ctx.device_count) 0 info
    where
      info : ℕ → DeviceInfo
      info i = record {
        generation = KinectGeneration.v2;
        serial = ctx.device_serial i;
        name = "Kinect v2";
      }

  -- `none` is null. A device that does not open is destroyed.
  unfoldable pub open_device : String → Option Device
  unfolding open_handle new_device
  open_device serial =
      let (d, opened) = open_handle fl ctx.library (new_device true serial) in
      if is_empty_text serial then none else if not opened then none else some d

  -- One round of the loop: a frame is taken only after an update that brought one.
  unfoldable pub preview_round : Device → FrameCounts → Device × FrameCounts
  unfolding update get_frame add_frame
  preview_round d n =
      let (d1, updated) = update fl ctx.library d in
      let (d2, frame) = get_frame d1 in if updated then (d2, add_frame frame n) else (d1, n)

  unfoldable pub preview_rounds : ℕ → Device → FrameCounts → Device × FrameCounts
  preview_rounds zero d n = (d, n)
  preview_rounds (suc rounds) d n = let r = preview_round d n in preview_rounds rounds r.0 r.1

  -- From the opened device on: the device as its destructor leaves it, and the result. The rounds are
  -- those that the clock allows.
  unfoldable pub preview_device : ℕ → Device → Device × PreviewResult
  unfolding start preview_rounds stop destroy
  preview_device rounds d =
      let (d1, started) = start fl ctx.library d in
      let (d2, n) = preview_rounds rounds d1 (record { colors = 0; depths = 0 }) in
      let success = ltb 0 (n.colors + n.depths) in
      if not started
      then (destroy fl ctx.library d1, no_preview "Could not start Kinect v2 preview.")
      else (
        destroy fl ctx.library (stop fl ctx.library d2).0,
        record {
          success = success;
          detail = if success then "Preview captured." else "No frames captured.";
          color_frames = n.colors;
          depth_frames = n.depths;
        },
      )

  abbrev pub preview_opened : ℕ → Option Device → PreviewResult
  preview_opened rounds none = no_preview "Could not start Kinect v2 preview."
  preview_opened rounds (some d) = (preview_device rounds d).1

  abbrev pub preview_first : ℕ → List DeviceInfo → PreviewResult
  preview_first rounds [] = no_preview "No Kinect v2 device available for preview."
  preview_first rounds (info ∷ devices) = preview_opened rounds (open_device info.serial)

  unfoldable pub preview : ℕ → PreviewResult
  unfolding list_devices open_device preview_device
  preview rounds = preview_first rounds list_devices
