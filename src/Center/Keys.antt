-- ===== src/Center/Keys.antt =====
-- `keyPressed` of src/control_center_v1.cpp, and `ShutdownAndExit`.
use mac_kinect_native.Base.{ℕ, Bool, true, false, not, ◌||◌}
use mac_kinect_native.Base.Tests.{◌==◌, if◌then◌else◌}
use mac_kinect_native.Base.Int.{pos, ◌+ℤ◌, ◌-ℤ◌, min_ℤ, max_ℤ}
use mac_kinect_native.Center.Formats.{VideoFormat, DepthFormat, Led, is_rgb, is_registered}
use mac_kinect_native.Center.Settings.{
  Command, Freenect, Status, Center, set_status, tell, apply_tilt, apply_mirror,
  apply_auto_exposure_bundle, apply_white_balance, apply_manual_exposure, apply_ir_brightness,
}
use mac_kinect_native.Center.Thread.{thread_finish}

-- The functions of the file outside the settings that a key calls.
pub data Callee : Type 0 where
  nothing print_help toggle_audio_recording capture_frame_bundle : Callee

abbrev pub is_letter : ℕ → ℕ → ℕ → Bool
is_letter lower upper key = (key == lower) || (key == upper)

abbrev pub escape : ℕ
escape = 27

unfoldable pub cycle_video : Center → Center
cycle_video c =
    let format = if is_rgb c.requested_video_format then VideoFormat.yuv_rgb else VideoFormat.rgb in
    set_status (Status.requested_video_mode format) (record c { requested_video_format = format })

unfoldable pub cycle_depth : Center → Center
cycle_depth c =
    let format =
      if is_registered c.requested_depth_format then DepthFormat.mm else DepthFormat.registered in
    set_status (Status.requested_depth_mode format) (record c { requested_depth_format = format })

module _ (lib : Freenect) where
  -- `ShutdownAndExit` waits until the thread has ended; what it frees is in Center.Freed.
  unfoldable pub shutdown_and_exit : Center → Center
  unfolding thread_finish
  shutdown_and_exit c =
      let c1 = record c { die = true } in
      let c2 = if c1.thread_ended then c1 else thread_finish lib c1 in
      record (tell lib Command.stop_audio_recording_locked c2) { exited = true }

  unfoldable pub add_tilt : Bool → Center → Center
  unfolding apply_tilt
  add_tilt up c =
      let angle = if up then c.freenect_angle +ℤ pos 2 else c.freenect_angle -ℤ pos 2 in
      set_status (if up then Status.tilt_increased else Status.tilt_decreased)
        (apply_tilt lib (record c { freenect_angle = angle }))

  unfoldable pub center_tilt : Center → Center
  unfolding apply_tilt
  center_tilt c =
      set_status Status.tilt_centered (apply_tilt lib (record c { freenect_angle = pos 0 }))

  unfoldable pub toggle_mirror : Center → Center
  unfolding apply_mirror
  toggle_mirror c =
      let c1 = apply_mirror lib (record c { mirror = not c.mirror }) in
      set_status (Status.mirror_set c1.mirror) c1

  unfoldable pub toggle_auto_exposure : Center → Center
  unfolding apply_auto_exposure_bundle apply_manual_exposure
  toggle_auto_exposure c =
      let c1 = apply_auto_exposure_bundle lib (record c { auto_exposure = not c.auto_exposure }) in
      let c2 = apply_manual_exposure lib c1 in
      set_status (Status.auto_exposure_set c2.auto_exposure) c2

  unfoldable pub toggle_white_balance : Center → Center
  unfolding apply_white_balance
  toggle_white_balance c =
      let c1 =
        apply_white_balance lib (record c { auto_white_balance = not c.auto_white_balance }) in
      set_status (Status.auto_white_balance_set c1.auto_white_balance) c1

  unfoldable pub add_exposure : Bool → Center → Center
  unfolding apply_manual_exposure
  add_exposure up c =
      let us =
        if up
        then min_ℤ (pos 200000) (c.manual_exposure_us +ℤ pos 1000)
        else max_ℤ (pos 1000) (c.manual_exposure_us -ℤ pos 1000) in
      let c1 = apply_manual_exposure lib (record c { manual_exposure_us = us }) in
      set_status (Status.manual_exposure_set c1.manual_exposure_us) c1

  unfoldable pub add_brightness : Bool → Center → Center
  unfolding apply_ir_brightness
  add_brightness up c =
      let brightness = if up then c.ir_brightness +ℤ pos 1 else c.ir_brightness -ℤ pos 1 in
      let c1 = apply_ir_brightness lib (record c { ir_brightness = brightness }) in
      set_status (Status.ir_brightness_set c1.ir_brightness) c1

  -- The device is not tested here.
  unfoldable pub choose_led : Led → Center → Center
  choose_led led c =
      set_status (Status.led_set led) (tell lib (Command.set_led led) (record c { led_mode = led }))

  -- The keys that choose a LED mode.
  unfoldable pub digit_pressed : ℕ → Center → Center
  unfolding choose_led
  digit_pressed key c =
      if key == b'0'
      then choose_led Led.off c
      else if key == b'1'
      then choose_led Led.green c
      else if key == b'2'
      then choose_led Led.red c
      else if key == b'3'
      then choose_led Led.yellow c
      else if (key == b'4') || (key == b'5')
      then choose_led Led.blink_green c
      else if key == b'6'
      then choose_led Led.blink_red_yellow c
      else c

  -- The settings after a key, and what else the key calls.
  unfoldable pub key_pressed : ℕ → Center → Center × Callee
  unfolding shutdown_and_exit add_tilt center_tilt cycle_video cycle_depth toggle_mirror
      toggle_auto_exposure toggle_white_balance add_exposure add_brightness digit_pressed
  key_pressed key c =
      if key == escape
      then (shutdown_and_exit c, nothing)
      else if is_letter b'h' b'H' key
      then (c, print_help)
      else if is_letter b'w' b'W' key
      then (add_tilt true c, nothing)
      else if is_letter b'x' b'X' key
      then (add_tilt false c, nothing)
      else if is_letter b's' b'S' key
      then (center_tilt c, nothing)
      else if is_letter b'v' b'V' key
      then (cycle_video c, nothing)
      else if is_letter b'd' b'D' key
      then (cycle_depth c, nothing)
      else if is_letter b'm' b'M' key
      then (toggle_mirror c, nothing)
      else if is_letter b'e' b'E' key
      then (toggle_auto_exposure c, nothing)
      else if is_letter b'b' b'B' key
      then (toggle_white_balance c, nothing)
      else if is_letter b'n' b'N' key
      then (set_status Status.near_mode_not_supported c, nothing)
      else if key == b'['
      then (add_exposure false c, nothing)
      else if key == b']'
      then (add_exposure true c, nothing)
      else if key == b'-'
      then (add_brightness false c, nothing)
      else if key == b'='
      then (add_brightness true c, nothing)
      else if is_letter b'a' b'A' key
      then (c, toggle_audio_recording)
      else if is_letter b'c' b'C' key
      then (c, capture_frame_bundle)
      else (digit_pressed key c, nothing)
