-- ===== src/V1Device/Commands.antt =====
-- The values that a Kinect v1 device is commanded to take, over any calls of its methods
-- (src/backends/freenect_v1_backend.cpp).
use mac_kinect_native.Base.{◌≡◌, Bool, List, [], ◌∷◌, Option, arith}
use mac_kinect_native.Base.Lists.{All}
use mac_kinect_native.Base.Int.{pos, negsuc, ◌≤ℤ◌, le-clamp, clamp-le}
use mac_kinect_native.V1Device.Calls.{
  Rc, Call, Log, Callback, depth_frame, video_frame, audio_frame, Library,
}
use mac_kinect_native.V1Device.State.{Device}
use mac_kinect_native.V1Device.Streaming.{
  issue, apply_video_mode, start_video_if_needed, set_audio_enabled, set_running, start, stop,
}
use mac_kinect_native.V1Device.Controls.{
  set_stream_kind, set_tilt, set_led, set_mirror, set_auto_exposure, set_auto_white_balance,
  set_near_mode, set_manual_exposure_us, set_ir_brightness,
}
use mac_kinect_native.V1Device.Frames.{
  run_callback, run_callbacks, get_frame, switch_if_requested, update,
}
use mac_kinect_native.V1Device.Methods.{Method, call_method, call_methods}
use mac_kinect_native.V1Device.StartRule.{depth_set, mode_applied, depth_on, video_on, start_rule}

-- The ranges of the hardware: tilt in degrees, LED mode, exposure in microseconds, IR brightness.
abbrev pub IsSafeCall : Call → Type 0
IsSafeCall (Call.set_tilt_degs n) = (negsuc 29 ≤ℤ n) × (n ≤ℤ pos 30)
IsSafeCall (Call.set_led n) = (pos 0 ≤ℤ n) × (n ≤ℤ pos 6)
IsSafeCall (Call.set_exposure n) = (pos 1000 ≤ℤ n) × (n ≤ℤ pos 200000)
IsSafeCall (Call.set_ir_brightness n) = (pos 1 ≤ℤ n) × (n ≤ℤ pos 50)
IsSafeCall _ = Unit

abbrev pub IsSafe : Log → Type 0
IsSafe = All (λ (e : Call × Rc). IsSafeCall e.0)

run_callback_log : (c : Callback) (d : Device) → (run_callback c d).log ≡ d.log
unfolding run_callback
run_callback_log (depth_frame Option.none t) d = ground arith
run_callback_log (depth_frame (Option.some p) t) d = ground arith
run_callback_log (video_frame Option.none t) d = ground arith
run_callback_log (video_frame (Option.some p) t) d = ground arith
run_callback_log (audio_frame n Option.none) d = ground arith
run_callback_log (audio_frame n (Option.some p)) d = ground arith

run_callbacks_log : (cs : List Callback) (d : Device) → (run_callbacks cs d).log ≡ d.log
unfolding run_callbacks
run_callbacks_log [] d = ground arith
run_callbacks_log (c ∷ cs) d =
    ground (arith, run_callback_log c d, run_callbacks_log cs (run_callback c d))

module _ (lib : Library) where
  apply_video_mode-IsSafe : (d : Device) → IsSafe d.log → IsSafe (apply_video_mode lib d).0.log
  unfolding apply_video_mode
  apply_video_mode-IsSafe d h = ground arith

  set_audio_enabled-IsSafe :
      (b : Bool) (d : Device) → IsSafe d.log → IsSafe (set_audio_enabled lib b d).0.log
  unfolding set_audio_enabled
  set_audio_enabled-IsSafe b d h = ground arith

  stop-IsSafe : (d : Device) → IsSafe d.log → IsSafe (stop lib d).0.log
  unfolding stop
  stop-IsSafe d h = ground arith

  start_video_if_needed-IsSafe :
      (d : Device) → IsSafe d.log → IsSafe (start_video_if_needed lib d).0.log
  unfolding start_video_if_needed
  start_video_if_needed-IsSafe d h = ground arith

  set_running-IsSafe : (d : Device) → IsSafe d.log → IsSafe (set_running lib d).log
  unfolding set_running
  set_running-IsSafe d h = ground arith

  set_depth_mode-IsSafe : (d : Device) → IsSafe d.log → IsSafe (depth_set lib d).log
  unfolding issue
  set_depth_mode-IsSafe d h = ground arith

  start_depth-IsSafe : (d : Device) → IsSafe d.log → IsSafe (issue lib Call.start_depth d).0.log
  unfolding issue
  start_depth-IsSafe d h = ground arith

  start-IsSafe : (d : Device) → IsSafe d.log → IsSafe (start lib d).0.log
  start-IsSafe d h =
      let h2 = apply_video_mode-IsSafe (depth_set lib d) (set_depth_mode-IsSafe d h) in
      let h3 = start_depth-IsSafe (mode_applied lib d) h2 in
      let h4 = start_video_if_needed-IsSafe (depth_on lib d) h3 in
      start_rule lib d (λ r. IsSafe r.0.log) (λ _. h) (λ _. h) (λ _. h)
        (λ _. set_depth_mode-IsSafe d h) (λ _. h2) (λ _ _. h3) (λ _ _. h4)
        (λ _ _. set_running-IsSafe (video_on lib d) h4)

  process_events-IsSafe :
      (d : Device) → IsSafe d.log → IsSafe (issue lib (Call.process_events_timeout 2000) d).0.log
  unfolding issue
  process_events-IsSafe d h = ground arith

  switch_if_requested-IsSafe : (d : Device) → IsSafe d.log → IsSafe (switch_if_requested lib d).log
  unfolding switch_if_requested
  switch_if_requested-IsSafe d h = ground (arith, apply_video_mode-IsSafe d h)

  update-IsSafe : (d : Device) → IsSafe d.log → IsSafe (update lib d).0.log
  unfolding update
  update-IsSafe d h =
      let d1 = switch_if_requested lib d in
      let d2 = (issue lib (Call.process_events_timeout 2000) d1).0 in
      let h2 = process_events-IsSafe d1 (switch_if_requested-IsSafe d h) in
      ground (arith, h2, run_callbacks_log (lib.delivers d1.log) d2)

  call_method-IsSafe : (m : Method) (d : Device) → IsSafe d.log → IsSafe (call_method lib m d).log
  unfolding call_method get_frame set_tilt set_led set_mirror set_auto_exposure
      set_auto_white_balance set_near_mode set_manual_exposure_us set_ir_brightness set_stream_kind
  call_method-IsSafe Method.starts d h = start-IsSafe d h
  call_method-IsSafe Method.stops d h = stop-IsSafe d h
  call_method-IsSafe Method.updates d h = update-IsSafe d h
  call_method-IsSafe (Method.sets_audio b) d h = set_audio_enabled-IsSafe b d h
  call_method-IsSafe (Method.sets_tilt n) d h =
      ground (arith, le-clamp (negsuc 29) (pos 30) n, clamp-le (negsuc 29) (pos 30) n)
  call_method-IsSafe (Method.sets_led n) d h =
      ground (arith, le-clamp (pos 0) (pos 6) n, clamp-le (pos 0) (pos 6) n)
  call_method-IsSafe (Method.sets_exposure n) d h =
      ground (arith, le-clamp (pos 1000) (pos 200000) n, clamp-le (pos 1000) (pos 200000) n)
  call_method-IsSafe (Method.sets_ir_brightness n) d h =
      ground (arith, le-clamp (pos 1) (pos 50) n, clamp-le (pos 1) (pos 50) n)
  call_method-IsSafe _ d h = ground arith

  -- Whatever integers a client passes to the methods, and in whatever order it calls them, every
  -- command that reaches the hardware is in its range: tilt from -30 to 30, LED mode from 0 to 6,
  -- exposure from 1000 to 200000, IR brightness from 1 to 50, provided that those before were.
  pub call_methods-IsSafe :
      (ms : List Method) (d : Device) → IsSafe d.log → IsSafe (call_methods lib ms d).log
  unfolding call_methods
  call_methods-IsSafe [] d h = h
  call_methods-IsSafe (m ∷ ms) d h =
      call_methods-IsSafe ms (call_method lib m d) (call_method-IsSafe m d h)
