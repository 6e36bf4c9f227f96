-- ===== src/V1Device/Reachable.antt =====
-- The invariant after any calls of the methods of a Kinect v1 device
-- (src/backends/freenect_v1_backend.cpp).
use Prim.Native.String.{String}
use mac_kinect_native.Base.{◌≡◌, refl, Bool, false, none, some, List, [], ◌∷◌, arith}
use mac_kinect_native.Base.Int.{ℤ}
use mac_kinect_native.V1Device.Calls.{
  Call, Callback, depth_frame, video_frame, audio_frame, Library, opened, all_closed,
}
use mac_kinect_native.V1Device.State.{Device, new_device}
use mac_kinect_native.V1Device.Streaming.{issue, open_call, register_callbacks, open_device}
use mac_kinect_native.V1Device.Controls.{
  set_stream_kind, set_tilt, set_led, set_mirror, set_auto_exposure, set_auto_white_balance,
  set_near_mode, set_manual_exposure_us, set_ir_brightness,
}
use mac_kinect_native.V1Device.Frames.{
  run_callback, run_callbacks, get_frame, switch_if_requested, update,
}
use mac_kinect_native.V1Device.Methods.{Method, call_method, call_methods}
use mac_kinect_native.V1Device.Invariant.{
  Inv, apply_video_mode-Inv, set_audio_enabled-Inv, start-Inv, stop-Inv,
}

run_callback-Inv : (c : Callback) (d : Device) → Inv d → Inv (run_callback c d)
unfolding run_callback
run_callback-Inv (depth_frame none t) d v = v
run_callback-Inv (depth_frame (some p) t) d v = ground arith
run_callback-Inv (video_frame none t) d v = v
run_callback-Inv (video_frame (some p) t) d v = ground arith
run_callback-Inv (audio_frame n none) d v = v
run_callback-Inv (audio_frame n (some p)) d v = ground arith

run_callbacks-Inv : (cs : List Callback) (d : Device) → Inv d → Inv (run_callbacks cs d)
unfolding run_callbacks
run_callbacks-Inv [] d v = v
run_callbacks-Inv (c ∷ cs) d v = run_callbacks-Inv cs (run_callback c d) (run_callback-Inv c d v)

module _ (lib : Library) where
  -- A call that opens or closes no stream.
  process_events-Inv : (d : Device) → Inv d → Inv (issue lib (Call.process_events_timeout 2000) d).0
  unfolding issue opened
  process_events-Inv d v = ground arith

  switch_if_requested-Inv : (d : Device) → Inv d → Inv (switch_if_requested lib d)
  unfolding switch_if_requested
  switch_if_requested-Inv d v = ground (arith, apply_video_mode-Inv lib d v)

  update-Inv : (d : Device) → Inv d → Inv (update lib d).0
  unfolding update
  update-Inv d v =
      let d1 = switch_if_requested lib d in
      let d2 = (issue lib (Call.process_events_timeout 2000) d1).0 in
      let v2 = process_events-Inv d1 (switch_if_requested-Inv d v) in
      ground (arith, run_callbacks-Inv (lib.delivers d1.log) d2 v2)

  pub call_method-Inv : (m : Method) (d : Device) → Inv d → Inv (call_method lib m d)
  unfolding call_method get_frame set_tilt set_led set_mirror set_auto_exposure
      set_auto_white_balance set_near_mode set_manual_exposure_us set_ir_brightness set_stream_kind
      opened
  call_method-Inv Method.starts d v = start-Inv lib d v
  call_method-Inv Method.stops d v = stop-Inv lib d v
  call_method-Inv Method.updates d v = update-Inv d v
  call_method-Inv (Method.sets_audio b) d v = set_audio_enabled-Inv lib b d v
  call_method-Inv _ d v = ground arith

  pub call_methods-Inv : (ms : List Method) (d : Device) → Inv d → Inv (call_methods lib ms d)
  unfolding call_methods
  call_methods-Inv [] d v = v
  call_methods-Inv (m ∷ ms) d v = call_methods-Inv ms (call_method lib m d) (call_method-Inv m d v)

  -- A device that has never been opened, or failed to open.
  abbrev Fresh : Device → Type 0
  Fresh d =
      (opened d.log ≡ all_closed)
      × (d.running ≡ false)
      × (d.depth_started ≡ false)
      × (d.video_started ≡ false)
      × (d.audio_started ≡ false)
      × (d.audio_enabled ≡ false)

  Fresh-Inv : (d : Device) → Fresh d → Inv d
  Fresh-Inv d f = ground arith

  open_serial-Fresh :
      (s : String) (d : Device)
      → Fresh d
      → Fresh (open_call lib (Call.open_device_by_camera_serial s) d).0
  unfolding open_call issue opened
  open_serial-Fresh s d f = ground arith

  open_index-Fresh : (i : ℤ) (d : Device) → Fresh d → Fresh (open_call lib (Call.open_device i) d).0
  unfolding open_call issue opened
  open_index-Fresh i d f = ground arith

  register_callbacks-Fresh : (d : Device) → Fresh d → Fresh (register_callbacks lib d)
  unfolding register_callbacks opened
  register_callbacks-Fresh d f = ground arith

  open_device-Fresh : (d : Device) → Fresh d → Fresh (open_device lib d).0
  unfolding open_device
  open_device-Fresh d f =
      let d1 = (open_call lib (Call.open_device_by_camera_serial d.serial) d).0 in
      let f1 = open_serial-Fresh d.serial d f in
      ground (
        arith,
        f1,
        open_index-Fresh d1.index d1 f1,
        open_index-Fresh d.index d f,
        register_callbacks-Fresh d1 f1,
        register_callbacks-Fresh d f,
        register_callbacks-Fresh (open_call lib (Call.open_device d1.index) d1).0,
        register_callbacks-Fresh (open_call lib (Call.open_device d.index) d).0,
      )

  -- Whatever the library answers: after a device is opened and any of its methods are called in any
  -- order, its flags say exactly which streams are open on the hardware; it runs exactly when its
  -- depth stream was started, and then it has a device handle; audio runs only while the device
  -- runs, when it is enabled and supported.
  pub opened_device-Inv :
      (ctx : Bool) (index : ℤ) (serial : String) (audio : Bool) (ms : List Method)
      → Inv (call_methods lib ms (open_device lib (new_device ctx index serial audio)).0)
  unfolding new_device opened
  opened_device-Inv ctx index serial audio ms =
      let d = new_device ctx index serial audio in
      call_methods-Inv ms (open_device lib d).0
        (Fresh-Inv _ (open_device-Fresh d (refl, refl, refl, refl, refl, refl)))
