-- ===== src/V1Device/Shapes.antt =====
-- The sizes of the frames that a Kinect v1 device hands out
-- (src/backends/freenect_v1_backend.cpp).
use Prim.Native.String.{String}
use mac_kinect_native.Base.{
  ℕ, ◌+◌, ◌*◌, ◌<◌, ◌≡◌, ◌⊎◌, refl, Bool, true, none, some, List, [], ◌∷◌, arith,
}
use mac_kinect_native.Base.Lists.{length, length-tabulate}
use mac_kinect_native.Base.Int.{ℤ}
use mac_kinect_native.Backend.{FrameData}
use mac_kinect_native.V1Device.Calls.{
  Call, Callback, depth_frame, video_frame, audio_frame, Library,
}
use mac_kinect_native.V1Device.State.{Device, k_width, k_height, k_pixel_count, new_device}
use mac_kinect_native.V1Device.Streaming.{
  issue, apply_video_mode, start_video_if_needed, set_audio_enabled, set_running, start, stop,
  open_call, register_callbacks, open_device,
}
use mac_kinect_native.V1Device.Controls.{
  set_stream_kind, set_tilt, set_led, set_mirror, set_auto_exposure, set_auto_white_balance,
  set_near_mode, set_manual_exposure_us, set_ir_brightness,
}
use mac_kinect_native.V1Device.Frames.{
  copy_from, run_callback, run_callbacks, get_frame, switch_if_requested, update,
}
use mac_kinect_native.V1Device.Methods.{Method, call_method, call_methods}
use mac_kinect_native.V1Device.StartRule.{depth_set, mode_applied, depth_on, video_on, start_rule}

-- Each buffer is empty or has one image of 640 by 480.
pub record IsImage (f : FrameData) : Type 0 where
  pub rgb_size : (length f.rgb ≡ 0) ⊎ (length f.rgb ≡ k_pixel_count * 3)
  pub depth_size : (length f.depth ≡ 0) ⊎ (length f.depth ≡ k_pixel_count)
  pub ir_size : (length f.ir ≡ 0) ⊎ (length f.ir ≡ k_pixel_count)

-- A frame that has arrived: its size is set, and some buffer has an image.
pub record IsFull (f : FrameData) : Type 0 where
  pub width_set : f.width ≡ k_width
  pub height_set : f.height ≡ k_height
  pub some_image : 0 < length f.rgb + length f.depth + length f.ir

pub record Shaped (f : FrameData) (new : Bool) : Type 0 where
  pub image : IsImage f
  pub full : new ≡ true → IsFull f

pub length-copy_from : (n : ℕ) (p : ℕ → ℕ) → length (copy_from n p) ≡ n
unfolding copy_from
length-copy_from n p = length-tabulate n 0 p

run_callback-Shaped :
    (c : Callback) (d : Device)
    → Shaped d.frame d.has_new_frame
    → Shaped (run_callback c d).frame (run_callback c d).has_new_frame
unfolding run_callback
run_callback-Shaped (depth_frame none t) d h = h
run_callback-Shaped (depth_frame (some p) t) d h = ground (arith, length-copy_from k_pixel_count p)
run_callback-Shaped (video_frame none t) d h = h
run_callback-Shaped (video_frame (some p) t) d h =
    ground (arith, length-copy_from k_pixel_count p, length-copy_from (k_pixel_count * 3) p)
run_callback-Shaped (audio_frame n none) d h = h
run_callback-Shaped (audio_frame n (some p)) d h = ground arith

run_callbacks-Shaped :
    (cs : List Callback) (d : Device)
    → Shaped d.frame d.has_new_frame
    → Shaped (run_callbacks cs d).frame (run_callbacks cs d).has_new_frame
unfolding run_callbacks
run_callbacks-Shaped [] d h = h
run_callbacks-Shaped (c ∷ cs) d h =
    run_callbacks-Shaped cs (run_callback c d) (run_callback-Shaped c d h)

pub new_device-Shaped :
    (ctx : Bool) (index : ℤ) (serial : String) (audio : Bool)
    → let d = new_device ctx index serial audio in Shaped d.frame d.has_new_frame
unfolding new_device
new_device-Shaped ctx index serial audio = ground arith

-- What no method but `update` and `getFrame` changes.
pub record SameFrame (d e : Device) : Type 0 where
  pub same_frame : e.frame ≡ d.frame
  pub same_new : e.has_new_frame ≡ d.has_new_frame

SameFrame-refl : (d : Device) → SameFrame d d
SameFrame-refl d = record { same_frame = refl; same_new = refl }

pub SameFrame-Shaped :
    {d e : Device} → SameFrame d e → Shaped d.frame d.has_new_frame → Shaped e.frame e.has_new_frame
SameFrame-Shaped s h = rw (s.same_frame, s.same_new) h

module _ (lib : Library) where
  apply_video_mode-SameFrame : (d : Device) → SameFrame d (apply_video_mode lib d).0
  unfolding apply_video_mode
  apply_video_mode-SameFrame d = ground arith

  set_audio_enabled-SameFrame : (b : Bool) (d : Device) → SameFrame d (set_audio_enabled lib b d).0
  unfolding set_audio_enabled
  set_audio_enabled-SameFrame b d = ground arith

  stop-SameFrame : (d : Device) → SameFrame d (stop lib d).0
  unfolding stop
  stop-SameFrame d = ground arith

  start_video_if_needed-SameFrame : (d : Device) → SameFrame d (start_video_if_needed lib d).0
  unfolding start_video_if_needed
  start_video_if_needed-SameFrame d = ground arith

  set_running-SameFrame : (d : Device) → SameFrame d (set_running lib d)
  unfolding set_running
  set_running-SameFrame d = ground arith

  issue-SameFrame : (c : Call) (d : Device) → SameFrame d (issue lib c d).0
  unfolding issue
  issue-SameFrame c d = record { same_frame = refl; same_new = refl }

  SameFrame-trans : (d e f : Device) → SameFrame d e → SameFrame e f → SameFrame d f
  SameFrame-trans d e f p q = ground arith

  start-SameFrame : (d : Device) → SameFrame d (start lib d).0
  start-SameFrame d =
      let s1 = issue-SameFrame Call.set_depth_mode d in
      let s2 = SameFrame-trans _ _ _ s1 (apply_video_mode-SameFrame (depth_set lib d)) in
      let s3 = SameFrame-trans _ _ _ s2 (issue-SameFrame Call.start_depth (mode_applied lib d)) in
      let s3' : SameFrame d (depth_on lib d) = record {
        same_frame = s3.same_frame;
        same_new = s3.same_new;
      } in
      let s4 = SameFrame-trans _ _ _ s3' (start_video_if_needed-SameFrame (depth_on lib d)) in
      start_rule lib d (λ r. SameFrame d r.0) (λ _. SameFrame-refl d) (λ _. SameFrame-refl d)
        (λ _. SameFrame-refl d) (λ _. s1) (λ _. s2) (λ _ _. s3) (λ _ _. s4)
        (λ _ _. SameFrame-trans _ _ _ s4 (set_running-SameFrame (video_on lib d)))

  pub switch_if_requested-SameFrame : (d : Device) → SameFrame d (switch_if_requested lib d)
  unfolding switch_if_requested
  switch_if_requested-SameFrame d = ground (arith, apply_video_mode-SameFrame d)

  update-Shaped :
      (d : Device)
      → Shaped d.frame d.has_new_frame
      → Shaped (update lib d).0.frame (update lib d).0.has_new_frame
  unfolding update
  update-Shaped d h =
      let d1 = switch_if_requested lib d in
      let d2 = (issue lib (Call.process_events_timeout 2000) d1).0 in
      let s1 = switch_if_requested-SameFrame d in
      let s2 = SameFrame-trans _ _ _ s1 (issue-SameFrame (Call.process_events_timeout 2000) d1) in
      ground (arith, h, run_callbacks-Shaped (lib.delivers d1.log) d2 (SameFrame-Shaped s2 h))

  pub call_method-Shaped :
      (m : Method) (d : Device)
      → Shaped d.frame d.has_new_frame
      → Shaped (call_method lib m d).frame (call_method lib m d).has_new_frame
  unfolding call_method get_frame set_tilt set_led set_mirror set_auto_exposure
      set_auto_white_balance set_near_mode set_manual_exposure_us set_ir_brightness set_stream_kind
  call_method-Shaped Method.starts d h = SameFrame-Shaped (start-SameFrame d) h
  call_method-Shaped Method.stops d h = SameFrame-Shaped (stop-SameFrame d) h
  call_method-Shaped Method.updates d h = update-Shaped d h
  call_method-Shaped (Method.sets_audio b) d h =
      SameFrame-Shaped (set_audio_enabled-SameFrame b d) h
  call_method-Shaped _ d h = ground arith

  call_methods-Shaped :
      (ms : List Method) (d : Device)
      → Shaped d.frame d.has_new_frame
      → Shaped (call_methods lib ms d).frame (call_methods lib ms d).has_new_frame
  unfolding call_methods
  call_methods-Shaped [] d h = h
  call_methods-Shaped (m ∷ ms) d h =
      call_methods-Shaped ms (call_method lib m d) (call_method-Shaped m d h)

  open_call-SameFrame : (c : Call) (d : Device) → SameFrame d (open_call lib c d).0
  unfolding open_call issue
  open_call-SameFrame c d = record { same_frame = refl; same_new = refl }

  register_callbacks-SameFrame : (d : Device) → SameFrame d (register_callbacks lib d)
  unfolding register_callbacks
  register_callbacks-SameFrame d = ground arith

  pub open_device-SameFrame : (d : Device) → SameFrame d (open_device lib d).0
  unfolding open_device
  open_device-SameFrame d =
      let c = Call.open_device_by_camera_serial d.serial in
      let d1 = (open_call lib c d).0 in
      ground (
        arith,
        open_call-SameFrame c d,
        open_call-SameFrame (Call.open_device d1.index) d1,
        open_call-SameFrame (Call.open_device d.index) d,
        register_callbacks-SameFrame d1,
        register_callbacks-SameFrame d,
        register_callbacks-SameFrame (open_call lib (Call.open_device d1.index) d1).0,
        register_callbacks-SameFrame (open_call lib (Call.open_device d.index) d).0,
      )

  -- Every frame that `getFrame` hands out, after a device is opened, any calls of its methods and any
  -- callbacks, is 640 by 480, each of its buffers is empty or has exactly one image of that size,
  -- and at least one has an image; and the next `getFrame` hands out none.
  pub get_frame-IsFull :
      (ctx : Bool) (index : ℤ) (serial : String) (audio : Bool) (ms : List Method) {f : FrameData}
      → (get_frame (call_methods lib ms (open_device lib (new_device ctx index serial audio)).0)).1
        ≡ some f
      → let d = call_methods lib ms (open_device lib (new_device ctx index serial audio)).0 in
        IsImage f × IsFull f × ((get_frame (get_frame d).0).1 ≡ none)
  unfolding get_frame
  get_frame-IsFull ctx index serial audio ms e =
      let d = new_device ctx index serial audio in
      let shaped =
        SameFrame-Shaped (open_device-SameFrame d) (new_device-Shaped ctx index serial audio) in
      ground (arith, call_methods-Shaped ms (open_device lib d).0 shaped)
