-- ===== src/V1Device/Invariant.antt =====
-- What holds of a Kinect v1 device between two calls of its methods
-- (src/backends/freenect_v1_backend.cpp).
use mac_kinect_native.Base.{◌≡◌, refl, ◌∙◌, Bool, true, false, arith}
use mac_kinect_native.V1Device.Calls.{is_failure, Call, Library, opened}
use mac_kinect_native.V1Device.State.{Device}
use mac_kinect_native.V1Device.Streaming.{
  issue, stop_video_if_started, apply_video_mode, set_audio_enabled, start_video_if_needed,
  set_running, start, stop,
}
use mac_kinect_native.V1Device.StartRule.{depth_set, depth_on, DepthStarts, start_rule}

-- The flags say which streams are open, and a running device has its depth stream.
pub record Inv (d : Device) : Type 0 where
  pub depth_flag : (opened d.log).depth_open ≡ d.depth_started
  pub video_flag : (opened d.log).video_open ≡ d.video_started
  pub audio_flag : (opened d.log).audio_open ≡ d.audio_started
  pub running_dev : d.running ≡ true → d.has_dev ≡ true
  pub running_depth : d.depth_started ≡ d.running
  pub video_dev : d.video_started ≡ true → d.has_dev ≡ true
  pub audio_running : d.audio_started ≡ true → d.running ≡ true
  pub audio_wanted : d.audio_started ≡ true → d.audio_enabled ≡ true
  pub audio_allowed : d.audio_enabled ≡ true → d.audio_supported ≡ true

-- A device in the middle of `start`: its depth stream is open and it does not run yet.
record Starting (d : Device) : Type 0 where
  depth_flag : (opened d.log).depth_open ≡ true
  video_flag : (opened d.log).video_open ≡ d.video_started
  audio_flag : (opened d.log).audio_open ≡ false
  depth_on : d.depth_started ≡ true
  idle : d.running ≡ false
  dev : d.has_dev ≡ true
  silent : d.audio_started ≡ false
  audio_allowed : d.audio_enabled ≡ true → d.audio_supported ≡ true

record Keeps (r : Device × Bool) : Type 0 where
  kept : Inv r.0

module _ (lib : Library) where
  stop_video_if_started-Inv : (d : Device) → Inv d → Inv (stop_video_if_started lib d)
  unfolding stop_video_if_started opened
  stop_video_if_started-Inv d v = ground arith

  pub apply_video_mode-Inv : (d : Device) → Inv d → Inv (apply_video_mode lib d).0
  unfolding apply_video_mode opened
  apply_video_mode-Inv d v = ground arith

  pub set_audio_enabled-Inv :
      (enabled : Bool) (d : Device) → Inv d → Inv (set_audio_enabled lib enabled d).0
  unfolding set_audio_enabled opened
  set_audio_enabled-Inv enabled d v = ground arith

  pub stop-Inv : (d : Device) → Inv d → Inv (stop lib d).0
  unfolding stop opened
  stop-Inv d v = ground arith

  pub issue_keeps :
      (c : Call) (d : Device)
      → ((issue lib c d).0.running ≡ d.running) × ((issue lib c d).0.has_dev ≡ d.has_dev)
  unfolding issue
  issue_keeps c d = (refl, refl)

  -- What `apply_video_mode` leaves alone.
  pub apply_video_mode_keeps :
      (d : Device)
      → ((apply_video_mode lib d).0.running ≡ d.running)
        × ((apply_video_mode lib d).0.has_dev ≡ d.has_dev)
  unfolding apply_video_mode
  apply_video_mode_keeps d = ground arith

  start_depth-Starting :
      (d : Device)
      → Inv d
      → d.running ≡ false
      → d.has_dev ≡ true
      → let (d', rc) = issue lib Call.start_depth d in
        is_failure rc ≡ false → Starting (record d' { depth_started = true })
  unfolding opened issue
  start_depth-Starting d v idle dev good = ground arith

  start_video_if_needed-Starting :
      (d : Device)
      → Starting d
      → (start_video_if_needed lib d).1 ≡ true
      → Starting (start_video_if_needed lib d).0
  unfolding start_video_if_needed opened
  start_video_if_needed-Starting d v good = ground arith

  start_video_if_needed-Inv :
      (d : Device)
      → Starting d
      → (start_video_if_needed lib d).1 ≡ false
      → Inv (start_video_if_needed lib d).0
  unfolding start_video_if_needed opened
  start_video_if_needed-Inv d v bad = ground arith

  set_running-Inv : (d : Device) → Starting d → Inv (set_running lib d)
  unfolding set_running opened
  set_running-Inv d v = ground arith

  set_depth_mode-Inv : (d : Device) → Inv d → Inv (issue lib Call.set_depth_mode d).0
  unfolding issue opened
  set_depth_mode-Inv d v = ground arith

  start_depth_failed-Inv :
      (d : Device)
      → Inv d
      → is_failure (issue lib Call.start_depth d).1 ≡ true
      → Inv (issue lib Call.start_depth d).0
  unfolding issue opened
  start_depth_failed-Inv d v h = ground arith

  start-Keeps : (d : Device) → Inv d → Keeps (start lib d)
  start-Keeps d v =
      let v1 = set_depth_mode-Inv d v in
      let v2 = apply_video_mode-Inv (depth_set lib d) v1 in
      let (same_running, same_dev) = apply_video_mode_keeps (depth_set lib d) in
      let starting : DepthStarts lib d → Starting (depth_on lib d) = λ s.
        start_depth-Starting _ v2 (same_running ∙ (issue_keeps Call.set_depth_mode d).0 ∙ s.idle)
          (same_dev ∙ (issue_keeps Call.set_depth_mode d).1 ∙ s.dev) s.good in
      start_rule lib d Keeps (λ _. record { kept = v }) (λ _. record { kept = v })
        (λ _. record { kept = v }) (λ _. record { kept = v1 }) (λ _. record { kept = v2 })
        (λ _ bad. record { kept = start_depth_failed-Inv _ v2 bad })
        (λ s bad. record { kept = start_video_if_needed-Inv _ (starting s) bad })
        (λ s good. record {
          kept = set_running-Inv _ (start_video_if_needed-Starting _ (starting s) good);
        })

  pub start-Inv : (d : Device) → Inv d → Inv (start lib d).0
  start-Inv d v = (start-Keeps d v).kept
