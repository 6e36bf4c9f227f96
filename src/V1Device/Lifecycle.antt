-- ===== src/V1Device/Lifecycle.antt =====
-- What `start`, `stop` and the destructor of a Kinect v1 device leave open
-- (src/backends/freenect_v1_backend.cpp).
use mac_kinect_native.Base.{◌≡◌, ◌↔◌, ◌⊎◌, refl, ◌∙◌, sym, true, false, arith}
use mac_kinect_native.V1Device.Calls.{Call, Library, all_closed, opened}
use mac_kinect_native.V1Device.State.{Device}
use mac_kinect_native.V1Device.Streaming.{start_video_if_needed, set_running, start, stop, destroy}
use mac_kinect_native.V1Device.Invariant.{Inv, start-Inv, issue_keeps, apply_video_mode_keeps}
use mac_kinect_native.V1Device.StartRule.{depth_set, mode_applied, depth_on, video_on, start_rule}

module _ (lib : Library) where
  -- On a device that satisfies the invariant and has a handle, `stop` succeeds and leaves the device
  -- not running; and it leaves every stream closed exactly when the device was running or its video
  -- stream was not started. (It closes nothing on a device whose `start` failed.)
  pub stop_closes_iff :
      (d : Device)
      → Inv d
      → d.has_dev ≡ true
      → let (d', result) = stop lib d in
        (result ≡ true)
        × (d'.running ≡ false)
        × ((opened d'.log ≡ all_closed) ↔ ((d.running ≡ true) ⊎ (d.video_started ≡ false)))
  unfolding stop opened
  stop_closes_iff d v dev = (ground arith, ground arith, (λ h. ground arith, λ h. ground arith))

  stop_keeps_dev : (d : Device) → (stop lib d).0.has_dev ≡ d.has_dev
  unfolding stop
  stop_keeps_dev d = ground arith

  start_video_if_needed_keeps :
      (d : Device)
      → ((start_video_if_needed lib d).0.running ≡ d.running)
        × ((start_video_if_needed lib d).0.has_dev ≡ d.has_dev)
  unfolding start_video_if_needed
  start_video_if_needed_keeps d = ground arith

  set_running-running : (d : Device) → (set_running lib d).running ≡ true
  unfolding set_running
  set_running-running d = ground arith

  -- `start` on a device that satisfies the invariant reports success exactly when the device runs
  -- afterwards.
  pub start-eq-running : (d : Device) → Inv d → (start lib d).1 ≡ (start lib d).0.running
  start-eq-running d v =
      let apply_same = (apply_video_mode_keeps lib (depth_set lib d)).0 in
      let set_same = (issue_keeps lib Call.set_depth_mode d).0 in
      let call_same = (issue_keeps lib Call.start_depth (mode_applied lib d)).0 in
      start_rule lib d (λ r. r.1 ≡ r.0.running) (λ h. ground arith) (λ h. ground arith) (λ h. sym h)
        (λ h. sym (set_same ∙ h)) (λ h. sym (apply_same ∙ set_same ∙ h))
        (λ h _. sym (call_same ∙ apply_same ∙ set_same ∙ h))
        (λ s _. sym (
          (start_video_if_needed_keeps (depth_on lib d)).0
          ∙ call_same
          ∙ apply_same
          ∙ set_same
          ∙ s.idle))
        (λ s _. sym (set_running-running (video_on lib d)))

  -- The destructor of a device with a handle leaves no stream open.
  pub destroy_closes :
      (d : Device) → Inv d → d.has_dev ≡ true → opened (destroy lib d).log ≡ all_closed
  unfolding destroy opened
  destroy_closes d v dev = ground (arith, stop_closes_iff d v dev, stop_keeps_dev d)

  set_running_keeps_dev : (d : Device) → (set_running lib d).has_dev ≡ d.has_dev
  unfolding set_running
  set_running_keeps_dev d = ground arith

  start_keeps_dev : (d : Device) → (start lib d).0.has_dev ≡ d.has_dev
  start_keeps_dev d =
      let set_same = (issue_keeps lib Call.set_depth_mode d).1 in
      let apply_same = (apply_video_mode_keeps lib (depth_set lib d)).1 ∙ set_same in
      let call_same = (issue_keeps lib Call.start_depth (mode_applied lib d)).1 ∙ apply_same in
      let video_same = (start_video_if_needed_keeps (depth_on lib d)).1 ∙ call_same in
      start_rule lib d (λ r. r.0.has_dev ≡ d.has_dev) (λ _. refl) (λ _. refl) (λ _. refl)
        (λ _. set_same) (λ _. apply_same) (λ _ _. call_same) (λ _ _. video_same)
        (λ _ _. set_running_keeps_dev (video_on lib d) ∙ video_same)

  -- A fault: where `start` fails with the video stream already started (the depth stream did not
  -- start), a later `stop` reports success and makes no call, and the video stream is still open.
  pub failed_start_leaks :
      (d : Device)
      → Inv d
      → d.has_dev ≡ true
      → (start lib d).1 ≡ false
      → (start lib d).0.video_started ≡ true
      → let d' = (start lib d).0 in
        ((stop lib d').1 ≡ true)
        × ((stop lib d').0.log ≡ d'.log)
        × ((opened (stop lib d').0.log).video_open ≡ true)
  unfolding stop
  failed_start_leaks d v dev failed started =
      let v' = start-Inv lib d v in
      let here = start_keeps_dev d ∙ dev in
      let idle = sym (start-eq-running d v) ∙ failed in
      simp (here, idle) (refl, refl, v'.video_flag ∙ started)
