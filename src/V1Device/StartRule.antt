-- ===== src/V1Device/StartRule.antt =====
-- `FreenectV1Device::start` (src/backends/freenect_v1_backend.cpp) by its returns: a property of its
-- result holds if it holds at each of them.
use mac_kinect_native.Base.{◌≡◌, inl, inr, Bool, true, false, not, ◌||◌}
use mac_kinect_native.Base.Tests.{if_rule, or_false, or_true, not-false, not-true}
use mac_kinect_native.V1Device.Calls.{is_failure, Call, Library}
use mac_kinect_native.V1Device.State.{Device}
use mac_kinect_native.V1Device.Streaming.{
  issue, apply_video_mode, start_video_if_needed, set_running, start,
}

module _ (lib : Library) (d : Device) where
  -- The device after the depth mode is set, after the video mode is applied, after the depth stream
  -- is started, and after the video stream is.
  abbrev pub depth_set : Device
  depth_set = (issue lib Call.set_depth_mode d).0

  abbrev pub mode_applied : Device
  mode_applied = (apply_video_mode lib depth_set).0

  abbrev pub depth_called : Device
  depth_called = (issue lib Call.start_depth mode_applied).0

  abbrev pub depth_on : Device
  depth_on = record (depth_called) { depth_started = true }

  abbrev pub video_on : Device
  video_on = (start_video_if_needed lib depth_on).0

  -- The facts under which `start` gets as far as the depth stream.
  pub record DepthStarts : Type 0 where
    pub dev : d.has_dev ≡ true
    pub idle : d.running ≡ false
    pub good : is_failure (issue lib Call.start_depth mode_applied).1 ≡ false

  pub start_rule {ℓ} :
      (P : Device × Bool → Type ℓ)
      → (d.has_dev ≡ false → P (d, d.has_dev))
      → (d.running ≡ true → P (d, d.has_dev))
      → (d.running ≡ false → P (d, false))
      → (d.running ≡ false → P (depth_set, false))
      → (d.running ≡ false → P (mode_applied, false))
      → (d.running ≡ false
          → is_failure (issue lib Call.start_depth mode_applied).1 ≡ true
          → P (depth_called, false))
      → (DepthStarts → (start_video_if_needed lib depth_on).1 ≡ false → P (video_on, false))
      → (DepthStarts
          → (start_video_if_needed lib depth_on).1 ≡ true
          → P (set_running lib video_on, true))
      → P (start lib d)
  unfolding start
  start_rule P no_dev on no_mode no_depth no_video no_start no_stream done =
      if_rule P (not d.has_dev || d.running) (d, d.has_dev)
        (λ e. elim (or_true d.has_dev d.running e) [ inl h ↦ no_dev h | inr h ↦ on h ])
        λ fresh.
          let (dev, idle) = or_false (not d.has_dev) d.running fresh in
          if_rule P (not lib.depth_mode_is_valid) (d, false) (λ _. no_mode idle)
            λ _.
              if_rule P (is_failure (issue lib Call.set_depth_mode d).1) (depth_set, false)
                (λ _. no_depth idle)
                λ _.
                  if_rule P (not (apply_video_mode lib depth_set).1) (mode_applied, false)
                    (λ _. no_video idle)
                    λ _.
                      if_rule P (is_failure (issue lib Call.start_depth mode_applied).1)
                        (depth_called, false) (no_start idle)
                        λ good.
                          let starts : DepthStarts = record {
                            dev = not-false d.has_dev dev;
                            idle = idle;
                            good = good;
                          } in
                          if_rule P (not (start_video_if_needed lib depth_on).1) (video_on, false)
                            (λ bad. no_stream starts (not-true _ bad))
                            (λ fine. done starts (not-false _ fine))
