-- ===== src/V1Device/Frames.antt =====
-- The frames of `FreenectV1Device` (src/backends/freenect_v1_backend.cpp): the callbacks that store
-- them, `update` that runs the callbacks, and `getFrame` that hands a frame out.
use mac_kinect_native.Base.{
  ℕ, zero, suc, ◌+◌, ◌*◌, Bool, true, false, not, Option, none, some, List, [], ◌∷◌,
}
use mac_kinect_native.Base.Tests.{if◌then◌else◌}
use mac_kinect_native.Base.Lists.{tabulate}
use mac_kinect_native.Base.Int.{ℤ, pos, pos_part, neg_part, ltb_ℤ}
use mac_kinect_native.Backend.{StreamKind, FrameData, same_stream}
use mac_kinect_native.V1Device.Calls.{
  is_failure, Call, Callback, depth_frame, video_frame, audio_frame, Library,
}
use mac_kinect_native.V1Device.State.{Device, k_width, k_height, k_pixel_count}
use mac_kinect_native.V1Device.Streaming.{issue, apply_video_mode}

-- `std::memcpy` of n elements from a pointer.
unfoldable pub copy_from : ℕ → (ℕ → ℕ) → List ℕ
copy_from n p = tabulate n 0 p

unfoldable pub on_depth_frame : Option (ℕ → ℕ) → ℕ → Device → Device
on_depth_frame none timestamp d = d
on_depth_frame (some p) timestamp d = record d {
  frame = record (d.frame) {
    width = k_width;
    height = k_height;
    timestamp = timestamp;
    depth = copy_from k_pixel_count p;
  };
  has_new_frame = true;
}

-- The frame with the video buffer copied to where the active stream belongs.
unfoldable pub store_video : StreamKind → (ℕ → ℕ) → FrameData → FrameData
store_video StreamKind.ir p f = record f { ir = copy_from k_pixel_count p }
store_video _ p f = record f { rgb = copy_from (k_pixel_count * 3) p }

unfoldable pub on_video_frame : Option (ℕ → ℕ) → ℕ → Device → Device
unfolding store_video
on_video_frame none timestamp d = d
on_video_frame (some p) timestamp d = record d {
  frame =
      store_video d.active_stream p
        (record (d.frame) { width = k_width; height = k_height; timestamp = timestamp });
  has_new_frame = true;
}

-- The sum of the squares of n samples from the i-th.
unfoldable pub energy_of : ℕ → ℕ → (ℕ → ℤ) → ℕ
energy_of zero i p = 0
energy_of (suc n) i p = let a = pos_part (p i) + neg_part (p i) in a * a + energy_of n (suc i) p

unfoldable pub on_audio_frame : ℤ → Option (ℕ → ℤ) → Device → Device
on_audio_frame num_samples none d = d
on_audio_frame num_samples (some p) d =
    if ltb_ℤ (pos 0) num_samples
    then record d {
      audio_level = record {
        energy = energy_of (pos_part num_samples) 0 p;
        samples = pos_part num_samples;
      };
    }
    else d

unfoldable pub run_callback : Callback → Device → Device
unfolding on_depth_frame on_video_frame on_audio_frame
run_callback (depth_frame p timestamp) d = on_depth_frame p timestamp d
run_callback (video_frame p timestamp) d = on_video_frame p timestamp d
run_callback (audio_frame n p) d = on_audio_frame n p d

unfoldable pub run_callbacks : List Callback → Device → Device
run_callbacks [] d = d
run_callbacks (c ∷ cs) d = run_callbacks cs (run_callback c d)

unfoldable pub get_frame : Device → Device × Option FrameData
get_frame d =
    if d.has_new_frame then (record d { has_new_frame = false }, some d.frame) else (d, none)

module _ (lib : Library) where
  -- A stream that was asked for since the last mode was set.
  unfoldable pub switch_if_requested : Device → Device
  switch_if_requested d =
      if same_stream d.requested_stream d.active_stream then d else (apply_video_mode lib d).0

  -- The library runs its callbacks before `freenect_process_events_timeout` returns.
  unfoldable pub update : Device → Device × Bool
  unfolding issue switch_if_requested
  update d =
      let d1 = switch_if_requested d in
      let (d2, rc) = issue lib (Call.process_events_timeout 2000) d1 in
      let d3 = run_callbacks (lib.delivers d1.log) d2 in
      if not d.running
      then (d, false)
      else if is_failure rc
      then (d3, false)
      else (d3, d3.has_new_frame)
