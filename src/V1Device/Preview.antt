-- ===== src/V1Device/Preview.antt =====
-- `FreenectV1Backend::preview` of src/backends/freenect_v1_backend.cpp, from the opened device on.
-- The rounds are those that the clock allows.
use mac_kinect_native.Base.{
  ℕ, zero, suc, ◌+◌, ◌<◌, ◌≡◌, ◌⊎◌, inl, inr, refl, ap, Bool, true, false, not, Option, none, some,
  List, [], ◌∷◌, arith,
}
use mac_kinect_native.Base.Tests.{ltb, if◌then◌else◌, if_rule}
use mac_kinect_native.Base.Lists.{length, is_empty, All}
use mac_kinect_native.Backend.{FrameData}
use mac_kinect_native.V1Device.Calls.{
  Call, Callback, depth_frame, video_frame, audio_frame, Library, Log,
}
use mac_kinect_native.V1Device.State.{Device, k_pixel_count}
use mac_kinect_native.V1Device.Streaming.{start, stop, issue}
use mac_kinect_native.V1Device.Frames.{
  copy_from, on_depth_frame, run_callback, run_callbacks, get_frame, switch_if_requested, update,
}
use mac_kinect_native.V1Device.Shapes.{SameFrame, switch_if_requested-SameFrame, length-copy_from}

pub record Counts : Type 0 where
  pub color_frames : ℕ
  pub depth_frames : ℕ

unfoldable pub count_frame : Option FrameData → Counts → Counts
count_frame none n = n
count_frame (some f) n = record {
  color_frames = if not (is_empty f.rgb) then n.color_frames + 1 else n.color_frames;
  depth_frames = if not (is_empty f.depth) then n.depth_frames + 1 else n.depth_frames;
}

module _ (lib : Library) where
  -- One round of the loop.
  unfoldable pub preview_round : Device → Counts → Device × Counts
  unfolding update get_frame count_frame
  preview_round d n = let (d1, frame) = get_frame (update lib d).0 in (d1, count_frame frame n)

  unfoldable pub preview_rounds : ℕ → Device → Counts → Device × Counts
  unfolding preview_round
  preview_rounds zero d n = (d, n)
  preview_rounds (suc rounds) d n = let r = preview_round d n in preview_rounds rounds r.0 r.1

  -- Whether the preview succeeded, and the counts; `none` is that the device did not start.
  unfoldable pub preview : ℕ → Device → Device × Option (Bool × Counts)
  unfolding start preview_rounds stop
  preview rounds d =
      let (d1, started) = start lib d in
      let r = preview_rounds rounds d1 (record { color_frames = 0; depth_frames = 0 }) in
      if not started
      then (d1, none)
      else ((stop lib r.0).0, some (ltb 0 (r.1.color_frames + r.1.depth_frames), r.1))

abbrev pub IsDepthFrame : Callback → Type 0
IsDepthFrame (depth_frame (some p) t) = Unit
IsDepthFrame _ = ⊥

-- A device that has a color image from before, and whose new frames have a depth image too.
pub record HasColor (d : Device) : Type 0 where
  pub color : is_empty d.frame.rgb ≡ false
  pub depth_if_new : (d.has_new_frame ≡ false) ⊎ (is_empty d.frame.depth ≡ false)

not_empty : {A : Type 0} (xs : List A) → 0 < length xs → is_empty xs ≡ false
not_empty [] h = absurd (omega arith)
not_empty (x ∷ xs) h = refl

run_callback-HasColor :
    (c : Callback) (d : Device) → IsDepthFrame c → HasColor d → HasColor (run_callback c d)
unfolding run_callback on_depth_frame
run_callback-HasColor (depth_frame (some p) t) d i h = record {
  color = h.color;
  depth_if_new =
      inr (not_empty (copy_from k_pixel_count p) (omega (arith, length-copy_from k_pixel_count p)));
}
run_callback-HasColor (depth_frame none t) d i h = absurd i
run_callback-HasColor (video_frame p t) d i h = absurd i
run_callback-HasColor (audio_frame n p) d i h = absurd i

run_callbacks-HasColor :
    (cs : List Callback) (d : Device)
    → All IsDepthFrame cs
    → HasColor d
    → HasColor (run_callbacks cs d)
unfolding run_callbacks
run_callbacks-HasColor [] d i h = h
run_callbacks-HasColor (c ∷ cs) d i h =
    run_callbacks-HasColor cs (run_callback c d) i.1 (run_callback-HasColor c d i.0 h)

SameFrame-HasColor : (d e : Device) → SameFrame d e → HasColor d → HasColor e
SameFrame-HasColor d e s h = record {
  color = rw s.same_frame h.color;
  depth_if_new = rw (s.same_frame, s.same_new) h.depth_if_new;
}

issue-HasColor : (lib : Library) (c : Call) (d : Device) → HasColor d → HasColor (issue lib c d).0
unfolding issue
issue-HasColor lib c d h = record { color = h.color; depth_if_new = h.depth_if_new }

-- After one frame more or none, as many color frames as depth frames were counted.
abbrev pub IsBalanced : Counts → Type 0
IsBalanced n = n.color_frames ≡ n.depth_frames

count_frame-IsBalanced :
    (d : Device) (n : Counts)
    → HasColor d
    → IsBalanced n
    → HasColor (get_frame d).0 × IsBalanced (count_frame (get_frame d).1 n)
unfolding get_frame count_frame
count_frame-IsBalanced d n h b =
    if_rule {A = Device × Option FrameData} (λ r. HasColor r.0 × IsBalanced (count_frame r.1 n))
      d.has_new_frame _
      (λ new. (
        record { color = h.color; depth_if_new = inl refl },
        rw (h.color, has_depth new h.depth_if_new) (ap (λ k. k + 1) b),
      ))
      (λ _. (h, b))
  where
    has_depth :
        d.has_new_frame ≡ true
        → (d.has_new_frame ≡ false) ⊎ (is_empty d.frame.depth ≡ false)
        → is_empty d.frame.depth ≡ false
    has_depth new (inl old) = absurd (ground arith)
    has_depth new (inr deep) = deep

module _ (lib : Library) (only_depth : (log : Log) → All IsDepthFrame (lib.delivers log)) where
  update-HasColor : (d : Device) → HasColor d → HasColor (update lib d).0
  unfolding update
  update-HasColor d h =
      let d1 = switch_if_requested lib d in
      let h1 = SameFrame-HasColor d d1 (switch_if_requested-SameFrame lib d) h in
      let d2 = (issue lib (Call.process_events_timeout 2000) d1).0 in
      let h2 = issue-HasColor lib (Call.process_events_timeout 2000) d1 h1 in
      let h3 = run_callbacks-HasColor (lib.delivers d1.log) d2 (only_depth d1.log) h2 in
      if_rule {A = Device × Bool} (λ r. HasColor r.0) (not d.running) (d, false) (λ _. h)
        (λ _. if_rule {A = Device × Bool} (λ r. HasColor r.0) _ _ (λ _. h3) (λ _. h3))

  preview_rounds-IsBalanced :
      (rounds : ℕ) (d : Device) (n : Counts)
      → HasColor d
      → IsBalanced n
      → IsBalanced (preview_rounds lib rounds d n).1
  unfolding preview_rounds preview_round
  preview_rounds-IsBalanced zero d n h b = b
  preview_rounds-IsBalanced (suc rounds) d n h b =
      let r = count_frame-IsBalanced (update lib d).0 n (update-HasColor d h) b in
      preview_rounds-IsBalanced rounds _ _ r.0 r.1

  -- A fault of the count: once a color image has been stored and handed out, then over any rounds in
  -- which the library brings depth frames only, and no color frame, the preview counts exactly as
  -- many color frames as depth frames.
  pub preview_counts_stale_color :
      (rounds : ℕ) (d : Device)
      → is_empty d.frame.rgb ≡ false
      → d.has_new_frame ≡ false
      → let n = (preview_rounds lib rounds d (record { color_frames = 0; depth_frames = 0 })).1 in
        n.color_frames ≡ n.depth_frames
  preview_counts_stale_color rounds d color old =
      preview_rounds-IsBalanced rounds d _ (record { color = color; depth_if_new = inl old }) refl
