-- ===== src/Center/Freed.antt =====
-- The memory of the frame buffers of src/control_center_v1.cpp at `ShutdownAndExit`.
use mac_kinect_native.Base.{ℕ, ◌≡◌, refl, Option, none, some, List, [], ◌∷◌, ◌++◌, inl, inr}
use mac_kinect_native.Base.Tests.{◌==◌, Bool-cases, if_rule}
use mac_kinect_native.Float32.{Float32}
use mac_kinect_native.Center.Formats.{VideoFormat}
use mac_kinect_native.Center.Buffers.{
  Display, take_over, rgb_cb, depth_cb, must_wait, take_depth_frame, take_color_frame, wake_drawing,
  DisplayEvent, receive, step_display, run_display, freed_buffers,
}
use mac_kinect_native.Center.LatestFrame.{IsSeparate, step-Refines}
use mathlib.Core.Path.{subst}
use mathlib.Core.Option.{bind}
use mathlib.Core.List.{Perm}
use mathlib.Core.List.Perm

-- The same buffers, in some order.
abbrev SameBuffers : Display → Display → Type 0
SameBuffers d e = Perm (freed_buffers e) (freed_buffers d)

same_buffers : (d : Display) → SameBuffers d d
same_buffers d = Perm.refl (freed_buffers d)

take_depth_frame-SameBuffers : (d : Display) → SameBuffers d (take_depth_frame d)
unfolding take_depth_frame freed_buffers
take_depth_frame-SameBuffers d =
    if_rule {A = Display} (SameBuffers d) d.got_depth _
      (λ _. Perm.trans (Perm.swap _ _ _) (Perm.cons _ (Perm.cons _ (Perm.swap _ _ _))))
      (λ _. Perm.refl _)

-- The first four buffers of the list are those of the depth images.
depth_buffers : Display → List ℕ
depth_buffers d = d.depth_mm_mid ∷ d.depth_mm_front ∷ d.depth_rgb_mid ∷ d.depth_rgb_front ∷ []

swap_color :
    (d : Display) {a v : ℕ} (b c : ℕ)
    → v ≡ a
    → Perm (depth_buffers d ++ (b ∷ v ∷ c ∷ [])) (depth_buffers d ++ (a ∷ b ∷ c ∷ []))
swap_color d b c e = rw e (Perm.append_left (depth_buffers d) (Perm.swap _ _ (c ∷ [])))

take_color_frame-SameBuffers : (d : Display) → SameBuffers d (take_color_frame d)
unfolding take_color_frame freed_buffers depth_buffers
take_color_frame-SameBuffers d =
    if_rule {A = Display} (SameBuffers d) d.got_rgb _
      (λ _. Perm.append_left (depth_buffers d) (Perm.cons d.rgb_back (Perm.swap _ _ [])))
      (λ _. Perm.refl _)

wake_drawing-SameBuffers : (d : Display) → SameBuffers d (wake_drawing d)
unfolding wake_drawing
wake_drawing-SameBuffers d =
    if_rule {A = Display} (SameBuffers d) (must_wait d) d (λ _. same_buffers d)
      (λ _.
        Perm.trans (take_color_frame-SameBuffers (take_depth_frame d))
          (take_depth_frame-SameBuffers d))

-- What a step that may fail leaves.
abbrev SameIfSome : Display → Option Display → Type 0
SameIfSome d none = Unit
SameIfSome d (some e) = SameBuffers d e

take_over-SameIfSome :
    (image : List ℕ) (d : Display)
    → d.video_buffer ≡ d.rgb_back
    → SameIfSome d (take_over d.video_buffer (receive image d))
unfolding take_over freed_buffers depth_buffers
take_over-SameIfSome image d fills = elim (Bool-cases (d.rgb_back == d.video_buffer)) [
  | inl e ↦ rw e (swap_color d d.rgb_mid d.rgb_front fills)
  | inr e ↦ rw e tt
]

module _ (fl : Float32) where
  step-SameIfSome :
      (e : DisplayEvent) (d : Display) → IsSeparate d → SameIfSome d (step_display fl e d)
  unfolding step_display rgb_cb depth_cb freed_buffers
  step-SameIfSome (DisplayEvent.receives bytes) d h = same_buffers d
  step-SameIfSome (DisplayEvent.completes_color VideoFormat.rgb image) d h =
      take_over-SameIfSome image d h.fills_back
  step-SameIfSome (DisplayEvent.completes_color VideoFormat.yuv_rgb image) d h =
      take_over-SameIfSome image d h.fills_back
  step-SameIfSome (DisplayEvent.completes_color VideoFormat.ir_8bit image) d h = same_buffers d
  step-SameIfSome (DisplayEvent.completes_color VideoFormat.other image) d h = same_buffers d
  step-SameIfSome (DisplayEvent.completes_depth depth) d h = same_buffers d
  step-SameIfSome DisplayEvent.sets_video_buffer d h = same_buffers d
  step-SameIfSome DisplayEvent.draws d h = wake_drawing-SameBuffers d

  -- From buffers that are apart, with libfreenect filling the back one, after any frames, drawings
  -- and changes of the video mode, the seven buffers that `ShutdownAndExit` frees are those that were
  -- allocated, each once, in some order.
  pub freed_buffers-Perm :
      (events : List DisplayEvent) (d : Display)
      → IsSeparate d
      → (d' : Display) × (run_display fl events d ≡ some d')
        × Perm (freed_buffers d') (freed_buffers d)
  unfolding run_display bind
  freed_buffers-Perm [] d h = (d, refl, same_buffers d)
  freed_buffers-Perm (e ∷ es) d h =
      let (d1, made, r) = step-Refines fl e d h in
      let (d2, ran, perm) = freed_buffers-Perm es d1 r.separate in
      let one : SameIfSome d (some d1) = subst (SameIfSome d) made (step-SameIfSome e d h) in
      (d2, rw made ran, Perm.trans perm one)
