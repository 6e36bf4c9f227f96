-- ===== src/V2Device/Previews.antt =====
-- What `FreenectV2Backend::preview` of src/backends/freenect_v2_backend.cpp counts and leaves.
use Prim.Native.String.{String}
use mac_kinect_native.Base.{
  ℕ, zero, suc, ◌+◌, ◌≤◌, ◌≡◌, ◌⊎◌, inl, inr, refl, ◌∙◌, true, not, Option, none, some, List, [],
  ◌∷◌, arith,
}
use mac_kinect_native.Base.Tests.{ltb, if_rule}
use mac_kinect_native.Base.Lists.{length, is_empty}
use mac_kinect_native.Backend.{FrameData, PreviewResult}
use mac_kinect_native.Float32.{Float32}
use mac_kinect_native.V2Device.State.{Device, new_device}
use mac_kinect_native.V2Device.Methods.{get_frame, open_handle, start, stop, destroy, update}
use mac_kinect_native.V2Device.NewFrames.{
  get_frame_keeps, get_frame_holds, update_keeps, start_keeps, stop_keeps, open_handle_holds,
}
use mac_kinect_native.V2Device.WholeFrames.{IsWhole, IsWholeIf, IsReady, all-IsWhole}
use mac_kinect_native.V2Device.Balance.{
  Phase, replay, Follows, update-Follows, get_frame-Follows, start-Follows, stop-Follows,
  destroy-replay, open_handle-Follows, update_dev, get_frame_dev, start_dev, stop_dev, opened_dev,
}
use mac_kinect_native.V2Device.Backends.{
  Context, FrameCounts, add_frame, open_device, is_empty_text, preview_round, preview_rounds,
  preview_device,
}

abbrev total : FrameCounts → ℕ
total n = n.colors + n.depths

empty_buffer : (xs : List ℕ) → length xs ≡ 0 → is_empty xs ≡ true
empty_buffer [] h = refl
empty_buffer (x ∷ xs) h = absurd (omega arith)

one_counts : (f : FrameData) → IsWhole f → (is_empty f.rgb ≡ true) ⊎ (is_empty f.depth ≡ true)
one_counts f whole = elim whole.one_image [
  | inl color ↦ inr (empty_buffer f.depth color.1)
  | inr (inl deep) ↦ inl (empty_buffer f.rgb deep.0)
  | inr (inr infrared) ↦ inl (empty_buffer f.rgb infrared.0)
]

-- A whole frame counts once at most.
add_frame-total :
    (frame : Option FrameData) (n : FrameCounts)
    → IsWholeIf frame
    → total (add_frame frame n) ≤ total n + 1
unfolding add_frame
add_frame-total none n whole = omega arith
add_frame-total (some f) n whole = let one = one_counts f whole in ground arith

-- A device in the middle of its use.
record IsUsed (d : Device) : Type 0 where
  ready : IsReady d
  follows : Follows d
  dev : d.has_dev ≡ true

-- The counts grew by at most k, and the device is in use.
record Counted (k : ℕ) (n : FrameCounts) (r : Device × FrameCounts) : Type 0 where
  used : IsUsed r.0
  grown : total r.1 ≤ total n + k

module _ (fl : Float32) (ctx : Context fl) where
  preview_round-Counted :
      (d : Device) (n : FrameCounts) → IsUsed d → Counted 1 n (preview_round fl ctx d n)
  unfolding preview_round
  preview_round-Counted d n h =
      let (d1, updated) = update fl ctx.library d in
      let ready1 = update_keeps fl ctx.library IsWhole (all-IsWhole fl ctx.library) d h.ready in
      let follows1 = update-Follows fl ctx.library d h.follows in
      let dev1 = update_dev fl ctx.library d ∙ h.dev in
      if_rule {A = Device × FrameCounts} (Counted 1 n) updated _
        (λ _. record {
          used = record {
            ready = get_frame_keeps IsWhole d1 ready1;
            follows = get_frame-Follows d1 follows1;
            dev = get_frame_dev d1 ∙ dev1;
          };
          grown = add_frame-total (get_frame d1).1 n (get_frame_holds IsWhole d1 ready1);
        })
        (λ _. record {
          used = record { ready = ready1; follows = follows1; dev = dev1 };
          grown = omega arith;
        })

  preview_rounds-Counted :
      (rounds : ℕ) (d : Device) (n : FrameCounts)
      → IsUsed d
      → Counted rounds n (preview_rounds fl ctx rounds d n)
  unfolding preview_rounds
  preview_rounds-Counted zero d n h = record { used = h; grown = omega arith }
  preview_rounds-Counted (suc rounds) d n h =
      let (d1, n1) = preview_round fl ctx d n in
      let first = preview_round-Counted d n h in
      let rest = preview_rounds-Counted rounds d1 n1 first.used in
      record { used = rest.used; grown = omega (arith, first.grown, rest.grown) }

  -- What a preview of an opened device reports, and what it leaves of the device.
  pub record IsReported (rounds : ℕ) (r : Device × PreviewResult) : Type 0 where
    pub counted : r.1.color_frames + r.1.depth_frames ≤ rounds
    pub succeeded : r.1.success ≡ ltb 0 (r.1.color_frames + r.1.depth_frames)
    pub left_closed : replay r.0.log ≡ some Phase.gone

  destroy-gone : (d : Device) → IsUsed d → replay (destroy fl ctx.library d).log ≡ some Phase.gone
  destroy-gone d h = destroy-replay fl ctx.library d h.follows ∙ rw h.dev refl

  start-IsUsed : (d : Device) → IsUsed d → IsUsed (start fl ctx.library d).0
  start-IsUsed d h = record {
    ready = start_keeps fl ctx.library IsWhole (all-IsWhole fl ctx.library) d h.ready;
    follows = start-Follows fl ctx.library d h.follows;
    dev = start_dev fl ctx.library d ∙ h.dev;
  }

  stop-IsUsed : (d : Device) → IsUsed d → IsUsed (stop fl ctx.library d).0
  stop-IsUsed d h = record {
    ready = stop_keeps fl ctx.library IsWhole (all-IsWhole fl ctx.library) d h.ready;
    follows = stop-Follows fl ctx.library d h.follows;
    dev = stop_dev fl ctx.library d ∙ h.dev;
  }

  preview_device-IsReported :
      (rounds : ℕ) (d : Device) → IsUsed d → IsReported rounds (preview_device fl ctx rounds d)
  unfolding preview_device
  preview_device-IsReported rounds d h =
      let (d1, started) = start fl ctx.library d in
      let h1 = start-IsUsed d h in
      let none_yet : FrameCounts = record { colors = 0; depths = 0 } in
      let (d2, n) = preview_rounds fl ctx rounds d1 none_yet in
      let c = preview_rounds-Counted rounds d1 none_yet h1 in
      if_rule {A = Device × PreviewResult} (IsReported rounds) (not started) _
        (λ _. record { counted = omega arith; succeeded = refl; left_closed = destroy-gone d1 h1 })
        (λ _. record {
          counted = omega (arith, c.grown);
          succeeded = refl;
          left_closed = destroy-gone _ (stop-IsUsed d2 c.used);
        })

  abbrev pub IsReportedIf : ℕ → Option Device → Type 0
  IsReportedIf rounds none = Unit
  IsReportedIf rounds (some d) = IsReported rounds (preview_device fl ctx rounds d)

  -- For any serial, if the device opens: a preview of it counts at most one frame a round, color and
  -- depth together; it succeeds exactly if it counted one; and, started or not,
  -- the device is left stopped, with its frames released, and closed, by calls that came in an order
  -- that the automaton of libfreenect2 accepts.
  pub preview_opened-IsReported :
      (rounds : ℕ) (serial : String) → IsReportedIf rounds (open_device fl ctx serial)
  unfolding open_device
  preview_opened-IsReported rounds serial =
      let d = (open_handle fl ctx.library (new_device true serial)).0 in
      if_rule {A = Option Device} (IsReportedIf rounds) (is_empty_text serial) none (λ _. tt)
        (λ _.
          if_rule {A = Option Device} (IsReportedIf rounds) _ none (λ _. tt)
            (λ opened. preview_device-IsReported rounds d (record {
              ready =
                  open_handle_holds fl ctx.library IsWhole (all-IsWhole fl ctx.library) true serial;
              follows = open_handle-Follows fl ctx.library true serial;
              dev = opened_dev fl ctx.library serial opened;
            })))
