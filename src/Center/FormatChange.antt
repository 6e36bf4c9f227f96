-- ===== src/Center/FormatChange.antt =====
-- How the thread of src/control_center_v1.cpp answers a change of format that a key requests.
use mac_kinect_native.Base.{◌≡◌, ◌∙◌, sym, true, false, arith}
use mac_kinect_native.Base.Tests.{if_rule}
use mac_kinect_native.V1Device.Calls.{is_failure}
use mac_kinect_native.Center.Formats.{VideoFormat, DepthFormat, same_video, same_depth}
use mac_kinect_native.Center.Settings.{Command, Freenect, Center, ask}
use mac_kinect_native.Center.Thread.{change_video_format, change_depth_format, thread_round}

same_video→eq : (a b : VideoFormat) → same_video a b ≡ true → a ≡ b
same_video→eq a b h = ground arith

same_depth→eq : (a b : DepthFormat) → same_depth a b ≡ true → a ≡ b
same_depth→eq a b h = ground arith

-- The formats after a round, from those before it: no request is open, and a request was granted if
-- its format is valid, and withdrawn if not.
pub record IsSettled (lib : Freenect) (before after : Center) : Type 0 where
  pub video_settled : after.requested_video_format ≡ after.current_video_format
  pub depth_settled : after.requested_depth_format ≡ after.current_depth_format
  pub video_granted :
      lib.video_is_valid before.requested_video_format ≡ true
      → after.current_video_format ≡ before.requested_video_format
  pub depth_granted :
      lib.depth_is_valid before.requested_depth_format ≡ true
      → after.current_depth_format ≡ before.requested_depth_format
  pub video_withdrawn :
      lib.video_is_valid before.requested_video_format ≡ false
      → after.current_video_format ≡ before.current_video_format
  pub depth_withdrawn :
      lib.depth_is_valid before.requested_depth_format ≡ false
      → after.current_depth_format ≡ before.current_depth_format

-- The two halves of a round: each settles the one format and leaves the other alone.
record VideoSettled (lib : Freenect) (before after : Center) : Type 0 where
  settled : after.requested_video_format ≡ after.current_video_format
  granted :
      lib.video_is_valid before.requested_video_format ≡ true
      → after.current_video_format ≡ before.requested_video_format
  withdrawn :
      lib.video_is_valid before.requested_video_format ≡ false
      → after.current_video_format ≡ before.current_video_format
  same_requested : after.requested_depth_format ≡ before.requested_depth_format
  same_current : after.current_depth_format ≡ before.current_depth_format

record DepthSettled (lib : Freenect) (before after : Center) : Type 0 where
  settled : after.requested_depth_format ≡ after.current_depth_format
  granted :
      lib.depth_is_valid before.requested_depth_format ≡ true
      → after.current_depth_format ≡ before.requested_depth_format
  withdrawn :
      lib.depth_is_valid before.requested_depth_format ≡ false
      → after.current_depth_format ≡ before.current_depth_format
  same_requested : after.requested_video_format ≡ before.requested_video_format
  same_current : after.current_video_format ≡ before.current_video_format

module _ (lib : Freenect) where
  change_video_format-VideoSettled : (c : Center) → VideoSettled lib c (change_video_format lib c)
  unfolding change_video_format
  change_video_format-VideoSettled c =
      ground (arith, same_video→eq c.requested_video_format c.current_video_format)

  change_depth_format-DepthSettled : (c : Center) → DepthSettled lib c (change_depth_format lib c)
  unfolding change_depth_format
  change_depth_format-DepthSettled c =
      ground (arith, same_depth→eq c.requested_depth_format c.current_depth_format)

  both-IsSettled :
      (c c1 c2 : Center)
      → VideoSettled lib (ask lib Command.process_events_timeout c).0 c1
      → DepthSettled lib c1 c2
      → IsSettled lib c c2
  both-IsSettled c c1 c2 v d = record {
    video_settled = d.same_requested ∙ v.settled ∙ sym d.same_current;
    depth_settled = d.settled;
    video_granted = λ ok. d.same_current ∙ v.granted ok;
    depth_granted = λ ok. d.granted (rw v.same_requested ok) ∙ v.same_requested;
    video_withdrawn = λ bad. d.same_current ∙ v.withdrawn bad;
    depth_withdrawn = λ bad. d.withdrawn (rw v.same_requested bad) ∙ v.same_current;
  }

  -- One round in which the events are processed settles every requested change of format: after it,
  -- the formats requested are the current ones; a format that libfreenect knows has become current,
  -- and the request of any other has been withdrawn, with the current format kept.
  pub thread_round-IsSettled :
      (c : Center)
      → c.die ≡ false
      → is_failure (ask lib Command.process_events_timeout c).1 ≡ false
      → IsSettled lib c (thread_round lib c)
  unfolding thread_round
  thread_round-IsSettled c alive processed =
      let (c1, rc) = ask lib Command.process_events_timeout c in
      let c2 = change_video_format lib c1 in
      if_rule {A = Center} (IsSettled lib c) c.die _ (λ dies. absurd (ground arith))
        (λ _.
          if_rule {A = Center} (IsSettled lib c) (is_failure rc) _ (λ fails. absurd (ground arith))
            (λ _.
              both-IsSettled c c2 (change_depth_format lib c2) (change_video_format-VideoSettled c1)
                (change_depth_format-DepthSettled c2)))
