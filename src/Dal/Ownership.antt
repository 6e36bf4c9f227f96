-- ===== src/Dal/Ownership.antt =====
-- The objects that src/dal_plugin/KinectCameraDALPlugin.cpp creates with the host and takes back.
use mac_kinect_native.Base.{ℕ, ◌≡◌, ◌≢◌, refl, ap, ◌∙◌, true, not, ◌&&◌, none, [], ◌∷◌, arith}
use mac_kinect_native.Base.Tests.{◌==◌, if_rule}
use mac_kinect_native.Dal.Types.{
  Plugin, Status, unknown_id, creates, publishes, kills, host_error, no_error,
}
use mac_kinect_native.Dal.Objects.{
  HostAnswers, Created, plug_in_initialize_with_object_id, create_device, create_stream,
  publish_both, publish, call_host, forget_objects, kill_if_known, initial_plugin,
}

kill_known :
    (owner id : ℕ) (p : Plugin)
    → id ≢ unknown_id
    → kill_if_known owner id p ≡ call_host (kills owner id) p
unfolding kill_if_known
kill_known owner id p h =
    if_rule (λ r. r ≡ call_host (kills owner id) p) (not (id == unknown_id)) _ (λ _. refl)
      (λ e. absurd (ground arith))

forget_known :
    (p : Plugin)
    → p.device_object_id ≢ unknown_id
    → p.stream_object_id ≢ unknown_id
    → forget_objects p ≡ record p {
      stream_object_id = unknown_id;
      device_object_id = unknown_id;
      host_calls =
          kills p.plug_in_object_id p.device_object_id
          ∷ kills p.device_object_id p.stream_object_id
          ∷ p.host_calls;
    }
unfolding forget_objects call_host
forget_known p d0 s0 =
    let p1 = kill_if_known p.device_object_id p.stream_object_id p in
    let q1 = call_host (kills p.device_object_id p.stream_object_id) p in
    ap (λ r. forgotten (kill_if_known r.plug_in_object_id r.device_object_id r))
      (kill_known p.device_object_id p.stream_object_id p s0)
    ∙ ap forgotten (kill_known p.plug_in_object_id p.device_object_id q1 d0)
  where
    forgotten : Plugin → Plugin
    forgotten r = record r { stream_object_id = unknown_id; device_object_id = unknown_id }

initialize_known :
    (h : HostAnswers) (id : ℕ) (p : Plugin)
    → p.device_object_id ≢ unknown_id
    → p.stream_object_id ≢ unknown_id
    → plug_in_initialize_with_object_id h id p
      ≡ (record p { has_plug_in_ref = true; plug_in_object_id = id }, no_error)
unfolding plug_in_initialize_with_object_id
initialize_known h id p d0 s0 =
    if_rule {A = Plugin × Status}
      (λ r. r ≡ (record p { has_plug_in_ref = true; plug_in_object_id = id }, no_error))
      (not (p.device_object_id == unknown_id) && not (p.stream_object_id == unknown_id)) _
      (λ _. refl) (λ e. absurd (ground arith))

initialize_streamless :
    (h : HostAnswers) (id : ℕ) (p : Plugin)
    → p.stream_object_id ≡ unknown_id
    → plug_in_initialize_with_object_id h id p
      ≡ create_device h h.device (record p { has_plug_in_ref = true; plug_in_object_id = id })
unfolding plug_in_initialize_with_object_id
initialize_streamless h id p s0 =
    if_rule {A = Plugin × Status}
      (λ r.
        r ≡ create_device h h.device (record p { has_plug_in_ref = true; plug_in_object_id = id }))
      (not (p.device_object_id == unknown_id) && not (p.stream_object_id == unknown_id)) _
      (λ e. absurd (ground arith)) (λ _. refl)

-- An answer that creates both objects and publishes them.
abbrev pub all_well : ℕ → ℕ → HostAnswers
all_well d s = record {
  device = Created.created d;
  stream = Created.created s;
  device_published = none;
  stream_published = none;
}

-- From the initial state, with numbers d and s that are not 0 for the device and the stream, the
-- initialization returns `noErr` and makes and publishes both; a second initialization returns
-- `noErr` and only takes the new number of the plug-in, without a call; and forgetting the objects
-- after that kills both, the stream first, and leaves both numbers unknown.
pub initialize-forget :
    (d s id id' : ℕ) (h : HostAnswers)
    → d ≢ 0
    → s ≢ 0
    → let r = plug_in_initialize_with_object_id (all_well d s) id initial_plugin in
      let r' = plug_in_initialize_with_object_id h id' r.0 in
      let p = forget_objects r'.0 in
      (r.1 ≡ no_error)
      × (r' ≡ (record r.0 { plug_in_object_id = id' }, no_error))
      × (p.host_calls
          ≡ kills id' d ∷ kills d s ∷ publishes d s ∷ publishes id d ∷ creates s ∷ creates d ∷ [])
      × (p.device_object_id ≡ unknown_id)
      × (p.stream_object_id ≡ unknown_id)
unfolding create_device create_stream publish_both publish call_host initial_plugin
initialize-forget d s id id' h d0 s0 =
    let first = record initial_plugin { has_plug_in_ref = true; plug_in_object_id = id } in
    let p = (create_device (all_well d s) (Created.created d) first).0 in
    let q = record p { plug_in_object_id = id' } in
    rw (initialize_streamless (all_well d s) id initial_plugin refl) (
      rw (initialize_known h id' p d0 s0) (
        refl,
        refl,
        ap (λ r. r.host_calls) (forget_known q d0 s0),
        ap (λ r. r.device_object_id) (forget_known q d0 s0),
        ap (λ r. r.stream_object_id) (forget_known q d0 s0),
      ))

-- If the host makes the device d but refuses the stream, the initialization returns its error and
-- keeps d; a second one, which the host answers in full with a device e and a stream s, makes e
-- beside d, and forgetting the objects kills e and s only: d is never killed.
pub retry_leaks_device :
    (d e s id rc : ℕ)
    → d ≢ 0
    → e ≢ 0
    → s ≢ 0
    → let refusing = record (all_well d s) { stream = Created.refused rc } in
      let r = plug_in_initialize_with_object_id refusing id initial_plugin in
      let r' = plug_in_initialize_with_object_id (all_well e s) id r.0 in
      (r.1 ≡ host_error rc)
      × (r'.1 ≡ no_error)
      × ((forget_objects r'.0).host_calls
          ≡ kills id e
            ∷ kills e s
            ∷ publishes e s
            ∷ publishes id e
            ∷ creates s
            ∷ creates e
            ∷ creates d
            ∷ [])
unfolding create_device create_stream publish_both publish call_host initial_plugin
retry_leaks_device d e s id rc d0 e0 s0 =
    let refusing = record (all_well d s) { stream = Created.refused rc } in
    let first = record initial_plugin { has_plug_in_ref = true; plug_in_object_id = id } in
    let p = (create_device refusing (Created.created d) first).0 in
    let q = (create_device (all_well e s) (Created.created e) p).0 in
    rw (initialize_streamless refusing id initial_plugin refl) (
      rw (initialize_streamless (all_well e s) id p refl)
        (refl, refl, ap (λ r. r.host_calls) (forget_known q e0 s0)))
