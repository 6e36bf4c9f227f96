-- ===== src/Dal/Promises.antt =====
-- What every history of src/dal_plugin/KinectCameraDALPlugin.cpp keeps true: the theorems.
use mac_kinect_native.Base.{
  ℕ, suc, ◌^◌, ◌<◌, ◌≡◌, refl, ap, ◌∙◌, Bool, false, not, Option, some, List, [], ◌∷◌, arith,
}
use mac_kinect_native.Base.Tests.{ltb, ◌==◌, if_rule, ltb→lt}
use mac_kinect_native.Dal.Types.{Status, no_error, bad_stream, bad_device}
use mac_kinect_native.Dal.Queue.{SimpleQueue, IsSimpleQueue}
use mac_kinect_native.Dal.Store.{queued}
use mac_kinect_native.Dal.Objects.{
  plug_in_initialize, plug_in_add_ref, plug_in_release, initial_plugin,
}
use mac_kinect_native.Dal.Producer.{
  Camera, stop_producing_if_needed, plug_in_device_start_stream, plug_in_device_stop_stream,
  plug_in_device_suspend, initial_camera,
}
use mac_kinect_native.Dal.Events.{Event, starts, starts_from, step, run, camera_of, with_plugin}
use mac_kinect_native.Dal.Preserved.{stop_all-Inv, clients-stop_all, teardown-Inv, copy-Inv}
use mac_kinect_native.Dal.Invariant.{
  Inv, running_view, view-initialize, same_running-Inv, take-Inv, produce-Inv, start-Inv, stop-Inv,
}

module _ (sq : SimpleQueue) (ok : IsSimpleQueue sq) where
  fewer_starts-Inv : (n : ℕ) (c : Camera sq) → Inv sq (suc n) c → Inv sq n c
  fewer_starts-Inv n c i = record {
    clients = record {
      running_thread = i.clients.running_thread;
      thread_clients = i.clients.thread_clients;
      clients_fit = omega (arith, i.clients.clients_fit);
      idle_source = i.clients.idle_source;
    };
    stored = i.stored;
  }

  -- An outcome that is a camera with the invariant.
  abbrev GoesOn : ℕ → Option (Camera sq) → Type 0
  GoesOn n o = (c : Camera sq) × (o ≡ some c) × Inv sq n c

  start_stream-GoesOn :
      (n : ℕ) (src : Bool) (device stream : ℕ) (c : Camera sq)
      → Inv sq (suc n) c
      → GoesOn n (camera_of sq (plug_in_device_start_stream sq src device stream c))
  unfolding plug_in_device_start_stream
  start_stream-GoesOn n src device stream c i =
      if_rule P (not (device == c.plugin.device_object_id)) (some (c, bad_device))
        (λ _. (c, refl, fewer_starts-Inv n c i))
        (λ _.
          if_rule P (not (stream == c.plugin.stream_object_id)) (some (c, bad_stream))
            (λ _. (c, refl, fewer_starts-Inv n c i))
            (λ _. let r = start-Inv sq ok n src c i in rw r.1 (r.0, refl, r.2)))
    where
      P : Option (Camera sq × Status) → Type 0
      P o = GoesOn n (camera_of sq o)

  stop_stream-Inv :
      (n device stream : ℕ) (c : Camera sq)
      → Inv sq n c
      → Inv sq n (plug_in_device_stop_stream sq device stream c).0
  unfolding plug_in_device_stop_stream
  stop_stream-Inv n device stream c i =
      if_rule P (not (device == c.plugin.device_object_id)) (c, bad_device) (λ _. i)
        (λ _.
          if_rule P (not (stream == c.plugin.stream_object_id)) (c, bad_stream) (λ _. i)
            (λ _.
              if_rule P (ltb 0 c.plugin.running_clients) (stop_producing_if_needed sq c, no_error)
                (λ e. stop-Inv sq ok n c (ltb→lt 0 c.plugin.running_clients e) i) (λ _. i)))
    where
      P : Camera sq × Status → Type 0
      P r = Inv sq n r.0

  suspend-Inv :
      (n device : ℕ) (c : Camera sq) → Inv sq n c → Inv sq n (plug_in_device_suspend sq device c).0
  unfolding plug_in_device_suspend
  suspend-Inv n device c i =
      if_rule {A = Camera sq × Status} (λ r. Inv sq n r.0)
        (not (device == c.plugin.device_object_id)) (c, bad_device) (λ _. i)
        (λ _. stop_all-Inv sq ok c.plugin.running_clients n c i)

  step-GoesOn :
      (e : Event) (n : ℕ) (c : Camera sq) → Inv sq (starts_from e n) c → GoesOn n (step sq e c)
  unfolding step with_plugin plug_in_add_ref plug_in_release plug_in_initialize
  step-GoesOn Event.adds_ref n c i = (_, refl, same_running-Inv sq n c _ refl i)
  step-GoesOn Event.releases_ref n c i = (_, refl, same_running-Inv sq n c _ refl i)
  step-GoesOn Event.initializes n c i = (_, refl, same_running-Inv sq n c _ refl i)
  step-GoesOn (Event.initializes_with_object_id h id) n c i =
      (_, refl, same_running-Inv sq n c _ (view-initialize h id c.plugin) i)
  step-GoesOn (Event.starts_stream src device stream) n c i =
      start_stream-GoesOn n src device stream c i
  step-GoesOn (Event.stops_stream device stream) n c i =
      (_, refl, stop_stream-Inv n device stream c i)
  step-GoesOn (Event.suspends device) n c i = (_, refl, suspend-Inv n device c i)
  step-GoesOn (Event.copies_queue makes has_out has_proc stream) n c i =
      (_, refl, copy-Inv sq ok n makes has_out has_proc stream c i)
  step-GoesOn Event.tears_down n c i = (_, refl, teardown-Inv sq ok n c i)
  step-GoesOn (Event.frame f) n c i = (_, refl, produce-Inv sq ok n f c i)
  step-GoesOn Event.client_takes_sample n c i = (_, refl, take-Inv sq ok n c i)

  run-GoesOn : (es : List Event) (c : Camera sq) → Inv sq (starts es) c → GoesOn 0 (run sq es c)
  unfolding run
  run-GoesOn [] c i = (c, refl, i)
  run-GoesOn (e ∷ es) c i =
      let r = step-GoesOn e (starts es) c i in rw (run, r.1) (run-GoesOn es r.0 r.2)

  initial-Inv : (n : ℕ) → n < 2 ^ 32 → Inv sq n (initial_camera sq)
  unfolding initial_camera initial_plugin
  initial-Inv n h = record {
    clients = record {
      running_thread = refl;
      thread_clients = refl;
      clients_fit = omega arith;
      idle_source = λ _. refl;
    };
    stored = record { bounded = tt; first_in_first_out = refl; idle_queue = λ _. refl };
  }

  -- No history with fewer than 2^32 starts of a stream, of the host's calls, frames and client
  -- dequeues in any order, terminates the process by starting a second producer thread, whatever the
  -- host answers. After it, the producer and its thread run exactly if there are clients; the queue
  -- holds at most 8 samples; the samples made are, in order, those that left the queue (each once,
  -- released or taken) and then those in it; and while the producer does not run the queue is empty
  -- and no source is open.
  pub run-IsConsistent :
      (es : List Event)
      → starts es < 2 ^ 32
      → (c : Camera sq) × (run sq es (initial_camera sq) ≡ some c) × Inv sq 0 c
  run-IsConsistent es few = run-GoesOn es (initial_camera sq) (initial-Inv (starts es) few)

  no_clients :
      (n : ℕ) (c : Camera sq)
      → Inv sq n c
      → c.plugin.running_clients ≡ 0
      → (running_view c.plugin ≡ (false, false, 0, false)) × (queued sq c.sample_queue ≡ [])
  no_clients n c i e =
      let thread = i.clients.thread_clients ∙ ap (ltb 0) e in
      let idle = i.clients.running_thread ∙ thread in
      (rw (idle, thread, e, i.clients.idle_source idle) refl, i.stored.idle_queue idle)

  -- In any state with the invariant that histories keep, suspending the plug-in's own device ends,
  -- with every client gone, the producer and its thread stopped, the source closed and the queue
  -- empty.
  pub suspend_stops_all :
      (n : ℕ) (c : Camera sq)
      → Inv sq n c
      → let r = plug_in_device_suspend sq c.plugin.device_object_id c in
        (r.1 ≡ no_error)
        × (running_view r.0.plugin ≡ (false, false, 0, false))
        × (queued sq r.0.sample_queue ≡ [])
  unfolding plug_in_device_suspend
  suspend_stops_all n c i =
      if_rule P (not (c.plugin.device_object_id == c.plugin.device_object_id)) (c, bad_device)
        (λ e. absurd (ground arith))
        (λ _.
          let s =
            no_clients n _ (stop_all-Inv sq ok c.plugin.running_clients n c i)
              (clients-stop_all sq ok c.plugin.running_clients n c i (omega arith)) in
          (refl, s.0, s.1))
    where
      P : Camera sq × Status → Type 0
      P r =
          (r.1 ≡ no_error)
          × (running_view r.0.plugin ≡ (false, false, 0, false))
          × (queued sq r.0.sample_queue ≡ [])
