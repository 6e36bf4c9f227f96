-- ===== src/Dal/Preserved.antt =====
-- What every history of src/dal_plugin/KinectCameraDALPlugin.cpp keeps true: suspending, tearing down and
-- handing out the queue.
use mac_kinect_native.Base.{
  ℕ, zero, suc, ◌-◌, ◌^◌, ◌≤◌, ◌<◌, ◌≡◌, refl, sym, ap, ◌∙◌, Bool, false, not, Option, none, some,
  [], ◌++◌, arith,
}
use mac_kinect_native.Base.Tests.{ltb, ◌==◌, if_rule, is_some, ltb→lt}
use mac_kinect_native.Dal.Types.{Status, unspecified, illegal_operation, bad_stream}
use mac_kinect_native.Dal.Queue.{SimpleQueue, IsSimpleQueue, fate_samples, k_queue_capacity}
use mac_kinect_native.Dal.Store.{queued, flush, queued-flush}
use mac_kinect_native.Dal.Objects.{forget_objects}
use mac_kinect_native.Dal.Producer.{
  Camera, stop_producing_if_needed, halt, stop_all, flush_queue, teardown_objects, plug_in_teardown,
  hand_out_queue, plug_in_stream_copy_buffer_queue,
}
use mac_kinect_native.Dal.Invariant.{Inv, view-forget, same_running-Inv, flush-Stored, stop-Inv}

module _ (sq : SimpleQueue) (ok : IsSimpleQueue sq) where
  pub stop_all-Inv : (fuel n : ℕ) (c : Camera sq) → Inv sq n c → Inv sq n (stop_all sq fuel c)
  unfolding stop_all
  stop_all-Inv zero n c i = i
  stop_all-Inv (suc fuel) n c i =
      if_rule (Inv sq n) (ltb 0 c.plugin.running_clients) _
        (λ e. stop_all-Inv fuel n _ (stop-Inv sq ok n c (ltb→lt _ _ e) i)) (λ _. i)

  clients-stop :
      (c : Camera sq)
      → 0 < c.plugin.running_clients
      → c.plugin.running_clients < 2 ^ 32
      → (stop_producing_if_needed sq c).plugin.running_clients ≡ c.plugin.running_clients - 1
  unfolding stop_producing_if_needed
  clients-stop c pos fit =
      if_rule {A = Camera sq} (λ d. d.plugin.running_clients ≡ c.plugin.running_clients - 1)
        (ltb 1 c.plugin.running_clients) _ (λ _. omega arith) (λ _. omega arith)

  pub clients-stop_all :
      (fuel n : ℕ) (c : Camera sq)
      → Inv sq n c
      → c.plugin.running_clients ≤ fuel
      → (stop_all sq fuel c).plugin.running_clients ≡ 0
  unfolding stop_all
  clients-stop_all zero n c i h = omega arith
  clients-stop_all (suc fuel) n c i h =
      if_rule {A = Camera sq} (λ d. d.plugin.running_clients ≡ 0) (ltb 0 c.plugin.running_clients) _
        (λ e.
          let pos = ltb→lt 0 c.plugin.running_clients e in
          clients-stop_all fuel n _ (stop-Inv sq ok n c pos i)
            (omega (arith, clients-stop c pos (omega (arith, i.clients.clients_fit)))))
        (λ e. ground arith)

  teardown_objects-Inv : (n : ℕ) (c : Camera sq) → Inv sq n c → Inv sq n (teardown_objects sq c)
  unfolding teardown_objects flush_queue halt
  teardown_objects-Inv n c i =
      let s = flush-Stored sq ok false (c.sample_queue, c.left) c.made i.stored in
      record {
        clients = record {
          running_thread = refl;
          thread_clients = refl;
          clients_fit = omega (arith, i.clients.clients_fit);
          idle_source = λ _. refl;
        };
        stored = record {
          bounded = tt;
          first_in_first_out =
              s.first_in_first_out
              ∙ ap (λ xs. fate_samples (flush sq (c.sample_queue, c.left)).1 ++ xs)
                  (queued-flush sq ok (c.sample_queue, c.left));
          idle_queue = λ _. refl;
        };
      }

  pub teardown-Inv : (n : ℕ) (c : Camera sq) → Inv sq n c → Inv sq n (plug_in_teardown sq c)
  unfolding plug_in_teardown
  teardown-Inv n c i =
      let c1 = teardown_objects sq c in
      same_running-Inv sq n c1 (forget_objects c1.plugin) (view-forget c1.plugin)
        (teardown_objects-Inv n c i)

  new_queue-Inv :
      (n : ℕ) (c : Camera sq)
      → is_some c.sample_queue ≡ false
      → Inv sq n c
      → Inv sq n (record c { sample_queue = some (sq.create k_queue_capacity) })
  new_queue-Inv n c e i = record {
    clients = i.clients;
    stored = record {
      bounded = (
        ok.capacity-create k_queue_capacity,
        rw (ok.contents-create k_queue_capacity) (omega arith),
      );
      first_in_first_out =
          i.stored.first_in_first_out
          ∙ ap (λ xs. fate_samples c.left ++ xs)
              (is_none_queued c.sample_queue e ∙ sym (ok.contents-create k_queue_capacity));
      idle_queue = λ _. ok.contents-create k_queue_capacity;
    };
  }
    where
      is_none_queued : (o : Option sq.Queue) → is_some o ≡ false → queued sq o ≡ []
      is_none_queued none e = refl
      is_none_queued (some q) e = absurd (ground arith)

  pub copy-Inv :
      (n : ℕ) (makes has_out has_proc : Bool) (stream : ℕ) (c : Camera sq)
      → Inv sq n c
      → Inv sq n (plug_in_stream_copy_buffer_queue sq makes has_out has_proc stream c).0
  unfolding plug_in_stream_copy_buffer_queue hand_out_queue
  copy-Inv n makes has_out has_proc stream c i =
      if_rule P (not has_out) (c, illegal_operation) (λ _. i)
        (λ _.
          if_rule P (not (stream == c.plugin.stream_object_id)) (c, bad_stream) (λ _. i)
            (λ _.
              if_rule P (is_some c.sample_queue) (hand_out_queue sq has_proc c)
                (λ _. same_running-Inv sq n c _ refl i)
                (λ e.
                  if_rule P (not makes) (c, unspecified) (λ _. i)
                    (λ _. same_running-Inv sq n _ _ refl (new_queue-Inv n c e i)))))
    where
      P : Camera sq × Status → Type 0
      P r = Inv sq n r.0
