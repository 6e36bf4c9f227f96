-- ===== src/Dal/Invariant.antt =====
-- What every history of src/dal_plugin/KinectCameraDALPlugin.cpp keeps true of its state.
use mac_kinect_native.Base.{
  ℕ, suc, ◌+◌, ◌-◌, ◌%◌, ◌^◌, ◌<◌, ◌≡◌, refl, sym, ap, ◌∙◌, inl, inr, Bool, true, false, not, ◌&&◌,
  Option, none, some, List, [], ◌∷◌, ◌++◌, arith,
}
use mac_kinect_native.Base.Tests.{ltb, ◌==◌, if_rule, Option-cases, not-false}
use mac_kinect_native.Dal.Types.{Plugin, unknown_id, Status}
use mac_kinect_native.Dal.Queue.{SimpleQueue, IsSimpleQueue}
use mac_kinect_native.Dal.Store.{
  Held, queued, held_samples, IsBounded, flush, enqueue, queued-flush, held_samples-flush,
  flush-IsBounded, held_samples-enqueue, enqueue-IsBounded, held_samples-take, take-IsBounded,
  queued-take,
}
use mac_kinect_native.Dal.Objects.{
  HostAnswers, Created, create_device, create_stream, publish_both, publish, call_host,
  plug_in_initialize_with_object_id, kill_if_known, forget_objects, notify_device_running_changed,
}
use mac_kinect_native.Dal.Producer.{
  Camera, FrameAnswers, create_sample_buffer, start_producing_if_needed, stop_producing_if_needed,
  halt, flush_queue, enqueue_sample, produce, client_takes,
}

-- The fields that say whether frames are produced, and for how many.
abbrev pub RunningView : Type 0
RunningView = Bool × Bool × ℕ × Bool

abbrev pub running_view : Plugin → RunningView
running_view p = (p.producer_running, p.has_thread, p.running_clients, p.source_started)

-- The producer runs, with its thread, exactly while there are clients, and only then has a source;
-- n more clients fit the counter.
pub record Clients (n : ℕ) (v : RunningView) : Type 0 where
  pub running_thread : v.0 ≡ v.1
  pub thread_clients : v.1 ≡ ltb 0 v.2
  pub clients_fit : v.2 + n < 2 ^ 32
  pub idle_source : v.0 ≡ false → v.3 ≡ false

module _ (n : ℕ) (v : RunningView) where
  one_more :
      not (v.2 == 0) ≡ true → Clients (suc n) v → Clients n (v.0, v.1, (v.2 + 1) % 2 ^ 32, v.3)
  one_more some_yet k = record {
    running_thread = k.running_thread;
    thread_clients = ground (arith, k.thread_clients, k.clients_fit);
    clients_fit = ground (arith, k.clients_fit);
    idle_source = k.idle_source;
  }

  first_one :
      (src : Bool)
      → Clients (suc n) v
      → (v.2 == 0) ≡ true
      → Clients n (true, true, (v.2 + 1) % 2 ^ 32, src)
  first_one src k none_yet = record {
    running_thread = refl;
    thread_clients = ground arith;
    clients_fit = ground (arith, k.clients_fit);
    idle_source = λ e. absurd (ground arith);
  }

  one_fewer :
      ltb 1 v.2 ≡ true → Clients n v → Clients n (v.0, v.1, (v.2 + (2 ^ 32 - 1)) % 2 ^ 32, v.3)
  one_fewer several k = record {
    running_thread = k.running_thread;
    thread_clients = ground (arith, k.thread_clients, k.clients_fit);
    clients_fit = ground (arith, k.clients_fit);
    idle_source = k.idle_source;
  }

  last_one :
      0 < v.2
      → ltb 1 v.2 ≡ false
      → Clients n v
      → Clients n (false, false, (v.2 + (2 ^ 32 - 1)) % 2 ^ 32, false)
  last_one pos several k = record {
    running_thread = refl;
    thread_clients = ground arith;
    clients_fit = ground (arith, k.clients_fit);
    idle_source = λ _. refl;
  }

view-publish :
    (r : Option ℕ) (owner id : ℕ) (p : Plugin)
    → running_view (publish r owner id p).0 ≡ running_view p
unfolding publish call_host
view-publish none owner id p = refl
view-publish (some rc) owner id p = refl

view-publish_both :
    (h : HostAnswers) (p : Plugin) → running_view (publish_both h p).0 ≡ running_view p
unfolding publish_both
view-publish_both h p = elim (Option-cases h.device_published) [
  | inl e ↦ rw e (
      view-publish h.stream_published p.device_object_id p.stream_object_id _
      ∙ view-publish none p.plug_in_object_id p.device_object_id p)
  | inr (rc, e) ↦ rw e (view-publish (some rc) p.plug_in_object_id p.device_object_id p)
]

view-create_stream :
    (h : HostAnswers) (a : Created) (p : Plugin)
    → running_view (create_stream h a p).0 ≡ running_view p
unfolding create_stream call_host
view-create_stream h (Created.refused rc) p = refl
view-create_stream h (Created.created id) p = view-publish_both h _

view-create_device :
    (h : HostAnswers) (a : Created) (p : Plugin)
    → running_view (create_device h a p).0 ≡ running_view p
unfolding create_device call_host
view-create_device h (Created.refused rc) p = refl
view-create_device h (Created.created id) p = view-create_stream h h.stream _

pub view-initialize :
    (h : HostAnswers) (id : ℕ) (p : Plugin)
    → running_view (plug_in_initialize_with_object_id h id p).0 ≡ running_view p
unfolding plug_in_initialize_with_object_id
view-initialize h id p =
    if_rule {A = Plugin × Status} (λ r. running_view r.0 ≡ running_view p)
      (not (p.device_object_id == unknown_id) && not (p.stream_object_id == unknown_id)) _
      (λ _. refl) (λ _. view-create_device h h.device _)

view-kill : (owner id : ℕ) (p : Plugin) → running_view (kill_if_known owner id p) ≡ running_view p
unfolding kill_if_known call_host
view-kill owner id p =
    if_rule (λ r. running_view r ≡ running_view p) (not (id == unknown_id)) _ (λ _. refl)
      (λ _. refl)

pub view-forget : (p : Plugin) → running_view (forget_objects p) ≡ running_view p
unfolding forget_objects
view-forget p =
    let p1 = kill_if_known p.device_object_id p.stream_object_id p in
    view-kill p1.plug_in_object_id p1.device_object_id p1
    ∙ view-kill p.device_object_id p.stream_object_id p

module _ (sq : SimpleQueue) where
  -- The queue is within its capacity, every sample made so far left it or is in it, in the order in
  -- which they were made, and it is empty while the producer does not run.
  pub record Stored (running : Bool) (h : Held sq) (made : List ℕ) : Type 0 where
    pub bounded : IsBounded sq h.0
    pub first_in_first_out : made ≡ held_samples sq h
    pub idle_queue : running ≡ false → queued sq h.0 ≡ []

  pub record Inv (n : ℕ) (c : Camera sq) : Type 0 where
    pub clients : Clients n (running_view c.plugin)
    pub stored : Stored c.plugin.producer_running (c.sample_queue, c.left) c.made

  -- A plug-in whose running is the same.
  pub same_running-Inv :
      (n : ℕ) (c : Camera sq) (p : Plugin)
      → running_view p ≡ running_view c.plugin
      → Inv n c
      → Inv n (record c { plugin = p })
  same_running-Inv n c p e i = record {
    clients = rw e i.clients;
    stored = rw (ap (λ v. v.0) e) i.stored;
  }

  module _ (ok : IsSimpleQueue sq) where
    pub flush-Stored :
        {b : Bool} (b' : Bool) (h : Held sq) (made : List ℕ)
        → Stored b h made
        → Stored b' (flush sq h) made
    flush-Stored b' h made s = record {
      bounded = flush-IsBounded sq ok h s.bounded;
      first_in_first_out = s.first_in_first_out ∙ sym (held_samples-flush sq ok h);
      idle_queue = λ _. queued-flush sq ok h;
    }

    while_running : {b : Bool} {h : Held sq} {made : List ℕ} → Stored b h made → Stored true h made
    while_running s = record {
      bounded = s.bounded;
      first_in_first_out = s.first_in_first_out;
      idle_queue = λ e. absurd (ground arith);
    }

    enqueue-Stored :
        (n : ℕ) (h : Held sq) (made : List ℕ)
        → Stored true h made
        → Stored true (enqueue sq n h).0 (made ++ (n ∷ []))
    enqueue-Stored n h made s = record {
      bounded = enqueue-IsBounded sq ok n h s.bounded;
      first_in_first_out =
          ap (λ xs. xs ++ (n ∷ [])) s.first_in_first_out
          ∙ sym (held_samples-enqueue sq ok n h s.bounded);
      idle_queue = λ e. absurd (ground arith);
    }

    pub take-Inv : (n : ℕ) (c : Camera sq) → Inv n c → Inv n (client_takes sq c)
    unfolding client_takes
    take-Inv n c i = record {
      clients = i.clients;
      stored = record {
        bounded = take-IsBounded sq ok (c.sample_queue, c.left) i.stored.bounded;
        first_in_first_out =
            i.stored.first_in_first_out ∙ sym (held_samples-take sq ok (c.sample_queue, c.left));
        idle_queue = λ e. queued-take sq ok (c.sample_queue, c.left) (i.stored.idle_queue e);
      };
    }

    pub produce-Inv : (n : ℕ) (f : FrameAnswers) (c : Camera sq) → Inv n c → Inv n (produce sq f c)
    unfolding produce enqueue_sample
    produce-Inv n f c i =
        if_rule (Inv n) (not c.plugin.producer_running) c (λ _. i)
          (λ e.
            if_rule (Inv n) (create_sample_buffer f c.plugin.format_refs).0 _
              (λ _. record {
                clients = i.clients;
                stored = rw (not-false c.plugin.producer_running e) (
                    enqueue-Stored c.plugin.frame_counter (c.sample_queue, c.left) c.made
                      (while_running i.stored));
              })
              (λ _. record { clients = i.clients; stored = i.stored }))

    pub start-Inv :
        (n : ℕ) (src : Bool) (c : Camera sq)
        → Inv (suc n) c
        → (c' : Camera sq) × (start_producing_if_needed sq src c ≡ some c') × Inv n c'
    unfolding start_producing_if_needed notify_device_running_changed
    start-Inv n src c i =
        if_rule Started (not (c.plugin.running_clients == 0)) _
          (λ e. (_, refl, record { clients = one_more n _ e i.clients; stored = i.stored }))
          (λ e.
            if_rule Started c.plugin.has_thread none
              (λ t. absurd (ground (arith, i.clients.thread_clients)))
              (λ _. (
                _,
                refl,
                record {
                  clients = first_one n _ src i.clients (not-false _ e);
                  stored = while_running i.stored;
                },
              )))
      where
        Started : Option (Camera sq) → Type 0
        Started o = (c' : Camera sq) × (o ≡ some c') × Inv n c'

    pub stop-Inv :
        (n : ℕ) (c : Camera sq)
        → 0 < c.plugin.running_clients
        → Inv n c
        → Inv n (stop_producing_if_needed sq c)
    unfolding stop_producing_if_needed notify_device_running_changed halt flush_queue
    stop-Inv n c pos i =
        if_rule (Inv n) (ltb 1 c.plugin.running_clients) _
          (λ e. record { clients = one_fewer n _ e i.clients; stored = i.stored })
          (λ e. record {
            clients = last_one n _ pos e i.clients;
            stored = flush-Stored false (c.sample_queue, c.left) c.made i.stored;
          })
