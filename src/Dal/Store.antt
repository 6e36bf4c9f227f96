-- ===== src/Dal/Store.antt =====
-- The queue that src/dal_plugin/KinectCameraDALPlugin.cpp fills, with what became of the samples
-- that left it: the parts of the plug-in's operations that touch the queue.
use mac_kinect_native.Base.{
  ℕ, ◌≤◌, ◌<◌, ◌≡◌, refl, sym, ap, ◌∙◌, Bool, true, false, Option, none, some, List, [], ◌∷◌, ◌++◌,
  arith,
}
use mac_kinect_native.Base.Tests.{if◌then◌else◌}
use mac_kinect_native.Base.Lists.{length, length-append}
use mac_kinect_native.Dal.Queue.{
  SimpleQueue, IsSimpleQueue, Fate, fate_samples, fate_samples-append, release_down, take_oldest,
  k_queue_capacity, samples-release_down, samples-take_oldest, capacity-release_down,
  release_down_below, length-take_oldest,
}
use mathlib.Core.List.{append_assoc, append-nil}

module _ (sq : SimpleQueue) where
  -- `gSampleQueue`, `none` for null, and what became of the samples that left.
  abbrev pub Held : Type 0
  Held = Option sq.Queue × List Fate

  unfoldable pub flush : Held → Held
  unfolding release_down
  flush (none, left) = (none, left)
  flush (some q, left) = let s = release_down sq (sq.get_count q) 1 (q, left) in (some s.0, s.1)

  -- The queue after one more sample, and whether it was queued; one that was not is released.
  unfoldable pub enqueue : ℕ → Held → Held × Bool
  unfolding release_down
  enqueue n (none, left) = ((none, left ++ (Fate.released n ∷ [])), false)
  enqueue n (some q, left) =
      let s = release_down sq (sq.get_count q) k_queue_capacity (q, left) in
      let added = sq.enqueue n s.0 in
      if added.0
      then ((some added.1, s.1), true)
      else ((some added.1, s.1 ++ (Fate.released n ∷ [])), false)

  unfoldable pub take : Held → Held
  unfolding take_oldest
  take (none, left) = (none, left)
  take (some q, left) = let s = take_oldest sq Fate.taken (q, left) in (some s.0, s.1)

  abbrev pub queued : Option sq.Queue → List ℕ
  queued none = []
  queued (some q) = sq.contents q

  -- Every sample that was ever handed over, in order.
  abbrev pub held_samples : Held → List ℕ
  held_samples h = fate_samples h.1 ++ queued h.0

  abbrev pub IsBounded : Option sq.Queue → Type 0
  IsBounded none = Unit
  IsBounded (some q) =
      (sq.capacity q ≡ k_queue_capacity) × (length (sq.contents q) ≤ k_queue_capacity)

  module _ (ok : IsSimpleQueue sq) where
    queued_below_one : (xs : List ℕ) → length xs < 1 → xs ≡ []
    queued_below_one [] h = refl
    queued_below_one (x ∷ xs) h = absurd (omega arith)

    pub queued-flush : (h : Held) → queued (flush h).0 ≡ []
    unfolding flush
    queued-flush (none, left) = refl
    queued-flush (some q, left) = queued_below_one _ (
        release_down_below sq ok (sq.get_count q) 1 (q, left) (omega (arith, ok.get_count_lem q))
          (omega arith))

    pub held_samples-flush : (h : Held) → held_samples (flush h) ≡ held_samples h
    unfolding flush
    held_samples-flush (none, left) = refl
    held_samples-flush (some q, left) = samples-release_down sq ok (sq.get_count q) 1 (q, left)

    pub flush-IsBounded : (h : Held) → IsBounded h.0 → IsBounded (flush h).0
    unfolding flush
    flush-IsBounded (none, left) b = tt
    flush-IsBounded (some q, left) b =
        let below =
          release_down_below sq ok (sq.get_count q) 1 (q, left) (omega (arith, ok.get_count_lem q))
            (omega arith) in
        (capacity-release_down sq ok (sq.get_count q) 1 (q, left) ∙ b.0, omega arith)

    -- Where a queue has this capacity, a sample is added at its end.
    enqueue_some :
        (n : ℕ) (q : sq.Queue) (left : List Fate)
        → sq.capacity q ≡ k_queue_capacity
        → let s = release_down sq (sq.get_count q) k_queue_capacity (q, left) in
          let r = enqueue n (some q, left) in
          (r.0 ≡ (some (sq.enqueue n s.0).1, s.1))
          × (r.1 ≡ true)
          × (length (sq.contents s.0) < k_queue_capacity)
          × (sq.contents (sq.enqueue n s.0).1 ≡ sq.contents s.0 ++ (n ∷ []))
          × (sq.capacity (sq.enqueue n s.0).1 ≡ k_queue_capacity)
    unfolding enqueue
    enqueue_some n q left cap =
        let s = release_down sq (sq.get_count q) k_queue_capacity (q, left) in
        let below =
          release_down_below sq ok (sq.get_count q) k_queue_capacity (q, left)
            (omega (arith, ok.get_count_lem q)) (omega arith) in
        let kept = capacity-release_down sq ok (sq.get_count q) k_queue_capacity (q, left) ∙ cap in
        let fits = ok.enqueue_room n s.0 (omega arith) in
        (rw fits.0 refl, rw fits.0 refl, below, fits.1, ok.capacity-enqueue n s.0 ∙ kept)

    enqueue_none :
        (n : ℕ) (left : List Fate)
        → enqueue n (none, left) ≡ ((none, left ++ (Fate.released n ∷ [])), false)
    unfolding enqueue
    enqueue_none n left = refl

    pub held_samples-enqueue :
        (n : ℕ) (h : Held)
        → IsBounded h.0
        → held_samples (enqueue n h).0 ≡ held_samples h ++ (n ∷ [])
    held_samples-enqueue n (none, left) b =
        ap (λ h. held_samples h.0) (enqueue_none n left)
        ∙ append-nil _
        ∙ fate_samples-append left (Fate.released n ∷ [])
        ∙ ap (λ xs. xs ++ (n ∷ [])) (sym (append-nil (fate_samples left)))
    held_samples-enqueue n (some q, left) b =
        let r = enqueue_some n q left b.0 in
        let s = release_down sq (sq.get_count q) k_queue_capacity (q, left) in
        rw r.0 (
          rw r.3 (
            sym (append_assoc (fate_samples s.1) (sq.contents s.0) (n ∷ []))
            ∙ ap (λ xs. xs ++ (n ∷ []))
                (samples-release_down sq ok (sq.get_count q) k_queue_capacity (q, left))))

    pub enqueue-IsBounded : (n : ℕ) (h : Held) → IsBounded h.0 → IsBounded (enqueue n h).0.0
    enqueue-IsBounded n (none, left) b = rw (enqueue_none n left) tt
    enqueue-IsBounded n (some q, left) b =
        let r = enqueue_some n q left b.0 in
        rw r.0 (r.4, rw r.3 (omega (arith, length-append _ (n ∷ []))))

    pub held_samples-take : (h : Held) → held_samples (take h) ≡ held_samples h
    unfolding take
    held_samples-take (none, left) = refl
    held_samples-take (some q, left) = samples-take_oldest sq ok Fate.taken (q, left) (λ n. refl)

    pub take-IsBounded : (h : Held) → IsBounded h.0 → IsBounded (take h).0
    unfolding take take_oldest
    take-IsBounded (none, left) b = tt
    take-IsBounded (some q, left) b =
        (ok.capacity-dequeue q ∙ b.0, omega (arith, length-take_oldest sq ok Fate.taken (q, left)))

    pub queued-take : (h : Held) → queued h.0 ≡ [] → queued (take h).0 ≡ []
    unfolding take take_oldest
    queued-take (none, left) e = refl
    queued-take (some q, left) e = (ok.dequeue_empty q e).1
