-- ===== src/Dal/Queue.antt =====
-- The queue of samples of src/dal_plugin/KinectCameraDALPlugin.cpp. CoreMedia's `CMSimpleQueue` is a
-- parameter, with the laws that its documentation gives: a queue of fixed capacity, oldest first.
use mac_kinect_native.Base.{
  ℕ, zero, suc, ◌-◌, ◌≤◌, ◌<◌, ◌≡◌, refl, ap, ◌∙◌, Bool, true, Option, none, some, List, [], ◌∷◌,
  ◌++◌, arith, inl, inr,
}
use mac_kinect_native.Base.Tests.{leb, Bool-cases, if◌then◌else◌}
use mac_kinect_native.Base.Lists.{length}
use mathlib.Core.List.{append_assoc}

pub record SimpleQueue : Type 1 where
  pub Queue : Type 0
  -- A new queue of this capacity.
  pub create : ℕ → Queue
  pub get_count : Queue → ℕ
  -- The oldest element, or null, and the queue without it.
  pub dequeue : Queue → Option ℕ × Queue
  -- Whether it returns `noErr`, and the queue after it.
  pub enqueue : ℕ → Queue → Bool × Queue
  -- The view of a queue in which its laws are stated.
  pub capacity : Queue → ℕ
  pub contents : Queue → List ℕ

pub record IsSimpleQueue (sq : SimpleQueue) : Type 0 where
  pub contents-create : (n : ℕ) → sq.contents (sq.create n) ≡ []
  pub capacity-create : (n : ℕ) → sq.capacity (sq.create n) ≡ n
  pub get_count_lem : (q : sq.Queue) → sq.get_count q ≡ length (sq.contents q)
  pub dequeue_cons :
      (q : sq.Queue) (x : ℕ) (xs : List ℕ)
      → sq.contents q ≡ x ∷ xs
      → ((sq.dequeue q).0 ≡ some x) × (sq.contents (sq.dequeue q).1 ≡ xs)
  pub dequeue_empty :
      (q : sq.Queue)
      → sq.contents q ≡ []
      → ((sq.dequeue q).0 ≡ none) × (sq.contents (sq.dequeue q).1 ≡ [])
  pub capacity-dequeue : (q : sq.Queue) → sq.capacity (sq.dequeue q).1 ≡ sq.capacity q
  pub enqueue_room :
      (x : ℕ) (q : sq.Queue)
      → length (sq.contents q) < sq.capacity q
      → ((sq.enqueue x q).0 ≡ true) × (sq.contents (sq.enqueue x q).1 ≡ sq.contents q ++ (x ∷ []))
  pub capacity-enqueue : (x : ℕ) (q : sq.Queue) → sq.capacity (sq.enqueue x q).1 ≡ sq.capacity q

-- What became of a sample that is no longer the plug-in's: it was released, or a client took it off
-- the queue.
pub data Fate : Type 0 where
  released taken : ℕ → Fate

abbrev pub fate_sample : Fate → ℕ
fate_sample (Fate.released n) = n
fate_sample (Fate.taken n) = n

abbrev pub fate_samples : List Fate → List ℕ
fate_samples [] = []
fate_samples (f ∷ fs) = fate_sample f ∷ fate_samples fs

pub fate_samples-append :
    (fs gs : List Fate) → fate_samples (fs ++ gs) ≡ fate_samples fs ++ fate_samples gs
fate_samples-append [] gs = refl
fate_samples-append (f ∷ fs) gs = ap (◌∷◌ (fate_sample f)) (fate_samples-append fs gs)

abbrev pub k_queue_capacity : ℕ
k_queue_capacity = 8

module _ (sq : SimpleQueue) where
  -- A queue and the fates of the samples that left it, oldest first.
  abbrev pub Store : Type 0
  Store = sq.Queue × List Fate

  -- A sample off the queue with this fate, if it is not null.
  unfoldable pub leave : (ℕ → Fate) → Option ℕ → List Fate → List Fate
  leave fate none left = left
  leave fate (some n) left = left ++ (fate n ∷ [])

  unfoldable pub take_oldest : (ℕ → Fate) → Store → Store
  unfolding leave
  take_oldest fate s = ((sq.dequeue s.0).1, leave fate (sq.dequeue s.0).0 s.1)

  -- `while (CMSimpleQueueGetCount(gSampleQueue) >= limit)`, dequeue and release, on fuel.
  unfoldable pub release_down : ℕ → ℕ → Store → Store
  unfolding take_oldest
  release_down zero limit s = s
  release_down (suc fuel) limit s =
      let rest = release_down fuel limit (take_oldest Fate.released s) in
      if leb limit (sq.get_count s.0) then rest else s

  -- Every sample ever put in, in order.
  abbrev pub samples : Store → List ℕ
  samples s = fate_samples s.1 ++ sq.contents s.0

  module _ (ok : IsSimpleQueue sq) where
    pub samples-take_oldest :
        (fate : ℕ → Fate) (s : Store)
        → ((n : ℕ) → fate_sample (fate n) ≡ n)
        → samples (take_oldest fate s) ≡ samples s
    unfolding take_oldest leave
    samples-take_oldest fate (q, left) same = by_contents (sq.contents q) refl
      where
        by_contents :
            (xs : List ℕ)
            → sq.contents q ≡ xs
            → samples (take_oldest fate (q, left)) ≡ fate_samples left ++ sq.contents q
        by_contents [] e = rw ((ok.dequeue_empty q e).0, (ok.dequeue_empty q e).1, e) refl
        by_contents (x ∷ xs) e =
            rw
              (
                (ok.dequeue_cons q x xs e).0,
                (ok.dequeue_cons q x xs e).1,
                e,
                fate_samples-append left (fate x ∷ []),
                same x,
                append_assoc (fate_samples left) (x ∷ []) xs,
              )
              refl

    pub length-take_oldest :
        (fate : ℕ → Fate) (s : Store)
        → length (sq.contents (take_oldest fate s).0) ≡ length (sq.contents s.0) - 1
    unfolding take_oldest
    length-take_oldest fate (q, left) = by_contents (sq.contents q) refl
      where
        by_contents :
            (xs : List ℕ)
            → sq.contents q ≡ xs
            → length (sq.contents (sq.dequeue q).1) ≡ length (sq.contents q) - 1
        by_contents [] e = rw ((ok.dequeue_empty q e).1, e) refl
        by_contents (x ∷ xs) e = rw ((ok.dequeue_cons q x xs e).1, e) (omega arith)

    pub samples-release_down :
        (fuel limit : ℕ) (s : Store) → samples (release_down fuel limit s) ≡ samples s
    unfolding release_down
    samples-release_down zero limit s = refl
    samples-release_down (suc fuel) limit s = elim (Bool-cases (leb limit (sq.get_count s.0))) [
      | inl e ↦ rw e (
          samples-release_down fuel limit (take_oldest Fate.released s)
          ∙ samples-take_oldest Fate.released s (λ n. refl))
      | inr e ↦ rw e refl
    ]

    pub capacity-release_down :
        (fuel limit : ℕ) (s : Store) → sq.capacity (release_down fuel limit s).0 ≡ sq.capacity s.0
    unfolding release_down take_oldest
    capacity-release_down zero limit s = refl
    capacity-release_down (suc fuel) limit s = elim (Bool-cases (leb limit (sq.get_count s.0))) [
      | inl e ↦
          rw e (
            capacity-release_down fuel limit (take_oldest Fate.released s)
            ∙ ok.capacity-dequeue s.0)
      | inr e ↦ rw e refl
    ]

    -- Fuel for every element is enough.
    pub release_down_below :
        (fuel limit : ℕ) (s : Store)
        → length (sq.contents s.0) ≤ fuel
        → 0 < limit
        → length (sq.contents (release_down fuel limit s).0) < limit
    unfolding release_down
    release_down_below zero limit s h pos = omega arith
    release_down_below (suc fuel) limit s h pos = elim (Bool-cases (leb limit (sq.get_count s.0))) [
      | inl e ↦ rw e (
          release_down_below fuel limit (take_oldest Fate.released s)
            (omega (arith, length-take_oldest Fate.released s)) pos)
      | inr e ↦ rw e (ground (arith, ok.get_count_lem s.0))
    ]
