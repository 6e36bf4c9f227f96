-- ===== src/V1Backend/Found.antt =====
-- When `FreenectV1Backend::openDevice` of src/backends/freenect_v1_backend.cpp finds a device.
use Prim.Native.String.{String}
use text.Mathlib.Text.{◌==◌ as str_eq}
use mac_kinect_native.Base.{
  ℕ, zero, suc, ◌+◌, ◌≤◌, ◌<◌, ◌≡◌, ◌⊎◌, inl, inr, refl, sym, ap, ◌∙◌, true, false, not, ◌&&◌,
  Option, none, some, List, [], ◌∷◌, ◌++◌, arith,
}
use mac_kinect_native.Base.Tests.{if◌then◌else◌, is_some, Bool-cases, if_rule}
use mac_kinect_native.Base.Int.{ℤ, pos, negsuc, pos_part, max_ℤ}
use mac_kinect_native.V1Device.State.{Device, is_synthetic_index_serial}
use mac_kinect_native.V1Backend.Context.{
  ContextLog, Freenect1, ContextState, is_zero, count_rounds, enumerate_count_with_retries,
}
use mac_kinect_native.V1Backend.Opening.{
  same_int, contains, unseen, requested, candidates, try_open, or_else, try_candidates, attempt,
  attempts, open_device,
}

contains-append :
    (k : ℤ) (xs ys : List ℤ)
    → (contains k xs ≡ true) ⊎ (contains k ys ≡ true)
    → contains k (xs ++ ys) ≡ true
contains-append k [] ys (inr h) = h
contains-append k [] ys (inl h) = absurd (ground arith)
contains-append k (x ∷ xs) ys h = ground (arith, contains-append k xs ys)

-- An index of the range was seen, or it is among the unseen.
contains-unseen :
    (k n i : ℕ) (seen : List ℤ)
    → i ≤ k
    → k < i + n
    → (contains (pos k) seen ≡ true) ⊎ (contains (pos k) (unseen n i seen) ≡ true)
unfolding unseen
contains-unseen k zero i seen h l = absurd (omega arith)
contains-unseen k (suc n) i seen h l =
    ground (arith, contains-unseen k n (suc i) seen, contains-unseen k n (suc i) (pos i ∷ seen))

same_int→eq : (m n : ℤ) → same_int m n ≡ true → m ≡ n
same_int→eq m n h = ground arith

pub or_else_first : (x y : ContextState × Option Device) → is_some x.1 ≡ true → or_else x y ≡ x
or_else_first (b, none) y h = absurd (ground arith)
or_else_first (b, some d) y h = refl

not_zero : (n : ℕ) → 0 < n → is_zero (pos n) ≡ false
not_zero n h = ground arith

positive : (n : ℕ) → pos_part (max_ℤ (pos 0) (pos n)) ≡ n
positive n = ground arith

or_else_found :
    (x y : ContextState × Option Device)
    → (is_some x.1 ≡ true) ⊎ (is_some y.1 ≡ true)
    → is_some (or_else x y).1 ≡ true
or_else_found (b, none) y (inl h) = absurd (ground arith)
or_else_found (b, none) y (inr h) = h
or_else_found (b, some d) y h = refl

module _ (lib : Freenect1) (k : ℕ) (serial : String) where
  -- The k-th device opens by its index, whenever it is tried.
  abbrev pub OpensByIndex : Type 0
  OpensByIndex = (c : ContextState) → is_some (try_open lib (pos k) serial c).1 ≡ true

  try_candidates_found :
      (indices : List ℤ) (b : ContextState)
      → OpensByIndex
      → contains (pos k) indices ≡ true
      → is_some (try_candidates lib indices serial b).1 ≡ true
  unfolding try_candidates
  try_candidates_found [] b opens h = absurd (ground arith)
  try_candidates_found (index ∷ indices) b opens h =
      let first = try_open lib index serial b in
      or_else_found first (try_candidates lib indices serial first.0)
        (elim (Bool-cases (same_int (pos k) index)) [
          | inl e ↦ inl (rw (sym (same_int→eq (pos k) index e)) (opens b))
          | inr e ↦ inr (try_candidates_found indices first.0 opens (ground arith))
        ])

  -- The enumeration always finds n devices.
  abbrev pub AlwaysCounts : ℕ → Type 0
  AlwaysCounts n = (log : ContextLog) → lib.count_answer log ≡ pos n

  enumerate_always :
      (n : ℕ) (b : ContextState)
      → AlwaysCounts n
      → 0 < n
      → b.has_ctx ≡ true
      → (enumerate_count_with_retries lib (pos 2) 80 b).1 ≡ pos n
  unfolding enumerate_count_with_retries count_rounds
  enumerate_always n b counts some_device ctx = rw (ctx, counts b.log, not_zero n some_device) refl

  candidates_contain :
      (n : ℕ) (b : ContextState)
      → AlwaysCounts n
      → k < n
      → b.has_ctx ≡ true
      → contains (pos k) (candidates lib serial b).1 ≡ true
  unfolding candidates
  candidates_contain n b counts below ctx =
      let e = enumerate_always n b counts (omega arith) ctx in
      let b1 = (enumerate_count_with_retries lib (pos 2) 80 b).0 in
      let front = (requested lib serial b1).1 in
      rw (e, positive n)
        (contains-append (pos k) front (unseen n 0 front)
          (contains-unseen k n 0 front (omega arith) (omega arith)))

  try_open_ctx :
      (index : ℤ) (b : ContextState) → (try_open lib index serial b).0.has_ctx ≡ b.has_ctx
  unfolding try_open
  try_open_ctx index b =
      if_rule {A = ContextState × Option Device} (λ r. r.0.has_ctx ≡ b.has_ctx) _ _ (λ _. refl)
        (λ _. refl)

  attempt_found :
      (n : ℕ) (b : ContextState)
      → b.has_ctx ≡ true
      → AlwaysCounts n
      → k < n
      → OpensByIndex
      → is_some (attempt lib serial b).1 ≡ true
  unfolding attempt
  attempt_found n b ctx counts below opens =
      let by_serial = not (str_eq serial "") && not (is_synthetic_index_serial serial) in
      let first = if by_serial then try_open lib (negsuc 0) serial b else (b, none) in
      let first_ctx : first.0.has_ctx ≡ true =
        if_rule {A = ContextState × Option Device} (λ r. r.0.has_ctx ≡ true) by_serial _
          (λ _. try_open_ctx (negsuc 0) b ∙ ctx) (λ _. ctx) in
      let (b1, indices) = candidates lib serial first.0 in
      or_else_found first (try_candidates lib indices serial b1) (
        inr (
          try_candidates_found indices b1 opens
            (candidates_contain n first.0 counts below first_ctx)))

  pub attempts_first :
      (m : ℕ) (b : ContextState)
      → is_some (attempt lib serial b).1 ≡ true
      → attempts lib (suc m) serial b ≡ attempt lib serial b
  unfolding attempts
  attempts_first m b found = or_else_first (attempt lib serial b) _ found

  pub open_device_ctx :
      (b : ContextState) → b.has_ctx ≡ true → open_device lib serial b ≡ attempts lib 6 serial b
  unfolding open_device
  open_device_ctx b ctx =
      if_rule {A = ContextState × Option Device} (λ r. r ≡ attempts lib 6 serial b) (not b.has_ctx)
        (b, none) (λ e. absurd (ground arith)) (λ _. refl)

  -- Opening a device never fails while the devices are attached: for a backend with a context, if
  -- the enumeration always finds n devices, and the k-th of them (k below n) opens by its index
  -- whenever it is tried, then for any serial, a made up one, one of another device or none at all,
  -- `openDevice` returns a device, and it does so in the first of its six attempts.
  pub open_device_found :
      (n : ℕ) (b : ContextState)
      → b.has_ctx ≡ true
      → AlwaysCounts n
      → k < n
      → OpensByIndex
      → (is_some (open_device lib serial b).1 ≡ true)
        × ((open_device lib serial b).1 ≡ (attempt lib serial b).1)
  open_device_found n b ctx counts below opens =
      let found = attempt_found n b ctx counts below opens in
      let same = open_device_ctx b ctx ∙ attempts_first 5 b found in
      (ap (λ r. is_some r.1) same ∙ found, ap (λ r. r.1) same)
