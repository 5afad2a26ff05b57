-- ===== src/Scheduler/Waits.antt =====
-- Bounds of the waits of scheduler/scheduler.go.
use veduta.Prelude.{
  ℕ, zero, suc, ◌-◌, ◌*◌, ◌/◌, ◌%◌, ◌^◌, ◌≤◌, ◌<◌, min, ◌≡◌, ◌∙◌, inl, inr, false, arith, Bytes,
  ltb, ◌==◌, Bool-cases,
}
use native.Mathlib.Nat.{pow-suc}
use veduta.Cards.Document.{hour}
use veduta.Scheduler.Backoff.{double_up, backoff, hash_id, jitter_by, jitter, min_duration}

two_pow_pos : (k : ℕ) → 0 < 2 ^ k
two_pow_pos zero = omega arith
two_pow_pos (suc k) = rw (pow-suc 2 k) (omega (arith, two_pow_pos k))

regroup : (b p : ℕ) → b * 2 * p ≡ b * (p * 2)
regroup b p = grind arith

at_least : (b p : ℕ) → 0 < p → b ≤ b * p
at_least b p h = grind arith

-- The doubling loop, cut off at an hour.
pub double_up-min : (k b : ℕ) → min (double_up k b) hour ≡ min (b * 2 ^ k) hour
unfolding double_up
double_up-min zero b = omega arith
double_up-min (suc k) b = elim (Bool-cases (ltb b hour)) [
  | inl below ↦ rw (below, pow-suc 2 k, ← regroup b (2 ^ k)) (double_up-min k (b * 2))
  | inr reached ↦
      let far : hour ≤ b = ground arith in
      rw reached (omega (arith, at_least b (2 ^ suc k) (two_pow_pos (suc k))))
]

min_duration_lem : (a b : ℕ) → min_duration a b ≡ min a b
min_duration_lem a b = ground arith

-- The wait after one failure and `n` more is a base that is not 0 doubled `n` times, cut off at an hour.
backoff-closed : (n base : ℕ) → 0 < base → backoff (suc n) base ≡ min (base * 2 ^ n) hour
unfolding backoff
backoff-closed n base p =
    let rounds : suc n - 1 ≡ n = omega arith in
    let positive : (base == 0) ≡ false = ground arith in
    rw (rounds, positive) (min_duration_lem _ _ ∙ double_up-min n base)

-- For a base of at most an hour that is not 0, a further failure never shortens the wait, which is
-- at least the base and at most an hour.
pub backoff_bounds :
    (n base : ℕ)
    → 0 < base
    → base ≤ hour
    → (base ≤ backoff (suc n) base)
      × (backoff (suc n) base ≤ backoff (suc (suc n)) base)
      × (backoff (suc n) base ≤ hour)
backoff_bounds n base p q =
    let more : base * 2 ^ n ≤ base * 2 ^ suc n =
      rw (pow-suc 2 n, ← regroup base (2 ^ n)) (grows base (2 ^ n)) in
    rw (backoff-closed n base p, backoff-closed (suc n) base p)
      (omega (arith, at_least base (2 ^ n) (two_pow_pos n)), omega arith, omega arith)
  where
    grows : (b p' : ℕ) → b * p' ≤ b * 2 * p'
    grows b p' = grind arith

-- The jittered interval stays within five percent of a refresh interval that is not 0.
pub jitter_bounds :
    (id : Bytes) (base : ℕ)
    → 0 < base
    → (base * 95 ≤ jitter id base * 100) × (jitter id base * 100 ≤ base * 105)
unfolding jitter
jitter_bounds id base p = by_hash (hash_id id)
  where
    scaled : (b r : ℕ) → r ≤ 5 → b * r / 100 * 100 ≤ b * 5
    scaled b r h = grind arith

    by_hash : (h : ℕ) → (base * 95 ≤ jitter_by h base * 100) × (jitter_by h base * 100 ≤ base * 105)
    by_hash h = ground (arith, scaled base (h % 11 - 5), scaled base (5 - h % 11))
