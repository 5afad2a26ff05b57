-- ===== src/Auth/Tracking.antt =====
-- The bound on the sources that auth/service.go tracks, and the lockout of one of them.
use veduta.Prelude.{
  suc, ◌+◌, ◌*◌, ◌≤◌, ◌<◌, ◌≡◌, refl, ◌≢◌, ◌⊎◌, inl, inr, true, false, ◌||◌, none, some, [], ◌∷◌,
  arith, length, ltb, ◌==◌, Bool-cases, Option-cases, String, str_eq, eq_iff, lookup, insert, erase,
  lookup-insert,
}
use veduta.Cards.CardState.{Time}
use veduta.Scheduler.Backoff.{minute}
use veduta.Auth.Lockout.{
  Attempts, Sources, attempts_of, max_tracked_sources, drop_over, oldest_key, evict, room_for,
  fail_once, record_failure, is_locked,
}

drop_over-shorter : (now : Time) (s : Sources) → length (drop_over now s) ≤ length s
unfolding drop_over
drop_over-shorter now [] = omega arith
drop_over-shorter now ((k, a) ∷ s) = ground (arith, drop_over-shorter now s)

pub erase-shorter : (k : String) (s : Sources) → length (erase k s) ≤ length s
unfolding erase
erase-shorter k [] = omega arith
erase-shorter k ((j, a) ∷ s) = ground (arith, erase-shorter k s)

-- Erasing a key that is there makes the list shorter.
erase-there : (k : String) (s : Sources) → lookup k s ≢ none → suc (length (erase k s)) ≤ length s
unfolding lookup erase
erase-there k [] h = absurd (h refl)
erase-there k ((j, a) ∷ s) h = elim (Bool-cases (str_eq j k)) [
  | inl here ↦ rw here (omega (arith, erase-shorter k s))
  | inr later ↦
      let r : lookup k s ≢ none = rw later at h in rw later (omega (arith, erase-there k s r))
]

pub insert-length :
    (k : String) (a : Attempts) (s : Sources) → length (insert k a s) ≤ suc (length s)
unfolding insert
insert-length k a [] = omega arith
insert-length k a ((j, b) ∷ s) = ground (arith, insert-length k a s)

pub insert-there :
    (k : String) (a b : Attempts) (s : Sources)
    → lookup k s ≡ some b
    → length (insert k a s) ≡ length s
unfolding insert lookup
insert-there k a b [] h = cc
insert-there k a b ((j, c) ∷ s) h = ground (arith, insert-there k a b s)

lookup_head : (k : String) (a : Attempts) (s : Sources) → lookup k ((k, a) ∷ s) ≢ none
unfolding lookup
lookup_head k a s h = let e : str_eq k k ≡ true = (eq_iff k k).1 refl in cc (rw e at h)

lookup_tail :
    (k j : String) (a : Attempts) (s : Sources) → lookup k s ≢ none → lookup k ((j, a) ∷ s) ≢ none
unfolding lookup
lookup_tail k j a s n h = elim (Bool-cases (str_eq j k)) [
  | inl here ↦ cc (rw here at h)
  | inr later ↦ n (rw later at h)
]

-- The oldest key of a list is one of its keys, or the key that the search began with.
oldest_key-there :
    (s : Sources) (k : String) (t : Time)
    → (oldest_key s k t ≡ k) ⊎ (lookup (oldest_key s k t) s ≢ none)
unfolding oldest_key
oldest_key-there [] k t = inl refl
oldest_key-there ((j, a) ∷ s) k t = elim (Bool-cases (t == 0 || ltb a.window_start t)) [
  | inl older ↦ rw older (elim (oldest_key-there s j a.window_start) [
    | inl e ↦ inr (rw e (lookup_head j a s))
    | inr m ↦ inr (lookup_tail _ j a s m)
  ])
  | inr newer ↦
      rw newer
        (elim (oldest_key-there s k t) [ inl e ↦ inl e | inr m ↦ inr (lookup_tail _ j a s m) ])
]

-- From the zero time the search always takes a key of the list.
oldest_key-found : (s : Sources) (k : String) → s ≢ [] → lookup (oldest_key s k 0) s ≢ none
unfolding oldest_key
oldest_key-found [] k n = absurd (n refl)
oldest_key-found ((j, a) ∷ s) k n = elim (oldest_key-there s j a.window_start) [
  | inl e ↦ rw e (lookup_head j a s)
  | inr m ↦ lookup_tail _ j a s m
]

erase-oldest : (s : Sources) → s ≢ [] → suc (length (erase (oldest_key s "" 0) s)) ≤ length s
erase-oldest s n = erase-there (oldest_key s "" 0) s (oldest_key-found s "" n)

full_ne_nil : (s : Sources) → ltb (length s) max_tracked_sources ≡ false → s ≢ []
unfolding max_tracked_sources
full_ne_nil [] h e = cc
full_ne_nil (x ∷ s) h e = cc

evict-room :
    (now : Time) (s : Sources)
    → length s ≤ max_tracked_sources
    → suc (length (evict now s)) ≤ max_tracked_sources
unfolding evict
evict-room now s h = elim (Bool-cases (ltb (length s) max_tracked_sources)) [
  | inl fits ↦ rw fits (ground arith)
  | inr full ↦ elim (Bool-cases (ltb (length (drop_over now s)) max_tracked_sources)) [
    | inl fits ↦ rw (full, fits) (ground arith)
    | inr crowded ↦
        rw (full, crowded)
          (omega (
            arith,
            erase-oldest (drop_over now s) (full_ne_nil (drop_over now s) crowded),
            drop_over-shorter now s,
          ))
  ]
]

pub room_for_new :
    (key : String) (now : Time) (s : Sources)
    → lookup key s ≡ none
    → room_for key now s ≡ evict now s
unfolding room_for
room_for_new key now s h = rw (h, room_for) refl

pub room_for_tracked :
    (key : String) (now : Time) (s : Sources) (a : Attempts)
    → lookup key s ≡ some a
    → room_for key now s ≡ s
unfolding room_for
room_for_tracked key now s a h = rw (h, room_for) refl

-- However many distinct sources fail, no more than the ceiling are tracked.
pub record_failure-bounded :
    (key : String) (now : Time) (s : Sources)
    → length s ≤ max_tracked_sources
    → length (record_failure key now s) ≤ max_tracked_sources
unfolding record_failure
record_failure-bounded key now s h = elim (Option-cases (lookup key s)) [
  | inl fresh ↦ rw (room_for_new key now s fresh) (
      omega (
        arith,
        insert-length key (fail_once now (attempts_of (lookup key (evict now s)))) (evict now s),
        evict-room now s h,
      ))
  | inr (a, tracked) ↦
      rw
        (
          room_for_tracked key now s a tracked,
          insert-there key (fail_once now (attempts_of (lookup key s))) a s tracked,
        )
        h
]

record_failure-attempts :
    (key : String) (now : Time) (s : Sources)
    → lookup key (record_failure key now s)
      ≡ some (fail_once now (attempts_of (lookup key (room_for key now s))))
unfolding record_failure
record_failure-attempts key now s =
    let e : str_eq key key ≡ true = (eq_iff key key).1 refl in rw (lookup-insert, e) refl

-- A source that fails for the fifth time within a window of ten minutes, or again after that, is
-- locked out for the fifteen minutes that follow.
pub fifth_failure_locks :
    (key : String) (now later : Time) (s : Sources) (a : Attempts)
    → lookup key s ≡ some a
    → 4 ≤ a.count
    → 0 < a.window_start
    → now < a.window_start + 10 * minute
    → later < now + 15 * minute
    → is_locked key later (record_failure key now s) ≡ true
unfolding fail_once
fifth_failure_locks key now later s a t c w n l =
    let same : lookup key (room_for key now s) ≡ some a = rw (room_for_tracked key now s a t) t in
    rw (record_failure-attempts key now s, same) (ground arith)
