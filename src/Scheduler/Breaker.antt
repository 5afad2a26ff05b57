-- ===== src/Scheduler/Breaker.antt =====
-- The circuit breaker and the throttle of scheduler/scheduler.go.
use veduta.Prelude.{
  ℕ, ◌+◌, ◌≤◌, ◌<◌, ◌≡◌, refl, ap, ◌∙◌, inl, inr, Bool, true, false, ◌&&◌, none, some, List, arith,
  ok, err, ok-injective, leb, ltb, Bool-cases, Option-cases, String, str_eq, eq_iff, lookup, insert,
  lookup-insert, lookup-erase,
}
use veduta.Cards.Document.{Document, second}
use veduta.Cards.CardState.{Time, CardState}
use veduta.Scheduler.Commits.{commit_superseded}
use veduta.Scheduler.Manager.{
  RunFailure, unknown_card, rate_limited, Definition, Manager, is_current, count_of, commit,
  refresh_now,
}
use veduta.Scheduler.Refresh.{
  over, begin_refresh, finish_ok, finish_err, failure_limit, breaker_wait,
}

-- A commit leaves the counters of the breaker as it found them.
commit_counters :
    (m : Manager) (d : Definition) (cs : CardState) (p : Bool)
    → ((commit m d cs p).0.failures ≡ m.failures) × ((commit m d cs p).0.open_until ≡ m.open_until)
unfolding commit
commit_counters m d cs p = ground arith

lookup-insert_same :
    {A : Type 0} → (k : String) (a : A) (m : List (String × A)) → lookup k (insert k a m) ≡ some a
lookup-insert_same k a m =
    let e : str_eq k k ≡ true = (eq_iff k k).1 refl in rw (lookup-insert k k a m, e)

-- A failure after two or more in a row is counted and opens the circuit until the breaker's wait
-- has passed from the time of the failure, whether or not the state is then committed.
pub third_failure_opens :
    (m : Manager) (d : Definition) (now : Time) (e : RunFailure) (p : Bool)
    → 2 ≤ count_of (lookup d.id m.failures)
    → (lookup d.id (finish_err m d now e p).0.failures
        ≡ some (count_of (lookup d.id m.failures) + 1))
      × (lookup d.id (finish_err m d now e p).0.open_until
          ≡ some (now + breaker_wait (count_of (lookup d.id m.failures) + 1) d.refresh))
unfolding finish_err
third_failure_opens m d now e p h =
    let limit : leb failure_limit (count_of (lookup d.id m.failures) + 1) ≡ true = ground arith in
    let (f, o) = commit_counters _ d _ p in
    rw limit (
      ap (lookup d.id) f ∙ lookup-insert_same d.id _ m.failures,
      ap (lookup d.id) o ∙ lookup-insert_same d.id _ m.open_until,
    )

commit-defs :
    (m : Manager) (d : Definition) (cs : CardState) (p : Bool) → (commit m d cs p).0.defs ≡ m.defs
unfolding commit
commit-defs m d cs p = ground arith

finish_err-defs :
    (m : Manager) (d : Definition) (now : Time) (e : RunFailure) (p : Bool)
    → (finish_err m d now e p).0.defs ≡ m.defs
unfolding finish_err
finish_err-defs m d now e p =
    elim (Bool-cases (leb failure_limit (count_of (lookup d.id m.failures) + 1))) [
      | inl limit ↦ rw limit (commit-defs _ d _ p)
      | inr below ↦ rw below (commit-defs _ d _ p)
    ]

-- A failed run of a definition that is not current commits no state and yet counts as a failure of
-- the card.
pub superseded_failure_counts :
    (m : Manager) (d : Definition) (now : Time) (e : RunFailure) (p : Bool)
    → is_current (lookup d.id m.defs) d ≡ false
    → ((finish_err m d now e p).0.states ≡ m.states)
      × (lookup d.id (finish_err m d now e p).0.failures
          ≡ some (count_of (lookup d.id m.failures) + 1))
unfolding finish_err
superseded_failure_counts m d now e p h =
    elim (Bool-cases (leb failure_limit (count_of (lookup d.id m.failures) + 1))) [
      | inl limit ↦
          let (f, o) = commit_counters _ d _ p in
          rw limit (
            ap (λ n. n.states) (commit_superseded _ d _ p h).0,
            ap (lookup d.id) f ∙ lookup-insert_same d.id _ m.failures,
          )
      | inr below ↦
          let (f, o) = commit_counters _ d _ p in
          rw below (
            ap (λ n. n.states) (commit_superseded _ d _ p h).0,
            ap (lookup d.id) f ∙ lookup-insert_same d.id _ m.failures,
          )
    ]

-- A run that succeeds, and whose bound history was read back, clears the count of failures of its
-- card and closes its circuit, whether or not the state is then committed.
pub success_closes :
    (m : Manager) (d : Definition) (now : Time) (doc : Document) (took : ℕ)
    (bound : List (String × ℕ)) (p : Bool)
    → (lookup d.id (finish_ok m d now doc took (some bound) p).0.failures ≡ some 0)
      × (lookup d.id (finish_ok m d now doc took (some bound) p).0.open_until ≡ none)
unfolding finish_ok
success_closes m d now doc took bound p =
    let (f, o) = commit_counters _ d _ p in
    let same : str_eq d.id d.id ≡ true = (eq_iff d.id d.id).1 refl in
    (
      ap (lookup d.id) f ∙ lookup-insert_same d.id 0 m.failures,
      ap (lookup d.id) o ∙ rw (lookup-erase, same) refl,
    )

-- While the circuit of a current definition that is not disabled is open, a refresh ends at once.
open_circuit_waits :
    (m : Manager) (d : Definition) (now : Time) (p : Bool)
    → is_current (lookup d.id m.defs) d ≡ true
    → d.disabled ≡ none
    → now < count_of (lookup d.id m.open_until)
    → begin_refresh m d now p ≡ (m, over none)
unfolding begin_refresh
open_circuit_waits m d now p c n h = ground arith

-- After a third failure in a row of a current definition that is not disabled, no refresh of it
-- runs the card or changes the manager before the breaker's wait is over.
third_failure_waits :
    (m : Manager) (d : Definition) (now later : Time) (e : RunFailure) (p q : Bool)
    → is_current (lookup d.id m.defs) d ≡ true
    → d.disabled ≡ none
    → 2 ≤ count_of (lookup d.id m.failures)
    → later < now + breaker_wait (count_of (lookup d.id m.failures) + 1) d.refresh
    → begin_refresh (finish_err m d now e p).0 d later q ≡ ((finish_err m d now e p).0, over none)
third_failure_waits m d now later e p q c n h l =
    let (_, o) = third_failure_opens m d now e p h in
    open_circuit_waits (finish_err m d now e p).0 d later q (rw (finish_err-defs m d now e p) c) n
      (rw o l)

-- A manual refresh that is accepted records its time.
refresh_now_inv :
    (m : Manager) (now : Time) (id : String) (d : Definition)
    → (refresh_now m now id).1 ≡ ok d
    → (lookup id m.defs ≡ some d)
      × (refresh_now m now id ≡ (record m { manual_at = insert id now m.manual_at }, ok d))
unfolding refresh_now
refresh_now_inv m now id d h = elim (Option-cases (lookup id m.defs)) [
  | inl missing ↦ let n : err unknown_card ≡ ok d = rw (missing, refresh_now) at h in cc
  | inr (found, there) ↦
      elim (Bool-cases (
        ltb 0 (count_of (lookup id m.manual_at))
        && ltb now (count_of (lookup id m.manual_at) + second))) [
          | inl throttled ↦
              let n : err rate_limited ≡ ok d = rw (there, refresh_now, throttled) at h in cc
          | inr free ↦
              let e : found ≡ d = ok-injective (rw (there, refresh_now, free) at h) in
              (there ∙ ap some e, rw (there, refresh_now, free, e) refl)
        ]
]

refresh_now_soon :
    (m : Manager) (now later : Time) (id : String) (d : Definition)
    → 0 < now
    → later < now + second
    → lookup id m.defs ≡ some d
    → refresh_now (record m { manual_at = insert id now m.manual_at }) later id
      ≡ (record m { manual_at = insert id now m.manual_at }, err rate_limited)
unfolding refresh_now
refresh_now_soon m now later id d p l there =
    let soon : (ltb 0 now && ltb later (now + second)) ≡ true = ground arith in
    rw (there, refresh_now, lookup-insert_same id now m.manual_at, soon) refl

-- A manual refresh within a second of one that was accepted for the same card is refused as
-- rate-limited and leaves the manager as it was.
refresh_now_throttled :
    (m : Manager) (now later : Time) (id : String) (d : Definition)
    → 0 < now
    → later < now + second
    → (refresh_now m now id).1 ≡ ok d
    → refresh_now (refresh_now m now id).0 later id ≡ ((refresh_now m now id).0, err rate_limited)
refresh_now_throttled m now later id d p l h =
    let (there, first) = refresh_now_inv m now id d h in
    rw first (refresh_now_soon m now later id d p l there)
