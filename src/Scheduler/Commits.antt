-- ===== src/Scheduler/Commits.antt =====
-- The fence of scheduler/scheduler.go: what a commit does, and when it does nothing.
use veduta.Prelude.{
  ℕ, ◌+◌, ◌≤◌, ◌<◌, ◌≡◌, refl, sym, ◌∙◌, ◌≢◌, inl, inr, Bool, true, false, Option, none, some, List,
  arith, Result, ok, err, leb, ltb, if◌then◌else◌, Bool-cases, Option-cases, String, str_eq, lookup,
  insert, lookup-insert,
}
use veduta.Cards.Document.{Document, second}
use veduta.Cards.CardState.{
  Time, parse_time, CardState, RunError, config_error, disabled_card, error_card, validate,
}
use veduta.Cards.Valid.{
  Fits, ok_card-valid, stale_after_error-valid, stale_open-valid, error_open-valid, validate-Fits,
}
use veduta.Scheduler.Backoff.{backoff}
use veduta.Scheduler.Manager.{
  RunFailure, ManagerError, invalid_state, Definition, Manager, is_current, count_of, commit,
}
use veduta.Scheduler.Refresh.{
  begin_refresh, judge, effective_ttl, finish_ok, finish_err, finish_refresh, failure_limit,
  breaker_wait, open_state, closed_state, error_with_retry, run_error,
}

-- A commit that fails changes nothing.
pub commit_failed :
    (m : Manager) (d : Definition) (cs : CardState) (p : Bool) {e : ManagerError}
    → (commit m d cs p).1 ≡ some e
    → (commit m d cs p).0 ≡ m
unfolding commit
commit_failed m d cs p h = ground arith

-- A commit for a definition that is not current changes nothing and is an error.
pub commit_superseded :
    (m : Manager) (d : Definition) (cs : CardState) (p : Bool)
    → is_current (lookup d.id m.defs) d ≡ false
    → (commit m d cs p).0 ≡ m × ((commit m d cs p).1 ≢ none)
unfolding commit
commit_superseded m d cs p h = ground arith

-- What a commit that succeeds does to the states.
pub commit_states :
    (m : Manager) (d : Definition) (cs : CardState) (p : Bool)
    → (commit m d cs p).1 ≡ none
    → (validate cs ≡ true)
      × (is_current (lookup d.id m.defs) d ≡ true)
      × ((commit m d cs p).0.states ≡ insert d.id cs m.states)
unfolding commit
commit_states m d cs p h = ground arith

-- Every state that the manager holds is valid.
abbrev pub AllValid : Manager → Type 0
AllValid m = (id : String) (cs : CardState) → lookup id m.states ≡ some cs → validate cs ≡ true

pub valid_insert :
    (k j : String) (c d : CardState) (r : Option CardState)
    → validate c ≡ true
    → (r ≡ some d → validate d ≡ true)
    → (if str_eq k j then some c else r) ≡ some d
    → validate d ≡ true
valid_insert k j c d r v w h = elim (Bool-cases (str_eq k j)) [
  | inl same ↦ let e : c ≡ d = cc (rw same at h) in rw (← e) v
  | inr other ↦ w (rw other at h)
]

pub commit-AllValid :
    (m : Manager) (d : Definition) (cs : CardState) (p : Bool)
    → AllValid m
    → AllValid (commit m d cs p).0
commit-AllValid m d cs p v id c h = elim (Option-cases (commit m d cs p).1) [
  | inr (e, failed) ↦ v id c (rw (commit_failed m d cs p failed) at h)
  | inl done ↦
      let (valid, _, states) = commit_states m d cs p done in
      valid_insert d.id id cs c (lookup id m.states) valid (v id c)
        (sym (lookup-insert d.id id cs m.states) ∙ rw states at h)
]

retry-valid :
    (d : Definition) (now retry : Time) (n : ℕ) (e : RunError)
    → validate (error_with_retry d now retry n e) ≡ true
unfolding validate error_card
retry-valid d now retry n e = refl

-- The states that a failure leaves are valid.
open_state-valid :
    (d : Definition) (now u : Time) (n : ℕ) (e : RunFailure) (o : Option CardState)
    → 0 < u
    → ((cs : CardState) → o ≡ some cs → validate cs ≡ true)
    → validate (open_state d now u n (run_error e) o) ≡ true
unfolding open_state
open_state-valid d now u n e none p v = error_open-valid now d.id d.source (run_error e) u
open_state-valid d now u n e (some previous) p v = elim (Option-cases previous.document) [
  | inl bare ↦ rw (bare, open_state) (error_open-valid now d.id d.source (run_error e) u)
  | inr (doc, kept) ↦
      rw (kept, open_state)
        (stale_open-valid now d.id doc d.source (parse_time previous.execution.generated_at) now n u
          (run_error e) previous.history p (validate-Fits previous (v previous refl)))
]

closed_state-valid :
    (d : Definition) (now retry : Time) (n : ℕ) (e : RunFailure) (o : Option CardState)
    → ((cs : CardState) → o ≡ some cs → validate cs ≡ true)
    → validate (closed_state d now retry n (run_error e) o) ≡ true
unfolding closed_state
closed_state-valid d now retry n e none v = retry-valid d now retry n (run_error e)
closed_state-valid d now retry n e (some previous) v = elim (Option-cases previous.document) [
  | inl bare ↦ rw (bare, closed_state) (retry-valid d now retry n (run_error e))
  | inr (doc, kept) ↦
      rw (kept, closed_state)
        (stale_after_error-valid now d.id doc d.source (parse_time previous.execution.generated_at)
          now n retry (run_error e) previous.history (validate-Fits previous (v previous refl)))
]

-- A valid state is never refused as invalid.
commit_never_invalid :
    (m : Manager) (d : Definition) (cs : CardState) (p : Bool)
    → validate cs ≡ true
    → (commit m d cs p).1 ≢ some invalid_state
unfolding commit
commit_never_invalid m d cs p v h = ground arith

finish_err_never_invalid :
    (m : Manager) (d : Definition) (now : Time) (e : RunFailure) (p : Bool)
    → 0 < now
    → AllValid m
    → (finish_err m d now e p).1 ≢ some invalid_state
unfolding finish_err
finish_err_never_invalid m d now e p t v h =
    elim (Bool-cases (leb failure_limit (count_of (lookup d.id m.failures) + 1))) [
      | inl limit ↦
          commit_never_invalid _ d _ p
            (open_state-valid d now
              (now + breaker_wait (count_of (lookup d.id m.failures) + 1) d.refresh) _ e
              (lookup d.id m.states) (omega arith) (v d.id))
            (rw limit at h)
      | inr below ↦
          commit_never_invalid _ d _ p
            (closed_state-valid d now
              (now + backoff (count_of (lookup d.id m.failures) + 1) d.refresh) _ e
              (lookup d.id m.states) (v d.id))
            (rw below at h)
    ]

effective_ttl-ge : (d : Definition) (doc : Document) → second ≤ effective_ttl d doc
unfolding effective_ttl
effective_ttl-ge d doc = ground arith

finish_ok_never_invalid :
    (m : Manager) (d : Definition) (now : Time) (doc : Document) (took : ℕ)
    (bound : Option (List (String × ℕ))) (p : Bool)
    → ((h : List (String × ℕ)) → bound ≡ some h → Fits h)
    → (finish_ok m d now doc took bound p).1 ≢ some invalid_state
unfolding finish_ok
finish_ok_never_invalid m d now doc took none p f h = cc
finish_ok_never_invalid m d now doc took (some b) p f h =
    commit_never_invalid _ d _ p
      (ok_card-valid now d.id doc d.source (effective_ttl d doc) took b (effective_ttl-ge d doc)
        (f b refl))
      h

-- Where the held states are valid, the history read back is within its bounds and the time is not
-- zero, a refresh never produces a state that validation refuses, whatever the run returned.
pub finish_refresh_never_invalid :
    (leaks : Document → Bool) (m : Manager) (d : Definition) (now : Time)
    (outcome : Result RunFailure (Document × ℕ)) (bound : Option (List (String × ℕ))) (p : Bool)
    → 0 < now
    → AllValid m
    → ((h : List (String × ℕ)) → bound ≡ some h → Fits h)
    → (finish_refresh leaks m d now outcome bound p).1 ≢ some invalid_state
unfolding finish_refresh
finish_refresh_never_invalid leaks m d now outcome bound p t v f =
    by_judgement (judge leaks d outcome)
  where
    by_judgement :
        (r : Result RunFailure (Document × ℕ))
        → (elim r as (λ _. Manager × Option ManagerError) [
          | ok (doc, took) ↦ finish_ok m d now doc took bound p
          | err e ↦ finish_err m d now e p
        ]).1
          ≢ some invalid_state
    by_judgement (ok (doc, took)) = finish_ok_never_invalid m d now doc took bound p f
    by_judgement (err e) = finish_err_never_invalid m d now e p t v

finish_err-AllValid :
    (m : Manager) (d : Definition) (now : Time) (e : RunFailure) (p : Bool)
    → AllValid m
    → AllValid (finish_err m d now e p).0
unfolding finish_err
finish_err-AllValid m d now e p v =
    elim (Bool-cases (leb failure_limit (count_of (lookup d.id m.failures) + 1))) [
      | inl limit ↦ rw limit (commit-AllValid _ d _ p v)
      | inr below ↦ rw below (commit-AllValid _ d _ p v)
    ]

finish_ok-AllValid :
    (m : Manager) (d : Definition) (now : Time) (doc : Document) (took : ℕ)
    (bound : Option (List (String × ℕ))) (p : Bool)
    → AllValid m
    → AllValid (finish_ok m d now doc took bound p).0
unfolding finish_ok
finish_ok-AllValid m d now doc took none p v = v
finish_ok-AllValid m d now doc took (some b) p v = commit-AllValid _ d _ p v

-- The end of a refresh keeps every state of the manager valid, whatever the run returned.
pub finish_refresh-AllValid :
    (leaks : Document → Bool) (m : Manager) (d : Definition) (now : Time)
    (outcome : Result RunFailure (Document × ℕ)) (bound : Option (List (String × ℕ))) (p : Bool)
    → AllValid m
    → AllValid (finish_refresh leaks m d now outcome bound p).0
unfolding finish_refresh
finish_refresh-AllValid leaks m d now outcome bound p v = by_judgement (judge leaks d outcome)
  where
    by_judgement :
        (r : Result RunFailure (Document × ℕ))
        → AllValid
            (elim r as (λ _. Manager × Option ManagerError) [
              | ok (doc, took) ↦ finish_ok m d now doc took bound p
              | err e ↦ finish_err m d now e p
            ]).0
    by_judgement (ok (doc, took)) = finish_ok-AllValid m d now doc took bound p v
    by_judgement (err e) = finish_err-AllValid m d now e p v

-- The start of a refresh, which may commit a disabled card, keeps every state of the manager valid.
pub begin_refresh-AllValid :
    (m : Manager) (d : Definition) (now : Time) (p : Bool)
    → AllValid m
    → AllValid (begin_refresh m d now p).0
unfolding begin_refresh
begin_refresh-AllValid m d now p v = elim (Bool-cases (is_current (lookup d.id m.defs) d)) [
  | inr stale ↦ rw stale v
  | inl current ↦ elim (Option-cases d.disabled) [
    | inr (reason, off) ↦
        rw (current, off, begin_refresh) (commit-AllValid m d (disabled_card d.id none reason) p v)
    | inl enabled ↦ elim (Bool-cases (ltb now (count_of (lookup d.id m.open_until)))) [
      | inl waits ↦ rw (current, enabled, begin_refresh, waits) v
      | inr closed ↦ elim (Bool-cases d.runnable) [
        | inl runs ↦ rw (current, enabled, begin_refresh, closed, runs) v
        | inr stuck ↦
            simp (current, enabled, begin_refresh, closed, stuck)
              (commit-AllValid m d (disabled_card d.id none config_error) p v)
      ]
    ]
  ]
]
