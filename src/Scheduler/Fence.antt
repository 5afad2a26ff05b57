-- ===== src/Scheduler/Fence.antt =====
-- Runs that outlive their configuration (scheduler/scheduler.go).
use veduta.Prelude.{
  ℕ, ◌≤◌, ◌≡◌, refl, ap, Bool, false, Option, none, some, List, Result, ok, err, String, lookup,
}
use veduta.Cards.Document.{Document}
use veduta.Cards.CardState.{Time}
use veduta.Scheduler.Manager.{RunFailure, ManagerError, Definition, Manager, is_current}
use veduta.Scheduler.Refresh.{judge, finish_ok, finish_err, finish_refresh}
use veduta.Scheduler.Apply.{apply}
use veduta.Scheduler.Commits.{commit_superseded}
use veduta.Scheduler.Breaker.{superseded_failure_counts}
use veduta.Scheduler.Reload.{apply-superseded}

finish_ok_stale :
    (m : Manager) (d : Definition) (now : Time) (doc : Document) (took : ℕ)
    (bound : Option (List (String × ℕ))) (p : Bool)
    → is_current (lookup d.id m.defs) d ≡ false
    → (finish_ok m d now doc took bound p).0.states ≡ m.states
unfolding finish_ok
finish_ok_stale m d now doc took none p h = refl
finish_ok_stale m d now doc took (some b) p h = ap (λ n. n.states) (commit_superseded _ d _ p h).0

finish_refresh_stale :
    (leaks : Document → Bool) (m : Manager) (d : Definition) (now : Time)
    (outcome : Result RunFailure (Document × ℕ)) (bound : Option (List (String × ℕ))) (p : Bool)
    → is_current (lookup d.id m.defs) d ≡ false
    → (finish_refresh leaks m d now outcome bound p).0.states ≡ m.states
unfolding finish_refresh
finish_refresh_stale leaks m d now outcome bound p h = by_judgement (judge leaks d outcome)
  where
    by_judgement :
        (r : Result RunFailure (Document × ℕ))
        → (elim r as (λ _. Manager × Option ManagerError) [
          | ok (doc, took) ↦ finish_ok m d now doc took bound p
          | err e ↦ finish_err m d now e p
        ]).0.states
          ≡ m.states
    by_judgement (ok (doc, took)) = finish_ok_stale m d now doc took bound p h
    by_judgement (err e) = (superseded_failure_counts m d now e p h).0

-- A run that was under way when a configuration was applied leaves the states of the new
-- configuration as they are, whatever it returns.
pub apply-fences :
    (leaks : Document → Bool) (start now : Time) (defs : List Definition) (m : Manager)
    (d : Definition) (outcome : Result RunFailure (Document × ℕ))
    (bound : Option (List (String × ℕ))) (p : Bool)
    → (apply leaks start defs m).1 ≡ none
    → d.generation ≤ m.generation
    → (finish_refresh leaks (apply leaks start defs m).0 d now outcome bound p).0.states
      ≡ (apply leaks start defs m).0.states
apply-fences leaks start now defs m d outcome bound p h g =
    finish_refresh_stale leaks (apply leaks start defs m).0 d now outcome bound p
      (apply-superseded leaks start defs m d h g)
