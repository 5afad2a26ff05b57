-- ===== src/Examples/Runs.antt =====
-- Runs of scheduler and state: one card, its refreshes, failures and waits.
use veduta.Prelude.{
  ℕ, ◌≡◌, refl, ◌≢◌, ◌≤◌, ◌<◌, ◌+◌, ◌*◌, Bool, true, false, Option, none, some, List, [], ◌∷◌,
  Result, ok, err, String, arith, lookup,
}
use veduta.Cards.Document.{Document, second}
use veduta.Cards.CardState.{pending_card, validate}
use veduta.Cards.Valid.{Fits, pending_card-valid}
use veduta.Scheduler.Backoff.{minute, backoff}
use veduta.Scheduler.Manager.{
  RunFailure, deadline, invalid_state, Definition, Manager, count_of, is_current, refresh_now,
}
use veduta.Scheduler.Refresh.{finish_refresh, breaker_wait}
use veduta.Scheduler.Commits.{
  AllValid, valid_insert, finish_refresh_never_invalid, finish_refresh-AllValid,
}
use veduta.Scheduler.Apply.{apply, with_defaults, install, prepare_all, prepare, add_restored}
use veduta.Scheduler.Fence.{apply-fences}
use veduta.Scheduler.Reload.{apply-AllValid}

abbrev card : Definition
card = record {
  id = "cpu";
  hash = "h";
  manifest_digest = "d";
  approval_revision = "a";
  slot_revisions = "s";
  refresh = minute;
  timeout_after = 10 * second;
  source = record { integration = "demo"; operation = "load" };
  runnable = true;
  disabled = none;
  history_signals = [];
  generation = 1;
}

abbrev newer : Definition
newer = record card { generation = 2 }

abbrev page : Document
page = record { blocks = []; signals = []; ttl_seconds = 30 }

-- Two failures so far, the last of them long enough ago.
abbrev manager : Manager
manager = record {
  store = none;
  defs = ("cpu", card) ∷ [];
  states = ("cpu", pending_card "cpu") ∷ [];
  failures = ("cpu", 2) ∷ [];
  open_until = [];
  manual_at = [];
  subs = [];
  next_id = 1;
  generation = 1;
}

abbrev reloaded : Manager
reloaded = record manager { defs = ("cpu", newer) ∷ []; generation = 2 }

abbrev opened : Manager
opened = record manager { open_until = ("cpu", 100 * second) ∷ [] }

manager-AllValid : AllValid manager
unfolding lookup
manager-AllValid id c h =
    valid_insert "cpu" id (pending_card "cpu") c none (pending_card-valid "cpu") (λ e. cc) h

abbrev unbound : Option (List (String × ℕ))
unbound = some []

no_history : (h : List (String × ℕ)) → unbound ≡ some h → Fits h
unfolding validate
no_history h e = let same : [] ≡ h = cc e in rw (← same) refl

abbrev no_leaks : Document → Bool
no_leaks doc = false

abbrev late : Result RunFailure (Document × ℕ)
late = err deadline

finish_refresh_never_invalid_example :
    (finish_refresh no_leaks manager card (50 * second) late unbound true).1 ≢ some invalid_state
finish_refresh_never_invalid_example =
    finish_refresh_never_invalid no_leaks manager card (50 * second) late unbound true (omega arith)
      manager-AllValid no_history

finish_refresh-AllValid_example :
    AllValid (finish_refresh no_leaks manager card (50 * second) late unbound true).0
finish_refresh-AllValid_example =
    finish_refresh-AllValid no_leaks manager card (50 * second) late unbound true manager-AllValid

card_replaced : is_current (lookup card.id reloaded.defs) card ≡ false
unfolding lookup
card_replaced = refl

two_failures : 2 ≤ count_of (lookup card.id manager.failures)
unfolding lookup
two_failures = omega arith

first_accepted : (refresh_now manager (50 * second) "cpu").1 ≡ ok card
unfolding refresh_now lookup
first_accepted = refl

eight_minutes : backoff 4 minute ≡ 8 * minute
unfolding backoff
eight_minutes = refl

accepted : (apply no_leaks (50 * second) (card ∷ []) manager).1 ≡ none
unfolding apply install prepare_all prepare add_restored with_defaults lookup
accepted = refl

apply-AllValid_example : AllValid (apply no_leaks (50 * second) (card ∷ []) manager).0
apply-AllValid_example = apply-AllValid no_leaks (50 * second) (card ∷ []) manager manager-AllValid

in_force : is_current (lookup card.id manager.defs) card ≡ true
unfolding lookup
in_force = refl

before_the_end :
    60 * second
    < 50 * second + breaker_wait (count_of (lookup card.id manager.failures) + 1) card.refresh
unfolding lookup backoff
before_the_end = omega arith

apply-fences_example :
    (finish_refresh no_leaks
      (apply no_leaks (50 * second) (card ∷ []) manager).0
      card
      (51 * second)
      late
      unbound
      true).0.states
    ≡ (apply no_leaks (50 * second) (card ∷ []) manager).0.states
apply-fences_example =
    apply-fences no_leaks (50 * second) (51 * second) (card ∷ []) manager card late unbound true
      accepted (omega arith)
