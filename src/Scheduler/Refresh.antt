-- ===== src/Scheduler/Refresh.antt =====
-- scheduler/scheduler.go: `refresh`, before and behind the run of the card.
use veduta.Prelude.{
  ℕ, ◌+◌, ◌*◌, Bool, true, false, not, ◌&&◌, Option, none, some, List, [], ◌∷◌, Result, ok, err,
  leb, ltb, if◌then◌else◌, String, mem_text, lookup, insert, erase,
}
use veduta.Cards.Document.{Document, Scalar, second, history_bindings}
use veduta.Cards.CardState.{
  Time, parse_time, config_error, RunError, CardState, ok_card, stale_after_error,
  stale_after_error_with_open_circuit, error_card, error_with_open_circuit, disabled_card,
}
use veduta.Scheduler.Backoff.{minute, min_duration, backoff}
use veduta.Scheduler.Manager.{
  RunFailure, secret_in_document, unretained_signal, history_type, ManagerError, superseded,
  history_failed, Definition, Manager, count_of, is_current, commit, classify, message_of,
}

-- What `refresh` does before it runs the card: it is over, or the run begins.
pub data Begin : Type 0 where
  over : Option ManagerError → Begin
  run : Begin

-- `refresh` up to the run.
unfoldable pub begin_refresh : Manager → Definition → Time → Bool → Manager × Begin
begin_refresh m d now put_ok =
    if not (is_current (lookup d.id m.defs) d)
    then (m, over (some superseded))
    else elim (d.disabled) [
      | some reason ↦
          let (m', e) = commit m d (disabled_card d.id none reason) put_ok in (m', over e)
      | none ↦
          if ltb now (count_of (lookup d.id m.open_until))
          then (m, over none)
          else if not d.runnable
          then (let (m', e) = commit m d (disabled_card d.id none config_error) put_ok in
              (m', over e))
          else (m, run)
    ]

-- `historicalValues`: a retained signal that is there must be a number.
unfoldable pub history_typed : List String → List (String × Scalar) → Bool
history_typed [] signals = true
history_typed (name ∷ names) signals = elim (lookup name signals) [
  | none ↦ history_typed names signals
  | some (Scalar.number n) ↦ history_typed names signals
  | some Scalar.null ↦ history_typed names signals
  | some _ ↦ false
]

-- The loop over the bound signals: each must be retained.
unfoldable pub bindings_retained : List (String × ℕ) → List String → Bool
bindings_retained [] retained = true
bindings_retained ((signal, _) ∷ bs) retained =
    if mem_text signal retained then bindings_retained bs retained else false

-- The checks of a produced document, in order.
unfoldable pub judge :
    (Document → Bool)
    → Definition
    → Result RunFailure (Document × ℕ)
    → Result RunFailure (Document × ℕ)
judge leaks d (err e) = err e
judge leaks d (ok (doc, took)) =
    if leaks doc
    then err secret_in_document
    else if not (history_typed d.history_signals doc.signals)
    then err history_type
    else if not (bindings_retained (history_bindings doc.blocks []) d.history_signals)
    then err unretained_signal
    else ok (doc, took)

-- The time to live: the refresh interval, a shorter hint, and a second at least.
unfoldable pub effective_ttl : Definition → Document → ℕ
effective_ttl d doc =
    let ttl =
      if ltb 0 doc.ttl_seconds && ltb (doc.ttl_seconds * second) d.refresh
      then doc.ttl_seconds * second
      else d.refresh in
    if ltb ttl second then second else ttl

-- The success path; `bound` is what `boundHistory` read back, `none` where it failed.
unfoldable pub finish_ok :
    Manager
    → Definition
    → Time
    → Document
    → ℕ
    → Option (List (String × ℕ))
    → Bool
    → Manager × Option ManagerError
finish_ok m d now doc took none put_ok = (m, some history_failed)
finish_ok m d now doc took (some bound) put_ok =
    let cs = record (ok_card now d.id doc d.source (effective_ttl d doc) took) {
      history = bound;
    } in
    commit (record m { failures = insert d.id 0 m.failures; open_until = erase d.id m.open_until })
      d cs put_ok

abbrev pub failure_limit : ℕ
failure_limit = 3

abbrev pub breaker_wait : ℕ → ℕ → ℕ
breaker_wait failures refresh = min_duration (5 * minute) (backoff failures refresh)

abbrev pub run_error : RunFailure → RunError
run_error e = record { code = classify e; message = message_of e; retryable = true; at = none }

-- The state that a failure leaves while the circuit is open.
unfoldable pub open_state : Definition → Time → Time → ℕ → RunError → Option CardState → CardState
open_state d now until_time failures e none = error_with_open_circuit now d.id d.source e until_time
open_state d now until_time failures e (some previous) = elim (previous.document) [
  | none ↦ error_with_open_circuit now d.id d.source e until_time
  | some doc ↦
      record (stale_after_error_with_open_circuit now d.id doc d.source
        (parse_time previous.execution.generated_at) now failures until_time e) {
          history = previous.history;
        }
]

abbrev pub error_with_retry : Definition → Time → Time → ℕ → RunError → CardState
error_with_retry d now retry failures e =
    let cs = error_card now d.id d.source e in
    record cs {
      execution = record (cs.execution) {
        consecutive_failures = failures;
        next_run_at = some retry;
      };
    }

-- The state that a failure leaves below the limit.
unfoldable pub closed_state : Definition → Time → Time → ℕ → RunError → Option CardState → CardState
closed_state d now retry failures e none = error_with_retry d now retry failures e
closed_state d now retry failures e (some previous) = elim (previous.document) [
  | none ↦ error_with_retry d now retry failures e
  | some doc ↦
      record (stale_after_error now d.id doc d.source (parse_time previous.execution.generated_at)
        now failures retry e) { history = previous.history }
]

-- The failure path.
unfoldable pub finish_err :
    Manager → Definition → Time → RunFailure → Bool → Manager × Option ManagerError
finish_err m d now e put_ok =
    let failures = count_of (lookup d.id m.failures) + 1 in
    let counted = record m { failures = insert d.id failures m.failures } in
    let previous = lookup d.id m.states in
    if leb failure_limit failures
    then (let until_time = now + breaker_wait failures d.refresh in
        commit (record counted { open_until = insert d.id until_time m.open_until }) d
          (open_state d now until_time failures (run_error e) previous) put_ok)
    else commit counted d
        (closed_state d now (now + backoff failures d.refresh) failures (run_error e) previous)
        put_ok

-- `refresh` behind the run.
unfoldable pub finish_refresh :
    (Document → Bool)
    → Manager
    → Definition
    → Time
    → Result RunFailure (Document × ℕ)
    → Option (List (String × ℕ))
    → Bool
    → Manager × Option ManagerError
finish_refresh leaks m d now outcome bound put_ok = elim (judge leaks d outcome) [
  | ok (doc, took) ↦ finish_ok m d now doc took bound put_ok
  | err e ↦ finish_err m d now e put_ok
]
