-- ===== src/Cards/CardState.antt =====
-- state/cardstate.go: the execution facts of a card, its constructors and its validation.
use veduta.Prelude.{
  ℕ, ◌+◌, ◌/◌, Bool, true, false, not, ◌&&◌, Option, none, some, List, [], ◌∷◌, length, ltb, ◌==◌,
  if◌then◌else◌, String,
}
use veduta.Cards.Document.{Document, second}

-- A time in nanoseconds, 0 for the zero time. On the wire an absent time is the empty text: `none`.
abbrev pub Time : Type 0
Time = ℕ

-- `parseTime`: the zero time for an absent text.
abbrev pub parse_time : Option Time → Time
parse_time none = 0
parse_time (some t) = t

pub data ExecutionState : Type 0 where
  pending okay stale failed disabled : ExecutionState

pub data DisabledReason : Type 0 where
  unapproved permissions_changed integration_missing config_error operator : DisabledReason

pub data ErrorCode : Type 0 where
  upstream auth timeout config denied invalid limit internal : ErrorCode

pub record Source : Type 0 where
  pub integration : String
  pub operation : String

pub record RunError : Type 0 where
  pub code : ErrorCode
  pub message : String
  pub retryable : Bool
  pub at : Option Time

pub record Execution : Type 0 where
  pub state : ExecutionState
  pub generated_at : Option Time
  pub ttl_seconds : ℕ
  pub expires_at : Option Time
  pub stale_since : Option Time
  pub duration_ms : ℕ
  pub consecutive_failures : ℕ
  pub next_run_at : Option Time
  pub source : Option Source
  pub error : Option RunError
  pub disabled_reason : Option DisabledReason
  pub circuit_open_until : Option Time

pub record CardState : Type 0 where
  pub card_id : String
  pub document : Option Document
  pub execution : Execution
  -- How many points each bound signal keeps.
  pub history : List (String × ℕ)

abbrev pub blank : ExecutionState → Execution
blank s = record {
  state = s;
  generated_at = none;
  ttl_seconds = 0;
  expires_at = none;
  stale_since = none;
  duration_ms = 0;
  consecutive_failures = 0;
  next_run_at = none;
  source = none;
  error = none;
  disabled_reason = none;
  circuit_open_until = none;
}

-- `Pending`.
unfoldable pub pending_card : String → CardState
pending_card id = record { card_id = id; document = none; execution = blank pending; history = [] }

-- `OK`.
unfoldable pub ok_card : Time → String → Document → Source → ℕ → ℕ → CardState
ok_card now id doc src ttl duration = record {
  card_id = id;
  document = some doc;
  history = [];
  execution = record (blank okay) {
    generated_at = some now;
    ttl_seconds = ttl / second;
    expires_at = some (now + ttl);
    duration_ms = duration / 1_000_000;
    source = some src;
  };
}

-- `nextRunAtOrEmpty`.
abbrev pub next_run_at_or_empty : Time → Option Time
next_run_at_or_empty t = if t == 0 then none else some t

-- `Stale`.
unfoldable pub stale_card : String → Document → Source → Time → Time → ℕ → Time → CardState
stale_card id doc src generated stale_since failures next = record {
  card_id = id;
  document = some doc;
  history = [];
  execution = record (blank stale) {
    generated_at = some generated;
    stale_since = some stale_since;
    consecutive_failures = failures;
    next_run_at = next_run_at_or_empty next;
    source = some src;
  };
}

abbrev pub stamped : Time → RunError → RunError
stamped now e = elim (e.at) [ none ↦ record e { at = some now } | some _ ↦ e ]

-- `StaleAfterError`.
unfoldable pub stale_after_error :
    Time → String → Document → Source → Time → Time → ℕ → Time → RunError → CardState
unfolding stale_card
stale_after_error now id doc src generated stale_since failures next e =
    let cs = stale_card id doc src generated stale_since failures next in
    record cs { execution = record (cs.execution) { error = some (stamped now e) } }

-- `StaleAfterErrorWithOpenCircuit`.
unfoldable pub stale_after_error_with_open_circuit :
    Time → String → Document → Source → Time → Time → ℕ → Time → RunError → CardState
unfolding stale_after_error
stale_after_error_with_open_circuit now id doc src generated stale_since failures open_until e =
    let cs = stale_after_error now id doc src generated stale_since failures open_until e in
    record cs { execution = record (cs.execution) { circuit_open_until = some open_until } }

-- `Error`.
unfoldable pub error_card : Time → String → Source → RunError → CardState
error_card now id src e = record {
  card_id = id;
  document = none;
  history = [];
  execution = record (blank failed) { source = some src; error = some (stamped now e) };
}

-- `ErrorWithOpenCircuit`.
unfoldable pub error_with_open_circuit : Time → String → Source → RunError → Time → CardState
unfolding error_card
error_with_open_circuit now id src e open_until =
    let cs = error_card now id src e in
    record cs {
      execution = record (cs.execution) {
        next_run_at = some open_until;
        circuit_open_until = some open_until;
      };
    }

-- `Disabled`.
unfoldable pub disabled_card : String → Option Document → DisabledReason → CardState
disabled_card id doc reason = record {
  card_id = id;
  document = doc;
  history = [];
  execution = record (blank disabled) { disabled_reason = some reason };
}

abbrev pub is_none {ℓ} : {A : Type ℓ} → Option A → Bool
is_none none = true
is_none (some _) = false

abbrev pub max_history_points : ℕ
max_history_points = 288

abbrev pub max_history_signals : ℕ
max_history_signals = 16

abbrev pub points_fit : List (String × ℕ) → Bool
points_fit [] = true
points_fit ((_, n) ∷ h) = if ltb max_history_points n then false else points_fit h

-- `validateHistory`.
unfoldable pub validate_history : List (String × ℕ) → Bool
validate_history h = if ltb max_history_signals (length h) then false else points_fit h

-- The switch of `Validate`: the fields that each state requires and forbids.
unfoldable pub validate_state : ExecutionState → Option Document → Execution → Bool
validate_state pending doc e =
    is_none doc
    && is_none e.generated_at
    && is_none e.expires_at
    && is_none e.stale_since
    && is_none e.error
    && is_none e.circuit_open_until
validate_state okay doc e =
    not (is_none doc)
    && not (is_none e.generated_at)
    && not (e.ttl_seconds == 0)
    && not (is_none e.expires_at)
    && is_none e.error
    && is_none e.stale_since
    && is_none e.disabled_reason
    && is_none e.circuit_open_until
validate_state stale doc e =
    not (is_none doc)
    && not (is_none e.generated_at)
    && not (is_none e.stale_since)
    && is_none e.disabled_reason
validate_state failed doc e = is_none doc && not (is_none e.error) && is_none e.disabled_reason
validate_state disabled doc e =
    not (is_none e.disabled_reason) && is_none e.next_run_at && is_none e.circuit_open_until

-- `Validate`.
unfoldable pub validate : CardState → Bool
unfolding validate_state validate_history
validate c =
    if not (validate_state c.execution.state c.document c.execution)
    then false
    else if not (is_none c.execution.circuit_open_until) && is_none c.execution.next_run_at
    then false
    else validate_history c.history
