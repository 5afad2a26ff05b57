-- ===== src/Scheduler/Manager.antt =====
-- scheduler/scheduler.go: the state of the manager, the commit of a card and the manual refresh.
use veduta.Prelude.{
  ℕ, ◌+◌, Bool, true, false, not, ◌&&◌, Option, none, some, List, [], ◌∷◌, ◌++◌, length, Result, ok,
  err, ltb, ◌==◌, if◌then◌else◌, String, lookup, insert,
}
use veduta.Cards.Document.{second}
use veduta.Cards.CardState.{
  Time, DisabledReason, ErrorCode, upstream, timeout, invalid, internal, Source, CardState,
  validate,
}

-- What a run can fail with: the errors of the package, a cancelled or late run, or any other text.
pub data RunFailure : Type 0 where
  deadline secret_in_document unretained_signal run_panicked history_type : RunFailure
  other_failure : String → RunFailure

pub data ManagerError : Type 0 where
  unknown_card rate_limited superseded invalid_state store_failed history_failed empty_id
        load_failed :
      ManagerError
  duplicate_id : String → ManagerError

pub record Definition : Type 0 where
  pub id : String
  pub hash : String
  pub manifest_digest : String
  pub approval_revision : String
  pub slot_revisions : String
  pub refresh : ℕ
  pub timeout_after : ℕ
  pub source : Source
  pub runnable : Bool
  pub disabled : Option DisabledReason
  pub history_signals : List String
  pub generation : ℕ

-- `storage.CardRecord`: a state under the identity that produced it.
pub record CardRecord : Type 0 where
  pub card_hash : String
  pub manifest_digest : String
  pub approval_revision : String
  pub slot_revisions : String
  pub state : CardState

pub record Event : Type 0 where
  pub event_id : ℕ
  pub state : CardState

-- A subscription: a bounded channel and what it holds.
pub record Subscription : Type 0 where
  pub capacity : ℕ
  pub queue : List Event

-- `Manager`, without the locks, the flights and the worker pool.
pub record Manager : Type 0 where
  pub store : Option (List (String × CardRecord))
  pub defs : List (String × Definition)
  pub states : List (String × CardState)
  pub failures : List (String × ℕ)
  pub open_until : List (String × Time)
  pub manual_at : List (String × Time)
  pub subs : List Subscription
  pub next_id : ℕ
  pub generation : ℕ

abbrev pub count_of : Option ℕ → ℕ
count_of none = 0
count_of (some n) = n

-- `classify`.
unfoldable pub classify : RunFailure → ErrorCode
classify deadline = timeout
classify secret_in_document = invalid
classify unretained_signal = invalid
classify run_panicked = internal
classify _ = upstream

-- `Error()` of each failure, without the name of the signal that two of them quote.
unfoldable pub message_of : RunFailure → String
message_of deadline = "context deadline exceeded"
message_of secret_in_document = "scheduler: document contains a configured secret value"
message_of unretained_signal =
    "scheduler: a series block binds a signal this operation does not retain"
message_of run_panicked = "scheduler: the integration failed unexpectedly; see the server log"
message_of history_type = "scheduler: historical signal changed type"
message_of (other_failure text) = text

-- The send of an event to each subscriber: a full channel is closed and forgotten.
unfoldable pub publish : Event → List Subscription → List Subscription
publish ev [] = []
publish ev (s ∷ subs) =
    let rest = publish ev subs in
    if ltb (length s.queue) s.capacity
    then record s { queue = s.queue ++ (ev ∷ []) } ∷ rest
    else rest

-- Whether the active definition of a card is the one that the caller holds.
abbrev pub is_current : Option Definition → Definition → Bool
is_current none d = false
is_current (some current) d = current.generation == d.generation

abbrev pub record_of : Definition → CardState → CardRecord
record_of d cs = record {
  card_hash = d.hash;
  manifest_digest = d.manifest_digest;
  approval_revision = d.approval_revision;
  slot_revisions = d.slot_revisions;
  state = cs;
}

abbrev pub stored :
    Definition
    → CardState
    → Option (List (String × CardRecord))
    → Option (List (String × CardRecord))
stored d cs none = none
stored d cs (some rows) = some (insert cs.card_id (record_of d cs) rows)

abbrev pub has_store : Manager → Bool
has_store m = elim (m.store) [ none ↦ false | some _ ↦ true ]

-- `commitWithHistory`; `put_ok` is the outcome of the store's transaction.
unfoldable pub commit : Manager → Definition → CardState → Bool → Manager × Option ManagerError
unfolding publish insert
commit m d cs put_ok =
    if not (validate cs)
    then (m, some invalid_state)
    else if not (is_current (lookup d.id m.defs) d)
    then (m, some superseded)
    else if has_store m && not put_ok
    then (m, some store_failed)
    else (
      record m {
        store = stored d cs m.store;
        states = insert d.id cs m.states;
        next_id = m.next_id + 1;
        subs = publish (record { event_id = m.next_id + 1; state = cs }) m.subs;
      },
      none,
    )

-- `RefreshNow` up to its call of `refresh`: the definition to refresh, or the refusal.
unfoldable pub refresh_now : Manager → Time → String → Manager × Result ManagerError Definition
unfolding lookup insert
refresh_now m now id = elim (lookup id m.defs) [
  | none ↦ (m, err unknown_card)
  | some d ↦
      let last = count_of (lookup id m.manual_at) in
      if ltb 0 last && ltb now (last + second)
      then (m, err rate_limited)
      else (record m { manual_at = insert id now m.manual_at }, ok d)
]

-- `Subscribe`: a buffer holds one event at least.
unfoldable pub subscribe : Manager → ℕ → Manager
subscribe m buffer = record m {
  subs = record { capacity = if ltb buffer 1 then 1 else buffer; queue = [] } ∷ m.subs;
}
