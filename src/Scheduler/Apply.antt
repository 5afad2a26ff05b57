-- ===== src/Scheduler/Apply.antt =====
-- scheduler/scheduler.go: `Apply` and `restored`; storage/storage.go: `GetCardFor`.
use veduta.Prelude.{
  ℕ, ◌+◌, ◌*◌, Bool, false, not, ◌&&◌, ◌||◌, Option, none, some, List, [], ◌∷◌, Result, ok, err,
  ◌>>=◌, ltb, ◌==◌, if◌then◌else◌, String, str_eq, lookup, insert, erase,
}
use veduta.Cards.Document.{Document, second}
use veduta.Cards.CardState.{
  Time, parse_time, ExecutionState, okay, Source, CardState, pending_card, stale_card, validate,
}
use veduta.Scheduler.Backoff.{minute}
use veduta.Scheduler.Manager.{
  ManagerError, empty_id, duplicate_id, load_failed, Definition, CardRecord, Manager,
}

abbrev pub Rows : Type 0
Rows = List (String × CardRecord)

-- An expected text that is empty matches any stored one.
abbrev pub agrees : String → String → Bool
agrees expected found = str_eq expected "" || str_eq found expected

abbrev pub same_record : Definition → CardRecord → Bool
same_record d r =
    str_eq r.card_hash d.hash
    && agrees d.manifest_digest r.manifest_digest
    && agrees d.approval_revision r.approval_revision
    && agrees d.slot_revisions r.slot_revisions

-- `GetCardFor`: a row of another identity is deleted, and an invalid state is an error.
unfoldable pub get_card_for : Definition → Rows → Rows × Result ManagerError (Option CardState)
get_card_for d rows = elim (lookup d.id rows) [
  | none ↦ (rows, ok none)
  | some r ↦
      if not (same_record d r)
      then (erase d.id rows, ok none)
      else if not (validate r.state)
      then (rows, err load_failed)
      else (rows, ok (some r.state))
]

-- `restored`: a state that was okay and has expired since is stale from its expiry on.
unfoldable pub restore_okay : Time → Source → CardState → Option Document → CardState
restore_okay now src cs none = cs
restore_okay now src cs (some doc) =
    let expires = parse_time cs.execution.expires_at in
    if not (expires == 0) && not (ltb now expires)
    then stale_card cs.card_id doc src (parse_time cs.execution.generated_at) expires 0 now
    else cs

abbrev pub restore_in : Time → Source → CardState → ExecutionState → CardState
restore_in now src cs okay = restore_okay now src cs cs.document
restore_in now src cs _ = cs

unfoldable pub restored : Time → Source → CardState → CardState
restored now src cs = restore_in now src cs cs.execution.state

-- The maps that `Apply` prepares.
pub record Prepared : Type 0 where
  pub defs : List (String × Definition)
  pub states : List (String × CardState)
  pub failures : List (String × ℕ)
  pub open_until : List (String × Time)

abbrev pub nothing_prepared : Prepared
nothing_prepared = record { defs = []; states = []; failures = []; open_until = [] }

-- A refresh of 0 is a minute, and a timeout of 0 ten seconds.
unfoldable pub with_defaults : Definition → Definition
with_defaults d = record d {
  refresh = if d.refresh == 0 then minute else d.refresh;
  timeout_after = if d.timeout_after == 0 then 10 * second else d.timeout_after;
}

abbrev pub add_pending : Definition → Prepared → Prepared
add_pending d p = record p {
  defs = insert d.id d p.defs;
  states = insert d.id (pending_card d.id) p.states;
}

abbrev pub leaky : (Document → Bool) → Option Document → Bool
leaky leaks none = false
leaky leaks (some doc) = leaks doc

unfoldable pub add_restored :
    (Document → Bool) → Time → Definition → Option CardState → Prepared → Prepared
add_restored leaks now d none p = add_pending d p
add_restored leaks now d (some old) p =
    if leaky leaks old.document then add_pending d p else record {
      defs = insert d.id d p.defs;
      states = insert d.id (restored now d.source old) p.states;
      failures = insert d.id old.execution.consecutive_failures p.failures;
      open_until = insert d.id (parse_time old.execution.circuit_open_until) p.open_until;
    }

-- One round of the loop of `Apply`, with the rows of the store that it leaves.
unfoldable pub prepare :
    (Document → Bool)
    → Time
    → Definition
    → Option Rows
    → Prepared
    → Option Rows × Result ManagerError Prepared
prepare leaks now d store p =
    if str_eq d.id "" then (store, err empty_id) else elim (lookup d.id p.defs) [
      | some _ ↦ (store, err (duplicate_id d.id))
      | none ↦ elim store [
        | none ↦ (none, ok (add_pending d p))
        | some rows ↦
            let (rows', found) = get_card_for d rows in
            (some rows', found >>= λ old. ok (add_restored leaks now d old p))
      ]
    ]

unfoldable pub prepare_all :
    (Document → Bool)
    → Time
    → List Definition
    → Option Rows
    → Prepared
    → Option Rows × Result ManagerError Prepared
prepare_all leaks now [] store p = (store, ok p)
prepare_all leaks now (d ∷ ds) store p =
    let (store', r) = prepare leaks now (with_defaults d) store p in
    elim r [ err e ↦ (store', err e) | ok q ↦ prepare_all leaks now ds store' q ]

-- The new generation of every definition.
unfoldable pub set_generation : ℕ → List (String × Definition) → List (String × Definition)
set_generation n [] = []
set_generation n ((id, d) ∷ ds) = (id, record d { generation = n }) ∷ set_generation n ds

-- The end of `Apply`: an error leaves the manager, and the prepared maps become the active ones.
unfoldable pub install :
    Manager → Option Rows × Result ManagerError Prepared → Manager × Option ManagerError
install m (store, err e) = (record m { store = store }, some e)
install m (store, ok p) = (
  record m {
    store = store;
    generation = m.generation + 1;
    defs = set_generation (m.generation + 1) p.defs;
    states = p.states;
    failures = p.failures;
    open_until = p.open_until;
    manual_at = [];
  },
  none,
)

-- `Apply`, without the loops that it starts.
unfoldable pub apply :
    (Document → Bool) → Time → List Definition → Manager → Manager × Option ManagerError
apply leaks now defs m = install m (prepare_all leaks now defs m.store nothing_prepared)
