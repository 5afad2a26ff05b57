-- ===== src/Outbox/Delivery.antt =====
-- storage/notifications.go and notify/dispatcher.go: the outbox of notifications.
use veduta.Prelude.{
  ℕ, suc, ◌+◌, ◌-◌, Bool, true, false, not, ◌&&◌, ◌||◌, Option, none, some, List, [], ◌∷◌, ◌++◌,
  leb, ltb, ◌==◌, if◌then◌else◌, String, str_eq, lookup, insert,
}
use mathlib.Core.Option
use veduta.Cards.Document.{hour}
use veduta.Cards.CardState.{Time}
use veduta.Scheduler.Backoff.{double_up}

pub data Delivery : Type 0 where
  waiting sending sent abandoned : Delivery

-- A row of the table `notifications`; the table is in the order of the ids.
pub record Item : Type 0 where
  pub id : ℕ
  pub created_at : Time
  pub channel : String
  pub dedupe_key : Option String
  pub payload : String
  pub state : Delivery
  pub attempts : ℕ
  pub next_attempt_at : Option Time

-- `NotificationRequest`.
pub record Request : Type 0 where
  pub channel : String
  pub dedupe_key : String
  pub payload : String
  pub now : Time
  pub cooldown : ℕ
  pub per_hour : ℕ

-- The tables of the outbox: items, suspended channels, and the events of suspensions.
pub record Outbox : Type 0 where
  pub items : List Item
  pub suspended : List (String × Time)
  pub suspension_events : List (Time × String)
  pub next_id : ℕ

abbrev pub is_open : Delivery → Bool
is_open waiting = true
is_open sending = true
is_open sent = false
is_open abandoned = false

abbrev pub has_key : String → Option String → Bool
has_key key none = false
has_key key (some k) = str_eq k key

-- `nullString`.
abbrev pub null_string : String → Option String
null_string s = if str_eq s "" then none else some s

abbrev pub is_suspended : Option Time → Time → Bool
is_suspended none now = false
is_suspended (some until_time) now = ltb now until_time

-- How many rows pass a test: `SELECT count(*)`.
unfoldable pub count_items : (Item → Bool) → List Item → ℕ
count_items p [] = 0
count_items p (it ∷ items) = let rest = count_items p items in if p it then suc rest else rest

abbrev pub append_item : Item → List Item → List Item
append_item it items = items ++ (it ∷ [])

-- The comparisons of times are of texts in the store: `not_before a b` is SQLite's `a >= b`.
module _ (not_before : Time → Time → Bool) where
  abbrev pub is_recent : Request → Item → Bool
  is_recent r it =
      has_key r.dedupe_key it.dedupe_key
      && (is_open it.state || not_before it.created_at (r.now - r.cooldown))

  abbrev pub in_hour : Request → Item → Bool
  in_hour r it = str_eq it.channel r.channel && not_before it.created_at (r.now - hour)

  -- A ceiling of 0 is the default of 20 an hour.
  abbrev pub ceiling : Request → ℕ
  ceiling r = if r.per_hour == 0 then 20 else r.per_hour

  -- `INSERT OR IGNORE`: the unique index allows one open row of a key.
  abbrev pub clashes : Request → Item → Bool
  clashes r it =
      not (str_eq r.dedupe_key "") && has_key r.dedupe_key it.dedupe_key && is_open it.state

  unfoldable pub insert_item : Request → Outbox → Outbox × Bool
  insert_item r o = if ltb 0 (count_items (clashes r) o.items) then (o, false) else (
    record o {
      items =
          append_item
            (record {
              id = o.next_id;
              created_at = r.now;
              channel = r.channel;
              dedupe_key = null_string r.dedupe_key;
              payload = r.payload;
              state = waiting;
              attempts = 0;
              next_attempt_at = some r.now;
            })
            o.items;
      next_id = o.next_id + 1;
    },
    true,
  )

  -- What `enqueueNotificationTx` answers: whether a row went in, and whether the channel was suspended.
  unfoldable pub enqueue : Request → Outbox → Outbox × (Bool × Bool)
  enqueue r o =
      if is_suspended (lookup r.channel o.suspended) r.now
      then (o, (false, false))
      else if ltb 0 r.cooldown
          && not (str_eq r.dedupe_key "")
          && ltb 0 (count_items (is_recent r) o.items)
      then (o, (false, false))
      else if leb (ceiling r) (count_items (in_hour r) o.items)
      then (
        record o {
          suspended = insert r.channel (r.now + hour) o.suspended;
          suspension_events = (r.now, r.channel) ∷ o.suspension_events;
        },
        (false, true),
      )
      else (let (o', inserted) = insert_item r o in (o', (inserted, false)))

  abbrev pub is_due : Time → Option Time → Bool
  is_due now none = true
  is_due now (some t) = not_before now t

  abbrev pub can_claim : Time → Item → Bool
  can_claim now it = elim (it.state) [
    | waiting ↦ is_due now it.next_attempt_at
    | sending ↦ false
    | sent ↦ false
    | abandoned ↦ false
  ]

  -- `ClaimNotification`: the first due row becomes `sending`, and its attempt is counted.
  unfoldable pub claim : Time → List Item → Option (Item × List Item)
  claim now [] = none
  claim now (it ∷ items) =
      let rest = claim now items in
      if can_claim now it
      then (let taken = record it { state = sending; attempts = it.attempts + 1 } in
          some (taken, taken ∷ items))
      else Option.map (λ p. (p.0, it ∷ p.1)) rest

-- `UPDATE notifications SET … WHERE id=?`.
unfoldable pub update : ℕ → (Item → Item) → List Item → List Item
update id f [] = []
update id f (it ∷ items) = (if it.id == id then f it else it) ∷ update id f items

-- `CompleteNotification`.
abbrev pub complete : Item → Item
complete it = record it { state = sent; next_attempt_at = none }

-- `FailNotification`.
abbrev pub fail : Time → Bool → Item → Item
fail next abandon it =
    if abandon
    then record it { state = abandoned; next_attempt_at = none }
    else record it { state = waiting; next_attempt_at = some next }

-- `DispatcherConfig`.
pub record Config : Type 0 where
  pub max_attempts : ℕ
  pub retry_base : ℕ

-- What becomes of a claimed item: an unreadable payload or a channel that is gone, or the outcome of `Send`.
pub data Attempt : Type 0 where
  undeliverable delivered rejected failed_to_send : Attempt

-- The loop over the delays, an hour at most.
unfoldable pub retry_delay : ℕ → ℕ → ℕ
retry_delay attempts base =
    let delay = double_up (attempts - 1) base in if ltb hour delay then hour else delay

unfoldable pub settle : Config → Time → Attempt → ℕ → Item → Item
settle c now undeliverable attempts it = fail 0 true it
settle c now delivered attempts it = complete it
settle c now rejected attempts it = fail (now + retry_delay attempts c.retry_base) true it
settle c now failed_to_send attempts it =
    fail (now + retry_delay attempts c.retry_base) (leb c.max_attempts attempts) it

-- `RunOnce`: an item is claimed, sent and settled.
unfoldable pub run_once :
    (Time → Time → Bool) → Config → Time → (Item → Attempt) → Outbox → Outbox × Bool
run_once not_before c now send o = elim (claim not_before now o.items) [
  | none ↦ (o, false)
  | some (it, items) ↦
      (record o { items = update it.id (settle c now (send it) it.attempts) items }, true)
]
