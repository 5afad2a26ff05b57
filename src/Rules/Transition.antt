-- ===== src/Rules/Transition.antt =====
-- rules/manager.go: what one evaluation of a rule changes, and `Apply`; storage/rules.go: the persisted state.
use veduta.Prelude.{
  ℕ, ◌+◌, Bool, true, false, not, ◌&&◌, Option, none, some, List, [], ◌∷◌, Result, ok, err, ltb,
  ◌==◌, if◌then◌else◌, String, str_eq, mem_text, lookup, insert, erase,
}
use veduta.Cards.CardState.{Time, CardState}
use veduta.Rules.Evaluator.{
  Verdict, is_true, is_false, is_unknown, CardDefinition, Program, Evaluation, EvaluationError,
  evaluate,
}

-- `Definition` of a rule.
pub record Rule : Type 0 where
  pub id : String
  pub hash : String
  pub hold : ℕ
  pub severity : String
  pub notify : List String
  pub resolve : Bool
  pub program : Program

-- `storage.RuleState`; 0 is the zero time.
pub record RuleState : Type 0 where
  pub rule_id : String
  pub rule_hash : String
  pub last_result : Verdict
  pub since : Time
  pub deadline : Time
  pub fired_at : Time
  pub resolved_at : Time
  pub wrong_type : Bool

-- The events of a rule, and the alerts that it hands to the notification sink.
pub data RuleEvent : Type 0 where
  signal_type fired resolved : RuleEvent

pub record Alert : Type 0 where
  pub rule_id : String
  pub event : RuleEvent
  pub severity : String
  pub channels : List String

-- The part of `evaluateLocked` behind the evaluation: the state, the event, the alert, and the
-- deadline for which a timer is set.
pub record Outcome : Type 0 where
  pub state : RuleState
  pub event : Option RuleEvent
  pub alert : Option Alert
  pub wake_at : Option Time

-- The report of signals of a wrong type, once until they are all right again.
unfoldable pub note_types : List (String × String) → RuleState → RuleState × Option RuleEvent
note_types [] s = (record s { wrong_type = false }, none)
note_types (w ∷ ws) s =
    if s.wrong_type then (s, none) else (record s { wrong_type = true }, some signal_type)

abbrev pub alert_of : Rule → Bool → RuleEvent → Option Alert
alert_of d sink event =
    if sink
    then some (record { rule_id = d.id; event = event; severity = d.severity; channels = d.notify })
    else none

-- The start of a hold: the first true result sets the time and the deadline.
abbrev pub begin_hold : Rule → Time → RuleState → RuleState
begin_hold d now s = if s.since == 0 then record s { since = now; deadline = now + d.hold } else s

unfoldable pub when_true : Rule → Bool → Time → RuleState → Option RuleEvent → Outcome
when_true d sink now s e =
    let held = begin_hold d now s in
    if not (ltb now held.deadline) && held.fired_at == 0
    then record {
      state = record held { fired_at = now; resolved_at = 0 };
      event = some fired;
      alert = alert_of d sink fired;
      wake_at = none;
    }
    else if held.fired_at == 0
    then record { state = held; event = e; alert = none; wake_at = some held.deadline }
    else record { state = held; event = e; alert = none; wake_at = none }

unfoldable pub when_false : Rule → Bool → Time → RuleState → Option RuleEvent → Outcome
when_false d sink now s e =
    let reset = record s { since = 0; deadline = 0 } in
    if reset.fired_at == 0
    then record { state = reset; event = e; alert = none; wake_at = none }
    else record {
      state = record reset { resolved_at = now; fired_at = 0 };
      event = if d.resolve then some resolved else e;
      alert = if d.resolve then alert_of d sink resolved else none;
      wake_at = none;
    }

abbrev pub when_unknown : RuleState → Option RuleEvent → Outcome
when_unknown s e = record {
  state = record s { since = 0; deadline = 0 };
  event = e;
  alert = none;
  wake_at = none;
}

-- The switch on the result.
unfoldable pub by_result : Verdict → Rule → Bool → Time → RuleState × Option RuleEvent → Outcome
by_result is_true d sink now (s, e) = when_true d sink now s e
by_result is_false d sink now (s, e) = when_false d sink now s e
by_result is_unknown d sink now (s, e) = when_unknown s e

abbrev pub stamp : Rule → Verdict → RuleState → RuleState
stamp d v s = record s { rule_id = d.id; rule_hash = d.hash; last_result = v }

unfoldable pub advance : Rule → Bool → Time → Evaluation → RuleState → Outcome
advance d sink now ev s =
    let o = by_result ev.result d sink now (note_types ev.wrong_types s) in
    record o { state = stamp d ev.result o.state }

-- What a rule that has no persisted state starts from.
abbrev pub fresh_state : Rule → RuleState
fresh_state d = record {
  rule_id = d.id;
  rule_hash = d.hash;
  last_result = is_unknown;
  since = 0;
  deadline = 0;
  fired_at = 0;
  resolved_at = 0;
  wrong_type = false;
}

-- `GetRuleState` as `Apply` uses it: a state under another hash does not count.
unfoldable pub restore : Option RuleState → Rule → RuleState
restore none d = fresh_state d
restore (some s) d = if str_eq s.rule_hash d.hash then s else fresh_state d

pub data RulesError : Type 0 where
  duplicate_rule : String → RulesError
  evaluation : EvaluationError → RulesError
  unknown_channel commit_failed : RulesError

-- `Manager` of the rules, without the locks and the subscription; `rows` is the table `rule_state`.
pub record Rules : Type 0 where
  pub rows : List (String × RuleState)
  pub definitions : List (String × Rule)
  pub declarations : List (String × CardDefinition)
  pub states : List (String × RuleState)
  pub timers : List (String × (String × Time))
  pub has_sink : Bool
  pub active : Bool

abbrev pub state_or_zero : Rule → Option RuleState → RuleState
state_or_zero d (some s) = s
state_or_zero d none = record (fresh_state d) { rule_id = ""; rule_hash = "" }

abbrev pub set_timer :
    Rule → Option Time → List (String × (String × Time)) → List (String × (String × Time))
set_timer d none timers = timers
set_timer d (some t) timers = insert d.id (d.hash, t) timers

-- `PrepareRuleAlert`: every channel must be configured.
unfoldable pub channels_known : List String → List String → Bool
channels_known channels [] = true
channels_known channels (c ∷ cs) = if mem_text c channels then channels_known channels cs else false

abbrev pub prepared : List String → Option Alert → Bool
prepared channels none = true
prepared channels (some a) = channels_known channels a.channels

-- `evaluateLocked`: the timers change at once, the state only with the transaction, whose outcome
-- is `committed`.
unfoldable pub evaluate_locked :
    Rules
    → List String
    → List (String × CardState)
    → Time
    → Bool
    → String
    → Rules × Option RulesError
evaluate_locked m channels cards now committed id = elim (lookup id m.definitions) [
  | none ↦ (m, none)
  | some d ↦ elim (evaluate d.program cards m.declarations) [
    | err e ↦ (m, some (evaluation e))
    | ok ev ↦
        let o = advance d m.has_sink now ev (state_or_zero d (lookup id m.states)) in
        let timed = record m { timers = set_timer d o.wake_at (erase id m.timers) } in
        if not (prepared channels o.alert)
        then (timed, some unknown_channel)
        else if not committed
        then (timed, some commit_failed)
        else (
          record timed { states = insert id o.state m.states; rows = insert id o.state m.rows },
          none,
        )
  ]
]

-- `Apply`: the definitions by id, each with its persisted state, or an error for a second id.
unfoldable pub load_rules :
    List (String × RuleState)
    → List Rule
    → List (String × Rule)
    → List (String × RuleState)
    → Result RulesError (List (String × Rule) × List (String × RuleState))
load_rules rows [] defs states = ok (defs, states)
load_rules rows (d ∷ ds) defs states = elim (lookup d.id defs) [
  | some _ ↦ err (duplicate_rule d.id)
  | none ↦
      load_rules rows ds (insert d.id d defs) (insert d.id (restore (lookup d.id rows) d) states)
]

unfoldable pub apply :
    Rules → List Rule → List (String × CardDefinition) → Rules × Option RulesError
apply m ds declarations = elim (load_rules m.rows ds [] []) [
  | err e ↦ (m, some e)
  | ok (defs, states) ↦ (
    record m {
      definitions = defs;
      declarations = declarations;
      states = states;
      timers = [];
      active = false;
    },
    none,
  )
]
