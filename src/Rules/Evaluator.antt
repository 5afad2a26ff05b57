-- ===== src/Rules/Evaluator.antt =====
-- rules/evaluator.go: `Evaluate`, over any program of the expression library.
use veduta.Prelude.{
  Bool, true, false, not, Option, none, some, List, [], ◌∷◌, ◌++◌, Result, ok, err, if◌then◌else◌,
  String, str_eq, lookup,
}
use veduta.Cards.Document.{Document, Scalar, number, text, boolean, null}
use veduta.Cards.CardState.{CardState, ExecutionState, pending, okay}

pub data Verdict : Type 0 where
  is_true is_false is_unknown : Verdict

-- `CardDefinition`: the declared types of the signals of a card, by name.
pub record CardDefinition : Type 0 where
  pub hash : String
  pub signals : List (String × String)

-- A compiled predicate as the evaluation sees it: it calls `signal` and `state`, each call after
-- the answers so far, and ends with a value or an error of the expression library.
pub data Program : Type 0 where
  ends : Result String Scalar → Program
  signal : String → String → (Scalar → Program) → Program
  state : String → (ExecutionState → Program) → Program

-- What a call of `signal` finds: a value, none, or one of another type with the zero that is returned.
pub data Observation : Type 0 where
  fresh : Scalar → Observation
  absent : Observation
  wrong_type : Scalar → Observation

abbrev pub zero_number : Scalar
zero_number = number 0

unfoldable pub typed : String → Scalar → Observation
typed declared null = absent
typed declared (number n) =
    if str_eq declared "number"
    then fresh (number n)
    else if str_eq declared "string"
    then wrong_type (text "")
    else if str_eq declared "boolean"
    then wrong_type (boolean false)
    else absent
typed declared (text s) =
    if str_eq declared "number"
    then wrong_type zero_number
    else if str_eq declared "string"
    then fresh (text s)
    else if str_eq declared "boolean"
    then wrong_type (boolean false)
    else absent
typed declared (boolean b) =
    if str_eq declared "number"
    then wrong_type zero_number
    else if str_eq declared "string"
    then wrong_type (text "")
    else if str_eq declared "boolean"
    then fresh (boolean b)
    else absent

abbrev pub declared_type : Option CardDefinition → String → String
declared_type none name = ""
declared_type (some d) name = elim (lookup name d.signals) [ none ↦ "" | some t ↦ t ]

abbrev pub is_okay : ExecutionState → Bool
is_okay okay = true
is_okay _ = false

abbrev pub read_signal : String → String → Option Document → Observation
read_signal declared name none = absent
read_signal declared name (some doc) = elim (lookup name doc.signals) [
  | none ↦ absent
  | some v ↦ typed declared v
]

-- The function `signal` of the environment: only a card that is okay, with a document, is read.
unfoldable pub observe :
    List (String × CardState) → List (String × CardDefinition) → String → String → Observation
unfolding typed
observe cards declarations card_id name = elim (lookup card_id cards) [
  | none ↦ absent
  | some card ↦
      if not (is_okay card.execution.state)
      then absent
      else read_signal (declared_type (lookup card_id declarations) name) name card.document
]

-- The function `state` of the environment.
unfoldable pub state_of : List (String × CardState) → String → ExecutionState
state_of cards card_id = elim (lookup card_id cards) [
  | none ↦ pending
  | some card ↦ card.execution.state
]

-- `unknown` and `wrongTypes`, as the calls leave them.
pub record Notes : Type 0 where
  pub unknown : Bool
  pub wrong_types : List (String × String)

abbrev pub answer : Observation → Scalar
answer (fresh v) = v
answer absent = zero_number
answer (wrong_type v) = v

abbrev pub note : String → String → Observation → Notes → Notes
note card_id name (fresh v) n = n
note card_id name absent n = record n { unknown = true }
note card_id name (wrong_type v) n = record {
  unknown = true;
  wrong_types = n.wrong_types ++ ((card_id, name) ∷ []);
}

-- `expr.Run`, with the environment's functions called where the predicate calls them.
unfoldable pub run :
    List (String × CardState)
    → List (String × CardDefinition)
    → Program
    → Notes
    → Notes × Result String Scalar
run cards declarations (ends r) n = (n, r)
run cards declarations (signal card_id name k) n =
    run cards declarations (k (answer (observe cards declarations card_id name)))
      (note card_id name (observe cards declarations card_id name) n)
run cards declarations (state card_id k) n = run cards declarations (k (state_of cards card_id)) n

pub record Evaluation : Type 0 where
  pub result : Verdict
  pub wrong_types : List (String × String)

pub data EvaluationError : Type 0 where
  run_failed : String → EvaluationError
  not_bool : EvaluationError

abbrev pub verdict_of : Result String Scalar → Result EvaluationError Evaluation
verdict_of (err e) = err (run_failed e)
verdict_of (ok (boolean true)) = ok (record { result = is_true; wrong_types = [] })
verdict_of (ok (boolean false)) = ok (record { result = is_false; wrong_types = [] })
verdict_of (ok _) = err not_bool

abbrev pub judge : Notes × Result String Scalar → Result EvaluationError Evaluation
judge (n, r) =
    if n.unknown
    then ok (record { result = is_unknown; wrong_types = n.wrong_types })
    else verdict_of r

-- `Evaluate`.
unfoldable pub evaluate :
    Program
    → List (String × CardState)
    → List (String × CardDefinition)
    → Result EvaluationError Evaluation
unfolding run observe state_of
evaluate program cards declarations =
    judge (run cards declarations program (record { unknown = false; wrong_types = [] }))
