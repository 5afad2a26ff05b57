-- ===== src/Rules/Signals.antt =====
-- The signals that a rule may rest on (rules/evaluator.go).
use veduta.Prelude.{
  ◌≡◌, refl, sym, ap, ◌∙◌, ◌↔◌, inl, inr, true, Option, none, some, List, Bool-cases, Option-cases,
  String, str_eq, eq_iff, lookup,
}
use veduta.Cards.Document.{Document, Scalar, number, text, boolean, null}
use veduta.Cards.CardState.{CardState, ExecutionState, pending, okay, stale, failed, disabled}
use veduta.Rules.Evaluator.{
  CardDefinition, fresh, typed, declared_type, is_okay, read_signal, observe,
}

-- The name of the type of a value; null has none.
abbrev pub type_of : Scalar → Option String
type_of (number n) = some "number"
type_of (text s) = some "string"
type_of (boolean b) = some "boolean"
type_of null = none

-- A signal that a rule may rest on: its card is okay and has a document, which has the signal
-- with a value of the type that the card declares.
pub record Fresh (cards : List (String × CardState)) (declarations : List (String × CardDefinition))
    (card_id name : String) (v : Scalar) : Type 0 where
  pub card : CardState
  pub card_there : lookup card_id cards ≡ some card
  pub card_okay : card.execution.state ≡ okay
  pub doc : Document
  pub has_document : card.document ≡ some doc
  pub signal_there : lookup name doc.signals ≡ some v
  pub well_typed : type_of v ≡ some (declared_type (lookup card_id declarations) name)

typed_fresh : (d : String) (v w : Scalar) → typed d v ≡ fresh w → (v ≡ w) × (type_of v ≡ some d)
unfolding typed
typed_fresh d null w h = cc
typed_fresh d (number n) w h = elim (Bool-cases (str_eq d "number")) [
  | inl same ↦ (cc (rw same at h), ap some (sym ((eq_iff d "number").0 same)))
  | inr other ↦ elim (Bool-cases (str_eq d "string")) [
    | inl a ↦ cc (rw (other, a) at h)
    | inr a ↦ elim (Bool-cases (str_eq d "boolean")) [
      | inl b ↦ cc (rw (other, a, b) at h)
      | inr b ↦ cc (rw (other, a, b) at h)
    ]
  ]
]
typed_fresh d (text s) w h = elim (Bool-cases (str_eq d "number")) [
  | inl a ↦ cc (rw a at h)
  | inr a ↦ elim (Bool-cases (str_eq d "string")) [
    | inl same ↦ (cc (rw (a, same) at h), ap some (sym ((eq_iff d "string").0 same)))
    | inr b ↦ elim (Bool-cases (str_eq d "boolean")) [
      | inl c ↦ cc (rw (a, b, c) at h)
      | inr c ↦ cc (rw (a, b, c) at h)
    ]
  ]
]
typed_fresh d (boolean t) w h = elim (Bool-cases (str_eq d "number")) [
  | inl a ↦ cc (rw a at h)
  | inr a ↦ elim (Bool-cases (str_eq d "string")) [
    | inl b ↦ cc (rw (a, b) at h)
    | inr b ↦ elim (Bool-cases (str_eq d "boolean")) [
      | inl same ↦ (cc (rw (a, b, same) at h), ap some (sym ((eq_iff d "boolean").0 same)))
      | inr c ↦ cc (rw (a, b, c) at h)
    ]
  ]
]

typed_of_type : (d : String) (v : Scalar) → type_of v ≡ some d → typed d v ≡ fresh v
unfolding typed
typed_of_type d (number n) h = let e : "number" ≡ d = cc h in rw (← e) refl
typed_of_type d (text s) h = let e : "string" ≡ d = cc h in rw (← e) refl
typed_of_type d (boolean b) h = let e : "boolean" ≡ d = cc h in rw (← e) refl
typed_of_type d null h = cc h

is_okay-inv : (s : ExecutionState) → is_okay s ≡ true → s ≡ okay
is_okay-inv okay h = refl
is_okay-inv pending h = cc
is_okay-inv stale h = cc
is_okay-inv failed h = cc
is_okay-inv disabled h = cc

read_signal-inv :
    (d name : String) (o : Option Document) (v : Scalar)
    → read_signal d name o ≡ fresh v
    → (doc : Document) × (o ≡ some doc) × (lookup name doc.signals ≡ some v) × (type_of v ≡ some d)
read_signal-inv d name none v h = cc
read_signal-inv d name (some doc) v h = elim (Option-cases (lookup name doc.signals)) [
  | inl missing ↦ cc (rw (missing, read_signal) at h)
  | inr (w, there) ↦
      let (e, t) = typed_fresh d w v (rw (there, read_signal) at h) in
      (doc, refl, there ∙ ap some e, rw e at t)
]

observe_sound :
    (cards : List (String × CardState)) (decls : List (String × CardDefinition)) (c name : String)
    (v : Scalar)
    → observe cards decls c name ≡ fresh v
    → Fresh cards decls c name v
unfolding observe
observe_sound cards decls c name v h = elim (Option-cases (lookup c cards)) [
  | inl missing ↦ cc (rw (missing, observe) at h)
  | inr (card, there) ↦ elim (Bool-cases (is_okay card.execution.state)) [
    | inr ill ↦ cc (rw (there, observe, ill) at h)
    | inl well ↦
        let (doc, has, value, t) =
          read_signal-inv (declared_type (lookup c decls) name) name card.document v
            (rw (there, observe, well) at h) in
        record {
          card = card;
          card_there = there;
          card_okay = is_okay-inv card.execution.state well;
          doc = doc;
          has_document = has;
          signal_there = value;
          well_typed = t;
        }
  ]
]

observe_complete :
    (cards : List (String × CardState)) (decls : List (String × CardDefinition)) (c name : String)
    (v : Scalar)
    → Fresh cards decls c name v
    → observe cards decls c name ≡ fresh v
unfolding observe
observe_complete cards decls c name v k =
    rw (k.card_there, observe, k.card_okay, k.has_document, k.signal_there, read_signal)
      (typed_of_type (declared_type (lookup c decls) name) v k.well_typed)

-- `signal` finds exactly the fresh values.
pub observe_iff :
    (cards : List (String × CardState)) (decls : List (String × CardDefinition)) (c name : String)
    (v : Scalar)
    → (observe cards decls c name ≡ fresh v) ↔ Fresh cards decls c name v
observe_iff cards decls c name v =
    (observe_sound cards decls c name v, observe_complete cards decls c name v)
