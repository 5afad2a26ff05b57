-- ===== src/Cards/Valid.antt =====
-- Every constructor of state/cardstate.go gives a state that its validation accepts.
use veduta.Prelude.{
  ℕ, ◌/◌, ◌≤◌, ◌<◌, ◌≡◌, refl, true, false, Option, List, arith, ◌==◌, refuse-inv, String,
}
use veduta.Cards.Document.{Document, second}
use veduta.Cards.CardState.{
  Time, DisabledReason, Source, RunError, CardState, pending_card, ok_card, stale_card,
  stale_after_error, stale_after_error_with_open_circuit, error_card, error_with_open_circuit,
  disabled_card, validate_history, validate,
}

-- A history within the bounds of a card state.
abbrev pub Fits : List (String × ℕ) → Type 0
Fits h = validate_history h ≡ true

pub pending_card-valid : (id : String) → validate (pending_card id) ≡ true
unfolding validate pending_card
pending_card-valid id = refl

pub disabled_card-valid :
    (id : String) (doc : Option Document) (r : DisabledReason)
    → validate (disabled_card id doc r) ≡ true
unfolding validate disabled_card
disabled_card-valid id doc r = refl

pub ok_card-valid :
    (now : Time) (id : String) (doc : Document) (src : Source) (ttl took : ℕ)
    (h : List (String × ℕ))
    → second ≤ ttl
    → Fits h
    → validate (record (ok_card now id doc src ttl took) { history = h }) ≡ true
unfolding validate ok_card
ok_card-valid now id doc src ttl took h s f =
    let whole : (ttl / second == 0) ≡ false = ground arith in rw (whole, f)

pub stale_card-valid :
    (id : String) (doc : Document) (src : Source) (g s : Time) (n : ℕ) (next : Time)
    → validate (stale_card id doc src g s n next) ≡ true
unfolding validate stale_card
stale_card-valid id doc src g s n next = refl

pub stale_after_error-valid :
    (now : Time) (id : String) (doc : Document) (src : Source) (g s : Time) (n : ℕ) (next : Time)
    (e : RunError) (h : List (String × ℕ))
    → Fits h
    → validate (record (stale_after_error now id doc src g s n next e) { history = h }) ≡ true
unfolding validate stale_after_error
stale_after_error-valid now id doc src g s n next e h f = rw f

pub stale_open-valid :
    (now : Time) (id : String) (doc : Document) (src : Source) (g s : Time) (n : ℕ) (next : Time)
    (e : RunError) (h : List (String × ℕ))
    → 0 < next
    → Fits h
    → validate
        (record (stale_after_error_with_open_circuit now id doc src g s n next e) { history = h })
      ≡ true
unfolding validate stale_after_error_with_open_circuit
stale_open-valid now id doc src g s n next e h p f =
    let later : (next == 0) ≡ false = ground arith in rw (later, f)

pub error_card-valid :
    (now : Time) (id : String) (src : Source) (e : RunError)
    → validate (error_card now id src e) ≡ true
unfolding validate error_card
error_card-valid now id src e = refl

pub error_open-valid :
    (now : Time) (id : String) (src : Source) (e : RunError) (next : Time)
    → validate (error_with_open_circuit now id src e next) ≡ true
unfolding validate error_with_open_circuit
error_open-valid now id src e next = refl

-- A valid state has a history within its bounds.
pub validate-Fits : (c : CardState) → validate c ≡ true → Fits c.history
unfolding validate
validate-Fits c h = let (a, k) = refuse-inv _ _ h in let (b, l) = refuse-inv _ _ k in l
