-- ===== src/Examples/Alerts.antt =====
-- Runs of rules: a predicate over two signals, and a rule that holds for a minute.
use veduta.Prelude.{
  ℕ, ◌==◌, ◌≡◌, refl, ◌≢◌, ◌↔◌, ◌≤◌, ◌+◌, ◌++◌, Bool, true, false, none, some, List, [], ◌∷◌, ok,
  if◌then◌else◌, String, arith, All, lookup,
}
use veduta.Cards.Document.{Scalar, number, text, boolean}
use veduta.Cards.CardState.{CardState, okay, blank, pending_card}
use veduta.Rules.Evaluator.{
  Verdict, is_true, is_false, is_unknown, CardDefinition, Program, ends, signal, Evaluation,
  evaluate,
}
use veduta.Rules.Fresh.{FreshRun, evaluate_iff}
use veduta.Rules.Transition.{
  note_types, by_result, when_true, when_false, Rule, RuleState, fired, advance, fresh_state,
}
use veduta.Rules.Held.{Trace, advance_all, Held, Stretch}
use veduta.Rules.Debounce.{advance-Stretch, advance_all-once, advance_all-fires}

-- Whether a signal is the number 7.
abbrev is_seven : Scalar → Bool
is_seven (number n) = n == 7
is_seven _ = false

abbrev seven : Program
seven = signal "cpu" "load" (λ v. ends (ok (boolean (is_seven v))))

abbrev cards : List (String × CardState)
cards =
    (
      "cpu",
      record (pending_card "cpu") {
        document = some (record {
          blocks = [];
          signals = ("load", number 7) ∷ ("host", text "a") ∷ [];
          ttl_seconds = 0;
        });
        execution = blank okay;
      },
    )
    ∷ []

abbrev declared : List (String × CardDefinition)
declared =
    ("cpu", record { hash = "h"; signals = ("load", "number") ∷ ("host", "number") ∷ [] }) ∷ []

wrong_type_is_unknown :
    evaluate (signal "cpu" "host" (λ v. ends (ok (boolean true)))) cards declared
    ≡ ok (record { result = is_unknown; wrong_types = ("cpu", "host") ∷ [] })
unfolding evaluate lookup pending_card
wrong_type_is_unknown = refl

seven_found : evaluate seven cards declared ≡ ok (record { result = is_true; wrong_types = [] })
unfolding evaluate lookup pending_card
seven_found = refl

evaluate_iff_example :
    (evaluate seven cards declared
      ≡ ok (record { result = if true then is_true else is_false; wrong_types = [] }))
    ↔ FreshRun cards declared seven (ok (boolean true))
evaluate_iff_example = evaluate_iff seven cards declared true

abbrev rule : Rule
rule = record {
  id = "hot";
  hash = "r";
  hold = 60;
  severity = "warning";
  notify = "mail" ∷ [];
  resolve = true;
  program = seven;
}

abbrev found : Verdict → Evaluation
found v = record { result = v; wrong_types = [] }

-- An interruption at 40 starts the hold again, so that 70 does not fire and 110 does.
abbrev trace : Trace
trace =
    (10, found is_true) ∷ (40, found is_unknown) ∷ (50, found is_true) ∷ (70, found is_true) ∷ []

not_at_70 : (advance_all rule true trace (fresh_state rule)).1 ≡ none ∷ none ∷ none ∷ none ∷ []
unfolding advance_all advance note_types by_result when_true when_false
not_at_70 = refl

at_110 :
    (advance rule true 110 (found is_true) (advance_all rule true trace (fresh_state rule)).0).event
    ≡ some fired
unfolding advance_all advance note_types by_result when_true when_false
at_110 = refl

advance-Stretch_example :
    (start : ℕ) × Stretch (trace ++ ((110, found is_true) ∷ [])) start × (start + 60 ≤ 110)
advance-Stretch_example = advance-Stretch rule true trace 110 (found is_true) (omega arith) at_110

abbrev burning : RuleState
burning = record (fresh_state rule) { since = 10; deadline = 70; fired_at = 70 }

burning-Held : Held rule burning
burning-Held n = refl

advance_all-once_example :
    All
      (λ e. e ≢ some fired)
      (advance_all rule true ((80, found is_unknown) ∷ (90, found is_true) ∷ []) burning).1
advance_all-once_example =
    advance_all-once rule true ((80, found is_unknown) ∷ (90, found is_true) ∷ []) burning
      burning-Held (λ e. omega arith) ((λ e. cc), ((λ e. cc), tt))

advance_all-fires_example :
    (advance_all rule true
      ((5, found is_true) ∷ (((20, found is_true) ∷ []) ++ ((65, found is_true) ∷ [])))
      (fresh_state rule)).0.fired_at
    ≢ 0
advance_all-fires_example =
    advance_all-fires rule true (fresh_state rule) 5 65 (found is_true) (found is_true)
      ((20, found is_true) ∷ []) refl (omega arith) refl (refl, tt) refl (omega arith)
