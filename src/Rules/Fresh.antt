-- ===== src/Rules/Fresh.antt =====
-- What an evaluation of rules/evaluator.go rests on.
use veduta.Prelude.{
  ◌≡◌, refl, ap, ◌≢◌, ◌↔◌, inl, inr, Bool, true, false, List, [], Result, ok, err, if◌then◌else◌,
  Bool-cases, String,
}
use veduta.Cards.Document.{Scalar, boolean, number, text, null}
use veduta.Cards.CardState.{CardState, ExecutionState}
use veduta.Rules.Signals.{Fresh, observe_iff}
use veduta.Rules.Evaluator.{
  Verdict, is_true, is_false, is_unknown, CardDefinition, Program, ends, signal, state, Observation,
  fresh, absent, wrong_type, observe, state_of, Notes, answer, note, run, Evaluation,
  EvaluationError, evaluate, judge, verdict_of,
}

-- A run of a predicate in which each signal that it asks for is there and of its declared type.
pub data FreshRun (cards : List (String × CardState))
    (declarations : List (String × CardDefinition)) : Program → Result String Scalar → Type 0 where
  finished : {r : Result String Scalar} → FreshRun cards declarations (ends r) r
  observed :
      {card_id name : String} {k : Scalar → Program} {v : Scalar} {r : Result String Scalar}
      → Fresh cards declarations card_id name v
      → FreshRun cards declarations (k v) r
      → FreshRun cards declarations (signal card_id name k) r
  asked :
      {card_id : String} {k : ExecutionState → Program} {r : Result String Scalar}
      → FreshRun cards declarations (k (state_of cards card_id)) r
      → FreshRun cards declarations (state card_id k) r

abbrev clean : Notes
clean = record { unknown = false; wrong_types = [] }

-- A run that has met an unknown signal stays unknown.
run-unknown :
    (cards : List (String × CardState)) (decls : List (String × CardDefinition)) (p : Program)
    (n : Notes)
    → n.unknown ≡ true
    → (run cards decls p n).0.unknown ≡ true
unfolding run
run-unknown cards decls (ends r) n h = h
run-unknown cards decls (signal c name k) n h =
    run-unknown cards decls (k (answer (observe cards decls c name)))
      (note c name (observe cards decls c name) n) (noted (observe cards decls c name))
  where
    noted : (o : Observation) → (note c name o n).unknown ≡ true
    noted (fresh v) = h
    noted absent = refl
    noted (wrong_type v) = refl
run-unknown cards decls (state c k) n h = run-unknown cards decls (k (state_of cards c)) n h

run_fresh :
    (cards : List (String × CardState)) (decls : List (String × CardDefinition)) (p : Program)
    → (run cards decls p clean).0.unknown ≡ false
    → FreshRun cards decls p (run cards decls p clean).1
unfolding run
run_fresh cards decls (ends r) h = finished
run_fresh cards decls (signal c name k) h =
    by_observation (λ v. run_fresh cards decls (k v)) (observe cards decls c name) refl h
  where
    by_observation :
        ((v : Scalar)
          → (run cards decls (k v) clean).0.unknown ≡ false
          → FreshRun cards decls (k v) (run cards decls (k v) clean).1)
        → (o : Observation) → observe cards decls c name ≡ o
        → (run cards decls (k (answer o)) (note c name o clean)).0.unknown ≡ false
        → FreshRun cards decls
            (signal c name k)
            (run cards decls (k (answer o)) (note c name o clean)).1
    by_observation rest (fresh v) e u = observed ((observe_iff cards decls c name v).0 e) (rest v u)
    by_observation rest absent e u =
        let t = run-unknown cards decls (k (answer absent)) (note c name absent clean) refl in cc
    by_observation rest (wrong_type v) e u =
        let t = run-unknown cards decls (k v) (note c name (wrong_type v) clean) refl in cc
run_fresh cards decls (state c k) h = asked (run_fresh cards decls (k (state_of cards c)) h)

fresh_run :
    (cards : List (String × CardState)) (decls : List (String × CardDefinition)) (p : Program)
    {r : Result String Scalar}
    → FreshRun cards decls p r
    → run cards decls p clean ≡ (clean, r)
unfolding run
fresh_run cards decls (ends r) finished = refl
fresh_run cards decls (signal c name k) (observed e f) =
    rw ((observe_iff cards decls c name _).1 e) (fresh_run cards decls _ f)
fresh_run cards decls (state c k) (asked f) = fresh_run cards decls _ f

judge_true :
    (n : Notes) (r : Result String Scalar) (b : Bool) (ws : List (String × String))
    → judge (n, r) ≡ ok (record { result = if b then is_true else is_false; wrong_types = ws })
    → (n.unknown ≡ false) × (r ≡ ok (boolean b))
judge_true n r b ws h = elim (Bool-cases n.unknown) [
  | inl lost ↦ absurd (unknown_verdict b (ap verdict (rw lost at h)))
  | inr known ↦ (known, verdict_bool r b ws (rw known at h))
]
  where
    verdict : Result EvaluationError Evaluation → Verdict
    verdict (ok e) = e.result
    verdict (err e) = is_unknown

    unknown_verdict : (c : Bool) → is_unknown ≢ (if c then is_true else is_false)
    unknown_verdict true e = cc
    unknown_verdict false e = cc

    verdict_bool :
        (q : Result String Scalar) (c : Bool) (us : List (String × String))
        → verdict_of q ≡ ok (record { result = if c then is_true else is_false; wrong_types = us })
        → q ≡ ok (boolean c)
    verdict_bool (ok (boolean true)) true us e = refl
    verdict_bool (ok (boolean false)) false us e = refl
    verdict_bool (ok (boolean true)) false us e = cc (ap verdict e)
    verdict_bool (ok (boolean false)) true us e = cc (ap verdict e)
    verdict_bool (ok (number n)) c us e = cc
    verdict_bool (ok (text t)) c us e = cc
    verdict_bool (ok null) c us e = cc
    verdict_bool (err x) c us e = cc

-- A predicate is found true, or false, exactly when it comes out so in a run in which every signal
-- that it asks for is there, on a card that is okay, and of its declared type.
pub evaluate_iff :
    (p : Program) (cards : List (String × CardState)) (decls : List (String × CardDefinition))
    (b : Bool)
    → (evaluate p cards decls
        ≡ ok (record { result = if b then is_true else is_false; wrong_types = [] }))
      ↔ FreshRun cards decls p (ok (boolean b))
unfolding evaluate
evaluate_iff p cards decls b = (
  λ h.
      let (u, e) = judge_true (run cards decls p clean).0 (run cards decls p clean).1 b [] h in
      rw e at (run_fresh cards decls p u),
  λ f. rw (fresh_run cards decls p f) (said b),
)
  where
    said :
        (c : Bool)
        → judge (clean, ok (boolean c))
          ≡ ok (record { result = if c then is_true else is_false; wrong_types = [] })
    said true = refl
    said false = refl
