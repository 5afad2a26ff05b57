-- ===== src/Rules/Held.antt =====
-- What the state of a rule remembers of its evaluations (rules/manager.go).
use veduta.Prelude.{
  ◌+◌, ◌≡◌, refl, sym, ap, ◌∙◌, ◌≢◌, ◌⊎◌, inl, inr, Bool, true, false, Option, List, [], ◌∷◌, ◌++◌,
  arith, All, ◌==◌, if◌then◌else◌, String,
}
use veduta.Cards.CardState.{Time}
use veduta.Rules.Evaluator.{Verdict, is_true, is_false, is_unknown, Evaluation}
use veduta.Rules.Transition.{
  Rule, RuleState, RuleEvent, note_types, when_true, when_false, by_result, advance,
}

-- The evaluations of one rule, oldest first: their times and what they found.
abbrev pub Trace : Type 0
Trace = List (Time × Evaluation)

-- The state after a trace, and the events on the way.
unfoldable pub advance_all : Rule → Bool → Trace → RuleState → RuleState × List (Option RuleEvent)
advance_all d sink [] s = (s, [])
advance_all d sink ((now, ev) ∷ t) s =
    let (last, es) = advance_all d sink t (advance d sink now ev s).state in
    (last, (advance d sink now ev s).event ∷ es)

-- The start of the true results that stand at the end of a trace; 0 where the last is not true.
unfoldable pub held_since : Trace → Time → Time
held_since [] since = since
held_since ((now, ev) ∷ t) since = elim (ev.result) [
  | is_true ↦ held_since t (if since == 0 then now else since)
  | is_false ↦ held_since t 0
  | is_unknown ↦ held_since t 0
]

abbrev pub Held : Rule → RuleState → Type 0
Held d s = s.since ≢ 0 → s.deadline ≡ s.since + d.hold

-- The start of the true results after one more evaluation.
abbrev pub since_after : Verdict → Time → Time → Time
since_after is_true now since = if since == 0 then now else since
since_after is_false now since = 0
since_after is_unknown now since = 0

pub note_types-since :
    (ws : List (String × String)) (s : RuleState)
    → ((note_types ws s).0.since ≡ s.since)
      × ((note_types ws s).0.deadline ≡ s.deadline)
      × ((note_types ws s).0.fired_at ≡ s.fired_at)
unfolding note_types
note_types-since [] s = (refl, refl, refl)
note_types-since (w ∷ ws) s = ground arith

by_result-since :
    (v : Verdict) (d : Rule) (sink : Bool) (now : Time) (s : RuleState) (e : Option RuleEvent)
    → (by_result v d sink now (s, e)).state.since ≡ since_after v now s.since
unfolding by_result when_true when_false
by_result-since is_true d sink now s e = ground arith
by_result-since is_false d sink now s e = ground arith
by_result-since is_unknown d sink now s e = refl

by_result-Held :
    (v : Verdict) (d : Rule) (sink : Bool) (now : Time) (s : RuleState) (e : Option RuleEvent)
    → Held d s
    → Held d (by_result v d sink now (s, e)).state
unfolding by_result when_true when_false
by_result-Held is_true d sink now s e h = ground arith
by_result-Held is_false d sink now s e h = ground arith
by_result-Held is_unknown d sink now s e h = ground arith

pub advance-since :
    (d : Rule) (sink : Bool) (now : Time) (ev : Evaluation) (s : RuleState)
    → (advance d sink now ev s).state.since ≡ since_after ev.result now s.since
unfolding advance
advance-since d sink now ev s =
    by_result-since ev.result d sink now _ _
    ∙ ap (since_after ev.result now) (note_types-since ev.wrong_types s).0

pub advance-Held :
    (d : Rule) (sink : Bool) (now : Time) (ev : Evaluation) (s : RuleState)
    → Held d s
    → Held d (advance d sink now ev s).state
unfolding advance
advance-Held d sink now ev s h =
    let (a, b, _) = note_types-since ev.wrong_types s in
    by_result-Held ev.result d sink now _ _
      (λ n. b ∙ h (λ z. n (a ∙ z)) ∙ ap (λ k. k + d.hold) (sym a))

pub advance_all-Held :
    (d : Rule) (sink : Bool) (t : Trace) (s : RuleState)
    → Held d s
    → Held d (advance_all d sink t s).0
unfolding advance_all
advance_all-Held d sink [] s h = h
advance_all-Held d sink ((now, ev) ∷ t) s h =
    advance_all-Held d sink t _ (advance-Held d sink now ev s h)

pub held_since-step :
    (now : Time) (ev : Evaluation) (t : Trace) (a : Time)
    → held_since ((now, ev) ∷ t) a ≡ held_since t (since_after ev.result now a)
unfolding held_since
held_since-step now ev t a = by_verdict ev.result
  where
    by_verdict :
        (v : Verdict)
        → elim v as (λ _. Time) [
          | is_true ↦ held_since t (if a == 0 then now else a)
          | is_false ↦ held_since t 0
          | is_unknown ↦ held_since t 0
        ]
          ≡ held_since t (since_after v now a)
    by_verdict is_true = refl
    by_verdict is_false = refl
    by_verdict is_unknown = refl

-- The state remembers the start of the true results.
pub advance_all-since :
    (d : Rule) (sink : Bool) (t : Trace) (s : RuleState)
    → (advance_all d sink t s).0.since ≡ held_since t s.since
unfolding advance_all held_since
advance_all-since d sink [] s = refl
advance_all-since d sink ((now, ev) ∷ t) s =
    advance_all-since d sink t _
    ∙ ap (held_since t) (advance-since d sink now ev s)
    ∙ sym (held_since-step now ev t s.since)

abbrev pub AllTrue : Trace → Type 0
AllTrue t = All (λ p. p.1.result ≡ is_true) t

-- A trace that ends in a stretch of true results, from its start on.
pub record Stretch (t : Trace) (start : Time) : Type 0 where
  pub before : Trace
  pub first : Evaluation
  pub during : Trace
  pub cut : t ≡ before ++ ((start, first) ∷ during)
  pub first_true : first.result ≡ is_true
  pub all_true : AllTrue during

Stretch-later :
    {t : Trace} {start : Time} (x : Time × Evaluation) → Stretch t start → Stretch (x ∷ t) start
Stretch-later x k = record {
  before = x ∷ k.before;
  first = k.first;
  during = k.during;
  cut = ap (λ r. x ∷ r) k.cut;
  first_true = k.first_true;
  all_true = k.all_true;
}

pub held_since-Stretch :
    (t : Trace) (a h : Time) → held_since t a ≡ h → h ≢ 0 → ((h ≡ a) × AllTrue t) ⊎ Stretch t h
unfolding held_since
held_since-Stretch [] a h e n = inl (sym e, tt)
held_since-Stretch ((now, ev) ∷ t) a h e n =
    by_verdict ev.result refl (
      held_since-Stretch t (since_after ev.result now a) h (sym (held_since-step now ev t a) ∙ e) n)
  where
    from_now :
        (z : Bool)
        → (h ≡ (if z then now else a)) × AllTrue t
        → ev.result ≡ is_true
        → ((h ≡ a) × AllTrue ((now, ev) ∷ t)) ⊎ Stretch ((now, ev) ∷ t) h
    from_now true (q, all) v = inr (record {
      before = [];
      first = ev;
      during = t;
      cut = ap (λ k. (k, ev) ∷ t) (sym q);
      first_true = v;
      all_true = all;
    })
    from_now false (q, all) v = inl (q, (v, all))

    by_verdict :
        (v : Verdict)
        → ev.result ≡ v
        → ((h ≡ since_after v now a) × AllTrue t) ⊎ Stretch t h
        → ((h ≡ a) × AllTrue ((now, ev) ∷ t)) ⊎ Stretch ((now, ev) ∷ t) h
    by_verdict v e (inr k) = inr (Stretch-later (now, ev) k)
    by_verdict is_true e (inl (q, all)) = from_now (a == 0) (q, all) e
    by_verdict is_false e (inl (q, all)) = absurd (n q)
    by_verdict is_unknown e (inl (q, all)) = absurd (n q)
