-- ===== src/Rules/Debounce.antt =====
-- The debounce of rules/manager.go: when a rule fires, and how often.
use veduta.Prelude.{
  ◌+◌, ◌≤◌, ◌<◌, ◌≡◌, refl, sym, ap, ◌∙◌, ◌≢◌, inl, inr, Bool, Option, some, List, [], ◌∷◌, ◌++◌,
  arith, All, String,
}
use veduta.Cards.CardState.{Time}
use veduta.Rules.Evaluator.{Verdict, is_true, is_false, is_unknown, Evaluation}
use veduta.Rules.Transition.{
  Rule, RuleState, RuleEvent, fired, note_types, when_true, when_false, by_result, advance,
  fresh_state,
}
use veduta.Rules.Held.{
  Trace, AllTrue, advance_all, held_since, Held, since_after, note_types-since, advance-Held,
  advance_all-Held, held_since-step, advance_all-since, Stretch, held_since-Stretch,
}

note_types-ne-fired :
    (ws : List (String × String)) (s : RuleState) → (note_types ws s).1 ≢ some fired
unfolding note_types
note_types-ne-fired [] s e = cc
note_types-ne-fired (w ∷ ws) s e = ground arith

when_true-fired :
    (d : Rule) (sink : Bool) (now : Time) (r : RuleState) (x : Option RuleEvent)
    → Held d r
    → x ≢ some fired
    → (when_true d sink now r x).event ≡ some fired
    → (r.fired_at ≡ 0) × (since_after is_true now r.since + d.hold ≤ now)
unfolding when_true
when_true-fired d sink now r x h nf q = ground arith

when_false-ne-fired :
    (d : Rule) (sink : Bool) (now : Time) (r : RuleState) (x : Option RuleEvent)
    → x ≢ some fired
    → (when_false d sink now r x).event ≢ some fired
unfolding when_false
when_false-ne-fired d sink now r x nf q = ground arith

by_result-fired :
    (v : Verdict) (d : Rule) (sink : Bool) (now : Time) (r : RuleState) (x : Option RuleEvent)
    → Held d r
    → x ≢ some fired
    → (by_result v d sink now (r, x)).event ≡ some fired
    → (v ≡ is_true) × (r.fired_at ≡ 0) × (since_after is_true now r.since + d.hold ≤ now)
unfolding by_result
by_result-fired is_true d sink now r x h nf q =
    let (f, w) = when_true-fired d sink now r x h nf q in (refl, f, w)
by_result-fired is_false d sink now r x h nf q = absurd (when_false-ne-fired d sink now r x nf q)
by_result-fired is_unknown d sink now r x h nf q = absurd (nf q)

-- Whether a rule fires on an evaluation.
advance-fired :
    (d : Rule) (sink : Bool) (now : Time) (ev : Evaluation) (s : RuleState)
    → Held d s
    → (advance d sink now ev s).event ≡ some fired
    → (ev.result ≡ is_true) × (s.fired_at ≡ 0) × (since_after is_true now s.since + d.hold ≤ now)
unfolding advance
advance-fired d sink now ev s h e =
    let (a, b, c) = note_types-since ev.wrong_types s in
    let (v, f, w) =
      by_result-fired ev.result d sink now _ _
        (λ n. b ∙ h (λ z. n (a ∙ z)) ∙ ap (λ k. k + d.hold) (sym a))
        (note_types-ne-fired ev.wrong_types s) e in
    (v, sym c ∙ f, rw a at w)

since_append :
    (t : Trace) (now : Time) (ev : Evaluation) (a : Time)
    → held_since (t ++ ((now, ev) ∷ [])) a ≡ since_after ev.result now (held_since t a)
unfolding held_since
since_append [] now ev a = held_since-step now ev [] a
since_append ((u, x) ∷ t) now ev a =
    held_since-step u x (t ++ ((now, ev) ∷ [])) a
    ∙ since_append t now ev (since_after x.result u a)
    ∙ ap (since_after ev.result now) (sym (held_since-step u x t a))

-- A rule that starts without a persisted state fires, at a time that is not zero, only if its
-- predicate was found true at every evaluation of a stretch that reaches up to that time and is
-- at least as long as the rule's hold time.
pub advance-Stretch :
    (d : Rule) (sink : Bool) (t : Trace) (now : Time) (ev : Evaluation)
    → 0 < now
    → (advance d sink now ev (advance_all d sink t (fresh_state d)).0).event ≡ some fired
    → (start : Time) × Stretch (t ++ ((now, ev) ∷ [])) start × (start + d.hold ≤ now)
advance-Stretch d sink t now ev p e =
    let s = (advance_all d sink t (fresh_state d)).0 in
    let (v, f, w) =
      advance-fired d sink now ev s
        (advance_all-Held d sink t (fresh_state d) (λ n. absurd (n refl))) e in
    let same : s.since ≡ held_since t 0 = advance_all-since d sink t (fresh_state d) in
    let whole : held_since (t ++ ((now, ev) ∷ [])) 0 ≡ since_after is_true now (held_since t 0) =
      since_append t now ev 0 ∙ ap (λ k. since_after k now (held_since t 0)) v in
    let positive : since_after is_true now (held_since t 0) ≢ 0 = λ z. ground arith in
    elim (held_since-Stretch (t ++ ((now, ev) ∷ [])) 0 _ whole positive) [
      | inl (z, _) ↦ absurd (positive z)
      | inr k ↦ (since_after is_true now (held_since t 0), k, rw same at w)
    ]

kept_fired :
    (d : Rule) (sink : Bool) (now : Time) (ev : Evaluation) (s : RuleState)
    → s.fired_at ≢ 0
    → ev.result ≢ is_false
    → (advance d sink now ev s).state.fired_at ≢ 0
unfolding advance by_result when_true
kept_fired d sink now ev s n f =
    let (_, _, c) = note_types-since ev.wrong_types s in
    by_verdict ev.result _ _ f (λ z. n (sym c ∙ z))
  where
    by_verdict :
        (v : Verdict) (r : RuleState) (x : Option RuleEvent)
        → v ≢ is_false
        → r.fired_at ≢ 0
        → (by_result v d sink now (r, x)).state.fired_at ≢ 0
    by_verdict is_true r x g m = λ z. ground arith
    by_verdict is_false r x g m = absurd (g refl)
    by_verdict is_unknown r x g m = m

-- A rule that has fired, and whose deadline fits its start, does not fire on any of a sequence of
-- evaluations none of which found its predicate false.
pub advance_all-once :
    (d : Rule) (sink : Bool) (t : Trace) (s : RuleState)
    → Held d s
    → s.fired_at ≢ 0
    → All (λ p. p.1.result ≢ is_false) t
    → All (λ e. e ≢ some fired) (advance_all d sink t s).1
unfolding advance_all
advance_all-once d sink [] s h n f = tt
advance_all-once d sink ((now, ev) ∷ t) s h n f = (
  (λ e. let (_, z, _) = advance-fired d sink now ev s h e in n z),
  advance_all-once d sink t _ (advance-Held d sink now ev s h) (kept_fired d sink now ev s n f.0)
      f.1,
)

advance_all_last :
    (d : Rule) (sink : Bool) (t : Trace) (now : Time) (ev : Evaluation) (s : RuleState)
    → (advance_all d sink (t ++ ((now, ev) ∷ [])) s).0
      ≡ (advance d sink now ev (advance_all d sink t s).0).state
unfolding advance_all
advance_all_last d sink [] now ev s = refl
advance_all_last d sink ((u, x) ∷ t) now ev s =
    advance_all_last d sink t now ev (advance d sink u x s).state

positive_since : (u a : Time) → a ≢ 0 → since_after is_true u a ≡ a
positive_since u a n = ground arith

held_since_true : (t : Trace) (a : Time) → a ≢ 0 → AllTrue t → held_since t a ≡ a
unfolding held_since
held_since_true [] a n h = refl
held_since_true ((u, x) ∷ t) a n h =
    held_since-step u x t a
    ∙ ap (λ k. held_since t (since_after k u a)) h.0
    ∙ ap (held_since t) (positive_since u a n)
    ∙ held_since_true t a n h.1

-- A true result at or behind the deadline leaves a rule that has fired.
true_at_deadline :
    (d : Rule) (sink : Bool) (now : Time) (ev : Evaluation) (s : RuleState)
    → ev.result ≡ is_true
    → 0 < now
    → s.since ≢ 0
    → s.deadline ≤ now
    → (advance d sink now ev s).state.fired_at ≢ 0
unfolding advance by_result when_true
true_at_deadline d sink now ev s v p n l =
    let (a, b, c) = note_types-since ev.wrong_types s in
    rw v (
      fires (note_types ev.wrong_types s).0 (note_types ev.wrong_types s).1 (λ z. n (sym a ∙ z))
        (rw b l))
  where
    fires :
        (r : RuleState) (x : Option RuleEvent)
        → r.since ≢ 0
        → r.deadline ≤ now
        → (by_result is_true d sink now (r, x)).state.fired_at ≢ 0
    fires r x m k = λ z. ground arith

-- A rule without a running hold, whose predicate is found true at a time that is not zero and at every
-- evaluation from then on, has fired by the first of them that is at least the hold time later, when
-- the transition of each of these evaluations is committed.
pub advance_all-fires :
    (d : Rule) (sink : Bool) (s : RuleState) (start now : Time) (first last : Evaluation)
    (during : Trace)
    → s.since ≡ 0
    → 0 < start
    → first.result ≡ is_true
    → AllTrue during
    → last.result ≡ is_true
    → start + d.hold ≤ now
    → (advance_all d sink ((start, first) ∷ (during ++ ((now, last) ∷ []))) s).0.fired_at ≢ 0
unfolding advance_all
advance_all-fires d sink s start now first last during fresh p v all w late =
    let t : Trace = (start, first) ∷ during in
    let r = (advance_all d sink t s).0 in
    let begun : held_since t s.since ≡ start =
      held_since-step start first during s.since
      ∙ ap (λ k. held_since during (since_after k start s.since)) v
      ∙ ap (λ k. held_since during (since_after is_true start k)) fresh
      ∙ held_since_true during start (λ z. ground arith) all in
    let since : r.since ≡ start = advance_all-since d sink t s ∙ begun in
    let open_ : r.since ≢ 0 = λ z. ground arith in
    let deadline : r.deadline ≡ r.since + d.hold =
      advance_all-Held d sink t s (λ n. absurd (n fresh)) open_ in
    let fires =
      true_at_deadline d sink now last r w (omega (arith, p, late)) open_
        (omega (arith, deadline, since, late)) in
    λ z. fires (sym (ap (λ k. k.fired_at) (advance_all_last d sink t now last s)) ∙ z)
