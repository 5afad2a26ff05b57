-- ===== src/Scheduler/Reload.antt =====
-- What `Apply` of scheduler/scheduler.go leaves behind.
use veduta.Prelude.{
  ℕ, ◌+◌, ◌≤◌, ◌<◌, ◌≡◌, refl, sym, ap, ◌∙◌, inl, inr, Bool, true, false, not, ◌&&◌, Option, none,
  some, List, [], ◌∷◌, arith, Result, ok, err, ◌>>=◌, >>=-eq-ok, ok-injective, ltb, ◌==◌,
  Bool-cases, Option-cases, String, str_eq, lookup, insert, lookup-insert,
}
use veduta.Cards.Document.{Document}
use veduta.Cards.CardState.{
  Time, parse_time, ExecutionState, pending, okay, stale, failed, disabled, Source, CardState,
  pending_card, validate,
}
use veduta.Cards.Valid.{pending_card-valid, stale_card-valid}
use veduta.Scheduler.Manager.{ManagerError, Definition, Manager, is_current}
use veduta.Scheduler.Commits.{AllValid, valid_insert}
use veduta.Scheduler.Apply.{
  Rows, same_record, get_card_for, restore_okay, restore_in, add_pending, install, restored,
  Prepared, with_defaults, leaky, add_restored, prepare, prepare_all, nothing_prepared,
  set_generation, apply,
}

generation_of :
    (n : ℕ) (id : String) (ds : List (String × Definition)) (d : Definition)
    → lookup id (set_generation n ds) ≡ some d
    → d.generation ≡ n
unfolding lookup set_generation
generation_of n id [] d h = cc
generation_of n id ((k, e) ∷ ds) d h = elim (Bool-cases (str_eq k id)) [
  | inl here ↦
      let same : record e { generation = n } ≡ d = cc (rw here at h) in
      ap (λ x. x.generation) (sym same)
  | inr later ↦ generation_of n id ds d (rw later at h)
]

not_current :
    (o : Option Definition) (d : Definition) (n : ℕ)
    → ((e : Definition) → o ≡ some e → e.generation ≡ n)
    → d.generation < n
    → is_current o d ≡ false
not_current none d n h p = refl
not_current (some e) d n h p = let q = h e refl in ground arith

-- Once a configuration is applied, no definition of an earlier generation is current.
pub apply-superseded :
    (leaks : Document → Bool) (now : Time) (defs : List Definition) (m : Manager) (d : Definition)
    → (apply leaks now defs m).1 ≡ none
    → d.generation ≤ m.generation
    → is_current (lookup d.id (apply leaks now defs m).0.defs) d ≡ false
unfolding apply install
apply-superseded leaks now defs m d h p =
    by_result (prepare_all leaks now defs m.store nothing_prepared) h
  where
    by_result :
        (r : Option Rows × Result ManagerError Prepared)
        → (install m r).1 ≡ none
        → is_current (lookup d.id (install m r).0.defs) d ≡ false
    by_result (store, err e) k = cc
    by_result (store, ok q) k =
        not_current _ d (m.generation + 1) (λ e. generation_of (m.generation + 1) d.id q.defs e)
          (omega arith)

abbrev ValidStates : List (String × CardState) → Type 0
ValidStates states =
    (id : String) (cs : CardState) → lookup id states ≡ some cs → validate cs ≡ true

insert-ValidStates :
    (k : String) (cs : CardState) (m : List (String × CardState))
    → validate cs ≡ true
    → ValidStates m
    → ValidStates (insert k cs m)
insert-ValidStates k cs m v w id c h =
    valid_insert k id cs c (lookup id m) v (w id c) (sym (lookup-insert k id cs m) ∙ h)

get_card_for-valid :
    (d : Definition) (rows : Rows) (cs : CardState)
    → (get_card_for d rows).1 ≡ ok (some cs)
    → validate cs ≡ true
unfolding get_card_for
get_card_for-valid d rows cs h = elim (Option-cases (lookup d.id rows)) [
  | inl missing ↦ cc (rw (missing, get_card_for) at h)
  | inr (r, there) ↦ elim (Bool-cases (same_record d r)) [
    | inr other ↦ cc (rw (there, get_card_for, other) at h)
    | inl same ↦ elim (Bool-cases (validate r.state)) [
      | inr invalid ↦ cc (rw (there, get_card_for, same, invalid) at h)
      | inl valid ↦
          let e : some r.state ≡ some cs =
            ok-injective (rw (there, get_card_for, same, valid) at h) in
          let f : r.state ≡ cs = cc e in rw (← f) valid
    ]
  ]
]

restore_okay-valid :
    (now : Time) (src : Source) (cs : CardState) (o : Option Document)
    → validate cs ≡ true
    → validate (restore_okay now src cs o) ≡ true
unfolding restore_okay
restore_okay-valid now src cs none v = v
restore_okay-valid now src cs (some doc) v =
    elim (Bool-cases (
      not (parse_time cs.execution.expires_at == 0)
      && not (ltb now (parse_time cs.execution.expires_at)))) [
        | inl expired ↦ rw expired (stale_card-valid cs.card_id doc src _ _ 0 now)
        | inr lasting ↦ rw lasting v
      ]

restored-valid :
    (now : Time) (src : Source) (cs : CardState)
    → validate cs ≡ true
    → validate (restored now src cs) ≡ true
unfolding restored
restored-valid now src cs v = by_state cs.execution.state
  where
    by_state : (s : ExecutionState) → validate (restore_in now src cs s) ≡ true
    by_state okay = restore_okay-valid now src cs cs.document v
    by_state pending = v
    by_state stale = v
    by_state failed = v
    by_state disabled = v

add_restored-ValidStates :
    (leaks : Document → Bool) (now : Time) (d : Definition) (o : Option CardState) (p : Prepared)
    → ((cs : CardState) → o ≡ some cs → validate cs ≡ true)
    → ValidStates p.states
    → ValidStates (add_restored leaks now d o p).states
unfolding add_restored
add_restored-ValidStates leaks now d none p v w =
    insert-ValidStates d.id (pending_card d.id) p.states (pending_card-valid d.id) w
add_restored-ValidStates leaks now d (some old) p v w =
    elim (Bool-cases (leaky leaks old.document)) [
      | inl leaked ↦
          rw leaked
            (insert-ValidStates d.id (pending_card d.id) p.states (pending_card-valid d.id) w)
      | inr sealed ↦ rw sealed (
          insert-ValidStates d.id (restored now d.source old) p.states
            (restored-valid now d.source old (v old refl)) w)
    ]

prepare-ValidStates :
    (leaks : Document → Bool) (now : Time) (d : Definition) (store : Option Rows) (p q : Prepared)
    → (prepare leaks now d store p).1 ≡ ok q
    → ValidStates p.states
    → ValidStates q.states
unfolding prepare
prepare-ValidStates leaks now d store p q h w = elim (Bool-cases (str_eq d.id "")) [
  | inl unnamed ↦ cc (rw unnamed at h)
  | inr named ↦ elim (Option-cases (lookup d.id p.defs)) [
    | inr (old, twice) ↦ cc (rw (named, twice, prepare) at h)
    | inl once ↦ from_store store (rw (named, once, prepare) at h)
  ]
]
  where
    from_store :
        (o : Option Rows)
        → (elim o as (λ _. Option Rows × Result ManagerError Prepared) [
          | none ↦ (none, ok (add_pending d p))
          | some rows ↦ (
            some (get_card_for d rows).0,
            (get_card_for d rows).1 >>= λ old. ok (add_restored leaks now d old p),
          )
        ]).1
          ≡ ok q
        → ValidStates q.states
    from_store none k =
        rw (← ok-injective k)
          (insert-ValidStates d.id (pending_card d.id) p.states (pending_card-valid d.id) w)
    from_store (some rows) k =
        let (old, f, g) = >>=-eq-ok (get_card_for d rows).1 _ k in
        rw (← ok-injective g) (
          add_restored-ValidStates leaks now d old p
            (λ cs e. get_card_for-valid d rows cs (f ∙ ap ok e)) w)

prepare_all-ValidStates :
    (leaks : Document → Bool) (now : Time) (ds : List Definition) (store : Option Rows)
    (p q : Prepared)
    → (prepare_all leaks now ds store p).1 ≡ ok q
    → ValidStates p.states
    → ValidStates q.states
unfolding prepare_all
prepare_all-ValidStates leaks now [] store p q h w = rw (← ok-injective h) w
prepare_all-ValidStates leaks now (d ∷ ds) store p q h w =
    by_round (λ o r. prepare_all-ValidStates leaks now ds o r q)
      (prepare leaks now (with_defaults d) store p) refl h
  where
    by_round :
        ((o : Option Rows) (r : Prepared)
          → (prepare_all leaks now ds o r).1 ≡ ok q
          → ValidStates r.states
          → ValidStates q.states)
        → (x : Option Rows × Result ManagerError Prepared)
        → prepare leaks now (with_defaults d) store p ≡ x
        → (elim (x.1) as (λ _. Option Rows × Result ManagerError Prepared) [
          | err e ↦ (x.0, err e)
          | ok r ↦ prepare_all leaks now ds x.0 r
        ]).1
          ≡ ok q
        → ValidStates q.states
    by_round rest (o, err e) f k = cc
    by_round rest (o, ok r) f k =
        rest o r k (prepare-ValidStates leaks now (with_defaults d) store p r (ap (λ y. y.1) f) w)

-- Whatever rows the store holds, the states after a configuration is applied or refused are valid
-- if those before were.
pub apply-AllValid :
    (leaks : Document → Bool) (now : Time) (defs : List Definition) (m : Manager)
    → AllValid m
    → AllValid (apply leaks now defs m).0
unfolding apply install lookup
apply-AllValid leaks now defs m v =
    by_result (prepare_all leaks now defs m.store nothing_prepared) refl
  where
    nothing_wrong : ValidStates []
    nothing_wrong id cs h = cc

    by_result :
        (r : Option Rows × Result ManagerError Prepared)
        → prepare_all leaks now defs m.store nothing_prepared ≡ r
        → AllValid (install m r).0
    by_result (store, err e) f = v
    by_result (store, ok q) f =
        prepare_all-ValidStates leaks now defs m.store nothing_prepared q (ap (λ y. y.1) f)
          nothing_wrong
