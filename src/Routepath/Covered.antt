-- ===== src/Routepath/Covered.antt =====
-- The theorem that lets a manifest be checked at load: parsed templates stay inside covering routes.
use veduta.Prelude.{
  ℕ, ◌≡◌, refl, sym, ap, ◌∙◌, ◌≢◌, inl, inr, Bool, true, false, not, Option, none, some, List, [],
  ◌∷◌, arith, Bytes, codes, All, bytes_eq, bytes_eq→≡, Result, ok, err, >>=-eq-ok, ok-injective,
  guard-inv, ◌==◌, Bool-cases,
}
use veduta.Routepath.Escape.{RouteError, slash}
use veduta.Routepath.Canonicalise.{split, join, contains, canonicalise}
use veduta.Routepath.Glob.{trim_slash, match_segments, match}
use veduta.Routepath.Split.{split-join, join-split, All-split}
use veduta.Routepath.Segments.{Segments, done, step, Segment-normal, Segments-normal}
use veduta.Routepath.Inversion.{Free-All, Segments-Free}
use veduta.Routepath.Template.{
  template_brace, placeholder_name, is_brace, inner, TemplateSegment, Template, to_template,
  plan_segment, plan_segments, fill, stand_ins, behind_slash, parse_segments, parse_template,
  covered_in, covered_by, segments_covered, expand_segments, expand_list, expand,
}
use veduta.Routepath.Coverage.{
  IsTemplateSegment, IsTemplate, segments_covered-match_segments, fillings, free_of_fillings,
  join_filled, expand_segments_step, Segments-join,
}

abbrev SlashFree : Bytes → Type 0
SlashFree t = All (λ c. c ≢ slash) t

-- A stand-in is the part itself, or a letter.
record Planned (part s : Bytes) : Type 0 where
  pub free : SlashFree part → SlashFree s
  pub filled : s ≡ [] → part ≡ []

plan_segment-Planned :
    (part : Bytes) (plan : Option Bytes × Bytes) → plan_segment part ≡ ok plan → Planned part plan.1
unfolding plan_segment
plan_segment-Planned part plan h = elim (Bool-cases (contains is_brace part)) [
  | inr plain ↦
      let e : (none, part) ≡ plan = ok-injective (rw (plain, plan_segment) at h) in
      rw (← e) (record { free = λ f. f; filled = λ e. e })
  | inl braced ↦
      let (_, k) = guard-inv _ template_brace _ (rw (braced, plan_segment) at h) in
      let (_, l) = guard-inv _ placeholder_name _ k in
      let e : (some (inner part), codes "x") ≡ plan = ok-injective l in
      rw (← e) (record { free = λ f. (omega arith, tt); filled = λ e. cc })
]

data AllPlanned : List Bytes → List (Option Bytes × Bytes) → Type 0 where
  nothing : AllPlanned [] []
  one_more :
      {part : Bytes} {parts : List Bytes} {plan : Option Bytes × Bytes}
      {plans : List (Option Bytes × Bytes)}
      → Planned part plan.1
      → AllPlanned parts plans
      → AllPlanned (part ∷ parts) (plan ∷ plans)

plan_segments-AllPlanned :
    (parts : List Bytes) (plans : List (Option Bytes × Bytes))
    → plan_segments parts ≡ ok plans
    → AllPlanned parts plans
unfolding plan_segments
plan_segments-AllPlanned [] plans h = rw (← ok-injective h) nothing
plan_segments-AllPlanned (part ∷ parts) plans h =
    let (plan, e, q) = >>=-eq-ok (plan_segment part) _ h in
    let (others, f, r) = >>=-eq-ok (plan_segments parts) _ q in
    rw (← ok-injective r)
      (one_more (plan_segment-Planned part plan e) (plan_segments-AllPlanned parts others f))

stand_ins_free :
    {parts : List Bytes} {plans : List (Option Bytes × Bytes)}
    → AllPlanned parts plans
    → All SlashFree parts
    → All SlashFree (stand_ins plans)
stand_ins_free nothing h = tt
stand_ins_free (one_more a r) h = (a.free h.0, stand_ins_free r h.1)

stand_ins_filled :
    {parts : List Bytes} {plans : List (Option Bytes × Bytes)}
    → AllPlanned parts plans
    → join slash (stand_ins plans) ≡ []
    → join slash parts ≡ []
stand_ins_filled nothing e = refl
stand_ins_filled (one_more a nothing) e = a.filled e
stand_ins_filled (one_more {plan = (x, [])} a (one_more b r)) e = cc
stand_ins_filled (one_more {plan = (x, c ∷ s)} a (one_more b r)) e = cc

fill-IsTemplate :
    (plans : List (Option Bytes × Bytes)) {ns : List Bytes} {segs : List TemplateSegment}
    → Segments (stand_ins plans) ns
    → fill plans ns ≡ ok segs
    → All IsTemplateSegment segs
unfolding fill
fill-IsTemplate [] done h = rw (← ok-injective h) tt
fill-IsTemplate ((none, s) ∷ plans) (step {n} {ns} g r) h =
    let (rest, e, q) = >>=-eq-ok (fill plans ns) _ h in
    rw (← ok-injective q) (Segment-normal g, fill-IsTemplate plans r e)
fill-IsTemplate ((some x, s) ∷ plans) (step {n} {ns} g r) h =
    let (rest, e, q) = >>=-eq-ok (fill plans ns) _ h in
    rw (← ok-injective q) (tt, fill-IsTemplate plans r e)

to_template-inv : {A : Type 0} (r : Result RouteError A) {a : A} → to_template r ≡ ok a → r ≡ ok a
to_template-inv (ok a) h = ap ok (ok-injective h)
to_template-inv (err e) h = cc

split_free_of : (sep : ℕ) (s : Bytes) → All (λ t. All (λ c. c ≢ sep) t) (split sep s)
split_free_of sep s = drop_unit (split sep s) (All-split (λ c. Unit {0}) sep s (all_unit s))
  where
    all_unit : (t : Bytes) → All (λ c. Unit {0}) t
    all_unit [] = tt
    all_unit (c ∷ t) = (tt, all_unit t)

    one : (t : Bytes) → All (λ c. Unit {0} × (c ≢ sep)) t → All (λ c. c ≢ sep) t
    one [] h = tt
    one (c ∷ t) h = (h.0.1, one t h.1)

    drop_unit :
        (ts : List Bytes)
        → All (All (λ c. Unit {0} × (c ≢ sep))) ts
        → All (λ t. All (λ c. c ≢ sep) t) ts
    drop_unit [] h = tt
    drop_unit (t ∷ ts) h = (one t h.0, drop_unit ts h.1)

no_normal : {s : Bytes} {ss : List Bytes} → Segments (s ∷ ss) [] → ⊥
no_normal g = cc (lost g refl)
  where
    lost : {ts ns : List Bytes} → Segments ts ns → ns ≡ [] → ts ≡ []
    lost done e = refl
    lost (step a r) e = cc

resplit : {o : Bytes} {os ns : List Bytes} → Segments (o ∷ os) ns → split slash (join slash ns) ≡ ns
resplit {ns = []} g = absurd (no_normal g)
resplit {ns = m ∷ ms} g =
    split-join slash m ms (Free-All (m ∷ ms) (Segments-Free (Segments-normal g)))

filled_template :
    (plans : List (Option Bytes × Bytes)) {canonical : Bytes} {segs : List TemplateSegment}
    → All SlashFree (stand_ins plans)
    → join slash (stand_ins plans) ≢ []
    → canonicalise (slash ∷ join slash (stand_ins plans)) ≡ ok canonical
    → fill plans (split slash (behind_slash canonical)) ≡ ok segs
    → All IsTemplateSegment segs
filled_template [] f n c h = absurd (n refl)
filled_template ((x, s) ∷ plans) f n c h =
    let (ns, e, g) = Segments-join s (stand_ins plans) f n c in
    fill-IsTemplate ((x, s) ∷ plans) g (rw (e, resplit g) at h)

parse_segments-IsTemplate :
    (rest : Bytes) {segs : List TemplateSegment}
    → rest ≢ []
    → parse_segments rest ≡ ok segs
    → All IsTemplateSegment segs
unfolding parse_segments
parse_segments-IsTemplate rest filled h =
    let (plans, e, q) = >>=-eq-ok (plan_segments (split slash rest)) _ h in
    let (canonical, f, r) =
      >>=-eq-ok (to_template (canonicalise (slash ∷ join slash (stand_ins plans)))) _ q in
    let planned = plan_segments-AllPlanned (split slash rest) plans e in
    let free : All SlashFree (stand_ins plans) =
      stand_ins_free planned (split_free_of slash rest) in
    filled_template plans free
      (λ empty. filled (sym (join-split slash rest) ∙ stand_ins_filled planned empty))
      (to_template-inv _ f) r

-- A parsed template has canonical literals.
pub parse_template-IsTemplate :
    (raw : Bytes) (t : Template) → parse_template raw ≡ ok t → IsTemplate t
unfolding parse_template
parse_template-IsTemplate [] t h = cc
parse_template-IsTemplate (c ∷ rest) t h = elim (Bool-cases (bytes_eq (c ∷ rest) (slash ∷ []))) [
  | inl bare ↦
      let (_, e, q) = >>=-eq-ok (to_template (canonicalise (c ∷ rest))) _ (rw bare at h) in
      rw (← ok-injective q) tt
  | inr other ↦
      let (first, k) = guard-inv (not (c == slash)) _ _ (rw other at h) in
      let (segs, e, q) = >>=-eq-ok (parse_segments rest) _ k in
      rw (← ok-injective q)
        (parse_segments-IsTemplate rest (λ none_left. filled c rest first none_left other) e)
]
  where
    filled :
        (d : ℕ) (s : Bytes)
        → not (d == slash) ≡ false
        → s ≡ []
        → bytes_eq (d ∷ s) (slash ∷ []) ≡ false
        → ⊥
    filled d [] h e k = ground arith
    filled d (x ∷ s) h e k = cc

covered_globs :
    (t : TemplateSegment) (ts : List TemplateSegment) (canonical : Bytes)
    → covered_in (t ∷ ts) canonical ≡ true
    → segments_covered (t ∷ ts) (split slash (trim_slash canonical)) ≡ true
covered_globs t ts canonical h = elim (Bool-cases (bytes_eq canonical (slash ∷ []))) [
  | inl bare ↦ cc (rw bare at h)
  | inr other ↦ rw other at h
]

covered_outs :
    (values : Bytes → Option Bytes) (t : TemplateSegment) (ts : List TemplateSegment)
    (outs gs : List Bytes) (path : Bytes)
    → All IsTemplateSegment (t ∷ ts)
    → segments_covered (t ∷ ts) gs ≡ true
    → expand_segments values (t ∷ ts) ≡ ok outs
    → canonicalise (slash ∷ join slash outs) ≡ ok path
    → match_segments gs (split slash (trim_slash path)) ≡ true
covered_outs values t ts [] gs path w c e k = cc ((expand_segments_step values t ts [] e).result)
covered_outs values t ts (o ∷ os) gs path w c e k =
    let full = fillings values (t ∷ ts) (o ∷ os) w e in
    let (ns, f, g) =
      Segments-join o os (free_of_fillings (o ∷ os) full) (join_filled o os full.0) k in
    rw (f, resplit g) (segments_covered-match_segments values (t ∷ ts) gs w c e g)

covered_at :
    (values : Bytes → Option Bytes) (ts : List TemplateSegment) (canonical path : Bytes)
    → All IsTemplateSegment ts
    → covered_in ts canonical ≡ true
    → expand_list values ts ≡ ok path
    → match canonical path ≡ true
unfolding match
covered_at values [] canonical path w c e =
    rw (bytes_eq→≡ canonical (slash ∷ []) c, ← ok-injective e)
covered_at values (t ∷ ts) canonical path w c e =
    let (outs, f, q) = >>=-eq-ok (expand_segments values (t ∷ ts)) _ e in
    covered_outs values t ts outs (split slash (trim_slash canonical)) path w
      (covered_globs t ts canonical c) f (to_template-inv _ q)

covered_pattern :
    (ts : List TemplateSegment) (r : Result RouteError Bytes)
    → elim r as (λ _. Bool) [ err e ↦ false | ok canonical ↦ covered_in ts canonical ] ≡ true
    → (canonical : Bytes) × (r ≡ ok canonical) × (covered_in ts canonical ≡ true)
covered_pattern ts (ok canonical) h = (canonical, refl, h)
covered_pattern ts (err e) h = cc

-- Whatever values fill a parsed template, a route that covers the template has a canonical form,
-- which matches the path that comes out.
pub covered_by-match :
    (raw pattern_ path : Bytes) (values : Bytes → Option Bytes) (t : Template)
    → parse_template raw ≡ ok t
    → covered_by t pattern_ ≡ true
    → expand values t ≡ ok path
    → (canonical : Bytes) × (canonicalise pattern_ ≡ ok canonical) × (match canonical path ≡ true)
unfolding covered_by expand
covered_by-match raw pattern_ path values t h c e =
    let (canonical, k, d) = covered_pattern t.segments (canonicalise pattern_) c in
    (
      canonical,
      k,
      covered_at values t.segments canonical path (parse_template-IsTemplate raw t h) d e,
    )
