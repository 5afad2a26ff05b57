-- ===== src/Routepath/Coverage.antt =====
-- A template of routepath/template.go that a route covers expands only to paths that the route matches.
use veduta.Prelude.{
  ◌≡◌, refl, sym, ap, ◌∙◌, ◌≢◌, inl, inr, Bool, true, false, not, ◌&&◌, Option, List, [], ◌∷◌,
  arith, Bytes, codes, All, bytes_eq→≡, ok, >>=-eq-ok, ok-injective, ◌==◌, if◌then◌else◌,
  Bool-cases, Option-cases,
}
use veduta.Routepath.Escape.{slash, is_unreserved}
use veduta.Routepath.Hex.{IsSegmentByte}
use veduta.Routepath.Canonicalise.{split, join, contains, canonicalise}
use veduta.Routepath.Glob.{star, match_segment, match_segments}
use veduta.Routepath.Split.{split-join}
use veduta.Routepath.Segments.{Segment, Segments, done, step, canonicalise_segment-eq}
use veduta.Routepath.Inversion.{
  Canonicalised, root, path, canonicalise_inv, Free-All, Segments-Free,
}
use veduta.Routepath.Matching.{Globs, finish, stretch, skip, match_segment_iff}
use veduta.Routepath.Template.{
  TemplateSegment, literal, placeholder, Template, segments_covered, expand_segment,
  expand_segments, valid_placeholder_value,
}

-- A literal segment is in its normal form.
abbrev pub IsTemplateSegment : TemplateSegment → Type 0
IsTemplateSegment (literal l) = Segment l l
IsTemplateSegment (placeholder n) = Unit

-- What the parser promises of a template.
abbrev pub IsTemplate : Template → Type 0
IsTemplate t = All IsTemplateSegment t.segments

Segment-unique : (s : Bytes) {n m : Bytes} → Segment s n → Segment s m → n ≡ m
Segment-unique s g k =
    ok-injective (sym (canonicalise_segment-eq s _ g) ∙ canonicalise_segment-eq s _ k)

-- A bare star matches every segment.
Globs-star : (s : Bytes) → Globs (star ∷ []) s
Globs-star [] = skip refl finish
Globs-star (c ∷ s) = stretch refl (Globs-star s)

-- What one round of `Expand` gave.
pub record Round (values : Bytes → Option Bytes) (t : TemplateSegment) (ts : List TemplateSegment)
    (outs : List Bytes) : Type 0 where
  pub head : Bytes
  pub tail : List Bytes
  pub segment : expand_segment values t ≡ ok head
  pub others : expand_segments values ts ≡ ok tail
  pub result : head ∷ tail ≡ outs

pub expand_segments_step :
    (values : Bytes → Option Bytes) (t : TemplateSegment) (ts : List TemplateSegment)
    (outs : List Bytes)
    → expand_segments values (t ∷ ts) ≡ ok outs
    → Round values t ts outs
unfolding expand_segments
expand_segments_step values t ts outs h =
    let (n, e, q) = >>=-eq-ok (expand_segment values t) _ h in
    let (ms, f, r) = >>=-eq-ok (expand_segments values ts) _ q in
    record { head = n; tail = ms; segment = e; others = f; result = ok-injective r }

no_rounds :
    (values : Bytes → Option Bytes) (outs : List Bytes)
    → expand_segments values [] ≡ ok outs
    → [] ≡ outs
unfolding expand_segments
no_rounds values outs h = ok-injective h

literal_expands :
    (values : Bytes → Option Bytes) (l : Bytes) {out : Bytes}
    → expand_segment values (literal l) ≡ ok out
    → l ≡ out
unfolding expand_segment
literal_expands values l h = ok-injective h

-- A covered segment matches whatever fills it.
covered_head :
    (values : Bytes → Option Bytes) (t : TemplateSegment) (ts : List TemplateSegment) (g : Bytes)
    (gs : List Bytes) {out n : Bytes}
    → IsTemplateSegment t
    → segments_covered (t ∷ ts) (g ∷ gs) ≡ true
    → expand_segment values t ≡ ok out
    → Segment out n
    → (match_segment g n ≡ true) × (segments_covered ts gs ≡ true)
unfolding segments_covered
covered_head values (literal l) ts g gs {out} {n} w c e k =
    let same : l ≡ out = literal_expands values l e in
    let normal : n ≡ l = Segment-unique l (rw same k) w in (rw normal (ground arith), ground arith)
covered_head values (placeholder m) ts g gs {n} w c e k =
    let any : g ≡ codes "*" = bytes_eq→≡ g (codes "*") (ground arith) in
    (rw any ((match_segment_iff (codes "*") n).1 (Globs-star n)), ground arith)

not_covered_nil :
    (t : TemplateSegment) (ts : List TemplateSegment) → segments_covered (t ∷ ts) [] ≢ true
unfolding segments_covered
not_covered_nil (literal l) ts h = cc
not_covered_nil (placeholder n) ts h = cc

not_covered_end : (g : Bytes) (gs : List Bytes) → segments_covered [] (g ∷ gs) ≢ true
unfolding segments_covered
not_covered_end g gs h = cc

matched_step :
    (g : Bytes) (gs : List Bytes) (n : Bytes) (ns : List Bytes)
    → match_segment g n ≡ true
    → match_segments gs ns ≡ true
    → match_segments (g ∷ gs) (n ∷ ns) ≡ true
unfolding match_segments
matched_step g gs n ns h k = rw (h, k)

matched_nil : match_segments [] [] ≡ true
unfolding match_segments
matched_nil = refl

pub segments_covered-match_segments :
    (values : Bytes → Option Bytes) (ts : List TemplateSegment) (gs : List Bytes)
    {outs ns : List Bytes}
    → All IsTemplateSegment ts
    → segments_covered ts gs ≡ true
    → expand_segments values ts ≡ ok outs
    → Segments outs ns
    → match_segments gs ns ≡ true
segments_covered-match_segments values [] [] w c e done = matched_nil
segments_covered-match_segments values [] [] w c e (step a r) = cc (no_rounds values _ e)
segments_covered-match_segments values [] (g ∷ gs) w c e k = absurd (not_covered_end g gs c)
segments_covered-match_segments values (t ∷ ts) [] w c e k = absurd (not_covered_nil t ts c)
segments_covered-match_segments values (t ∷ ts) (g ∷ gs) w c e done =
    cc ((expand_segments_step values t ts [] e).result)
segments_covered-match_segments values (t ∷ ts) (g ∷ gs) w c e (step {s} {n} {ss} {ns} a r) =
    let q = expand_segments_step values t ts (s ∷ ss) e in
    let head : q.head ≡ s = cc (q.result) in
    let tail : q.tail ≡ ss = cc (q.result) in
    let (here, others) = covered_head values t ts g gs w.0 c (rw head at q.segment) a in
    matched_step g gs n ns here
      (segments_covered-match_segments values ts gs w.1 others (rw tail at q.others) r)

-- What fills a segment is not empty and has no separator.
pub record IsFilling (s : Bytes) : Type 0 where
  pub filled : s ≢ []
  pub free : All (λ c. c ≢ slash) s

free_of_segment : (s : Bytes) → All IsSegmentByte s → All (λ c. c ≢ slash) s
free_of_segment [] h = tt
free_of_segment (c ∷ s) h = (h.0.1, free_of_segment s h.1)

free_of_value :
    (v : Bytes)
    → contains (λ c. not (is_unreserved c) && not (c == b':') && not (c == b'@')) v ≡ false
    → All (λ c. c ≢ slash) v
unfolding contains is_unreserved
free_of_value [] h = tt
free_of_value (c ∷ v) h = (ground arith, free_of_value v (ground arith))

value-IsFilling : (v : Bytes) → valid_placeholder_value v ≡ true → IsFilling v
unfolding valid_placeholder_value
value-IsFilling [] h = cc
value-IsFilling (c ∷ v) h = record {
  filled = λ e. cc;
  free = free_of_value (c ∷ v) (valid_inv _ _ h);
}
  where
    valid_inv : (b d : Bool) → (if b then false else not d) ≡ true → d ≡ false
    valid_inv true d k = cc
    valid_inv false true k = cc
    valid_inv false false k = refl

expand_segment-IsFilling :
    (values : Bytes → Option Bytes) (t : TemplateSegment) (out : Bytes)
    → IsTemplateSegment t
    → expand_segment values t ≡ ok out
    → IsFilling out
unfolding expand_segment
expand_segment-IsFilling values (literal l) out w e =
    rw (← ok-injective e) (record { filled = w.filled; free = free_of_segment l w.clean })
expand_segment-IsFilling values (placeholder n) out w e = elim (Option-cases (values n)) [
  | inl none_ ↦ cc (rw (none_, expand_segment) at e)
  | inr (v, given) ↦ elim (Bool-cases (valid_placeholder_value v)) [
    | inl valid ↦
        rw (← ok-injective (rw (given, valid, expand_segment) at e)) (value-IsFilling v valid)
    | inr invalid ↦ cc (rw (given, invalid, expand_segment) at e)
  ]
]

pub fillings :
    (values : Bytes → Option Bytes) (ts : List TemplateSegment) (outs : List Bytes)
    → All IsTemplateSegment ts
    → expand_segments values ts ≡ ok outs
    → All IsFilling outs
fillings values [] outs w e = rw (← no_rounds values outs e) tt
fillings values (t ∷ ts) outs w e =
    let q = expand_segments_step values t ts outs e in
    rw (← q.result) (
      expand_segment-IsFilling values t q.head w.0 q.segment,
      fillings values ts q.tail w.1 q.others,
    )

pub free_of_fillings :
    (outs : List Bytes) → All IsFilling outs → All (λ t. All (λ c. c ≢ slash) t) outs
free_of_fillings [] h = tt
free_of_fillings (o ∷ os) h = (h.0.free, free_of_fillings os h.1)

pub join_filled : (o : Bytes) (os : List Bytes) → IsFilling o → join slash (o ∷ os) ≢ []
join_filled [] os f = absurd (f.filled refl)
join_filled (c ∷ o) [] f = λ e. cc
join_filled (c ∷ o) (p ∷ os) f = λ e. cc

-- The canonical form of separate segments keeps them apart.
pub Segments-join :
    (o : Bytes) (os : List Bytes) {p : Bytes}
    → All (λ t. All (λ c. c ≢ slash) t) (o ∷ os)
    → join slash (o ∷ os) ≢ []
    → canonicalise (slash ∷ join slash (o ∷ os)) ≡ ok p
    → (ns : List Bytes) × (p ≡ slash ∷ join slash ns) × Segments (o ∷ os) ns
Segments-join o os {p} f filled h = keep (canonicalise_inv _ p h)
  where
    keep :
        Canonicalised (slash ∷ join slash (o ∷ os)) p
        → (ns : List Bytes) × (p ≡ slash ∷ join slash ns) × Segments (o ∷ os) ns
    keep (root e k) = absurd (filled (cc e))
    keep (path {ss = []} {ns} g k e l) = absurd (k refl)
    keep (path {ss = s ∷ ss} {ns} g k e l) =
        let texts : join slash (o ∷ os) ≡ join slash (s ∷ ss) = cc e in
        let same : o ∷ os ≡ s ∷ ss =
          sym (split-join slash o os f)
          ∙ ap (split slash) texts
          ∙ split-join slash s ss (Free-All (s ∷ ss) (Segments-Free g)) in
        (ns, l, rw same g)
