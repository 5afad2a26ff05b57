-- ===== src/Routepath/Inversion.antt =====
-- What `Canonicalise` of routepath/canonicalise.go accepts.
use veduta.Prelude.{
  ℕ, ◌≡◌, refl, sym, ap, ◌∙◌, ◌≢◌, inl, inr, Bool, false, not, List, [], ◌∷◌, append-nil, arith,
  Bytes, All, All-append, bytes_eq, bytes_eq→≡, ok, ◌>>=◌, >>=-eq-ok, ok-injective, guard-inv, ◌==◌,
  Bool-cases,
}
use mathlib.Core.Path.{subst}
use veduta.Routepath.Escape.{slash, check_escapes_well_formed}
use veduta.Routepath.Canonicalise.{
  split, join, canonicalise_segment, canonicalise_segments, canonicalise_checked, canonicalise,
  contains, is_query_or_fragment, is_control_or_space,
}
use veduta.Routepath.Hex.{IsClean, IsSegmentByte}
use veduta.Routepath.Units.{Units-check, check_escapes-plain}
use veduta.Routepath.Reading.{end, more, read_segment}
use veduta.Routepath.Split.{join-split, split-join, split-ne-nil, All-split}
use veduta.Routepath.Segments.{
  Segments, done, step, canonicalise_segments-eq, canonicalise_segment-inv,
}

abbrev pub Free : List Bytes → Type 0
Free ss = All (All IsSegmentByte) ss

-- What one round of the loop over the segments returned.
record Round (s : Bytes) (ss ns : List Bytes) : Type 0 where
  pub head : Bytes
  pub tail : List Bytes
  pub segment : canonicalise_segment s ≡ ok head
  pub others : canonicalise_segments ss ≡ ok tail
  pub result : head ∷ tail ≡ ns

canonicalise_segments_step :
    (s : Bytes) (ss ns : List Bytes) → canonicalise_segments (s ∷ ss) ≡ ok ns → Round s ss ns
unfolding canonicalise_segments
canonicalise_segments_step s ss ns h =
    let (n, e, q) = >>=-eq-ok (canonicalise_segment s) _ h in
    let (ms, f, r) = >>=-eq-ok (canonicalise_segments ss) _ q in
    record { head = n; tail = ms; segment = e; others = f; result = ok-injective r }

no_segments : (ns : List Bytes) → canonicalise_segments [] ≡ ok ns → [] ≡ ns
unfolding canonicalise_segments
no_segments ns h = ok-injective h

-- The segments of an accepted text are read one by one.
pub canonicalise_segments_inv :
    (s : Bytes) (ss ns : List Bytes)
    → Free (s ∷ ss)
    → check_escapes_well_formed (join slash (s ∷ ss)) ≡ ok tt
    → canonicalise_segments (s ∷ ss) ≡ ok ns
    → Segments (s ∷ ss) ns
canonicalise_segments_inv s [] ns f k h =
    let r = read_segment s [] end (rw append-nil k) in
    let q = canonicalise_segments_step s [] ns h in
    let none_left : [] ≡ q.tail = no_segments q.tail q.others in
    rw (← q.result, ← none_left)
      (step (canonicalise_segment-inv s q.head _ _ f.0 r.units q.segment) done)
canonicalise_segments_inv s (t ∷ ss) ns f k h =
    let r = read_segment s (slash ∷ join slash (t ∷ ss)) (more _) k in
    let q = canonicalise_segments_step s (t ∷ ss) ns h in
    let rest : check_escapes_well_formed (join slash (t ∷ ss)) ≡ ok tt =
      sym (check_escapes-plain slash _ (omega arith)) ∙ r.rest in
    rw (← q.result) (
      step (canonicalise_segment-inv s q.head _ _ f.0 r.units q.segment)
        (canonicalise_segments_inv t ss q.tail f.1 rest q.others))

-- The accepted segments, joined, pass the scan.
pub Segments-check :
    {ss ns : List Bytes} → Segments ss ns → check_escapes_well_formed (join slash ss) ≡ ok tt
Segments-check done = unfold check_escapes_well_formed in refl
Segments-check (step g done) =
    subst (λ t. check_escapes_well_formed t ≡ ok tt) (append-nil _)
      (Units-check [] g.units ∙ unfold check_escapes_well_formed in refl)
Segments-check (step g (step g' r)) =
    Units-check _ g.units ∙ check_escapes-plain slash _ (omega arith) ∙ Segments-check (step g' r)

-- The checks of single bytes, as one predicate.
checks-IsClean :
    (s : Bytes)
    → contains (λ b. b == 92) s ≡ false
    → contains is_query_or_fragment s ≡ false
    → contains is_control_or_space s ≡ false
    → All IsClean s
unfolding contains
checks-IsClean [] a b c = tt
checks-IsClean (x ∷ s) a b c =
    (ground arith, checks-IsClean s (ground arith) (ground arith) (ground arith))

contains-false :
    (p : ℕ → Bool) (s : Bytes)
    → ((c : ℕ) → IsClean c → p c ≡ false)
    → All IsClean s
    → contains p s ≡ false
unfolding contains
contains-false p [] h a = refl
contains-false p (c ∷ s) h a = rw (h c a.0) (contains-false p s h a.1)

All-fst : (s : Bytes) → All IsSegmentByte s → All IsClean s
All-fst [] h = tt
All-fst (c ∷ s) h = (h.0.0, All-fst s h.1)

slash-IsClean : IsClean slash
slash-IsClean = ground arith

All-join : (ss : List Bytes) → Free ss → All IsClean (join slash ss)
All-join [] f = tt
All-join (s ∷ []) f = All-fst s f.0
All-join (s ∷ t ∷ ss) f =
    All-append IsClean s _ (All-fst s f.0) (slash-IsClean, All-join (t ∷ ss) f.1)

pub Segments-Free : {ss ns : List Bytes} → Segments ss ns → Free ss
Segments-Free done = tt
Segments-Free (step g r) = (g.clean, Segments-Free r)

-- Two paths, the second being the canonical form of the first.
pub data Canonicalised (raw p : Bytes) : Type 0 where
  root : raw ≡ slash ∷ [] → p ≡ slash ∷ [] → Canonicalised raw p
  path :
      {ss ns : List Bytes}
      → Segments ss ns
      → ss ≢ []
      → raw ≡ slash ∷ join slash ss
      → p ≡ slash ∷ join slash ns
      → Canonicalised raw p

pub Free-All : (ss : List Bytes) → Free ss → All (λ t. All (λ c. c ≢ slash) t) ss
Free-All [] f = tt
Free-All (s ∷ ss) f = (bytes_of s f.0, Free-All ss f.1)
  where
    bytes_of : (t : Bytes) → All IsSegmentByte t → All (λ c. c ≢ slash) t
    bytes_of [] h = tt
    bytes_of (c ∷ t) h = (h.0.1, bytes_of t h.1)

-- The segments of the text behind the first slash.
paths_inv :
    (rest p : Bytes)
    → All IsClean rest
    → check_escapes_well_formed (slash ∷ rest) ≡ ok tt
    → (canonicalise_segments (split slash rest) >>= λ out. ok (slash ∷ join slash out)) ≡ ok p
    → Canonicalised (slash ∷ rest) p
paths_inv rest p c scan h =
    let (ns, e, q) = >>=-eq-ok (canonicalise_segments (split slash rest)) _ h in
    let scan' : check_escapes_well_formed rest ≡ ok tt =
      sym (check_escapes-plain slash rest (omega arith)) ∙ scan in
    path
      (filled_inv (split slash rest) ns (split-ne-nil slash rest) (All-split IsClean slash rest c)
        (rw join-split scan') e)
      (split-ne-nil slash rest) (rw join-split) (sym (ok-injective q))
  where
    filled_inv :
        (ss ns : List Bytes)
        → ss ≢ []
        → Free ss
        → check_escapes_well_formed (join slash ss) ≡ ok tt
        → canonicalise_segments ss ≡ ok ns
        → Segments ss ns
    filled_inv [] ns f g k e = absurd (f refl)
    filled_inv (s ∷ ss) ns f g k e = canonicalise_segments_inv s ss ns g k e

-- The part of `Canonicalise` behind the checks of single bytes.
checked_inv :
    (rest p : Bytes)
    → All IsClean rest
    → canonicalise_checked rest ≡ ok p
    → Canonicalised (slash ∷ rest) p
unfolding canonicalise_checked
checked_inv rest p c h =
    let (u, scan, q) = >>=-eq-ok (check_escapes_well_formed (slash ∷ rest)) _ h in
    elim (Bool-cases (bytes_eq rest [])) [
      | inl bare ↦
          root (ap (λ r. slash ∷ r) (bytes_eq→≡ rest [] bare)) (sym (ok-injective (rw bare at q)))
      | inr filled ↦ paths_inv rest p c scan (rw filled at q)
    ]

pub canonicalise_inv : (raw p : Bytes) → canonicalise raw ≡ ok p → Canonicalised raw p
unfolding canonicalise
canonicalise_inv [] p h = cc
canonicalise_inv (c ∷ rest) p h =
    let (first, h1) = guard-inv (not (c == slash)) _ _ h in
    let (no_backslash, h2) = guard-inv (contains (λ b. b == 92) (c ∷ rest)) _ _ h1 in
    let (no_query, h3) = guard-inv (contains is_query_or_fragment (c ∷ rest)) _ _ h2 in
    let (no_control, h4) = guard-inv (contains is_control_or_space (c ∷ rest)) _ _ h3 in
    let at_root : c ≡ slash = ground arith in
    rw at_root
      (checked_inv rest p (checks-IsClean (c ∷ rest) no_backslash no_query no_control).1 h4)

bytes_eq_nil : (s : Bytes) → s ≢ [] → bytes_eq s [] ≡ false
bytes_eq_nil [] h = absurd (h refl)
bytes_eq_nil (c ∷ s) h = refl

join_filled : (s : Bytes) (ss : List Bytes) → s ≢ [] → join slash (s ∷ ss) ≢ []
join_filled [] ss h = absurd (h refl)
join_filled (c ∷ s) [] h = λ e. cc
join_filled (c ∷ s) (t ∷ ss) h = λ e. cc

-- The code accepts what the relation accepts.
checked-eq :
    {ss ns : List Bytes}
    → Segments ss ns
    → ss ≢ []
    → canonicalise_checked (join slash ss) ≡ ok (slash ∷ join slash ns)
unfolding canonicalise_checked
checked-eq done h = absurd (h refl)
checked-eq (step {s} {ss} g r) h = rw (
  check_escapes-plain slash (join slash (s ∷ ss)) (omega arith) ∙ Segments-check (step g r),
  bytes_eq_nil (join slash (s ∷ ss)) (join_filled s ss g.filled),
  split-join slash s ss (Free-All (s ∷ ss) (Segments-Free (step g r))),
  canonicalise_segments-eq (step g r),
)

canonicalise_clean :
    (rest : Bytes) → All IsClean rest → canonicalise (slash ∷ rest) ≡ canonicalise_checked rest
unfolding canonicalise
canonicalise_clean rest c = rw (
  contains-false (λ b. b == 92) rest (λ b k. ground arith) c,
  contains-false is_query_or_fragment rest (λ b k. ground arith) c,
  contains-false is_control_or_space rest (λ b k. ground arith) c,
)

pub canonicalise_complete : (raw p : Bytes) → Canonicalised raw p → canonicalise raw ≡ ok p
canonicalise_complete raw p (root e f) = rw (e, f) (unfold canonicalise in refl)
canonicalise_complete raw p (path {ss} g h e f) =
    rw (e, f) (canonicalise_clean (join slash ss) (All-join ss (Segments-Free g)) ∙ checked-eq g h)
