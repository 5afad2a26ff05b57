-- ===== src/Routepath/Canonical.antt =====
-- The theorems on `Canonicalise` of routepath/canonicalise.go.
use veduta.Prelude.{
  ℕ, suc, ◌≡◌, refl, sym, ap, ◌∙◌, ◌≢◌, false, List, [], ◌∷◌, ◌++◌, append-nil, arith, Bytes,
  length, All, count, ok, ◌==◌, if◌then◌else◌,
}
use veduta.Routepath.Escape.{slash, percent, hex_byte}
use veduta.Routepath.Canonicalise.{join, is_dots, canonicalise}
use veduta.Routepath.Hex.{IsSegmentByte}
use veduta.Routepath.Units.{Units, nothing, plain, decoded, kept, Units-normal}
use veduta.Routepath.Split.{count-join}
use veduta.Routepath.Segments.{Segment, Segments, done, step, Segments-normal}
use veduta.Routepath.Inversion.{
  Canonicalised, root, path, canonicalise_inv, canonicalise_complete, Free-All, Segments-Free, Free,
}

-- What a path means: each escape replaced by the byte that it stands for, once.
unfoldable pub unescape : Bytes → Bytes
unfolding hex_byte
unescape [] = []
unescape (c ∷ hi ∷ lo ∷ s) =
    let after = unescape s in
    let next = unescape (hi ∷ lo ∷ s) in if c == percent then hex_byte hi lo ∷ after else c ∷ next
unescape (c ∷ s) = c ∷ unescape s

unescape-plain : (c : ℕ) (s : Bytes) → c ≢ percent → unescape (c ∷ s) ≡ c ∷ unescape s
unfolding unescape
unescape-plain c [] h = refl
unescape-plain c (a ∷ []) h = refl
unescape-plain c (a ∷ b ∷ s) h = ground arith

unescape-escape :
    (hi lo : ℕ) (s : Bytes) → unescape (percent ∷ hi ∷ lo ∷ s) ≡ hex_byte hi lo ∷ unescape s
unfolding unescape
unescape-escape hi lo s = refl

-- A read segment means the bytes that it was read to mean.
pub Units-unescape : {s d n : Bytes} (r : Bytes) → Units s d n → unescape (s ++ r) ≡ d ++ unescape r
Units-unescape r nothing = refl
Units-unescape r (plain h u) = unescape-plain _ _ h ∙ rw (Units-unescape r u)
Units-unescape r (decoded e h u) = unescape-escape _ _ _ ∙ rw (e.value, Units-unescape r u)
Units-unescape r (kept e h u) = unescape-escape _ _ _ ∙ rw (e.value, Units-unescape r u)

unescape-units : {s d n : Bytes} → Units s d n → unescape s ≡ d
unfolding unescape
unescape-units {s} {d} u = sym (ap unescape (append-nil s)) ∙ Units-unescape [] u ∙ append-nil d

unescape-join :
    {ss ns : List Bytes} → Segments ss ns → unescape (join slash ns) ≡ unescape (join slash ss)
unescape-join done = refl
unescape-join (step g done) = unescape-units (Units-normal g.units) ∙ sym (unescape-units g.units)
unescape-join (step g (step g' r)) =
    Units-unescape _ (Units-normal g.units)
    ∙ ap (λ t. g.text ++ t)
        (unescape-plain slash _ (omega arith)
          ∙ ap (λ t. slash ∷ t) (unescape-join (step g' r))
          ∙ sym (unescape-plain slash _ (omega arith)))
    ∙ sym (Units-unescape _ g.units)

Segments-ne-nil : {ss ns : List Bytes} → Segments ss ns → ss ≢ [] → ns ≢ []
Segments-ne-nil done h = h
Segments-ne-nil (step g r) h = λ e. cc

-- The canonical form of a path is its own canonical form.
pub canonicalise-canonicalise : (raw p : Bytes) → canonicalise raw ≡ ok p → canonicalise p ≡ ok p
canonicalise-canonicalise raw p h = again (canonicalise_inv raw p h)
  where
    again : Canonicalised raw p → canonicalise p ≡ ok p
    again (root e f) = canonicalise_complete p p (root f f)
    again (path g k e f) =
        canonicalise_complete p p (path (Segments-normal g) (Segments-ne-nil g k) f f)

length-Segments : {ss ns : List Bytes} → Segments ss ns → length ns ≡ length ss
length-Segments done = refl
length-Segments (step g r) = ap suc (length-Segments r)

count-path : (ss : List Bytes) → ss ≢ [] → Free ss → suc (count slash (join slash ss)) ≡ length ss
count-path [] h f = absurd (h refl)
count-path (s ∷ ss) h f = ap suc (count-join slash s ss (Free-All (s ∷ ss) f))

-- The canonical form of a path has as many separators as the path.
pub count-canonicalise : (raw p : Bytes) → canonicalise raw ≡ ok p → count slash p ≡ count slash raw
count-canonicalise raw p h = same (canonicalise_inv raw p h)
  where
    same : Canonicalised raw p → count slash p ≡ count slash raw
    same (root e f) = rw (e, f)
    same (path {ss} {ns} g k e f) =
        rw (e, f)
          (omega (
            arith,
            count-path ss k (Segments-Free g),
            count-path ns (Segments-ne-nil g k) (Segments-Free (Segments-normal g)),
            length-Segments g,
          ))

-- The canonical form of a path decodes to the same bytes as the path.
pub unescape-canonicalise : (raw p : Bytes) → canonicalise raw ≡ ok p → unescape p ≡ unescape raw
unescape-canonicalise raw p h = same (canonicalise_inv raw p h)
  where
    same : Canonicalised raw p → unescape p ≡ unescape raw
    same (root e f) = rw (e, f)
    same (path g k e f) =
        rw (e, f)
          (unescape-plain slash _ (omega arith)
            ∙ ap (λ t. slash ∷ t) (unescape-join g)
            ∙ sym (unescape-plain slash _ (omega arith)))

-- A segment that no reader can take for a step up the tree or for nothing.
pub record IsPlainSegment (s : Bytes) : Type 0 where
  pub filled : s ≢ []
  pub not_dots : is_dots s ≡ false
  pub decoded_not_dots : is_dots (unescape s) ≡ false
  pub clean : All IsSegmentByte s

-- A path of such segments, or the bare root.
pub data IsSafe (p : Bytes) : Type 0 where
  bare : p ≡ slash ∷ [] → IsSafe p
  segments : (ss : List Bytes) → p ≡ slash ∷ join slash ss → All IsPlainSegment ss → IsSafe p

Segment-IsPlainSegment : {s n : Bytes} → Segment s n → IsPlainSegment s
Segment-IsPlainSegment g = record {
  filled = g.filled;
  not_dots = g.not_dots;
  decoded_not_dots = rw (unescape-units g.units) g.text_not_dots;
  clean = g.clean;
}

Segments-plain : {ss ns : List Bytes} → Segments ss ns → All IsPlainSegment ss
Segments-plain done = tt
Segments-plain (step g r) = (Segment-IsPlainSegment g, Segments-plain r)

-- The canonical form of a path is the bare root, or a list of segments each of which is not empty,
-- has bytes of a segment only, and is no dot segment, as it stands and decoded once.
pub canonicalise-IsSafe : (raw p : Bytes) → canonicalise raw ≡ ok p → IsSafe p
canonicalise-IsSafe raw p h = safe (canonicalise_inv raw p h)
  where
    safe : Canonicalised raw p → IsSafe p
    safe (root e f) = bare f
    safe (path {ns} g k e f) = segments ns f (Segments-plain (Segments-normal g))
