-- ===== src/Routepath/Segments.antt =====
-- The accepted segments of routepath/canonicalise.go, as a relation that the code decides.
use veduta.Prelude.{
  ◌≡◌, refl, ◌≢◌, ◌⊎◌, inl, inr, true, false, List, [], ◌∷◌, arith, Bytes, codes, All, bytes_eq,
  bytes_eq→≡, Result, ok, Bool-cases,
}
use veduta.Routepath.Escape.{RouteError, write_escape}
use veduta.Routepath.Canonicalise.{
  is_dots, write_segment, canonicalise_segment, canonicalise_segments,
}
use veduta.Routepath.Hex.{IsSegmentByte}
use mathlib.Core.Path.{subst}
use veduta.Routepath.Units.{
  Units, nothing, plain, decoded, kept, Units-write, Units-normal, Units-IsSegmentByte,
}

-- A segment that is accepted, with its normal form.
pub record Segment (s n : Bytes) : Type 0 where
  pub text : Bytes
  pub units : Units s text n
  pub filled : s ≢ []
  pub not_dots : is_dots s ≡ false
  pub text_not_dots : is_dots text ≡ false
  pub clean : All IsSegmentByte s

pub data Segments : List Bytes → List Bytes → Type 0 where
  done : Segments [] []
  step :
      {s n : Bytes} {ss ns : List Bytes} → Segment s n → Segments ss ns → Segments (s ∷ ss) (n ∷ ns)

normal-ne-nil : {s d n : Bytes} → Units s d n → s ≢ [] → n ≢ []
unfolding write_escape
normal-ne-nil nothing h = absurd (h refl)
normal-ne-nil (plain k u) h = λ e. cc
normal-ne-nil (decoded k l u) h = λ e. cc
normal-ne-nil (kept k l u) h = λ e. cc

dots_cases : (s : Bytes) → is_dots s ≡ true → (s ≡ codes ".") ⊎ (s ≡ codes "..")
dots_cases s h = elim (Bool-cases (bytes_eq s (codes "."))) [
  | inl one ↦ inl (bytes_eq→≡ s (codes ".") one)
  | inr other ↦ inr (bytes_eq→≡ s (codes "..") (rw other at h))
]

text_of_ok :
    {x y d n : Bytes} → ◌≡◌ {A = Result RouteError (Bytes × Bytes)} (ok (x, y)) (ok (d, n)) → x ≡ d
text_of_ok h = cc

-- A segment of dots reads as itself.
dots_read : (s : Bytes) {d n : Bytes} → Units s d n → is_dots s ≡ true → is_dots d ≡ true
unfolding write_segment
dots_read s {d} {n} u h = elim (dots_cases s h) [
  | inl e ↦ rw (← text_of_ok (subst (λ t. write_segment t ≡ ok (d, n)) e (Units-write u)))
  | inr e ↦ rw (← text_of_ok (subst (λ t. write_segment t ≡ ok (d, n)) e (Units-write u)))
]

normal_not_dots : {s n : Bytes} (g : Segment s n) → is_dots n ≡ false
normal_not_dots {n} g = elim (Bool-cases (is_dots n)) [
  | inl e ↦ cc (dots_read n (Units-normal g.units) e, g.text_not_dots)
  | inr e ↦ e
]

pub Segment-normal : {s n : Bytes} → Segment s n → Segment n n
Segment-normal g = record {
  text = g.text;
  units = Units-normal g.units;
  filled = normal-ne-nil g.units g.filled;
  not_dots = normal_not_dots g;
  text_not_dots = g.text_not_dots;
  clean = Units-IsSegmentByte g.units g.clean;
}

pub Segments-normal : {ss ns : List Bytes} → Segments ss ns → Segments ns ns
Segments-normal done = done
Segments-normal (step g r) = step (Segment-normal g) (Segments-normal r)

-- The code accepts what the relation accepts, with the same normal form.
pub canonicalise_segment-eq : (s n : Bytes) → Segment s n → canonicalise_segment s ≡ ok n
unfolding canonicalise_segment
canonicalise_segment-eq [] n g = absurd (g.filled refl)
canonicalise_segment-eq (c ∷ s) n g = rw (g.not_dots, Units-write g.units, g.text_not_dots)

segments_step :
    (s : Bytes) (ss : List Bytes) {n : Bytes} {ns : List Bytes}
    → canonicalise_segment s ≡ ok n
    → canonicalise_segments ss ≡ ok ns
    → canonicalise_segments (s ∷ ss) ≡ ok (n ∷ ns)
unfolding canonicalise_segments
segments_step s ss h k = rw (h, k)

pub canonicalise_segments-eq :
    {ss ns : List Bytes} → Segments ss ns → canonicalise_segments ss ≡ ok ns
canonicalise_segments-eq done = unfold canonicalise_segments in refl
canonicalise_segments-eq (step g r) =
    segments_step _ _ (canonicalise_segment-eq _ _ g) (canonicalise_segments-eq r)

-- What the code accepts is in the relation.
pub canonicalise_segment-inv :
    (s n d m : Bytes)
    → All IsSegmentByte s
    → Units s d m
    → canonicalise_segment s ≡ ok n
    → Segment s n
unfolding canonicalise_segment
canonicalise_segment-inv [] n d m c u h = cc
canonicalise_segment-inv (b ∷ s) n d m c u h =
    let w = Units-write u in
    let same : m ≡ n = ground (arith, w) in
    record {
      text = d;
      units = rw (← same) u;
      filled = λ e. cc;
      not_dots = ground (arith, w);
      text_not_dots = ground (arith, w);
      clean = c;
    }
