-- ===== src/Routepath/Reading.antt =====
-- What the scan of routepath/canonicalise.go shows of each segment.
use veduta.Prelude.{
  ℕ, ◌≡◌, sym, ◌∙◌, ◌≢◌, inl, inr, [], ◌∷◌, ◌++◌, arith, Bytes, ok, ◌==◌, ==_iff, Bool-cases,
}
use veduta.Routepath.Escape.{
  slash, percent, hex_byte, is_unreserved, check_escape, check_escapes_well_formed,
}
use veduta.Routepath.Hex.{check_escape-Escaped}
use veduta.Routepath.Units.{Units, nothing, plain, decoded, kept, check_escapes-plain}

-- What may follow a segment: the end, or a separator.
pub data Tail : Bytes → Type 0 where
  end : Tail []
  more : (y : Bytes) → Tail (slash ∷ y)

-- The scan of a segment with its tail is not well formed when an escape is cut short.
abbrev Passes : Bytes → Type 0
Passes s = check_escapes_well_formed s ≡ ok tt

cut_after_one : (r : Bytes) → Tail r → ¬ Passes (percent ∷ r)
unfolding check_escapes_well_formed check_escape
cut_after_one r end h = cc
cut_after_one r (more []) h = cc
cut_after_one r (more (a ∷ y)) h = ground arith

cut_after_two : (a : ℕ) (r : Bytes) → Tail r → ¬ Passes (percent ∷ a ∷ r)
unfolding check_escapes_well_formed check_escape
cut_after_two a r end h = cc
cut_after_two a r (more y) h = ground arith

-- Only a passed escape lets the scan go on behind it.
escape_inv :
    (hi lo : ℕ) (s : Bytes)
    → Passes (percent ∷ hi ∷ lo ∷ s)
    → (check_escape hi lo ≡ ok tt) × Passes s
unfolding check_escapes_well_formed
escape_inv hi lo s h = ground arith

pub record ReadBy (x r : Bytes) : Type 0 where
  pub text : Bytes
  pub normal : Bytes
  pub units : Units x text normal
  pub rest : Passes r

read_plain : (c : ℕ) {x r : Bytes} → c ≢ percent → ReadBy x r → ReadBy (c ∷ x) r
read_plain c h k = record {
  text = c ∷ k.text;
  normal = c ∷ k.normal;
  units = plain h k.units;
  rest = k.rest;
}

read_escape :
    (hi lo : ℕ) {x r : Bytes}
    → check_escape hi lo ≡ ok tt
    → ReadBy x r
    → ReadBy (percent ∷ hi ∷ lo ∷ x) r
read_escape hi lo h k = elim (Bool-cases (is_unreserved (hex_byte hi lo))) [
  | inl literal ↦ record {
    text = _;
    normal = _;
    units = decoded (check_escape-Escaped hi lo h) literal k.units;
    rest = k.rest;
  }
  | inr escaped ↦ record {
    text = _;
    normal = _;
    units = kept (check_escape-Escaped hi lo h) escaped k.units;
    rest = k.rest;
  }
]

-- A segment that the scan lets through, whatever follows, is read to its end.
pub read_segment : (x r : Bytes) → Tail r → Passes (x ++ r) → ReadBy x r
read_segment [] r t h = record { text = []; normal = []; units = nothing; rest = h }
read_segment (c ∷ []) r t h = elim (Bool-cases (c == percent)) [
  | inl same ↦ absurd (cut_after_one r t (rw (← (==_iff c percent).0 same) h))
  | inr other ↦
      let ne : c ≢ percent = ground arith in
      read_plain c ne (read_segment [] r t (sym (check_escapes-plain c r ne) ∙ h))
]
read_segment (c ∷ a ∷ []) r t h = elim (Bool-cases (c == percent)) [
  | inl same ↦ absurd (cut_after_two a r t (rw (← (==_iff c percent).0 same) h))
  | inr other ↦
      let ne : c ≢ percent = ground arith in
      read_plain c ne (read_segment (a ∷ []) r t (sym (check_escapes-plain c (a ∷ r) ne) ∙ h))
]
read_segment (c ∷ a ∷ b ∷ x) r t h = elim (Bool-cases (c == percent)) [
  | inl same ↦
      let e : c ≡ percent = (==_iff c percent).0 same in
      let p = escape_inv a b (x ++ r) (rw e at h) in
      rw e (read_escape a b p.0 (read_segment x r t p.1))
  | inr other ↦
      let ne : c ≢ percent = ground arith in
      read_plain c ne
        (read_segment (a ∷ b ∷ x) r t (sym (check_escapes-plain c (a ∷ b ∷ x ++ r) ne) ∙ h))
]
