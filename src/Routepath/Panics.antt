-- ===== src/Routepath/Panics.antt =====
-- Every index of routepath/canonicalise.go is in range.
use veduta.Prelude.{
  ℕ, ◌≡◌, sym, ◌∙◌, ◌≢◌, inl, inr, not, List, [], ◌∷◌, append-nil, arith, Bytes, bytes_eq, ok, err,
  ◌>>=◌, >>=-eq-err, guard-err, ◌==◌, if◌then◌else◌,
}
use veduta.Routepath.Escape.{panic, dot_segment, slash, check_escape, check_escapes_well_formed}
use veduta.Routepath.Canonicalise.{
  split, join, is_dots, canonicalise_segment, canonicalise_segments, canonicalise_checked,
  canonicalise, contains, is_query_or_fragment, is_control_or_space,
}
use veduta.Routepath.Units.{Units, Units-write, check_escapes-plain}
use veduta.Routepath.Split.{join-split}
use veduta.Routepath.Reading.{end, more, read_segment}

check_escape-ne-panic : (hi lo : ℕ) → check_escape hi lo ≢ err panic
unfolding check_escape
check_escape-ne-panic hi lo h = ground arith

check_escapes-ne-panic : (s : Bytes) → check_escapes_well_formed s ≢ err panic
unfolding check_escapes_well_formed
check_escapes-ne-panic [] h = cc
check_escapes-ne-panic (c ∷ hi ∷ lo ∷ s) h = ground (
  arith,
  check_escape-ne-panic hi lo,
  check_escapes-ne-panic s,
  check_escapes-ne-panic (hi ∷ lo ∷ s),
)
check_escapes-ne-panic (c ∷ s) h = ground (arith, check_escapes-ne-panic s)

canonicalise_segment-ne-panic : (s d n : Bytes) → Units s d n → canonicalise_segment s ≢ err panic
unfolding canonicalise_segment
canonicalise_segment-ne-panic [] d n u h = cc
canonicalise_segment-ne-panic (c ∷ s) d n u h =
    elim (guard-err (is_dots (c ∷ s)) _ _ (rw (Units-write u) at h)) [
      | inl (_, e) ↦ cc
      | inr (_, k) ↦ elim (guard-err (is_dots d) dot_segment (ok n) k) [
        | inl (_, e) ↦ cc
        | inr (_, e) ↦ cc
      ]
    ]

segments_ne_panic :
    (s : Bytes) (ss : List Bytes)
    → canonicalise_segment s ≢ err panic
    → canonicalise_segments ss ≢ err panic
    → canonicalise_segments (s ∷ ss) ≢ err panic
unfolding canonicalise_segments
segments_ne_panic s ss h k e = ground arith

no_segments_ne_panic : canonicalise_segments [] ≢ err panic
unfolding canonicalise_segments
no_segments_ne_panic h = cc

canonicalise_segments-ne-panic :
    (ss : List Bytes)
    → check_escapes_well_formed (join slash ss) ≡ ok tt
    → canonicalise_segments ss ≢ err panic
canonicalise_segments-ne-panic [] k = no_segments_ne_panic
canonicalise_segments-ne-panic (s ∷ []) k =
    let r = read_segment s [] end (rw append-nil k) in
    segments_ne_panic s [] (canonicalise_segment-ne-panic s _ _ r.units) no_segments_ne_panic
canonicalise_segments-ne-panic (s ∷ t ∷ ss) k =
    let r = read_segment s (slash ∷ join slash (t ∷ ss)) (more _) k in
    let rest : check_escapes_well_formed (join slash (t ∷ ss)) ≡ ok tt =
      sym (check_escapes-plain slash _ (omega arith)) ∙ r.rest in
    segments_ne_panic s (t ∷ ss) (canonicalise_segment-ne-panic s _ _ r.units)
      (canonicalise_segments-ne-panic (t ∷ ss) rest)

checked-ne-panic : (rest : Bytes) → canonicalise_checked rest ≢ err panic
unfolding canonicalise_checked
checked-ne-panic rest h = elim (>>=-eq-err (check_escapes_well_formed (slash ∷ rest)) _ h) [
  | inl e ↦ check_escapes-ne-panic (slash ∷ rest) e
  | inr (u, scan, q) ↦
      let scan' : check_escapes_well_formed (join slash (split slash rest)) ≡ ok tt =
        rw join-split (sym (check_escapes-plain slash rest (omega arith)) ∙ scan) in
      let segs = canonicalise_segments-ne-panic (split slash rest) scan' in not_here rest segs q
]
  where
    not_here :
        (s : Bytes)
        → canonicalise_segments (split slash s) ≢ err panic
        → (if bytes_eq s []
            then ok (slash ∷ [])
            else (canonicalise_segments (split slash s) >>= λ out. ok (slash ∷ join slash out)))
          ≢ err panic
    not_here s n e = ground arith

-- No index is out of range on any path.
pub canonicalise-ne-panic : (raw : Bytes) → canonicalise raw ≢ err panic
unfolding canonicalise
canonicalise-ne-panic [] h = cc
canonicalise-ne-panic (c ∷ rest) h = elim (guard-err (not (c == slash)) _ _ h) [
  | inl (_, e) ↦ cc
  | inr (_, h1) ↦ elim (guard-err (contains (λ b. b == 92) (c ∷ rest)) _ _ h1) [
    | inl (_, e) ↦ cc
    | inr (_, h2) ↦ elim (guard-err (contains is_query_or_fragment (c ∷ rest)) _ _ h2) [
      | inl (_, e) ↦ cc
      | inr (_, h3) ↦ elim (guard-err (contains is_control_or_space (c ∷ rest)) _ _ h3) [
        | inl (_, e) ↦ cc
        | inr (_, h4) ↦ checked-ne-panic rest h4
      ]
    ]
  ]
]
