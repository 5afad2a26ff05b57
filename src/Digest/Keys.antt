-- ===== src/Digest/Keys.antt =====
-- The order of keys of canonical/canonical.go tells keys apart.
use veduta.Prelude.{
  ℕ, ◌<◌, ◌≡◌, refl, sym, ap, ◌∙◌, ◌≢◌, ◌⊎◌, List, [], ◌∷◌, arith, Bytes, All, lex_less_connected,
  lex_less_trans, lex_less_asym,
}
use veduta.Digest.Runes.{runes, encode}
use veduta.Digest.Text.{utf16, Row, sort_row, sort_rows}

-- A Unicode scalar value: no surrogate, and below 0x110000.
abbrev pub IsRune : ℕ → Type 0
IsRune r = (r < 1114112) × ((r < 55296) ⊎ (57343 < r))

-- Valid UTF-8: the runes that reading gives are scalar values, and writing them gives the string.
abbrev pub IsText : Bytes → Type 0
IsText s = All IsRune (runes s) × (encode (runes s) ≡ s)

-- Runes are determined by their UTF-16 encoding, whose first unit tells how many it has.
utf16-injective : (s t : Bytes) → All IsRune s → All IsRune t → utf16 s ≡ utf16 t → s ≡ t
unfolding utf16
utf16-injective [] [] p q h = refl
utf16-injective [] (r ∷ rs) p q h = ground arith
utf16-injective (r ∷ rs) [] p q h = ground arith
utf16-injective (r ∷ rs) (t ∷ ts) p q h = ground (arith, utf16-injective rs ts p.1 q.1)

-- Texts are determined by the UTF-16 of their runes.
key_injective : (s t : Bytes) → IsText s → IsText t → utf16 (runes s) ≡ utf16 (runes t) → s ≡ t
key_injective s t p q h =
    sym p.1 ∙ (ap encode (utf16-injective (runes s) (runes t) p.0 q.0 h) ∙ q.1)

-- Rows with different keys may be sorted in in either order.
sort_row_swap :
    {A : Type 0} (p q : Row A) (rs : List (Row A))
    → utf16 (runes p.0) ≢ utf16 (runes q.0)
    → sort_row p (sort_row q rs) ≡ sort_row q (sort_row p rs)
unfolding sort_row
sort_row_swap p q [] h = ground (
  arith,
  lex_less_asym (utf16 (runes p.0)) (utf16 (runes q.0)),
  lex_less_connected (utf16 (runes p.0)) (utf16 (runes q.0)),
)
sort_row_swap p q (r ∷ rs) h = ground (
  arith,
  sort_row_swap p q rs h,
  lex_less_asym (utf16 (runes p.0)) (utf16 (runes q.0)),
  lex_less_connected (utf16 (runes p.0)) (utf16 (runes q.0)),
  lex_less_trans (utf16 (runes r.0)) (utf16 (runes p.0)) (utf16 (runes q.0)),
  lex_less_trans (utf16 (runes r.0)) (utf16 (runes q.0)) (utf16 (runes p.0)),
)

pub sort_rows_swap :
    {A : Type 0} (p q : Row A) (rs : List (Row A))
    → IsText p.0
    → IsText q.0
    → p.0 ≢ q.0
    → sort_rows (p ∷ q ∷ rs) ≡ sort_rows (q ∷ p ∷ rs)
unfolding sort_rows
sort_rows_swap p q rs a b h =
    sort_row_swap p q (sort_rows rs) (λ e. h (key_injective p.0 q.0 a b e))
