-- ===== src/Digest/Strings.antt =====
-- The strings of a canonical text can be read back.
use veduta.Prelude.{
  ℕ, ◌+◌, ◌-◌, ◌*◌, ◌≡◌, refl, sym, ap, ◌∙◌, ◌≢◌, Option, none, some, [], ◌∷◌, ◌++◌, append_assoc,
  arith, Bytes, ltb, ◌==◌, if◌then◌else◌,
}
use veduta.Digest.Text.{escape_rune, escape_runes}

abbrev unhex : ℕ → ℕ
unhex c = if ltb c 58 then c - b'0' else c + 10 - b'a'

-- The code point that an escape stands for, and what is left after it.
abbrev after_backslash : Bytes → Option (ℕ × Bytes)
after_backslash [] = none
after_backslash (c ∷ cs) =
    if c == 34
    then some (34, cs)
    else if c == 92
    then some (92, cs)
    else if c == b'b'
    then some (8, cs)
    else if c == b'f'
    then some (12, cs)
    else if c == b'n'
    then some (10, cs)
    else if c == b'r'
    then some (13, cs)
    else if c == b't'
    then some (9, cs)
    else elim cs [ x ∷ y ∷ a ∷ b ∷ ds ↦ some (unhex a * 16 + unhex b, ds) | _ ↦ none ]

unescape : Bytes → Option (ℕ × Bytes)
unescape [] = none
unescape (c ∷ cs) = if c == 92 then after_backslash cs else some (c, cs)

unescape-escape_rune : (c : ℕ) (r : Bytes) → unescape (escape_rune c ++ r) ≡ some (c, r)
unfolding unescape escape_rune
unescape-escape_rune c r = ground arith

escape_rune-ne-quote : (c : ℕ) (r s : Bytes) → escape_rune c ++ r ≢ 34 ∷ s
unfolding escape_rune
escape_rune-ne-quote c r s h = ground arith

parts :
    {m n : ℕ} {r s : Bytes}
    → ◌≡◌ {A = Option (ℕ × Bytes)} (some (m, r)) (some (n, s))
    → (m ≡ n) × (r ≡ s)
parts h = (cc, cc)

escape_rune-injective :
    (c d : ℕ) (r s : Bytes) → escape_rune c ++ r ≡ escape_rune d ++ s → (c ≡ d) × (r ≡ s)
escape_rune-injective c d r s h =
    parts (sym (unescape-escape_rune c r) ∙ (ap unescape h ∙ unescape-escape_rune d s))

-- The escaped text ends at the first quote that is not escaped.
pub escape_runes-injective :
    (s t r u : Bytes) → escape_runes s ++ (34 ∷ r) ≡ escape_runes t ++ (34 ∷ u) → (s ≡ t) × (r ≡ u)
unfolding escape_runes
escape_runes-injective [] [] r u h = (refl, cc)
escape_runes-injective [] (d ∷ ds) r u h = absurd (
    escape_rune-ne-quote d (escape_runes ds ++ (34 ∷ u)) r
      (sym (append_assoc (escape_rune d) (escape_runes ds) (34 ∷ u)) ∙ sym h))
escape_runes-injective (c ∷ cs) [] r u h = absurd (
    escape_rune-ne-quote c (escape_runes cs ++ (34 ∷ r)) u
      (sym (append_assoc (escape_rune c) (escape_runes cs) (34 ∷ r)) ∙ h))
escape_runes-injective (c ∷ cs) (d ∷ ds) r u h =
    let (a, b) = escape_rune-injective c d _ _ (
      sym (append_assoc (escape_rune c) (escape_runes cs) (34 ∷ r))
      ∙ (h ∙ append_assoc (escape_rune d) (escape_runes ds) (34 ∷ u))) in
    let (e, f) = escape_runes-injective cs ds r u b in (cc, f)
