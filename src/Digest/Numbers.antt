-- ===== src/Digest/Numbers.antt =====
-- The numbers of a canonical text can be read back.
use veduta.Prelude.{
  ℕ, zero, suc, ◌+◌, ◌-◌, ◌*◌, ◌/◌, ◌%◌, ◌<◌, ◌≡◌, refl, sym, ap, ◌∙◌, ◌≢◌, inl, inr, Bool, true,
  false, ◌||◌, [], ◌∷◌, ◌++◌, append_assoc, arith, Bytes, ◌==◌, if◌then◌else◌, Bool-cases,
}
use veduta.Digest.Value.{ℤ, pos, negsuc}
use veduta.Digest.Normal.{is_digit}
use veduta.Digest.Text.{digits_from, digits, format_int}

-- A rest that does not go on with a digit.
abbrev pub Stops : Bytes → Type 0
Stops [] = Unit {0}
Stops (c ∷ cs) = is_digit c ≡ false

-- Reading of digits, and what is left.
read : ℕ → Bytes → ℕ × Bytes
read n [] = (n, [])
read n (c ∷ cs) =
    let rest = read (n * 10 + (c - b'0')) cs in if is_digit c then rest else (n, c ∷ cs)

read-Stops : (n : ℕ) (r : Bytes) → Stops r → read n r ≡ (n, r)
unfolding read
read-Stops n [] h = refl
read-Stops n (c ∷ cs) h = rw h refl

digit_is_digit : (n : ℕ) → is_digit (b'0' + n % 10) ≡ true
digit_is_digit n = ground arith

read_digit : (m n : ℕ) (r : Bytes) → read m ((b'0' + n % 10) ∷ r) ≡ read (m * 10 + n % 10) r
unfolding read
read_digit m n r = rw (digit_is_digit n) (ap (λ t. read (m * 10 + t) r) (omega arith))

read-digits_from : (fuel n : ℕ) (r : Bytes) → n < fuel → read 0 (digits_from fuel n ++ r) ≡ read n r
unfolding digits_from
read-digits_from zero n r h = absurd (omega arith)
read-digits_from (suc fuel) n r h = elim (Bool-cases (n / 10 == 0)) [
  | inl e ↦ rw e (read_digit 0 n r ∙ ap (λ t. read t r) (small e))
  | inr e ↦ rw e (
      ap (read 0) (append_assoc (digits_from fuel (n / 10)) ((b'0' + n % 10) ∷ []) r)
      ∙ (read-digits_from fuel (n / 10) ((b'0' + n % 10) ∷ r) (large e)
          ∙ (read_digit (n / 10) n r ∙ ap (λ t. read t r) (omega arith))))
]
  where
    small : (n / 10 == 0) ≡ true → 0 * 10 + n % 10 ≡ n
    small e = ground arith

    large : (n / 10 == 0) ≡ false → n / 10 < fuel
    large e = ground arith

pair_parts : {m n : ℕ} {r s : Bytes} → ◌≡◌ {A = ℕ × Bytes} (m, r) (n, s) → (m ≡ n) × (r ≡ s)
pair_parts h = (cc, cc)

digits-injective :
    (m n : ℕ) (r s : Bytes) → Stops r → Stops s → digits m ++ r ≡ digits n ++ s → (m ≡ n) × (r ≡ s)
unfolding digits
digits-injective m n r s p q h = pair_parts (
    sym (read-digits_from (m + 1) m r (omega arith) ∙ read-Stops m r p)
    ∙ (ap (read 0) h ∙ (read-digits_from (n + 1) n s (omega arith) ∙ read-Stops n s q)))

-- Digits begin with a digit.
abbrev pub begins : (ℕ → Bool) → Bytes → Bool
begins p [] = false
begins p (c ∷ cs) = p c

digits_from-begins :
    (fuel n : ℕ) (r : Bytes) → n < fuel → begins is_digit (digits_from fuel n ++ r) ≡ true
unfolding digits_from
digits_from-begins zero n r h = absurd (omega arith)
digits_from-begins (suc fuel) n r h = elim (Bool-cases (n / 10 == 0)) [
  | inl e ↦ rw e (digit_is_digit n)
  | inr e ↦ rw e (
      ap (begins is_digit) (append_assoc (digits_from fuel (n / 10)) ((b'0' + n % 10) ∷ []) r)
      ∙ digits_from-begins fuel (n / 10) ((b'0' + n % 10) ∷ r) (large e))
]
  where
    large : (n / 10 == 0) ≡ false → n / 10 < fuel
    large e = ground arith

digits-begins : (n : ℕ) (r : Bytes) → begins is_digit (digits n ++ r) ≡ true
unfolding digits
digits-begins n r = digits_from-begins (n + 1) n r (omega arith)

abbrev pub is_number_lead : ℕ → Bool
is_number_lead c = is_digit c || c == b'-'

pub format_int-begins : (i : ℤ) (r : Bytes) → begins is_number_lead (format_int i ++ r) ≡ true
unfolding format_int
format_int-begins (pos n) r = weaker (digits n ++ r) (digits-begins n r)
  where
    weaker : (t : Bytes) → begins is_digit t ≡ true → begins is_number_lead t ≡ true
    weaker [] h = cc
    weaker (c ∷ cs) h = rw h refl
format_int-begins (negsuc n) r = refl

minus-ne-digits : (n : ℕ) (r : Bytes) (s : Bytes) → digits n ++ r ≢ b'-' ∷ s
minus-ne-digits n r s h = cc (sym (digits-begins n r) ∙ ap (begins is_digit) h)

-- A number and a rest that does not go on with a digit are told apart by their text.
pub format_int-injective :
    (i j : ℤ) (r s : Bytes)
    → Stops r
    → Stops s
    → format_int i ++ r ≡ format_int j ++ s
    → (i ≡ j) × (r ≡ s)
unfolding format_int
format_int-injective (pos m) (pos n) r s p q h =
    let (a, b) = digits-injective m n r s p q h in (ap pos a, b)
format_int-injective (pos m) (negsuc n) r s p q h = absurd (minus-ne-digits m r _ h)
format_int-injective (negsuc m) (pos n) r s p q h = absurd (minus-ne-digits n s _ (sym h))
format_int-injective (negsuc m) (negsuc n) r s p q h =
    let (a, b) = digits-injective (m + 1) (n + 1) r s p q (cc) in (ap negsuc (omega (arith, a)), b)
