-- ===== src/Routepath/Cuts.antt =====
-- The string functions that routepath/match.go calls: prefixes, suffixes and the leftmost place.
use veduta.Prelude.{
  ℕ, zero, suc, ◌-◌, ◌≤◌, ◌≡◌, refl, sym, ap, ◌∙◌, inl, inr, Bool, true, false, ◌&&◌, none, some,
  [], ◌∷◌, ◌++◌, append_assoc, arith, Bytes, length, length-append, drop, take, bytes_eq,
  bytes_eq→≡, bytes_eq_refl, leb, ◌==◌, if◌then◌else◌, ==_iff, Bool-cases, Option-cases,
}
use veduta.Routepath.Glob.{cut_prefix, cut_suffix, after_index}

-- The cuts of a text, exactly.
pub cut_prefix-inv : (p s : Bytes) {r : Bytes} → cut_prefix p s ≡ some r → s ≡ p ++ r
cut_prefix-inv [] s h = ground arith
cut_prefix-inv (p ∷ ps) [] h = cc
cut_prefix-inv (p ∷ ps) (c ∷ s) h = elim (Bool-cases (p == c)) [
  | inl same ↦ rw ((==_iff p c).0 same, cut_prefix-inv ps s (rw same at h))
  | inr other ↦ cc (rw other at h)
]

pub cut_prefix-append : (p r : Bytes) → cut_prefix p (p ++ r) ≡ some r
cut_prefix-append [] r = refl
cut_prefix-append (p ∷ ps) r = rw ((==_iff p p).1 refl) (cut_prefix-append ps r)

take_append : (n : ℕ) (s : Bytes) → take n s ++ drop n s ≡ s
take_append zero s = refl
take_append (suc n) [] = refl
take_append (suc n) (c ∷ s) = ap (λ t. c ∷ t) (take_append n s)

drop_append : (m p : Bytes) → drop (length m) (m ++ p) ≡ p
drop_append [] p = refl
drop_append (c ∷ m) p = drop_append m p

take-length : (m p : Bytes) → take (length m) (m ++ p) ≡ m
take-length [] p = refl
take-length (c ∷ m) p = ap (λ t. c ∷ t) (take-length m p)

pub cut_suffix-inv : (p s : Bytes) {m : Bytes} → cut_suffix p s ≡ some m → s ≡ m ++ p
cut_suffix-inv p s h =
    let n = length s - length p in
    let (fits, e) = cut_inv (leb (length p) (length s) && bytes_eq (drop n s) p) h in
    let same : drop n s ≡ p = bytes_eq→≡ (drop n s) p (ground arith) in
    rw (← same, ← e) (sym (take_append n s))
  where
    cut_inv :
        (b : Bool) {t m : Bytes} → (if b then some t else none) ≡ some m → (b ≡ true) × (t ≡ m)
    cut_inv true k = (refl, cc)
    cut_inv false k = cc

le→leb : (a b : ℕ) → a ≤ b → leb a b ≡ true
le→leb a b h = ground arith

pub cut_suffix-append : (m p : Bytes) → cut_suffix p (m ++ p) ≡ some m
cut_suffix-append m p =
    let n : length (m ++ p) - length p ≡ length m = omega (arith, length-append m p) in
    rw (
      n,
      drop_append,
      take-length,
      bytes_eq_refl,
      le→leb (length p) (length (m ++ p)) (omega (arith, length-append m p)),
    )

-- Two ways to cut one text: the longer left part leaves a suffix of what the shorter leaves.
pub suffix_of_cut :
    (a b x y : Bytes) → a ++ x ≡ b ++ y → length a ≤ length b → (pre : Bytes) × (x ≡ pre ++ y)
suffix_of_cut [] b x y e h = (b, e)
suffix_of_cut (c ∷ a) [] x y e h = absurd (omega arith)
suffix_of_cut (c ∷ a) (d ∷ b) x y e h = suffix_of_cut a b x y (cc) (omega arith)

after_index-here :
    (q : Bytes) (c : ℕ) (s : Bytes) {r : Bytes}
    → cut_prefix q (c ∷ s) ≡ some r
    → after_index q (c ∷ s) ≡ some r
unfolding after_index
after_index-here q c s h = rw (h, after_index)

after_index-later :
    (q : Bytes) (c : ℕ) (s : Bytes)
    → cut_prefix q (c ∷ s) ≡ none
    → after_index q (c ∷ s) ≡ after_index q s
unfolding after_index
after_index-later q c s h = rw (h, after_index)

after_index-end : (q : Bytes) → after_index q [] ≡ cut_prefix q []
unfolding after_index
after_index-end q = refl

-- The leftmost place is a place.
pub after_index-inv :
    (q s : Bytes) {r : Bytes} → after_index q s ≡ some r → (gap : Bytes) × (s ≡ gap ++ (q ++ r))
after_index-inv q [] h = ([], cut_prefix-inv q [] (sym (after_index-end q) ∙ h))
after_index-inv q (c ∷ s) h = elim (Option-cases (cut_prefix q (c ∷ s))) [
  | inl e ↦
      let (gap, f) = after_index-inv q s (sym (after_index-later q c s e) ∙ h) in
      (c ∷ gap, ap (λ t. c ∷ t) f)
  | inr (rest, e) ↦ ([], cut_prefix-inv q (c ∷ s) (e ∙ sym (after_index-here q c s e) ∙ h))
]

-- What a place of the part leaves is a suffix of what the leftmost place leaves.
pub record Leftmost (q r s : Bytes) : Type 0 where
  pub rest : Bytes
  pub before : Bytes
  pub found : after_index q s ≡ some rest
  pub behind : rest ≡ before ++ r

Leftmost-here :
    (q gap r : Bytes) (c : ℕ) (s : Bytes) {rest : Bytes}
    → c ∷ s ≡ gap ++ (q ++ r)
    → cut_prefix q (c ∷ s) ≡ some rest
    → Leftmost q r (c ∷ s)
Leftmost-here q gap r c s {rest} e h =
    let cut : q ++ rest ≡ (gap ++ q) ++ r =
      sym (cut_prefix-inv q (c ∷ s) h) ∙ e ∙ sym (append_assoc gap q r) in
    let (pre, f) = suffix_of_cut q (gap ++ q) rest r cut (omega (arith, length-append gap q)) in
    record { rest = rest; before = pre; found = after_index-here q c s h; behind = f }

pub after_index-Leftmost : (q gap r s : Bytes) → s ≡ gap ++ (q ++ r) → Leftmost q r s
after_index-Leftmost [] [] r [] e = record {
  rest = [];
  before = [];
  found = after_index-end [];
  behind = e;
}
after_index-Leftmost (x ∷ q) [] r [] e = cc
after_index-Leftmost q (x ∷ gap) r [] e = cc
after_index-Leftmost q [] r (c ∷ s) e =
    Leftmost-here q [] r c s e (ap (cut_prefix q) e ∙ cut_prefix-append q r)
after_index-Leftmost q (x ∷ gap) r (c ∷ s) e = elim (Option-cases (cut_prefix q (c ∷ s))) [
  | inr (rest, h) ↦ Leftmost-here q (x ∷ gap) r c s e h
  | inl h ↦
      let k = after_index-Leftmost q gap r s (cc) in
      record {
        rest = k.rest;
        before = k.before;
        found = after_index-later q c s h ∙ k.found;
        behind = k.behind;
      }
]
