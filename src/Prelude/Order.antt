-- ===== src/Prelude/Order.antt =====
-- Go's order on strings, sorting by it, and the sets that sorted lists without repeats stand for.
use mathlib.Core.Path.{◌≡◌, refl}
use mathlib.Core.Logic.{◌⊎◌, inl, inr}
use mathlib.Core.Bool.{Bool, true, false}
use mathlib.Core.List.{List, [], ◌∷◌}
use native.Mathlib.Omega.{arith}
use veduta.Prelude.Tests.{ltb, ◌==◌, if◌then◌else◌, Bool-cases}
use veduta.Prelude.Lists.{Bytes, bytes_eq, bytes_eq_refl}

-- `a < b` on strings: at the first difference, else by length.
unfoldable pub lex_less : Bytes → Bytes → Bool
lex_less [] [] = false
lex_less [] (y ∷ ys) = true
lex_less (x ∷ xs) [] = false
lex_less (x ∷ xs) (y ∷ ys) = if x == y then lex_less xs ys else ltb x y

pub lex_less_irrefl : (xs : Bytes) → lex_less xs xs ≡ false
unfolding lex_less
lex_less_irrefl [] = refl
lex_less_irrefl (x ∷ xs) = ground (arith, lex_less_irrefl xs)

pub lex_less_connected : (xs ys : Bytes) → lex_less xs ys ≡ false → lex_less ys xs ≡ false → xs ≡ ys
unfolding lex_less
lex_less_connected [] [] h k = refl
lex_less_connected [] (y ∷ ys) h k = cc
lex_less_connected (x ∷ xs) [] h k = cc
lex_less_connected (x ∷ xs) (y ∷ ys) h k = ground (arith, lex_less_connected xs ys)

pub lex_less_trans :
    (xs ys zs : Bytes) → lex_less xs ys ≡ true → lex_less ys zs ≡ true → lex_less xs zs ≡ true
unfolding lex_less
lex_less_trans [] [] zs h k = cc
lex_less_trans [] (y ∷ ys) [] h k = cc
lex_less_trans [] (y ∷ ys) (z ∷ zs) h k = refl
lex_less_trans (x ∷ xs) [] zs h k = cc
lex_less_trans (x ∷ xs) (y ∷ ys) [] h k = cc
lex_less_trans (x ∷ xs) (y ∷ ys) (z ∷ zs) h k = ground (arith, lex_less_trans xs ys zs)

pub lex_less_asym : (xs ys : Bytes) → lex_less xs ys ≡ true → lex_less ys xs ≡ false
unfolding lex_less
lex_less_asym [] [] h = refl
lex_less_asym [] (y ∷ ys) h = refl
lex_less_asym (x ∷ xs) [] h = cc
lex_less_asym (x ∷ xs) (y ∷ ys) h = ground (arith, lex_less_asym xs ys)

-- `sort.Strings`.
unfoldable pub sort_in : Bytes → List Bytes → List Bytes
unfolding lex_less
sort_in x [] = x ∷ []
sort_in x (y ∷ ys) = if lex_less y x then y ∷ sort_in x ys else x ∷ y ∷ ys

unfoldable pub sort : List Bytes → List Bytes
unfolding sort_in
sort [] = []
sort (x ∷ xs) = sort_in x (sort xs)

-- The loop that follows a sort: an item equal to the one before it is left out.
unfoldable pub dedupe_after : Bytes → List Bytes → List Bytes
dedupe_after p [] = []
dedupe_after p (x ∷ xs) = let rest = dedupe_after x xs in if bytes_eq x p then rest else x ∷ rest

unfoldable pub dedupe : List Bytes → List Bytes
unfolding dedupe_after
dedupe [] = []
dedupe (x ∷ xs) = x ∷ dedupe_after x xs

-- Insertion into a strictly ascending list.
unfoldable pub put : Bytes → List Bytes → List Bytes
put x [] = x ∷ []
put x (y ∷ ys) = if lex_less y x then y ∷ put x ys else if bytes_eq y x then y ∷ ys else x ∷ y ∷ ys

unfoldable pub set_of : List Bytes → List Bytes
set_of [] = []
set_of (x ∷ xs) = put x (set_of xs)

abbrev pub Member : Bytes → List Bytes → Type 0
Member a [] = ⊥
Member a (x ∷ xs) = (x ≡ a) ⊎ Member a xs

-- Every item is at least the bound.
abbrev pub AtLeast : Bytes → List Bytes → Type 0
AtLeast p [] = Unit {0}
AtLeast p (x ∷ xs) = (lex_less x p ≡ false) × AtLeast p xs

abbrev pub Above : Bytes → List Bytes → Type 0
Above p [] = Unit {0}
Above p (x ∷ xs) = (lex_less p x ≡ true) × Above p xs

abbrev pub Ascending : List Bytes → Type 0
Ascending [] = Unit {0}
Ascending (x ∷ xs) = Above x xs × Ascending xs

Above-trans : (p q : Bytes) (xs : List Bytes) → lex_less p q ≡ true → Above q xs → Above p xs
Above-trans p q [] h k = tt
Above-trans p q (x ∷ xs) h k = (lex_less_trans p q x h k.0, Above-trans p q xs h k.1)

Above-put : (p x : Bytes) (ys : List Bytes) → lex_less p x ≡ true → Above p ys → Above p (put x ys)
unfolding put
Above-put p x [] h k = (h, tt)
Above-put p x (y ∷ ys) h k = ground (arith, Above-put p x ys h k.1)

pub put-Ascending : (x : Bytes) (ys : List Bytes) → Ascending ys → Ascending (put x ys)
unfolding put
put-Ascending x [] h = (tt, tt)
put-Ascending x (y ∷ ys) h = elim (Bool-cases (lex_less y x)) [
  | inl below ↦ rw below (Above-put y x ys below h.0, put-Ascending x ys h.1)
  | inr e ↦ elim (Bool-cases (bytes_eq y x)) [
    | inl same ↦ rw (e, same) h
    | inr apart ↦ rw (e, apart) (first (Bool-cases (lex_less x y)) e apart)
  ]
]
  where
    first :
        (lex_less x y ≡ true) ⊎ (lex_less x y ≡ false)
        → lex_less y x ≡ false
        → bytes_eq y x ≡ false
        → Ascending (x ∷ y ∷ ys)
    first (inl l) e apart = ((l, Above-trans x y ys l h.0), h)
    first (inr l) e apart = absurd (cc (lex_less_connected x y l e, bytes_eq_refl x, apart))

pub set_of-Ascending : (xs : List Bytes) → Ascending (set_of xs)
unfolding set_of
set_of-Ascending [] = tt
set_of-Ascending (x ∷ xs) = put-Ascending x (set_of xs) (set_of-Ascending xs)
