-- ===== src/Prelude/Sets.antt =====
-- What sorting and leaving out repeats keeps of a list: its members, and nothing else.
use mathlib.Core.Path.{◌≡◌, refl, sym, ap, ◌∙◌}
use mathlib.Core.Logic.{◌↔◌, ◌⊎◌, inl, inr}
use mathlib.Core.Bool.{true, false}
use mathlib.Core.List.{List, [], ◌∷◌}
use veduta.Prelude.Tests.{Bool-cases}
use veduta.Prelude.Lists.{All, Bytes, bytes_eq, bytes_eq→≡}
use veduta.Prelude.Order.{
  lex_less, lex_less_irrefl, lex_less_asym, sort, sort_in, dedupe, dedupe_after, put, set_of,
  Member, Above, Ascending, set_of-Ascending,
}

pub put-Member : (a x : Bytes) (ys : List Bytes) → Member a (put x ys) → (x ≡ a) ⊎ Member a ys
unfolding put
put-Member a x [] m = m
put-Member a x (y ∷ ys) m = elim (Bool-cases (lex_less y x)) [
  | inl below ↦ elim (rw below at m) as (λ _. (x ≡ a) ⊎ Member a (y ∷ ys)) [
    | inl e ↦ inr (inl e)
    | inr k ↦ elim (put-Member a x ys k) [ inl e ↦ inl e | inr t ↦ inr (inr t) ]
  ]
  | inr e ↦ elim (Bool-cases (bytes_eq y x)) [
    | inl same ↦ inr (rw (e, same) at m)
    | inr apart ↦ rw (e, apart) at m
  ]
]

pub Member-put : (a x : Bytes) (ys : List Bytes) → (x ≡ a) ⊎ Member a ys → Member a (put x ys)
unfolding put
Member-put a x [] m = m
Member-put a x (y ∷ ys) m = elim (Bool-cases (lex_less y x)) [
  | inl below ↦ rw below (elim m as (λ _. (y ≡ a) ⊎ Member a (put x ys)) [
    | inl e ↦ inr (Member-put a x ys (inl e))
    | inr t ↦ elim t [ inl e ↦ inl e | inr k ↦ inr (Member-put a x ys (inr k)) ]
  ])
  | inr e ↦ elim (Bool-cases (bytes_eq y x)) [
    | inl same ↦
        rw (e, same)
          (elim m as (λ _. (y ≡ a) ⊎ Member a ys) [
            | inl here ↦ inl (bytes_eq→≡ y x same ∙ here)
            | inr t ↦ t
          ])
    | inr apart ↦ rw (e, apart) m
  ]
]

pub set_of-Member : (a : Bytes) (xs : List Bytes) → Member a (set_of xs) → Member a xs
unfolding set_of
set_of-Member a [] m = m
set_of-Member a (x ∷ xs) m = elim (put-Member a x (set_of xs) m) [
  | inl e ↦ inl e
  | inr k ↦ inr (set_of-Member a xs k)
]

pub Member-set_of : (a : Bytes) (xs : List Bytes) → Member a xs → Member a (set_of xs)
unfolding set_of
Member-set_of a [] m = m
Member-set_of a (x ∷ xs) (inl e) = Member-put a x (set_of xs) (inl e)
Member-set_of a (x ∷ xs) (inr k) = Member-put a x (set_of xs) (inr (Member-set_of a xs k))

Above-Member : (p a : Bytes) (xs : List Bytes) → Above p xs → Member a xs → lex_less p a ≡ true
Above-Member p a [] h m = absurd m
Above-Member p a (x ∷ xs) h (inl e) = rw e at h.0
Above-Member p a (x ∷ xs) h (inr m) = Above-Member p a xs h.1 m

-- The least members of two ascending lists with the same members are the same.
heads_eq :
    (x y : Bytes) (xs ys : List Bytes)
    → Above x xs
    → Above y ys
    → Member x (y ∷ ys)
    → Member y (x ∷ xs)
    → x ≡ y
heads_eq x y xs ys p q (inl e) n = sym e
heads_eq x y xs ys p q (inr m) (inl e) = e
heads_eq x y xs ys p q (inr m) (inr n) =
    absurd (cc (lex_less_asym y x (Above-Member y x ys q m), Above-Member x y xs p n))

tail_keeps :
    (x a : Bytes) (xs ys : List Bytes)
    → Above x xs
    → Member a xs
    → (x ≡ a) ⊎ Member a ys
    → Member a ys
tail_keeps x a xs ys p m (inl e) =
    absurd (cc (rw (← e) at (Above-Member x a xs p m), lex_less_irrefl x))
tail_keeps x a xs ys p m (inr k) = k

-- An ascending list is determined by its members.
pub Ascending-unique :
    (xs ys : List Bytes)
    → Ascending xs
    → Ascending ys
    → ((a : Bytes) → Member a xs → Member a ys)
    → ((a : Bytes) → Member a ys → Member a xs)
    → xs ≡ ys
Ascending-unique [] [] p q f g = refl
Ascending-unique [] (y ∷ ys) p q f g = absurd (g y (inl refl))
Ascending-unique (x ∷ xs) [] p q f g = absurd (f x (inl refl))
Ascending-unique (x ∷ xs) (y ∷ ys) p q f g =
    let e : x ≡ y = heads_eq x y xs ys p.0 q.0 (f x (inl refl)) (g y (inl refl)) in
    let rest : xs ≡ ys =
      Ascending-unique xs ys p.1 q.1 (λ a m. tail_keeps x a xs ys p.0 m (rw (← e) at (f a (inr m))))
        (λ a m. tail_keeps y a ys xs q.0 m (rw e at (g a (inr m)))) in
    cc

-- Sorting and then leaving out repeats makes the ascending list.
bytes_ne : (x y : Bytes) → lex_less x y ≡ true → bytes_eq y x ≡ false
bytes_ne x y h = elim (Bool-cases (bytes_eq y x)) [
  | inl e ↦ cc (rw (bytes_eq→≡ y x e) at h, lex_less_irrefl x)
  | inr e ↦ e
]

dedupe_after-sort_in :
    (p x : Bytes) (ys : List Bytes)
    → lex_less p x ≡ true
    → dedupe_after p (sort_in x ys) ≡ put x (dedupe_after p ys)
unfolding sort_in dedupe_after put
dedupe_after-sort_in p x [] h = rw (bytes_ne p x h) refl
dedupe_after-sort_in p x (z ∷ zs) h = elim (Bool-cases (lex_less z x)) [
  | inl below ↦ elim (Bool-cases (bytes_eq z p)) [
    | inl same ↦ rw (below, same) (dedupe_after-sort_in z x zs below)
    | inr apart ↦ rw (below, apart, below) (ap (λ t. z ∷ t) (dedupe_after-sort_in z x zs below))
  ]
  | inr e ↦ elim (Bool-cases (bytes_eq z p)) [
    | inl same ↦ cc (rw (bytes_eq→≡ z p same) at e)
    | inr apart ↦ elim (Bool-cases (bytes_eq z x)) [
      | inl here ↦
          rw (e, bytes_ne p x h, apart, e, here)
            (ap (λ t. t ∷ dedupe_after z zs) (sym (bytes_eq→≡ z x here)))
      | inr there ↦ rw (e, bytes_ne p x h, apart, e, there) refl
    ]
  ]
]

dedupe-sort_in : (x : Bytes) (ys : List Bytes) → dedupe (sort_in x ys) ≡ put x (dedupe ys)
unfolding sort_in dedupe dedupe_after put
dedupe-sort_in x [] = refl
dedupe-sort_in x (y ∷ ys) = elim (Bool-cases (lex_less y x)) [
  | inl below ↦ rw below (ap (λ t. y ∷ t) (dedupe_after-sort_in y x ys below))
  | inr e ↦ elim (Bool-cases (bytes_eq y x)) [
    | inl here ↦ rw (e, here) (ap (λ t. t ∷ dedupe_after y ys) (sym (bytes_eq→≡ y x here)))
    | inr there ↦ rw (e, there) refl
  ]
]

pub dedupe-sort : (xs : List Bytes) → dedupe (sort xs) ≡ set_of xs
unfolding sort set_of dedupe
dedupe-sort [] = refl
dedupe-sort (x ∷ xs) = dedupe-sort_in x (sort xs) ∙ ap (put x) (dedupe-sort xs)

-- Two lists are sorted and freed of repeats to the same list exactly when they have the same members.
pub dedupe-sort_iff :
    (xs ys : List Bytes)
    → (dedupe (sort xs) ≡ dedupe (sort ys)) ↔ ((a : Bytes) → Member a xs ↔ Member a ys)
dedupe-sort_iff xs ys = rw (dedupe-sort xs, dedupe-sort ys) (same→, →same)
  where
    same→ : set_of xs ≡ set_of ys → (a : Bytes) → Member a xs ↔ Member a ys
    same→ e a = (
      λ m. set_of-Member a ys (rw e at (Member-set_of a xs m)),
      λ m. set_of-Member a xs (rw (← e) at (Member-set_of a ys m)),
    )

    →same : ((a : Bytes) → Member a xs ↔ Member a ys) → set_of xs ≡ set_of ys
    →same h =
        Ascending-unique (set_of xs) (set_of ys) (set_of-Ascending xs) (set_of-Ascending ys)
          (λ a m. Member-set_of a ys ((h a).0 (set_of-Member a xs m)))
          (λ a m. Member-set_of a xs ((h a).1 (set_of-Member a ys m)))

All-put {ℓ} : (P : Bytes → Type ℓ) (x : Bytes) (ys : List Bytes) → P x → All P ys → All P (put x ys)
unfolding put
All-put P x [] h k = (h, tt)
All-put P x (y ∷ ys) h k = elim (Bool-cases (lex_less y x)) [
  | inl below ↦ rw below (k.0, All-put P x ys h k.1)
  | inr e ↦ elim (Bool-cases (bytes_eq y x)) [
    | inl same ↦ rw (e, same) k
    | inr apart ↦ rw (e, apart) (h, k)
  ]
]

All-set_of {ℓ} : (P : Bytes → Type ℓ) (xs : List Bytes) → All P xs → All P (set_of xs)
unfolding set_of
All-set_of P [] h = tt
All-set_of P (x ∷ xs) h = All-put P x (set_of xs) h.0 (All-set_of P xs h.1)

pub All-dedupe-sort {ℓ} :
    (P : Bytes → Type ℓ) (xs : List Bytes) → All P xs → All P (dedupe (sort xs))
All-dedupe-sort P xs h = rw (dedupe-sort xs) (All-set_of P xs h)
