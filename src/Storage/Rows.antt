-- ===== src/Storage/Rows.antt =====
-- storage/assetcache/cache.go: rows with distinct hashes.
use veduta.Prelude.{
  suc, ◌≤◌, ◌≡◌, refl, sym, ap, ◌⊎◌, inl, inr, true, false, none, some, List, [], ◌∷◌, arith,
  length, Bool-cases, String, str_eq, eq_iff, lookup, insert, erase, lookup-insert, lookup-erase,
}
use veduta.Storage.AssetCache.{Row}

-- The hash is the primary key.
abbrev pub Distinct : List (String × Row) → Type 0
Distinct [] = Unit
Distinct ((k, r) ∷ rows) = (lookup k rows ≡ none) × Distinct rows

abbrev pub In : String × Row → List (String × Row) → Type 0
In x [] = ⊥
In x (y ∷ rows) = (y ≡ x) ⊎ In x rows

pub lookup-In :
    (k : String) (r : Row) (rows : List (String × Row)) → lookup k rows ≡ some r → In (k, r) rows
unfolding lookup
lookup-In k r [] h = cc
lookup-In k r ((j, q) ∷ rows) h = elim (Bool-cases (str_eq j k)) [
  | inl e ↦ let same : q ≡ r = cc (rw e at h) in inl (cc (((eq_iff j k)).0 e, same))
  | inr e ↦ inr (lookup-In k r rows (rw e at h))
]

absent-ne :
    (j k : String) (r : Row) (rows : List (String × Row))
    → lookup j rows ≡ none
    → lookup k rows ≡ some r
    → str_eq j k ≡ false
absent-ne j k r rows h p = elim (Bool-cases (str_eq j k)) [
  | inl e ↦ cc (rw ((eq_iff j k).0 e) at h, p)
  | inr e ↦ e
]

pub In-lookup :
    (x : String × Row) (rows : List (String × Row))
    → Distinct rows
    → In x rows
    → lookup x.0 rows ≡ some x.1
unfolding lookup
In-lookup x [] d m = absurd m
In-lookup x ((j, q) ∷ rows) d (inl e) =
    rw ((eq_iff j x.0).1 (ap (λ y. y.0) e)) (ap (λ y. some y.1) e)
In-lookup x ((j, q) ∷ rows) d (inr m) =
    let found = In-lookup x rows d.1 m in rw (absent-ne j x.0 x.1 rows d.0 found) found

pub erase-Distinct :
    (k : String) (rows : List (String × Row)) → Distinct rows → Distinct (erase k rows)
unfolding erase
erase-Distinct k [] d = tt
erase-Distinct k ((j, q) ∷ rows) d = elim (Bool-cases (str_eq j k)) [
  | inl e ↦ rw e (erase-Distinct k rows d.1)
  | inr e ↦ rw e (
    rw (lookup-erase k j rows, d.0)
        (elim (Bool-cases (str_eq k j)) [ inl t ↦ rw t refl | inr t ↦ rw t refl ]),
    erase-Distinct k rows d.1,
  )
]

pub str_eq_swap : (j k : String) → str_eq j k ≡ false → str_eq k j ≡ false
str_eq_swap j k h = elim (Bool-cases (str_eq k j)) [
  | inl e ↦ cc ((eq_iff j k).1 (sym ((eq_iff k j).0 e)), h)
  | inr e ↦ e
]

pub insert-Distinct :
    (k : String) (r : Row) (rows : List (String × Row)) → Distinct rows → Distinct (insert k r rows)
unfolding insert lookup
insert-Distinct k r [] d = (refl, tt)
insert-Distinct k r ((j, q) ∷ rows) d = elim (Bool-cases (str_eq j k)) [
  | inl e ↦ rw e (rw ((eq_iff j k).0 e) at d.0, d.1)
  | inr e ↦
      rw e (rw (lookup-insert k j r rows, str_eq_swap j k e) (d.0), insert-Distinct k r rows d.1)
]

-- Leaving out a row that is there makes the list shorter.
length-erase_le : (k : String) (rows : List (String × Row)) → length (erase k rows) ≤ length rows
unfolding erase
length-erase_le k [] = omega arith
length-erase_le k ((j, q) ∷ rows) = ground (arith, length-erase_le k rows)

pub length-erase :
    (x : String × Row) (rows : List (String × Row))
    → In x rows
    → suc (length (erase x.0 rows)) ≤ length rows
unfolding erase
length-erase x [] m = absurd m
length-erase x ((j, q) ∷ rows) (inl e) =
    let gone : str_eq j x.0 ≡ true = (eq_iff j x.0).1 (ap (λ y. y.0) e) in
    rw gone (omega (arith, length-erase_le x.0 rows))
length-erase x ((j, q) ∷ rows) (inr m) =
    ground (arith, length-erase x rows m, length-erase_le x.0 rows)
