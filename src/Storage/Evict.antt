-- ===== src/Storage/Evict.antt =====
-- storage/assetcache/cache.go: evicting ends within the budget and takes the least recently used.
use veduta.Prelude.{
  ℕ, zero, suc, ◌≤◌, ◌≡◌, refl, sym, ◌∙◌, ◌⊎◌, inl, inr, Bool, true, false, none, some, List, [],
  ◌∷◌, arith, length, Result, ok, err, leb, if◌then◌else◌, Bool-cases, Option-cases, String, str_eq,
  eq_iff, lookup, erase, lookup-erase,
}
use mathlib.Core.Path.{subst}
use veduta.Storage.AssetCache.{Row, Cache, CacheError, remove, total, oldest, selected, evict}
use veduta.Storage.Rows.{Distinct, In, lookup-In, In-lookup, erase-Distinct, length-erase}

abbrev pub Entry : Type 0
Entry = String × Row

-- What the order of the rows in the store promises: it is a weak order.
abbrev pub Orders : (Entry → Entry → Bool) → Type 0
Orders before =
    ((a b : Entry) → before a b ≡ true → before b a ≡ false)
    × ((a b c : Entry) → before a b ≡ false → before b c ≡ false → before a c ≡ false)

pick : (b : Bool) (x r : Entry) → ((if b then x else r) ≡ x) ⊎ ((if b then x else r) ≡ r)
pick true x r = inl refl
pick false x r = inr refl

oldest-In :
    (before : Entry → Entry → Bool) (r : Entry) (rows : List Entry)
    → In (oldest before r rows) (r ∷ rows)
oldest-In before r [] = inl refl
oldest-In before r (x ∷ rows) =
    elim (oldest-In before (if before x r then x else r) rows)
      as (λ _. In (oldest before r (x ∷ rows)) (r ∷ x ∷ rows)) [
        | inl here ↦ elim (pick (before x r) x r) [
          | inl e ↦ inr (inl (sym e ∙ here))
          | inr e ↦ inl (sym e ∙ here)
        ]
        | inr m ↦ inr (inr m)
      ]

irreflexive : (before : Entry → Entry → Bool) → Orders before → (a : Entry) → before a a ≡ false
irreflexive before o a = elim (Bool-cases (before a a)) [ inl e ↦ o.0 a a e | inr e ↦ e ]

-- Neither of two rows is before the one that is picked.
pick_first :
    (before : Entry → Entry → Bool)
    → Orders before
    → (x r : Entry)
    → (before r (if before x r then x else r) ≡ false)
      × (before x (if before x r then x else r) ≡ false)
pick_first before o x r = elim (Bool-cases (before x r)) [
  | inl e ↦ rw e (o.0 x r e, irreflexive before o x)
  | inr e ↦ rw e (irreflexive before o r, e)
]

-- No row is before the one that is selected.
oldest_first :
    (before : Entry → Entry → Bool)
    → Orders before
    → (r : Entry) (rows : List Entry) (x : Entry) → In x (r ∷ rows)
    → before x (oldest before r rows) ≡ false
oldest_first before o r [] x (inl e) = subst (λ s. before s r ≡ false) e (irreflexive before o r)
oldest_first before o r [] x (inr m) = absurd m
oldest_first before o r (y ∷ rows) x m =
    let z = if before y r then y else r in
    let (p, q) = pick_first before o y r in
    let least = oldest_first before o z rows z (inl refl) in
    elim m as (λ _. before x (oldest before r (y ∷ rows)) ≡ false) [
      | inl e ↦
          subst (λ s. before s (oldest before z rows) ≡ false) e
            (o.1 r z (oldest before z rows) p least)
      | inr t ↦ elim t [
        | inl e ↦
            subst (λ s. before s (oldest before z rows) ≡ false) e
              (o.1 y z (oldest before z rows) q least)
        | inr k ↦ oldest_first before o z rows x (inr k)
      ]
    ]

pub selected_first :
    (before : Entry → Entry → Bool)
    → Orders before
    → (rows : List Entry) (o : Entry) → selected before rows ≡ some o
    → In o rows × ((x : Entry) → In x rows → before x o ≡ false)
selected_first before p [] o h = cc
selected_first before p (r ∷ rows) o h =
    let e : oldest before r rows ≡ o = cc in
    (
      subst (λ s. In s (r ∷ rows)) e (oldest-In before r rows),
      λ x m. rw e at (oldest_first before p r rows x m),
    )

pub selected-none :
    (before : Entry → Entry → Bool) (rows : List Entry)
    → selected before rows ≡ none
    → total rows ≡ 0
selected-none before [] h = refl
selected-none before (r ∷ rows) h = cc

pub entry_eq : (o : Entry) (j : String) (q : Row) → o.0 ≡ j → o.1 ≡ q → o ≡ (j, q)
entry_eq (a, b) j q e f = cc

-- What evicting leaves: distinct rows of the cache within the budget, of which none was used before one that is
-- gone.
abbrev pub Evicted : (Entry → Entry → Bool) → Cache → Result CacheError Cache → Type 0
Evicted before c (err e) = ⊥
Evicted before c (ok d) =
    (total d.rows ≤ c.budget)
    × ((k : String) (r : Row) → lookup k d.rows ≡ some r → lookup k c.rows ≡ some r)
    × ((k : String) (r : Row) (j : String) (q : Row)
        → lookup k d.rows ≡ some r
        → lookup j c.rows ≡ some q
        → lookup j d.rows ≡ none
        → before (k, r) (j, q) ≡ false)
    × Distinct d.rows
    × (d.budget ≡ c.budget)

-- One round.
Evicted-step :
    (before : Entry → Entry → Bool) (c : Cache) (o : Entry) (out : Result CacheError Cache)
    → lookup o.0 c.rows ≡ some o.1
    → ((x : Entry) → In x c.rows → before x o ≡ false)
    → Evicted before (remove o.0 c) out
    → Evicted before c out
unfolding remove
Evicted-step before c o (err e) f l h = h
Evicted-step before c o (ok d) f l h = (h.0, kept, later, h.3, h.4)
  where
    kept : (k : String) (r : Row) → lookup k d.rows ≡ some r → lookup k c.rows ≡ some r
    kept k r p = elim (Bool-cases (str_eq o.0 k)) [
      | inl e ↦ cc (rw (lookup-erase o.0 k c.rows, e) at (h.1 k r p))
      | inr e ↦ rw (lookup-erase o.0 k c.rows, e) at (h.1 k r p)
    ]

    later :
        (k : String) (r : Row) (j : String) (q : Row)
        → lookup k d.rows ≡ some r
        → lookup j c.rows ≡ some q
        → lookup j d.rows ≡ none
        → before (k, r) (j, q) ≡ false
    later k r j q p there gone = elim (Bool-cases (str_eq o.0 j)) [
      | inl e ↦
          let first = l (k, r) (lookup-In k r c.rows (kept k r p)) in
          let name : o.0 ≡ j = (eq_iff o.0 j).0 e in
          let row : o.1 ≡ q = cc in
          subst (λ s. before (k, r) s ≡ false) (entry_eq o j q name row) first
      | inr e ↦ h.2 k r j q p (rw (lookup-erase o.0 j c.rows, e) there) gone
    ]

-- Whatever weak order the store has on the rows, evicting a cache with distinct hashes ends within
-- one round more than it has rows, and without an error. What is left are rows of the cache within
-- the budget, and no row is left that the store orders before one that is gone: the least
-- recently used go first.
pub evict-Evicted :
    (before : Entry → Entry → Bool)
    → Orders before
    → (c : Cache) (n : ℕ) → Distinct c.rows
    → suc (length c.rows) ≤ n
    → Evicted before c (evict before n c)
unfolding evict remove
evict-Evicted before o c zero d h = absurd (omega (arith, h))
evict-Evicted before o c (suc n) d h =
    go (λ r. evict-Evicted before o (remove r.0 c) n (erase-Distinct r.0 c.rows d))
      (leb (total c.rows) c.budget) refl
  where
    go :
        ((r : Entry)
          → suc (length (erase r.0 c.rows)) ≤ n
          → Evicted before (remove r.0 c) (evict before n (remove r.0 c)))
        → (q : Bool) → leb (total c.rows) c.budget ≡ q
        → Evicted before c (evict before (suc n) c)
    go f true e = rw e (ground arith, λ k r p. p, λ k r j q p s t. cc, d, refl)
    go f false e = rw e (elim (Option-cases (selected before c.rows)) [
      | inl none_left ↦ absurd (ground (arith, selected-none before c.rows none_left))
      | inr (r, found) ↦
          let (m, first) = selected_first before o c.rows r found in
          rw found (
            Evicted-step before c r (evict before n (remove r.0 c)) (In-lookup r c.rows d m) first
              (f r (omega (arith, length-erase r c.rows m, h))))
    ])
