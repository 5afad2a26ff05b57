-- ===== src/Integrations/Keys.antt =====
-- The query allowlists of integrations/route.go as sets of keys.
use veduta.Prelude.{
  ◌≡◌, refl, sym, ap, ◌∙◌, ◌≢◌, ◌↔◌, inl, inr, Bool, true, false, Option, none, some, List, [], ◌∷◌,
  map, arith, Bytes, codes, All, Bool-cases, sort, dedupe, dedupe-sort_iff, All-dedupe-sort,
  codes-injective, Member, String, str_eq, eq_iff, mem_text,
}
use veduta.Routepath.Canonicalise.{join, split}
use veduta.Routepath.Split.{split-join}
use veduta.Integrations.Route.{canonical_query_keys}

abbrev NonEmpty : Bytes → Type 0
NonEmpty [] = ⊥
NonEmpty (c ∷ k) = Unit {0}

-- A key without NUL, and not empty.
abbrev IsPlainCode : Bytes → Type 0
IsPlainCode k = All (λ c. c ≢ 0) k × NonEmpty k

abbrev pub IsPlainKey : String → Type 0
IsPlainKey k = IsPlainCode (codes k)

-- Every key of an allowlist is plain; a list that is left out has none.
abbrev pub HasPlainKeys : Option (List String) → Type 0
HasPlainKeys none = Unit {0}
HasPlainKeys (some ks) = All IsPlainKey ks

All-codes : (ks : List String) → All IsPlainKey ks → All IsPlainCode (map codes ks)
All-codes [] h = tt
All-codes (k ∷ ks) h = (h.0, All-codes ks h.1)

All-free : (xs : List Bytes) → All IsPlainCode xs → All (λ t. All (λ c. c ≢ 0) t) xs
All-free [] h = tt
All-free (x ∷ xs) h = (h.0.0, All-free xs h.1)

join_plain-ne-nil : (x : Bytes) (xs : List Bytes) → IsPlainCode x → join 0 (x ∷ xs) ≢ []
join_plain-ne-nil [] xs h e = absurd h.1
join_plain-ne-nil (c ∷ x) [] h e = cc
join_plain-ne-nil (c ∷ x) (y ∷ xs) h e = cc

-- Joined by NUL, plain lists stay apart.
join_plain-injective :
    (xs ys : List Bytes) → All IsPlainCode xs → All IsPlainCode ys → join 0 xs ≡ join 0 ys → xs ≡ ys
join_plain-injective [] [] p q e = refl
join_plain-injective [] (y ∷ ys) p q e = absurd (join_plain-ne-nil y ys q.0 (sym e))
join_plain-injective (x ∷ xs) [] p q e = absurd (join_plain-ne-nil x xs p.0 e)
join_plain-injective (x ∷ xs) (y ∷ ys) p q e =
    sym (split-join 0 x xs (All-free (x ∷ xs) p))
    ∙ (ap (split 0) e ∙ split-join 0 y ys (All-free (y ∷ ys) q))

mem_text-Member :
    (k : String) (ks : List String) → mem_text k ks ≡ true → Member (codes k) (map codes ks)
mem_text-Member k [] h = cc
mem_text-Member k (j ∷ ks) h = elim (Bool-cases (str_eq j k)) [
  | inl e ↦ inl (ap codes ((eq_iff j k).0 e))
  | inr e ↦ inr (mem_text-Member k ks (rw e at h))
]

Member-mem_text :
    (k : String) (ks : List String) → Member (codes k) (map codes ks) → mem_text k ks ≡ true
Member-mem_text k [] m = absurd m
Member-mem_text k (j ∷ ks) (inl e) = rw ((eq_iff j k).1 (codes-injective j k e)) refl
Member-mem_text k (j ∷ ks) (inr m) = ground (arith, Member-mem_text k ks m)

-- The keys that the two lists allow.
abbrev pub AllowsSame : Option (List String) → Option (List String) → Type 0
AllowsSame none none = Unit {0}
AllowsSame (some xs) (some ys) = (k : String) → mem_text k xs ≡ mem_text k ys
AllowsSame _ _ = ⊥

same_truth : (a b : Bool) → (a ≡ true → b ≡ true) → (b ≡ true → a ≡ true) → a ≡ b
same_truth true b f g = sym (f refl)
same_truth false true f g = g refl
same_truth false false f g = refl

listed_same :
    (xs ys : List String)
    → ((a : Bytes) → Member a (map codes xs) ↔ Member a (map codes ys))
    → (k : String) → mem_text k xs ≡ mem_text k ys
listed_same xs ys h k =
    same_truth (mem_text k xs) (mem_text k ys)
      (λ e. Member-mem_text k ys ((h (codes k)).0 (mem_text-Member k xs e)))
      (λ e. Member-mem_text k xs ((h (codes k)).1 (mem_text-Member k ys e)))

Member-map-codes :
    (a : Bytes) (xs : List String)
    → Member a (map codes xs)
    → (k : String) × (codes k ≡ a) × (mem_text k xs ≡ true)
Member-map-codes a [] m = absurd m
Member-map-codes a (x ∷ xs) (inl e) = (x, e, rw ((eq_iff x x).1 refl) refl)
Member-map-codes a (x ∷ xs) (inr m) =
    let (k, e, f) = Member-map-codes a xs m in (k, e, ground (arith, eq_iff x k))

carry_Member :
    (xs ys : List String)
    → ((k : String) → mem_text k xs ≡ mem_text k ys)
    → (a : Bytes) → Member a (map codes xs)
    → Member a (map codes ys)
carry_Member xs ys h a m =
    let (k, e, f) = Member-map-codes a xs m in rw e at (mem_text-Member k ys (sym (h k) ∙ f))

-- Two query allowlists of plain keys have the same canonical form exactly when both are absent or
-- both are present and allow the same keys: order and repeats do not count, and an absent list is
-- never the same as an empty one.
pub canonical_query_keys_iff :
    (a b : Option (List String))
    → HasPlainKeys a
    → HasPlainKeys b
    → (canonical_query_keys a ≡ canonical_query_keys b) ↔ AllowsSame a b
unfolding canonical_query_keys
canonical_query_keys_iff none none p q = (λ e. tt, λ h. refl)
canonical_query_keys_iff none (some ys) p q = (λ e. ground arith, λ h. absurd h)
canonical_query_keys_iff (some xs) none p q = (λ e. ground arith, λ h. absurd h)
canonical_query_keys_iff (some xs) (some ys) p q = (same→, →same)
  where
    same→ :
        0 ∷ join 0 (dedupe (sort (map codes xs))) ≡ 0 ∷ join 0 (dedupe (sort (map codes ys)))
        → (k : String) → mem_text k xs ≡ mem_text k ys
    same→ e = listed_same xs ys (
        (dedupe-sort_iff (map codes xs) (map codes ys)).0 (
          join_plain-injective _ _ (All-dedupe-sort IsPlainCode _ (All-codes xs p))
            (All-dedupe-sort IsPlainCode _ (All-codes ys q)) (cc)))

    →same :
        ((k : String) → mem_text k xs ≡ mem_text k ys)
        → 0 ∷ join 0 (dedupe (sort (map codes xs))) ≡ 0 ∷ join 0 (dedupe (sort (map codes ys)))
    →same h =
        ap (λ t. 0 ∷ join 0 t)
          ((dedupe-sort_iff (map codes xs) (map codes ys)).1
            (λ a. (carry_Member xs ys h a, carry_Member ys xs (λ k. sym (h k)) a)))
