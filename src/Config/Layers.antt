-- ===== src/Config/Layers.antt =====
-- config/yamlmerge.go: later files override, and arrays replace.
use veduta.Prelude.{
  ◌≡◌, refl, ap, ◌∙◌, inl, inr, Bool, true, false, Option, none, some, List, [], ◌∷◌, ◌++◌,
  Bool-cases, Option-cases, String, str_eq,
}
use veduta.Config.Merge.{
  Place, Node, mapping, sequence, leaf, Pairs, done, pair, merge, repeated, duplicate_keys,
  duplicates_of_pairs, value_at,
}
use veduta.Config.Lookup.{combined, value_at-merge}

abbrev pub child : String → Node → Option Node
child k (mapping p ps) = value_at k ps
child k (sequence p xs) = none
child k (leaf p s) = none

abbrev pub then_in {ℓ} : {A : Type ℓ} → (Node → A) → A → Option Node → A
then_in f d none = d
then_in f d (some n) = f n

-- The node under a list of keys.
abbrev pub find : List String → Node → Option Node
find [] n = some n
find (k ∷ path) n = then_in (find path) none (child k n)

abbrev pub is_mapping : Node → Bool
is_mapping (mapping p ps) = true
is_mapping (sequence p xs) = false
is_mapping (leaf p s) = false

-- A document leaves a path open when the path leads through its mappings and then misses a key.
abbrev pub Open : List String → Node → Type 0
Open [] b = ⊥
Open (k ∷ path) (mapping q qs) = then_in (Open path) Unit (value_at k qs)
Open (k ∷ path) (sequence q xs) = ⊥
Open (k ∷ path) (leaf q s) = ⊥

append-nil-inv {ℓ} : {A : Type ℓ} (xs ys : List A) → xs ++ ys ≡ [] → (xs ≡ []) × (ys ≡ [])
append-nil-inv [] ys h = (refl, h)
append-nil-inv (x ∷ xs) ys h = cc

value_at-duplicates :
    (k : String) (qs : Pairs) (w : Node)
    → duplicates_of_pairs qs ≡ []
    → value_at k qs ≡ some w
    → duplicate_keys w ≡ []
unfolding duplicate_keys
value_at-duplicates k done w h p = cc
value_at-duplicates k (pair j v qs) w h p =
    let (here, rest) = append-nil-inv (duplicate_keys v) (duplicates_of_pairs qs) h in
    elim (Bool-cases (str_eq j.value k)) [
      | inl s ↦ let same : v ≡ w = cc (rw s at p) in rw same at here
      | inr s ↦ value_at-duplicates k qs w rest (rw s at p)
    ]

-- A key of a merged document, when the later one is a mapping.
child-merge :
    (file k : String) (a : Node) (q : Place) (qs : Pairs)
    → repeated [] qs ≡ []
    → child k (merge file a (mapping q qs)) ≡ combined file (child k a) (value_at k qs)
unfolding merge
child-merge file k (mapping p ps) q qs h = value_at-merge file k ps qs h
child-merge file k (sequence p xs) q qs h = refl
child-merge file k (leaf p s) q qs h = refl

merge-replaces : (file : String) (a b : Node) → is_mapping b ≡ false → merge file a b ≡ b
unfolding merge
merge-replaces file (mapping p ps) (mapping q qs) h = cc
merge-replaces file (mapping p ps) (sequence q ys) h = refl
merge-replaces file (mapping p ps) (leaf q s) h = refl
merge-replaces file (sequence p xs) b h = refl
merge-replaces file (leaf p s) b h = refl

Open-none : (path : List String) (b : Node) → Open path b → find path b ≡ none
Open-none [] b h = absurd h
Open-none (k ∷ path) (sequence q xs) h = absurd h
Open-none (k ∷ path) (leaf q s) h = absurd h
Open-none (k ∷ path) (mapping q qs) h = elim (Option-cases (value_at k qs)) [
  | inl e ↦ rw (find, e) refl
  | inr (v, e) ↦ rw (find, e) (Open-none path v (rw (Open, e) at h))
]

merge-overrides :
    (file : String) (path : List String) (a b w : Node)
    → duplicate_keys b ≡ []
    → find path b ≡ some w
    → is_mapping w ≡ false
    → find path (merge file a b) ≡ some w
unfolding duplicate_keys
merge-overrides file [] a b w d h m =
    let same : b ≡ w = cc in
    ap (λ n. some n) (merge-replaces file a b (cc (ap is_mapping same, m)) ∙ same)
merge-overrides file (k ∷ path) a (sequence q xs) w d h m = cc
merge-overrides file (k ∷ path) a (leaf q s) w d h m = cc
merge-overrides file (k ∷ path) a (mapping q qs) w d h m =
    let (level, deeper) = append-nil-inv (repeated [] qs) (duplicates_of_pairs qs) d in
    elim (Option-cases (value_at k qs)) [
      | inl e ↦ cc (rw (find, e) at h)
      | inr (v, e) ↦
          let below = value_at-duplicates k qs v deeper e in
          elim (Option-cases (child k a)) [
            | inl f ↦ rw (find, child-merge file k a q qs level, e, f) (rw (find, e) at h)
            | inr (u, f) ↦
                rw (find, child-merge file k a q qs level, e, f)
                  (merge-overrides file path u v w below (rw (find, e) at h) m)
          ]
    ]

merge-keeps :
    (file : String) (path : List String) (a b : Node)
    → duplicate_keys b ≡ []
    → Open path b
    → find path (merge file a b) ≡ find path a
unfolding duplicate_keys
merge-keeps file [] a b d h = absurd h
merge-keeps file (k ∷ path) a (sequence q xs) d h = absurd h
merge-keeps file (k ∷ path) a (leaf q s) d h = absurd h
merge-keeps file (k ∷ path) a (mapping q qs) d h =
    let (level, deeper) = append-nil-inv (repeated [] qs) (duplicates_of_pairs qs) d in
    elim (Option-cases (value_at k qs)) [
      | inl e ↦ elim (Option-cases (child k a)) [
        | inl f ↦ rw (find, child-merge file k a q qs level, e, f) refl
        | inr (u, f) ↦ rw (find, child-merge file k a q qs level, e, f) refl
      ]
      | inr (v, e) ↦
          let below = value_at-duplicates k qs v deeper e in
          let open_below : Open path v = rw (Open, e) at h in
          elim (Option-cases (child k a)) [
            | inl f ↦ rw (find, child-merge file k a q qs level, e, f) (Open-none path v open_below)
            | inr (u, f) ↦
                rw (find, child-merge file k a q qs level, e, f)
                  (merge-keeps file path u v below open_below)
          ]
    ]

-- What a key path reads in the merge of a document with a later file's, where the later one has no
-- duplicate key: if the later document has something other than a mapping there, an array or a
-- scalar, then exactly that, and if its mappings lead to a key that it does not have, then
-- what the earlier one has there, or nothing.
pub merge-layers :
    (file : String) (path : List String) (a b : Node)
    → duplicate_keys b ≡ []
    → ((w : Node)
        → find path b ≡ some w
        → is_mapping w ≡ false
        → find path (merge file a b) ≡ some w)
      × (Open path b → find path (merge file a b) ≡ find path a)
merge-layers file path a b d =
    (λ w h m. merge-overrides file path a b w d h m, λ h. merge-keeps file path a b d h)
