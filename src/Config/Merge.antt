-- ===== src/Config/Merge.antt =====
-- config/yamlmerge.go: documents, their merging and their duplicate keys.
use veduta.Prelude.{
  ℕ, Bool, true, false, Option, none, some, List, [], ◌∷◌, ◌++◌, if◌then◌else◌, String, str_eq,
  lookup, insert,
}

-- Where a node stands.
pub record Place : Type 0 where
  pub file : String
  pub line : ℕ
  pub column : ℕ

-- The node of a key, by its value.
pub record Key : Type 0 where
  pub value : String
  pub place : Place

-- A `yaml.Node`. The map from nodes to files is kept in the nodes. A leaf is a scalar or an alias.
mutual
  pub data Node : Type 0 where
    mapping : Place → Pairs → Node
    sequence : Place → Items → Node
    leaf : Place → String → Node

  pub data Items : Type 0 where
    nil : Items
    cons : Node → Items → Items

  pub data Pairs : Type 0 where
    done : Pairs
    pair : Key → Node → Pairs → Pairs

abbrev pub in_file : String → Place → Place
in_file file p = record p { file = file }

-- `tag`, of nodes that no file has been noted for.
unfoldable mutual
  pub tag : String → Node → Node
  tag file (mapping p ps) = mapping (in_file file p) (tag_pairs file ps)
  tag file (sequence p xs) = sequence (in_file file p) (tag_items file xs)
  tag file (leaf p s) = leaf (in_file file p) s

  tag_items : String → Items → Items
  tag_items file nil = nil
  tag_items file (cons x xs) = cons (tag file x) (tag_items file xs)

  tag_pairs : String → Pairs → Pairs
  tag_pairs file done = done
  tag_pairs file (pair k v ps) =
      pair (record k { place = in_file file k.place }) (tag file v) (tag_pairs file ps)

abbrev pub or_else {ℓ} : {A : Type ℓ} → Option A → Option A → Option A
or_else (some x) o = some x
or_else none o = o

-- `overrideByKey`, where the last of equal keys is kept.
abbrev pub last_pair : String → Pairs → Option (Key × Node)
last_pair k done = none
last_pair k (pair j w qs) =
    or_else (last_pair k qs) (if str_eq j.value k then some (j, w) else none)

-- `seen`.
abbrev pub has_key : String → Pairs → Bool
has_key k done = false
has_key k (pair j w qs) = let rest = has_key k qs in if str_eq j.value k then true else rest

abbrev pub unseen : Pairs → Pairs → Pairs
unseen ps done = done
unseen ps (pair j w qs) =
    let rest = unseen ps qs in if has_key j.value ps then rest else pair j w rest

abbrev pub join : Pairs → Pairs → Pairs
join done qs = qs
join (pair k v ps) qs = pair k v (join ps qs)

-- The place of a merged mapping, which is blamed on the later file.
abbrev pub synthetic : String → Place
synthetic file = record { file = file; line = 0; column = 0 }

-- `merge` of two nodes, and the loop of `mergeMappings` over the earlier file's pairs.
unfoldable mutual
  pub merge : String → Node → Node → Node
  merge file (mapping p ps) (mapping q qs) =
      mapping (synthetic file) (join (merge_base file ps qs) (unseen ps qs))
  merge file (mapping p ps) (sequence q ys) = sequence q ys
  merge file (mapping p ps) (leaf q s) = leaf q s
  merge file (sequence p xs) b = b
  merge file (leaf p s) b = b

  pub merge_base : String → Pairs → Pairs → Pairs
  merge_base file done qs = done
  merge_base file (pair k v ps) qs = elim (last_pair k.value qs) [
    | some (j, w) ↦ pair j (merge file v w) (merge_base file ps qs)
    | none ↦ pair k v (merge_base file ps qs)
  ]

-- `merge` with a file that may have no document.
unfoldable pub merge_files : Option Node → Option Node → String → Option Node
unfolding merge
merge_files none b file = b
merge_files (some a) none file = some a
merge_files (some a) (some b) file = some (merge file a b)

-- The keys of a mapping that were seen before, with the line of the first.
abbrev pub repeated : List (String × ℕ) → Pairs → List (Key × ℕ)
repeated seen done = []
repeated seen (pair k v ps) = elim (lookup k.value seen) [
  | some line ↦ (k, line) ∷ repeated seen ps
  | none ↦ repeated (insert k.value k.place.line seen) ps
]

-- `duplicateKeys`: each key's place and the line of the first.
unfoldable mutual
  pub duplicate_keys : Node → List (Key × ℕ)
  duplicate_keys (mapping p ps) = repeated [] ps ++ duplicates_of_pairs ps
  duplicate_keys (sequence p xs) = duplicates_of_items xs
  duplicate_keys (leaf p s) = []

  duplicates_of_items : Items → List (Key × ℕ)
  duplicates_of_items nil = []
  duplicates_of_items (cons x xs) = duplicate_keys x ++ duplicates_of_items xs

  pub duplicates_of_pairs : Pairs → List (Key × ℕ)
  duplicates_of_pairs done = []
  duplicates_of_pairs (pair k v ps) = duplicate_keys v ++ duplicates_of_pairs ps

-- A key's value in a mapping: the first of equal keys, as nodeAtPath reads it.
abbrev pub value_at : String → Pairs → Option Node
value_at k done = none
value_at k (pair j w qs) = let rest = value_at k qs in if str_eq j.value k then some w else rest
