-- ===== src/Config/Lookup.antt =====
-- config/yamlmerge.go: the value of a key in a merged mapping.
use veduta.Prelude.{
  ℕ, ◌≡◌, refl, ap, ◌∙◌, inl, inr, true, false, Option, none, some, List, [], arith, if◌then◌else◌,
  Bool-cases, Option-cases, String, str_eq, eq_iff, lookup, insert, lookup-insert,
}
use veduta.Config.Merge.{
  Key, Node, Pairs, done, pair, or_else, last_pair, has_key, unseen, join, merge, merge_base,
  repeated, value_at,
}

abbrev node_of : Option (Key × Node) → Option Node
node_of none = none
node_of (some x) = some x.1

-- A key that was seen is not repeated.
repeated-seen :
    (seen : List (String × ℕ)) (ps : Pairs) (k : String) (line : ℕ)
    → repeated seen ps ≡ []
    → lookup k seen ≡ some line
    → last_pair k ps ≡ none
repeated-seen seen done k line h p = refl
repeated-seen seen (pair j w ps) k line h p = elim (Option-cases (lookup j.value seen)) [
  | inr (l, e) ↦ cc (rw (repeated, e) at h)
  | inl e ↦
      let apart : str_eq j.value k ≡ false = elim (Bool-cases (str_eq j.value k)) [
        | inl s ↦ cc (rw ((eq_iff j.value k).0 s) at e, p)
        | inr s ↦ s
      ] in
      let rest =
        repeated-seen (insert j.value j.place.line seen) ps k line (rw (repeated, e) at h)
          (rw (lookup-insert j.value k j.place.line seen, apart) p) in
      rw (rest, apart) refl
]

-- Without a repeated key the last pair of a key is the first.
repeated-last :
    (seen : List (String × ℕ)) (ps : Pairs) (k : String)
    → repeated seen ps ≡ []
    → node_of (last_pair k ps) ≡ value_at k ps
repeated-last seen done k h = refl
repeated-last seen (pair j w ps) k h = elim (Option-cases (lookup j.value seen)) [
  | inr (l, e) ↦ cc (rw (repeated, e) at h)
  | inl e ↦ elim (Bool-cases (str_eq j.value k)) [
    | inl s ↦
        let none_left =
          repeated-seen (insert j.value j.place.line seen) ps k j.place.line (rw (repeated, e) at h)
            (rw (lookup-insert j.value k j.place.line seen, s) refl) in
        rw (none_left, s) refl
    | inr s ↦
        let rest = repeated-last (insert j.value j.place.line seen) ps k (rw (repeated, e) at h) in
        rw s (by_last (last_pair k ps) (value_at k ps) rest)
  ]
]
  where
    by_last :
        (o : Option (Key × Node)) (q : Option Node) → node_of o ≡ q → node_of (or_else o none) ≡ q
    by_last none q t = t
    by_last (some x) q t = t

last_pair-key : (k : String) (qs : Pairs) (x : Key × Node) → last_pair k qs ≡ some x → x.0.value ≡ k
last_pair-key k done x h = cc
last_pair-key k (pair j w qs) x h = elim (Option-cases (last_pair k qs)) [
  | inr (y, e) ↦ last_pair-key k qs x (e ∙ rw (last_pair, e) at h)
  | inl e ↦ elim (Bool-cases (str_eq j.value k)) [
    | inl s ↦
        let same : j ≡ x.0 = cc (ap (node_key j) (rw (last_pair, e, s) at h)) in
        cc (ap (λ t. t.value) same, (eq_iff j.value k).0 s)
    | inr s ↦ cc (rw (last_pair, e, s) at h)
  ]
]
  where
    node_key : Key → Option (Key × Node) → Key
    node_key d none = d
    node_key d (some y) = y.0

value_at-join :
    (k : String) (ps qs : Pairs)
    → value_at k (join ps qs) ≡ (if has_key k ps then value_at k ps else value_at k qs)
value_at-join k done qs = refl
value_at-join k (pair j v ps) qs = ground (arith, value_at-join k ps qs)

value_at-unseen :
    (k : String) (ps qs : Pairs) → has_key k ps ≡ false → value_at k (unseen ps qs) ≡ value_at k qs
value_at-unseen k ps done h = refl
value_at-unseen k ps (pair j w qs) h = elim (Bool-cases (str_eq j.value k)) [
  | inl s ↦ rw (s, ap (λ t. has_key t ps) ((eq_iff j.value k).0 s), h, s) refl
  | inr s ↦ elim (Bool-cases (has_key j.value ps)) [
    | inl e ↦ rw (s, e) (value_at-unseen k ps qs h)
    | inr e ↦ rw (s, e, s) (value_at-unseen k ps qs h)
  ]
]

has_key-value_at : (k : String) (ps : Pairs) → has_key k ps ≡ false → value_at k ps ≡ none
has_key-value_at k done h = refl
has_key-value_at k (pair j w ps) h = elim (Bool-cases (str_eq j.value k)) [
  | inl s ↦ cc (rw s at h)
  | inr s ↦ rw s (has_key-value_at k ps (rw s at h))
]

-- A key's value after a merge, from its values before.
abbrev pub combined : String → Option Node → Option Node → Option Node
combined file none o = o
combined file (some v) none = some v
combined file (some v) (some w) = some (merge file v w)

has_key-merge_base :
    (file k : String) (ps qs : Pairs) → has_key k (merge_base file ps qs) ≡ has_key k ps
unfolding merge_base
has_key-merge_base file k done qs = refl
has_key-merge_base file k (pair i v ps) qs = elim (Option-cases (last_pair i.value qs)) [
  | inl e ↦ rw (has_key, merge_base, e, has_key-merge_base file k ps qs) refl
  | inr (x, e) ↦
      rw (has_key, merge_base, e, last_pair-key i.value qs x e, has_key-merge_base file k ps qs)
        refl
]

value_at-merge_base :
    (file k : String) (ps qs : Pairs)
    → has_key k ps ≡ true
    → value_at k (merge_base file ps qs) ≡ combined file (value_at k ps) (node_of (last_pair k qs))
unfolding merge_base
value_at-merge_base file k done qs h = cc
value_at-merge_base file k (pair i v ps) qs h = elim (Option-cases (last_pair i.value qs)) [
  | inl e ↦ elim (Bool-cases (str_eq i.value k)) [
    | inl s ↦
        let none_left : last_pair k qs ≡ none = rw ((eq_iff i.value k).0 s) at e in
        rw (value_at, merge_base, e, s, none_left) refl
    | inr s ↦ rw (value_at, merge_base, e, s) (value_at-merge_base file k ps qs (rw s at h))
  ]
  | inr (x, e) ↦ elim (Bool-cases (str_eq i.value k)) [
    | inl s ↦
        let found : last_pair k qs ≡ some x = rw ((eq_iff i.value k).0 s) at e in
        rw (value_at, merge_base, e, last_pair-key i.value qs x e, s, found) refl
    | inr s ↦
        rw (value_at, merge_base, e, last_pair-key i.value qs x e, s)
          (value_at-merge_base file k ps qs (rw s at h))
  ]
]

-- The value of a key in a merged mapping.
pub value_at-merge :
    (file k : String) (ps qs : Pairs)
    → repeated [] qs ≡ []
    → value_at k (join (merge_base file ps qs) (unseen ps qs))
      ≡ combined file (value_at k ps) (value_at k qs)
value_at-merge file k ps qs h = elim (Bool-cases (has_key k ps)) [
  | inl e ↦
      rw
        (value_at-join k (merge_base file ps qs) (unseen ps qs), has_key-merge_base file k ps qs, e)
        (value_at-merge_base file k ps qs e
          ∙ ap (combined file (value_at k ps)) (repeated-last [] qs k h))
  | inr e ↦
      rw
        (
          value_at-join k (merge_base file ps qs) (unseen ps qs),
          has_key-merge_base file k ps qs,
          e,
          has_key-value_at k ps e,
        )
        (value_at-unseen k ps qs e)
]
