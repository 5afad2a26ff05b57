-- ===== src/Digest/Ends.antt =====
-- The conversion of canonical/canonical.go ends within its budget.
use veduta.Prelude.{
  ℕ, zero, suc, ◌+◌, ◌≤◌, ◌<◌, ◌≡◌, refl, ◌≢◌, ◌⊎◌, inl, inr, true, false, Option, none, some, List,
  [], ◌∷◌, arith, Bytes, ok, err, ltb, if◌then◌else◌, Bool-cases,
}
use veduta.Digest.Value.{Value, float, arr, obj, null, bool, int_, number, text, other}
use veduta.Digest.Yaml.{
  Kind, document, mapping, sequence, alias, scalar, unknown_kind, Node, Graph, out_of_fuel,
  too_deep, too_many_nodes, Budget, max_yaml_depth, max_yaml_nodes, max_yaml_aliases, Out, ◌>>>◌,
  convert_items, seen_key, convert_fields, decoded_scalar, first_child, yaml_node, leave,
  yaml_to_any_bounded, no_budget_used, yaml_to_any,
}

-- The conversion came to an end by itself, at its depth, and has counted no more than the permitted nodes,
-- or one more where it was refused.
abbrev pub Ends : {A : Type 0} → ℕ → Out A → Type 0
Ends d (ok a, b) = (b.depth ≡ d) × (b.nodes ≤ max_yaml_nodes)
Ends d (err e, b) = (e ≢ out_of_fuel) × (b.depth ≡ d) × (b.nodes ≤ max_yaml_nodes + 1)

Ends-bind :
    {A B : Type 0} (d : ℕ) (m : Out A) (k : A → Budget → Out B)
    → Ends d m
    → ((a : A) (b : Budget) → b.depth ≡ d → b.nodes ≤ max_yaml_nodes → Ends d (k a b))
    → Ends d (m >>> k)
Ends-bind d (err e, b) k h f = h
Ends-bind d (ok a, b) k h f = f a b h.0 h.1

-- A conversion that ends from every budget at a depth.
abbrev AllEnd : ℕ → (ℕ → Budget → Out Value) → Type 0
AllEnd d convert =
    (n : ℕ) (b : Budget) → b.depth ≡ d → b.nodes ≤ max_yaml_nodes → Ends d (convert n b)

module _ (d : ℕ) (convert : ℕ → Budget → Out Value) (ends : AllEnd d convert) where
  convert_items-Ends :
      (cs : List ℕ) (b : Budget)
      → b.depth ≡ d
      → b.nodes ≤ max_yaml_nodes
      → Ends d (convert_items convert cs b)
  unfolding convert_items
  convert_items-Ends [] b p q = (p, q)
  convert_items-Ends (c ∷ cs) b p q = Ends-bind d (convert c b) _ (ends c b p q) (λ v b1 p1 q1.
      Ends-bind d (convert_items convert cs b1) _ (convert_items-Ends cs b1 p1 q1)
        (λ vs b2 p2 q2. (p2, q2)))

  convert_fields-Ends :
      (g : Graph) (seen : List Bytes) (cs : List ℕ) (b : Budget)
      → b.depth ≡ d
      → b.nodes ≤ max_yaml_nodes
      → Ends d (convert_fields convert g seen cs b)
  unfolding convert_fields
  convert_fields-Ends g seen [] b p q = (p, q)
  convert_fields-Ends g seen (c ∷ []) b p q = (λ e. cc, p, omega arith)
  convert_fields-Ends g seen (c ∷ e ∷ cs) b p q = elim (Bool-cases (seen_key (g c).value seen)) [
    | inl dup ↦ rw dup (λ x. cc, p, omega arith)
    | inr new ↦ rw new (
        Ends-bind d (convert e b) _ (ends e b p q) (λ v b1 p1 q1.
          Ends-bind d (convert_fields convert g ((g c).value ∷ seen) cs b1) _
            (convert_fields-Ends g ((g c).value ∷ seen) cs b1 p1 q1) (λ fs b2 p2 q2. (p2, q2))))
  ]

  scalar-Ends :
      (o : Option Value) (b : Budget)
      → b.depth ≡ d
      → b.nodes ≤ max_yaml_nodes
      → Ends d (decoded_scalar o, b)
  scalar-Ends none b p q = (λ x. cc, p, omega arith)
  scalar-Ends (some (float i w)) b p q = (λ x. cc, p, omega arith)
  scalar-Ends (some null) b p q = (p, q)
  scalar-Ends (some (bool x)) b p q = (p, q)
  scalar-Ends (some (int_ x)) b p q = (p, q)
  scalar-Ends (some (number x)) b p q = (p, q)
  scalar-Ends (some (text x)) b p q = (p, q)
  scalar-Ends (some other) b p q = (p, q)
  scalar-Ends (some (arr x)) b p q = (p, q)
  scalar-Ends (some (obj x)) b p q = (p, q)

  child_Ends :
      (cs : List ℕ) (b : Budget)
      → b.depth ≡ d
      → b.nodes ≤ max_yaml_nodes
      → Ends d (first_child convert cs b)
  child_Ends [] b p q = (λ x. cc, p, omega arith)
  child_Ends (c ∷ cs) b p q = ends c b p q

  yaml_node-Ends :
      (g : Graph) (k : Kind) (n : Node) (b : Budget)
      → b.depth ≡ d
      → b.nodes ≤ max_yaml_nodes
      → Ends d (yaml_node convert g k n b)
  unfolding yaml_node
  yaml_node-Ends g document n b p q = child_Ends n.content b p q
  yaml_node-Ends g mapping n b p q =
      Ends-bind d (convert_fields convert g [] n.content b) _
        (convert_fields-Ends g [] n.content b p q) (λ fs b1 p1 q1. (p1, q1))
  yaml_node-Ends g sequence n b p q =
      Ends-bind d (convert_items convert n.content b) _ (convert_items-Ends n.content b p q)
        (λ vs b1 p1 q1. (p1, q1))
  yaml_node-Ends g alias n b p q = elim (Bool-cases (ltb max_yaml_aliases (b.aliases + 1))) [
    | inl many ↦ rw many (λ x. cc, p, omega arith)
    | inr few ↦ rw few (ends n.target _ p q)
  ]
  yaml_node-Ends g scalar n b p q = scalar-Ends n.decoded b p q
  yaml_node-Ends g unknown_kind n b p q = (λ x. cc, p, omega arith)

leave-Ends : (d : ℕ) (m : Out Value) → Ends (d + 1) m → Ends d (leave m)
leave-Ends d (ok v, b) h = (omega arith, h.1)
leave-Ends d (err e, b) h = (h.0, omega arith, h.2)

yaml_to_any_bounded-Ends :
    (fuel d : ℕ) (g : Graph)
    → max_yaml_depth < fuel + d
    → 0 < fuel
    → AllEnd d (yaml_to_any_bounded fuel g)
unfolding yaml_to_any_bounded
yaml_to_any_bounded-Ends zero d g enough pos n b p q = absurd (omega arith)
yaml_to_any_bounded-Ends (suc fuel) d g enough pos n b p q = leave-Ends d _ (
    by_depth (Bool-cases (ltb max_yaml_depth (b.depth + 1)))
      (Bool-cases (ltb max_yaml_nodes (b.nodes + 1)))
      (λ e f. yaml_to_any_bounded-Ends fuel (d + 1) g e f))
  where
    b1 : Budget
    b1 = record b { nodes = b.nodes + 1; depth = b.depth + 1 }

    inside : Out Value
    inside = yaml_node (yaml_to_any_bounded fuel g) g (g n).kind (g n) b1

    by_depth :
        (ltb max_yaml_depth (b.depth + 1) ≡ true) ⊎ (ltb max_yaml_depth (b.depth + 1) ≡ false)
        → (ltb max_yaml_nodes (b.nodes + 1) ≡ true) ⊎ (ltb max_yaml_nodes (b.nodes + 1) ≡ false)
        → (max_yaml_depth < fuel + (d + 1) → 0 < fuel → AllEnd (d + 1) (yaml_to_any_bounded fuel g))
        → Ends (d + 1) (
            if ltb max_yaml_depth (b.depth + 1)
            then (err too_deep, b1)
            else if ltb max_yaml_nodes (b.nodes + 1)
            then (err too_many_nodes, b1)
            else inside)
    by_depth (inl deep) r inner = rw deep (λ x. cc, omega arith, omega arith)
    by_depth (inr shallow) (inl many) inner = rw (shallow, many) (λ x. cc, omega arith, omega arith)
    by_depth (inr shallow) (inr few) inner =
        rw (shallow, few)
          (yaml_node-Ends (d + 1) (yaml_to_any_bounded fuel g) (inner (omega arith) (ground arith))
            g (g n).kind (g n) b1 (omega arith) (ground arith))

-- The conversion of any YAML graph ends, cyclic aliases included: it is never stopped by the fuel, and it visits
-- at most 20,000 nodes where it succeeds and at most one more where it fails.
pub yaml_to_any-Ends : (g : Graph) (n : ℕ) → Ends 0 (yaml_to_any g n)
unfolding yaml_to_any
yaml_to_any-Ends g n =
    yaml_to_any_bounded-Ends (max_yaml_depth + 1) 0 g (omega arith) (omega arith) n no_budget_used
      (refl) (omega arith)
