-- ===== src/Digest/Yaml.antt =====
-- canonical/canonical.go: the conversion of a YAML graph within its budget.
use veduta.Prelude.{
  ℕ, zero, suc, ◌+◌, ◌-◌, Bool, true, false, Option, none, some, List, [], ◌∷◌, Bytes, bytes_eq,
  Result, ok, err, ltb, if◌then◌else◌,
}
use veduta.Digest.Value.{Value, float, arr, obj, Items, nil, cons, Fields, end, field}

pub data Kind : Type 0 where
  document mapping sequence alias scalar : Kind
  unknown_kind : Kind

-- `yaml.Node`. Nodes refer to one another by address, and may do so in a cycle. `decoded` is what
-- `Decode` of the package `yaml` makes of a scalar, `none` for its error.
pub record Node : Type 0 where
  pub kind : Kind
  pub value : Bytes
  pub content : List ℕ
  pub target : ℕ
  pub decoded : Option Value

abbrev pub Graph : Type 0
Graph = ℕ → Node

-- `out_of_fuel` is the model's own; `malformed` stands for a content that the parser never builds.
pub data YamlError : Type 0 where
  too_deep too_many_nodes too_many_aliases duplicate_key bad_scalar floating_scalar : YamlError
  unsupported_kind malformed out_of_fuel : YamlError

-- `yamlBudget`.
pub record Budget : Type 0 where
  pub depth : ℕ
  pub nodes : ℕ
  pub aliases : ℕ

abbrev pub max_yaml_depth : ℕ
max_yaml_depth = 32

abbrev pub max_yaml_nodes : ℕ
max_yaml_nodes = 20000

abbrev pub max_yaml_aliases : ℕ
max_yaml_aliases = 100

-- A result, and the budget after it on every path.
abbrev pub Out : Type 0 → Type 0
Out A = Result YamlError A × Budget

infixl 5 ◌>>>◌
abbrev pub ◌>>>◌ : {A B : Type 0} → Out A → (A → Budget → Out B) → Out B
(err e, b) >>> k = (err e, b)
(ok a, b) >>> k = k a b

-- The loop of a sequence.
unfoldable pub convert_items : (ℕ → Budget → Out Value) → List ℕ → Budget → Out Items
convert_items convert [] b = (ok nil, b)
convert_items convert (c ∷ cs) b =
    convert c b >>> λ v b1. convert_items convert cs b1 >>> λ vs b2. (ok (cons v vs), b2)

abbrev pub seen_key : Bytes → List Bytes → Bool
seen_key k [] = false
seen_key k (j ∷ js) = if bytes_eq j k then true else seen_key k js

-- The loop of a mapping: keys and values in turn; `seen` holds the keys so far.
unfoldable pub convert_fields :
    (ℕ → Budget → Out Value) → Graph → List Bytes → List ℕ → Budget → Out Fields
convert_fields convert g seen [] b = (ok end, b)
convert_fields convert g seen (c ∷ []) b = (err malformed, b)
convert_fields convert g seen (c ∷ d ∷ cs) b =
    let k : Bytes = (g c).value in
    let rest = convert d b >>> λ v b1.
    convert_fields convert g (k ∷ seen) cs b1 >>> λ fs b2. (ok (field k v fs), b2) in
    if seen_key k seen then (err duplicate_key, b) else rest

abbrev pub decoded_scalar : Option Value → Result YamlError Value
decoded_scalar none = err bad_scalar
decoded_scalar (some (float i whole)) = err floating_scalar
decoded_scalar (some v) = ok v

abbrev pub first_child : (ℕ → Budget → Out Value) → List ℕ → Budget → Out Value
first_child convert [] b = (err malformed, b)
first_child convert (c ∷ cs) b = convert c b

-- `yamlNode`, for the conversion of its children.
unfoldable pub yaml_node : (ℕ → Budget → Out Value) → Graph → Kind → Node → Budget → Out Value
unfolding convert_items convert_fields
yaml_node convert g document n b = first_child convert n.content b
yaml_node convert g mapping n b =
    convert_fields convert g [] n.content b >>> λ fs b1. (ok (obj fs), b1)
yaml_node convert g sequence n b = convert_items convert n.content b >>> λ vs b1. (ok (arr vs), b1)
yaml_node convert g alias n b =
    let b1 : Budget = record b { aliases = b.aliases + 1 } in
    if ltb max_yaml_aliases b1.aliases then (err too_many_aliases, b1) else convert n.target b1
yaml_node convert g scalar n b = (decoded_scalar n.decoded, b)
yaml_node convert g unknown_kind n b = (err unsupported_kind, b)

-- The deferred `b.depth--`.
abbrev pub leave : Out Value → Out Value
leave (r, b) = (r, record b { depth = b.depth - 1 })

-- `yamlToAnyBounded`. The fuel bounds the nesting of its calls.
unfoldable pub yaml_to_any_bounded : ℕ → Graph → ℕ → Budget → Out Value
unfolding yaml_node
yaml_to_any_bounded zero g n b = (err out_of_fuel, b)
yaml_to_any_bounded (suc fuel) g n b =
    let b1 : Budget = record b { nodes = b.nodes + 1; depth = b.depth + 1 } in
    let inside = yaml_node (yaml_to_any_bounded fuel g) g (g n).kind (g n) b1 in
    leave (
      if ltb max_yaml_depth b1.depth
      then (err too_deep, b1)
      else if ltb max_yaml_nodes b1.nodes
      then (err too_many_nodes, b1)
      else inside)

abbrev pub no_budget_used : Budget
no_budget_used = record { depth = 0; nodes = 0; aliases = 0 }

-- `yamlToAny`: no call nests deeper than one past the permitted depth.
unfoldable pub yaml_to_any : Graph → ℕ → Out Value
unfolding yaml_to_any_bounded
yaml_to_any g n = yaml_to_any_bounded (max_yaml_depth + 1) g n no_budget_used
