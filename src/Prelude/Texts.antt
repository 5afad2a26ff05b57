-- ===== src/Prelude/Texts.antt =====
-- Texts that are only compared, and maps with such keys as association lists.
use Prim.Native.Nat.{ℕ}
use Prim.Native.String.{String}
use mathlib.Core.Path.{◌≡◌, refl}
use mathlib.Core.Bool.{Bool, true, false}
use mathlib.Core.Option.{Option, none, some}
use mathlib.Core.List.{List, [], ◌∷◌}
use native.Mathlib.Omega.{arith}
use text.Mathlib.Text.{◌==◌ as str_eq}
use text.Mathlib.TextEquality.{eq_iff, Char-path}
use veduta.Prelude.Lists.{Bytes, codes}
use veduta.Prelude.Tests.{if◌then◌else◌}

abbrev pub mem_text : String → List String → Bool
mem_text k [] = false
mem_text k (j ∷ js) = if str_eq j k then true else mem_text k js

module _ {ℓ} {V : Type ℓ} where
  unfoldable pub lookup : String → List (String × V) → Option V
  lookup k [] = none
  lookup k ((j, v) ∷ m) = if str_eq j k then some v else lookup k m

  unfoldable pub insert : String → V → List (String × V) → List (String × V)
  insert k v [] = (k, v) ∷ []
  insert k v ((j, w) ∷ m) = if str_eq j k then (k, v) ∷ m else (j, w) ∷ insert k v m

  unfoldable pub erase : String → List (String × V) → List (String × V)
  erase k [] = []
  erase k ((j, w) ∷ m) = if str_eq j k then erase k m else (j, w) ∷ erase k m

  pub lookup-insert :
      (k q : String) (a : V) (rows : List (String × V))
      → lookup q (insert k a rows) ≡ (if str_eq k q then some a else lookup q rows)
  unfolding lookup insert
  lookup-insert k q a [] = refl
  lookup-insert k q a ((i, w) ∷ rows) =
      ground (arith, lookup-insert k q a rows, eq_iff i q, eq_iff i k, eq_iff k q)

  pub lookup-erase :
      (k j : String) (m : List (String × V))
      → lookup j (erase k m) ≡ (if str_eq k j then none else lookup j m)
  unfolding lookup erase
  lookup-erase k j [] = ground arith
  lookup-erase k j ((i, w) ∷ m) =
      ground (arith, eq_iff k j, eq_iff i k, eq_iff i j, lookup-erase k j m)

∷-injective : {x y : ℕ} {xs ys : Bytes} → x ∷ xs ≡ y ∷ ys → (x ≡ y) × (xs ≡ ys)
∷-injective h = (cc, cc)

-- A text is determined by its code points.
pub codes-injective : (s t : String) → codes s ≡ codes t → s ≡ t
codes-injective String.[] String.[] h = refl
codes-injective String.[] (String.◌∷◌ c t) h = cc
codes-injective (String.◌∷◌ c s) String.[] h = cc
codes-injective (String.◌∷◌ c s) (String.◌∷◌ d t) h =
    let (same, rest) = ∷-injective h in
    let e : c ≡ d = Char-path c d same in let e' : s ≡ t = codes-injective s t rest in cc
