-- ===== src/Examples/Layers.antt =====
-- Runs of the merging of two configuration files.
use veduta.Prelude.{ℕ, ◌≡◌, refl, false, none, some, [], ◌∷◌, String, lookup, insert}
use veduta.Config.Merge.{
  Place, Key, Node, mapping, sequence, leaf, nil, cons, done, pair, tag, merge, merge_files,
  duplicate_keys,
}
use veduta.Config.Layers.{find, is_mapping, Open, merge-layers}

abbrev at : ℕ → Place
at n = record { file = ""; line = n; column = 1 }

abbrev named : String → ℕ → Key
named s n = record { value = s; place = at n }

-- title: Home, cards: [a, b], server: {port: 80, host: x}
abbrev main : Node
main = mapping (at 1) (
    pair (named "title" 1) (leaf (at 1) "Home") (
      pair (named "cards" 2) (sequence (at 2) (cons (leaf (at 2) "a") (cons (leaf (at 2) "b") nil)))
        (pair (named "server" 3)
          (mapping (at 4) (
            pair (named "port" 4) (leaf (at 4) "80")
              (pair (named "host" 5) (leaf (at 5) "x") done)))
          done)))

-- cards: [c], server: {port: 81}
abbrev later : Node
later = mapping (at 1) (
    pair (named "cards" 1) (sequence (at 1) (cons (leaf (at 1) "c") nil)) (
      pair (named "server" 2) (mapping (at 3) (pair (named "port" 3) (leaf (at 3) "81") done))
        done))

later_clean : duplicate_keys later ≡ []
unfolding duplicate_keys lookup insert
later_clean = refl

twice :
    duplicate_keys (
      mapping
        (at 1)
        (pair (named "a" 1) (leaf (at 1) "1") (pair (named "a" 2) (leaf (at 2) "2") done)))
    ≡ (named "a" 2, 1) ∷ []
unfolding duplicate_keys lookup insert
twice = refl

port : find ("server" ∷ "port" ∷ []) (merge "b.yaml" main later) ≡ some (leaf (at 3) "81")
unfolding merge
port = refl

noted :
    find ("title" ∷ []) (tag "a.yaml" main)
    ≡ some (leaf (record { file = "a.yaml"; line = 1; column = 1 }) "Home")
unfolding tag
noted = refl

only_one : merge_files none (some later) "b.yaml" ≡ some later
unfolding merge_files
only_one = refl

merge-layers_example :
    ((w : Node)
      → find ("server" ∷ "host" ∷ []) later ≡ some w
      → is_mapping w ≡ false
      → find ("server" ∷ "host" ∷ []) (merge "b.yaml" main later) ≡ some w)
    × (Open ("server" ∷ "host" ∷ []) later
        → find ("server" ∷ "host" ∷ []) (merge "b.yaml" main later)
          ≡ find ("server" ∷ "host" ∷ []) main)
merge-layers_example = merge-layers "b.yaml" ("server" ∷ "host" ∷ []) main later later_clean
