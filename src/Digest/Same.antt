-- ===== src/Digest/Same.antt =====
-- Documents that differ in what the canonical form forgets.
use veduta.Prelude.{
  ℕ, ◌+◌, ◌≡◌, sym, ◌≢◌, ◌↔◌, true, false, some, List, [], ◌∷◌, ◌++◌, Bytes, Member,
}
use veduta.Digest.Value.{
  ℤ, Value, null, bool, int_, number, float, text, other, arr, obj, Items, nil, cons, Fields, end,
  field, Step, key, place, texts,
}
use veduta.Digest.Normal.{is_set_like, read_int, contains_float_mark}
use veduta.Digest.Keys.{IsText}

-- The integer that a value stands for.
abbrev pub Denotes : Value → ℤ → Type 0
Denotes (int_ j) i = j ≡ i
Denotes (number s) i = (contains_float_mark s ≡ false) × (read_int s ≡ some i)
Denotes (float j whole) i = (whole ≡ true) × (j ≡ i)
Denotes null i = ⊥
Denotes (bool b) i = ⊥
Denotes (text s) i = ⊥
Denotes other i = ⊥
Denotes (arr xs) i = ⊥
Denotes (obj fs) i = ⊥

-- Two documents that stand for one, at a path: maps in any order of their keys, integers
-- in any of their types, and arrays that are sets in any order and with any repeats.
mutual
  pub data Same : List Step → Value → Value → Type 0 where
    same_refl : (path : List Step) (v : Value) → Same path v v
    same_trans : (path : List Step) (u v w : Value) → Same path u v → Same path v w → Same path u w
    same_number :
        (path : List Step) (v w : Value) (i : ℤ) → Denotes v i → Denotes w i → Same path v w
    same_map :
        (path : List Step) (fs gs : Fields) → SameFields path fs gs → Same path (obj fs) (obj gs)
    same_array :
        (path : List Step) (xs ys : Items) → SameItems path 0 xs ys → Same path (arr xs) (arr ys)
    same_set :
        (path : List Step) (ss ts : List Bytes)
        → is_set_like path ≡ true
        → ((s : Bytes) → Member s ss ↔ Member s ts)
        → Same path (arr (texts ss)) (arr (texts ts))

  pub data SameItems : List Step → ℕ → Items → Items → Type 0 where
    same_nil : (path : List Step) (i : ℕ) → SameItems path i nil nil
    same_cons :
        (path : List Step) (i : ℕ) (x y : Value) (xs ys : Items)
        → Same (path ++ (place i ∷ [])) x y
        → SameItems path (i + 1) xs ys
        → SameItems path i (cons x xs) (cons y ys)

  pub data SameFields : List Step → Fields → Fields → Type 0 where
    same_end : (path : List Step) → SameFields path end end
    same_field :
        (path : List Step) (k : Bytes) (v w : Value) (fs gs : Fields)
        → Same (path ++ (key k ∷ [])) v w
        → SameFields path fs gs
        → SameFields path (field k v fs) (field k w gs)
    same_swap :
        (path : List Step) (k j : Bytes) (v w : Value) (fs : Fields)
        → IsText k
        → IsText j
        → k ≢ j
        → SameFields path (field k v (field j w fs)) (field j w (field k v fs))
    same_chain :
        (path : List Step) (fs gs hs : Fields)
        → SameFields path fs gs
        → SameFields path gs hs
        → SameFields path fs hs

-- Standing for one document goes both ways.
mutual
  pub Same-sym : (path : List Step) (v w : Value) → Same path v w → Same path w v
  Same-sym path v w (same_refl _ _) = same_refl path v
  Same-sym path u w (same_trans _ _ v _ a b) =
      same_trans path w v u (Same-sym path v w b) (Same-sym path u v a)
  Same-sym path v w (same_number _ _ _ i a b) = same_number path w v i b a
  Same-sym path v w (same_map _ fs gs a) = same_map path gs fs (SameFields-sym path fs gs a)
  Same-sym path v w (same_array _ xs ys a) = same_array path ys xs (SameItems-sym path 0 xs ys a)
  Same-sym path v w (same_set _ ss ts is h) = same_set path ts ss is (λ s. ((h s).1, (h s).0))

  SameItems-sym :
      (path : List Step) (i : ℕ) (xs ys : Items) → SameItems path i xs ys → SameItems path i ys xs
  SameItems-sym path i xs ys (same_nil _ _) = same_nil path i
  SameItems-sym path i _ _ (same_cons _ _ x y xs ys a b) =
      same_cons path i y x ys xs (Same-sym (path ++ (place i ∷ [])) x y a)
        (SameItems-sym path (i + 1) xs ys b)

  SameFields-sym :
      (path : List Step) (fs gs : Fields) → SameFields path fs gs → SameFields path gs fs
  SameFields-sym path fs gs (same_end _) = same_end path
  SameFields-sym path _ _ (same_field _ k v w fs gs a b) =
      same_field path k w v gs fs (Same-sym (path ++ (key k ∷ [])) v w a)
        (SameFields-sym path fs gs b)
  SameFields-sym path _ _ (same_swap _ k j v w fs p q d) =
      same_swap path j k w v fs q p (λ e. d (sym e))
  SameFields-sym path fs hs (same_chain _ _ gs _ a b) =
      same_chain path hs gs fs (SameFields-sym path gs hs b) (SameFields-sym path fs gs a)
