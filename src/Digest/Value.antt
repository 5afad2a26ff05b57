-- ===== src/Digest/Value.antt =====
-- canonical/canonical.go: the values that are digested.
use veduta.Prelude.{ℕ, Bool, List, [], ◌∷◌, Bytes}

-- An integer; `negsuc n` is -(n + 1).
pub data ℤ : Type 0 where
  pos : ℕ → ℤ
  negsuc : ℕ → ℤ

-- A decoded document. A text is its bytes. `int_` is an `int` before
-- normalisation and an `int64` after it; `number` is a `json.Number`, by its literal; `float` is a
-- `float64`, by its integral part and whether that is all of it; `other` is a value of any other type, such as a time.
mutual
  pub data Value : Type 0 where
    null : Value
    bool : Bool → Value
    int_ : ℤ → Value
    number : Bytes → Value
    float : ℤ → Bool → Value
    text : Bytes → Value
    other : Value
    arr : Items → Value
    obj : Fields → Value

  pub data Items : Type 0 where
    nil : Items
    cons : Value → Items → Items

  -- A map, in the order in which it happens to be walked.
  pub data Fields : Type 0 where
    end : Fields
    field : Bytes → Value → Fields → Fields

-- An element of a path: a key of a map, or a place in an array.
pub data Step : Type 0 where
  key : Bytes → Step
  place : ℕ → Step

-- Why there is no digest; `panicked` is no error but a panic of the program.
pub data DigestError : Type 0 where
  floating unsafe_integer not_a_text panicked : DigestError

abbrev pub texts : List Bytes → Items
texts [] = nil
texts (s ∷ ss) = cons (text s) (texts ss)
