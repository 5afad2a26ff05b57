-- ===== src/Routepath/Split.antt =====
-- `strings.Split` and `strings.Join`, as routepath/canonicalise.go uses them.
use veduta.Prelude.{
  ℕ, ◌≡◌, refl, ap, ◌∙◌, ◌≢◌, inl, inr, List, [], ◌∷◌, ◌++◌, arith, Bytes, length, All, count,
  count-append, ◌==◌, if◌then◌else◌, ==_iff, ne→==, Bool-cases,
}
use veduta.Routepath.Canonicalise.{split, join, cons_head}

-- `strings.Split` and `strings.Join` by one byte undo each other.
pub split-ne-nil : (sep : ℕ) (s : Bytes) → split sep s ≢ []
unfolding split
split-ne-nil sep [] h = cc
split-ne-nil sep (c ∷ s) h = shape (split sep s) h
  where
    shape : (r : List Bytes) → (if c == sep then [] ∷ r else cons_head c r) ≡ [] → ⊥
    shape [] e = ground arith
    shape (x ∷ xs) e = ground arith

join-cons_head : (sep c : ℕ) (ss : List Bytes) → join sep (cons_head c ss) ≡ c ∷ join sep ss
join-cons_head sep c [] = refl
join-cons_head sep c (s ∷ []) = refl
join-cons_head sep c (s ∷ t ∷ ss) = refl

join-nil_head : (sep : ℕ) (ss : List Bytes) → ss ≢ [] → join sep ([] ∷ ss) ≡ sep ∷ join sep ss
join-nil_head sep [] h = absurd (h refl)
join-nil_head sep (s ∷ ss) h = refl

pub join-split : (sep : ℕ) (s : Bytes) → join sep (split sep s) ≡ s
unfolding split
join-split sep [] = refl
join-split sep (c ∷ s) = elim (Bool-cases (c == sep)) [
  | inl same ↦ rw (
    same,
    join-nil_head sep (split sep s) (split-ne-nil sep s),
    join-split sep s,
    (==_iff c sep).0 same,
  )
  | inr other ↦ rw (other, join-cons_head, join-split sep s)
]

pub split_free : (sep : ℕ) (s : Bytes) → All (λ c. c ≢ sep) s → split sep s ≡ s ∷ []
unfolding split
split_free sep [] h = refl
split_free sep (c ∷ s) h = rw (ne→== c sep h.0, split_free sep s h.1)

split-append :
    (sep : ℕ) (s t : Bytes) → All (λ c. c ≢ sep) s → split sep (s ++ (sep ∷ t)) ≡ s ∷ split sep t
unfolding split
split-append sep [] t h = rw ((==_iff sep sep).1 refl)
split-append sep (c ∷ s) t h = rw (ne→== c sep h.0, split-append sep s t h.1)

pub split-join :
    (sep : ℕ) (s : Bytes) (ss : List Bytes)
    → All (λ t. All (λ c. c ≢ sep) t) (s ∷ ss)
    → split sep (join sep (s ∷ ss)) ≡ s ∷ ss
split-join sep s [] h = split_free sep s h.0
split-join sep s (t ∷ ss) h =
    split-append sep s (join sep (t ∷ ss)) h.0 ∙ ap (λ r. s ∷ r) (split-join sep t ss h.1)

All-cons_head :
    (P : ℕ → Type 0) (c : ℕ) (ss : List Bytes) → P c → All (All P) ss → All (All P) (cons_head c ss)
All-cons_head P c [] h k = ((h, tt), tt)
All-cons_head P c (s ∷ ss) h k = ((h, k.0), k.1)

-- Every segment is made of bytes of the text, and none of them is the separator.
pub All-split :
    (P : ℕ → Type 0) (sep : ℕ) (s : Bytes)
    → All P s
    → All (All (λ c. P c × (c ≢ sep))) (split sep s)
unfolding split
All-split P sep [] h = (tt, tt)
All-split P sep (c ∷ s) h = elim (Bool-cases (c == sep)) [
  | inl same ↦ rw same (tt, All-split P sep s h.1)
  | inr other ↦ rw other (
      All-cons_head (λ c. P c × (c ≢ sep)) c (split sep s) (h.0, ground arith)
        (All-split P sep s h.1))
]

count_free : (sep : ℕ) (s : Bytes) → All (λ c. c ≢ sep) s → count sep s ≡ 0
count_free sep [] h = refl
count_free sep (c ∷ s) h = ground (arith, h.0, count_free sep s h.1)

-- Joining adds one separator between two segments.
pub count-join :
    (sep : ℕ) (s : Bytes) (ss : List Bytes)
    → All (λ t. All (λ c. c ≢ sep) t) (s ∷ ss)
    → count sep (join sep (s ∷ ss)) ≡ length ss
count-join sep s [] h = count_free sep s h.0
count-join sep s (t ∷ ss) h =
    count-append sep s (sep ∷ join sep (t ∷ ss))
    ∙ ground (arith, count_free sep s h.0, count-join sep t ss h.1)
