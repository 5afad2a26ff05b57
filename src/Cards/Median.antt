-- ===== src/Cards/Median.antt =====
-- state/history.go: fewer than half of the silences are wider than the median.
use veduta.Prelude.{
  ℕ, zero, suc, ◌+◌, ◌*◌, ◌/◌, ◌≤◌, ◌<◌, ◌≡◌, refl, inl, inr, ◌&&◌, List, [], ◌∷◌, arith, length,
  All, leb, ltb, if◌then◌else◌, Bool-cases,
}
use veduta.Cards.History.{put_up, sort_up, nth}

-- How many are above `m`.
abbrev over : ℕ → List ℕ → ℕ
over m [] = 0
over m (d ∷ ds) = (if ltb m d then 1 else 0) + over m ds

-- How many silences are wide enough for a marker.
abbrev pub marks : ℕ → List ℕ → ℕ
marks gap [] = 0
marks gap (d ∷ ds) = (if ltb 0 gap && ltb gap d then 1 else 0) + marks gap ds

marks-over : (m : ℕ) (ds : List ℕ) → marks (m * 3) ds ≤ over m ds
marks-over m [] = omega arith
marks-over m (d ∷ ds) = ground (arith, marks-over m ds)

pub marks_none : (ds : List ℕ) → marks 0 ds ≡ 0
marks_none [] = refl
marks_none (d ∷ ds) = ground (arith, marks_none ds)

over-length : (m : ℕ) (ds : List ℕ) → over m ds ≤ length ds
over-length m [] = omega arith
over-length m (d ∷ ds) = ground (arith, over-length m ds)

over-put_up : (m x : ℕ) (ds : List ℕ) → over m (put_up x ds) ≡ over m (x ∷ ds)
over-put_up m x [] = refl
over-put_up m x (d ∷ ds) = elim (Bool-cases (leb x d)) [
  | inl e ↦ rw e refl
  | inr e ↦ rw e (omega (arith, over-put_up m x ds))
]

over-sort_up : (m : ℕ) (ds : List ℕ) → over m (sort_up ds) ≡ over m ds
over-sort_up m [] = refl
over-sort_up m (d ∷ ds) = omega (arith, over-put_up m d (sort_up ds), over-sort_up m ds)

length-put_up : (x : ℕ) (ds : List ℕ) → length (put_up x ds) ≡ suc (length ds)
length-put_up x [] = refl
length-put_up x (d ∷ ds) = elim (Bool-cases (leb x d)) [
  | inl e ↦ rw e refl
  | inr e ↦ rw e (omega (arith, length-put_up x ds))
]

length-sort_up : (ds : List ℕ) → length (sort_up ds) ≡ length ds
length-sort_up [] = refl
length-sort_up (d ∷ ds) = omega (arith, length-put_up d (sort_up ds), length-sort_up ds)

-- Each is no larger than those after it.
abbrev UpFrom : List ℕ → Type 0
UpFrom [] = Unit
UpFrom (d ∷ ds) = All (λ y. d ≤ y) ds × UpFrom ds

All-below : (a b : ℕ) (ds : List ℕ) → a ≤ b → All (λ y. b ≤ y) ds → All (λ y. a ≤ y) ds
All-below a b [] h k = tt
All-below a b (d ∷ ds) h k = (omega (arith, h, k.0), All-below a b ds h k.1)

All-put_up : (a x : ℕ) (ds : List ℕ) → a ≤ x → All (λ y. a ≤ y) ds → All (λ y. a ≤ y) (put_up x ds)
All-put_up a x [] h k = (h, tt)
All-put_up a x (d ∷ ds) h k = elim (Bool-cases (leb x d)) [
  | inl e ↦ rw e (h, k)
  | inr e ↦ rw e (k.0, All-put_up a x ds h k.1)
]

put_up-UpFrom : (x : ℕ) (ds : List ℕ) → UpFrom ds → UpFrom (put_up x ds)
put_up-UpFrom x [] h = (tt, tt)
put_up-UpFrom x (d ∷ ds) h = elim (Bool-cases (leb x d)) [
  | inl e ↦ let low : x ≤ d = ground arith in rw e ((low, All-below x d ds low h.0), h)
  | inr e ↦
      let low : d ≤ x = ground arith in rw e (All-put_up d x ds low h.0, put_up-UpFrom x ds h.1)
]

sort_up-UpFrom : (ds : List ℕ) → UpFrom (sort_up ds)
sort_up-UpFrom [] = tt
sort_up-UpFrom (d ∷ ds) = put_up-UpFrom d (sort_up ds) (sort_up-UpFrom ds)

All-nth : (a k : ℕ) (ds : List ℕ) → k < length ds → All (λ y. a ≤ y) ds → a ≤ nth k ds
All-nth a k [] h p = absurd (omega (arith, h))
All-nth a zero (d ∷ ds) h p = p.0
All-nth a (suc k) (d ∷ ds) h p = All-nth a k ds (omega (arith, h)) p.1

-- In an ascending list no more are above an item than stand after it.
over-nth :
    (k : ℕ) (ds : List ℕ) → UpFrom ds → k < length ds → over (nth k ds) ds + suc k ≤ length ds
over-nth k [] h p = absurd (omega (arith, p))
over-nth zero (d ∷ ds) h p = let all : over d ds ≤ length ds = over-length d ds in ground arith
over-nth (suc k) (d ∷ ds) h p =
    let rest : over (nth k ds) ds + suc k ≤ length ds = over-nth k ds h.1 (omega (arith, p)) in
    let low : d ≤ nth k ds = All-nth d k ds (omega (arith, p)) h.0 in ground arith

-- Fewer than half of the silences are wider than the median.
pub marks_few :
    (ds : List ℕ)
    → 1 ≤ length ds
    → marks (nth (length (sort_up ds) / 2) (sort_up ds) * 3) ds + length ds / 2 + 1 ≤ length ds
marks_few ds h =
    let m = nth (length (sort_up ds) / 2) (sort_up ds) in
    omega (
      arith,
      marks-over m ds,
      over-sort_up m ds,
      length-sort_up ds,
      over-nth (length (sort_up ds) / 2) (sort_up ds) (sort_up-UpFrom ds)
          (omega (arith, length-sort_up ds, h)),
    )
