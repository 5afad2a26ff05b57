-- ===== src/Examples/Histories.antt =====
-- Runs of internal/state's Downsample.
use veduta.Prelude.{
  ◌⊎◌, ℕ, ◌+◌, ◌/◌, ◌≤◌, ◌≡◌, refl, inl, inr, List, [], ◌∷◌, arith, length, All, leb, if◌then◌else◌,
  Bool-cases,
}
use veduta.Cards.CardState.{Time, max_history_points}
use veduta.Cards.History.{Floats, Sample, downsample}
use veduta.Cards.Window.{Rising, Ordered}
use veduta.Cards.Series.{point_times, downsample-Rising}
use veduta.Cards.Drawn.{Has, Chosen, Drawn}
use veduta.Cards.Stamps.{At}
use veduta.Cards.Kept.{readings, readings-downsample}

abbrev Reading : Type 0
Reading = Sample ℕ

-- One of the orders that sort.Slice may make.
abbrev in_place : Reading → List Reading → List Reading
in_place s [] = s ∷ []
in_place s (x ∷ xs) = let rest = in_place s xs in if leb s.t x.t then s ∷ x ∷ xs else x ∷ rest

abbrev in_order : List Reading → List Reading
in_order [] = []
in_order (s ∷ xs) = in_place s (in_order xs)

All-in_place :
    (P : Reading → Type 0) (s : Reading) (xs : List Reading)
    → P s
    → All P xs
    → All P (in_place s xs)
All-in_place P s [] h k = (h, tt)
All-in_place P s (x ∷ xs) h k = elim (Bool-cases (leb s.t x.t)) [
  | inl e ↦ rw e (h, k)
  | inr e ↦ rw e (k.0, All-in_place P s xs h k.1)
]

All-later : (a b : Time) (xs : List Reading) → a ≤ b → All (λ y. b ≤ y.t) xs → All (λ y. a ≤ y.t) xs
All-later a b [] h k = tt
All-later a b (x ∷ xs) h k = (omega (arith, h, k.0), All-later a b xs h k.1)

in_place-Ordered : (s : Reading) (xs : List Reading) → Ordered xs → Ordered (in_place s xs)
in_place-Ordered s [] h = (tt, tt)
in_place-Ordered s (x ∷ xs) h = elim (Bool-cases (leb s.t x.t)) [
  | inl e ↦ let low : s.t ≤ x.t = ground arith in rw e ((low, All-later s.t x.t xs low h.0), h)
  | inr e ↦
      let low : x.t ≤ s.t = ground arith in
      rw e (All-in_place (λ y. x.t ≤ y.t) s xs low h.0, in_place-Ordered s xs h.1)
]

in_order-Ordered : (xs : List Reading) → Ordered (in_order xs)
in_order-Ordered [] = tt
in_order-Ordered (s ∷ xs) = in_place-Ordered s (in_order xs) (in_order-Ordered xs)

All-in_order : (P : Reading → Type 0) (xs : List Reading) → All P xs → All P (in_order xs)
All-in_order P [] h = tt
All-in_order P (s ∷ xs) h = All-in_place P s (in_order xs) h.0 (All-in_order P xs h.1)

abbrev numbers : Floats ℕ
numbers = record { nought = 0; add = λ x y. x + y; divide = λ x n. x / n }

abbrev at : Time → ℕ → Reading
at t v = record { t = t; v = v }

-- Two readings at one instant, one outside the window and a long silence.
abbrev samples : List Reading
samples = at 1300 3 ∷ at 1100 1 ∷ at 1200 2 ∷ at 1300 4 ∷ at 9000 5 ∷ at 900 6 ∷ []

drawn :
    readings (downsample numbers in_order samples 1000 30000)
    ≡ at 1100 1 ∷ at 1200 2 ∷ at 1300 4 ∷ at 9000 5 ∷ []
unfolding downsample
drawn = refl

drawn_times :
    point_times (downsample numbers in_order samples 1000 30000)
    ≡ 1100 ∷ 1200 ∷ 1300 ∷ 5150 ∷ 9000 ∷ []
unfolding downsample
drawn_times = refl

downsample-Rising_example :
    (length (downsample numbers in_order samples 1000 30000) ≤ max_history_points)
    × Rising 1000 30000 (point_times (downsample numbers in_order samples 1000 30000))
downsample-Rising_example =
    downsample-Rising numbers in_order (in_order-Ordered, All-in_order) samples 1000 30000

in_place-Has : (s x : Reading) (xs : List Reading) → (s ≡ x) ⊎ Has xs x → Has (in_place s xs) x
in_place-Has s x [] m = m
in_place-Has s x (y ∷ ys) m = elim (Bool-cases (leb s.t y.t)) [
  | inl e ↦ rw e m
  | inr e ↦ rw e (elim m as (λ _. Has (y ∷ in_place s ys) x) [
    | inl k ↦ inr (in_place-Has s x ys (inl k))
    | inr t ↦ elim t [ inl k ↦ inl k | inr r ↦ inr (in_place-Has s x ys (inr r)) ]
  ])
]

in_order-Has : (xs : List Reading) (x : Reading) → Has xs x → Has (in_order xs) x
in_order-Has [] x m = m
in_order-Has (s ∷ xs) x (inl e) = in_place-Has s x (in_order xs) (inl e)
in_order-Has (s ∷ xs) x (inr m) = in_place-Has s x (in_order xs) (inr (in_order-Has xs x m))

readings-downsample_example :
    (ys : List Reading) × Chosen 1000 30000 samples ys
    × Drawn numbers 1000 30000 ys (readings (downsample numbers in_order samples 1000 30000))
    × All (At samples) (readings (downsample numbers in_order samples 1000 30000))
readings-downsample_example =
    readings-downsample numbers in_order (in_order-Ordered, All-in_order) in_order-Has samples 1000
      30000 (omega arith)
