-- ===== src/Cards/Kept.antt =====
-- state/history.go: no reading is lost to the gap markers.
use veduta.Prelude.{
  ℕ, suc, ◌+◌, ◌-◌, ◌*◌, ◌/◌, ◌≤◌, ◌<◌, ◌≡◌, refl, ap, inl, inr, Bool, true, false, ◌&&◌, none,
  some, List, [], ◌∷◌, arith, length, All, ltb, ◌==◌, if◌then◌else◌, Bool-cases,
}
use native.Mathlib.Nat.{le-div_iff_mul-le, div-lt_iff_lt-mul, div-mul-le_self}
use veduta.Cards.CardState.{Time, max_history_points}
use veduta.Cards.History.{
  Floats, Sample, SeriesPoint, gap_factor, history_budget, bucket_width, inside, dedup,
  average_from, averaged, spacings_after, spacings, median_spacing, reading, points_after,
  points_of, recorded, downsample,
}
use veduta.Cards.Window.{Rising, times, Sorts, bucket_starts, dedup_order_inside-Rising}
use veduta.Cards.Drawn.{Keeps, Chosen, Drawn, dedup_order-Chosen, averaged-Drawn}
use veduta.Cards.Stamps.{At, own-At, All-inside, All-dedup, averaged-At}
use veduta.Cards.Median.{marks, marks_none, marks_few}

div_mono : (a b w : ℕ) → 1 ≤ w → a ≤ b → a / w ≤ b / w
div_mono a b w h k = (le-div_iff_mul-le h).1 (omega (arith, div-mul-le_self a w, k))

-- A window of at least 144 * 144 nanoseconds has at most 145 buckets.
last_bucket :
    (from to : Time)
    → history_budget * history_budget ≤ to - from
    → (1 ≤ bucket_width from to) × ((to - from) / bucket_width from to ≤ 144)
last_bucket from to h = elim (Bool-cases ((to - from) / 144 == 0)) [
  | inl e ↦ absurd (ground arith)
  | inr e ↦
      let wide : 144 ≤ (to - from) / 144 = omega (arith, h) in
      let positive : 1 ≤ (to - from) / 144 = omega (arith, wide) in
      let few : (to - from) / ((to - from) / 144) < 145 =
        (div-lt_iff_lt-mul {k = (to - from) / 144} {x = to - from} {y = 145} positive).1
          (omega (arith, wide)) in
      rw e (omega (arith, wide), omega (arith, few))
]

module _ {V : Type 0} where
  -- What the points are the readings of.
  abbrev pub readings : List (SeriesPoint V) → List (Sample V)
  readings [] = []
  readings (p ∷ ps) = elim (p.v) [
    | none ↦ readings ps
    | some v ↦ record { t = p.t; v = v } ∷ readings ps
  ]

  average_from-few :
      (fl : Floats V) (from width hi : ℕ) (sum : V) (n : ℕ) (last : Time) (xs : List (Sample V))
      → 1 ≤ width
      → last ≤ hi
      → (hi - from) / width ≤ 144
      → Rising (suc last) hi (times xs)
      → length (average_from fl from width (suc ((last - from) / width)) sum (suc n) last xs)
          + (last - from) / width
        ≤ 145
  average_from-few fl from width hi sum n last [] w l top r =
      let low : (last - from) / width ≤ (hi - from) / width =
        div_mono (last - from) (hi - from) width w (omega (arith, l)) in
      omega (arith, low, top)
  average_from-few fl from width hi sum n last (s ∷ xs) w l top r =
      let later : (last - from) / width ≤ (s.t - from) / width =
        div_mono (last - from) (s.t - from) width w (omega (arith, r.0)) in
      let low : (s.t - from) / width ≤ (hi - from) / width =
        div_mono (s.t - from) (hi - from) width w (omega (arith, r.1)) in
      elim (Bool-cases (suc ((s.t - from) / width) == suc ((last - from) / width))) [
        | inl e ↦
            let here : (s.t - from) / width ≡ (last - from) / width = ground arith in
            let rest =
              average_from-few fl from width hi (fl.add sum s.v) (suc n) s.t xs w r.1 top r.2 in
            rw (length, average_from, e) (rw here at rest)
        | inr e ↦
            let there : suc ((last - from) / width) ≤ (s.t - from) / width = ground arith in
            let rest =
              average_from-few fl from width hi (fl.add fl.nought s.v) 0 s.t xs w r.1 top r.2 in
            rw (length, average_from, e) (omega (arith, there, rest))
      ]

  length-averaged :
      (fl : Floats V) (from to : Time) (xs : List (Sample V))
      → history_budget * history_budget ≤ to - from
      → Rising from to (times xs)
      → length (averaged fl from to xs) ≤ 145
  length-averaged fl from to [] h r = omega arith
  length-averaged fl from to (s ∷ xs) h r = elim (Bool-cases (ltb 144 (length (s ∷ xs)))) [
    | inl e ↦
        let (w, top) = last_bucket from to h in
        rw (length, average_from, e, bucket_starts ((s.t - from) / bucket_width from to))
          (omega (
            arith,
            average_from-few fl from (bucket_width from to) to (fl.add fl.nought s.v) 0 s.t xs w r.1
                top r.2,
          ))
    | inr e ↦ rw e (ground arith)
  ]

  length-spacings_after :
      (p : Time) (xs : List (Sample V)) → length (spacings_after p xs) ≡ length xs
  length-spacings_after p [] = refl
  length-spacings_after p (s ∷ xs) = omega (arith, length-spacings_after s.t xs)

  -- When the readings and the markers fit, the points are those readings.
  readings-points_after :
      (gap made p : ℕ) (xs : List (Sample V))
      → made + length xs + marks gap (spacings_after p xs) ≤ max_history_points
      → readings (points_after gap made p xs) ≡ xs
  readings-points_after gap made p [] h = refl
  readings-points_after gap made p (s ∷ xs) h =
      go (λ n. readings-points_after gap n s.t xs) (ltb 0 gap && ltb gap (s.t - p) && ltb made 287)
        refl
    where
      Rest : Type 0
      Rest =
          (n : ℕ)
          → n + length xs + marks gap (spacings_after s.t xs) ≤ 288
          → readings (points_after gap n s.t xs) ≡ xs

      ended :
          Rest
          → (here : ℕ) → suc here + length xs + marks gap (spacings_after s.t xs) ≤ 288
          → readings (if here == 288 then [] else reading s ∷ points_after gap (suc here) s.t xs)
            ≡ s ∷ xs
      ended rest here k = elim (Bool-cases (here == 288)) [
        | inl e ↦ absurd (ground arith)
        | inr e ↦ rw e (ap (λ ys. s ∷ ys) (rest (suc here) k))
      ]

      go :
          Rest
          → (q : Bool) → (ltb 0 gap && ltb gap (s.t - p) && ltb made 287) ≡ q
          → readings (points_after gap made p (s ∷ xs)) ≡ s ∷ xs
      go rest false e = rw e (ended rest (made + 0) (ground arith))
      go rest true e = rw e (ended rest (made + 1) (ground arith))

  median_marks :
      (xs : List (Sample V))
      → length xs ≤ 145
      → length xs + marks (median_spacing xs * gap_factor) (spacings xs) ≤ max_history_points
  unfolding median_spacing
  median_marks [] h = omega arith
  median_marks (s ∷ xs) h = elim (Bool-cases (ltb (length (s ∷ xs)) 3)) [
    | inl e ↦ rw (e, marks_none (spacings (s ∷ xs))) (ground arith)
    | inr e ↦ rw e (
        omega (
          arith,
          h,
          length-spacings_after s.t xs,
          marks_few (spacings_after s.t xs) (ground (arith, length-spacings_after s.t xs)),
        ))
  ]

  readings-points_of :
      (gap : ℕ) (xs : List (Sample V))
      → length xs + marks gap (spacings xs) ≤ max_history_points
      → readings (points_of gap xs) ≡ xs
  readings-points_of gap [] h = refl
  readings-points_of gap (s ∷ xs) h =
      ap (λ ps. s ∷ ps) (readings-points_after gap 1 s.t xs (omega (arith, h)))

-- What is drawn of a window of at least 144 * 144 nanoseconds: there is a choice of samples of the
-- window, one for each instant that has one, in strictly increasing order, and the points that have
-- a value are exactly these samples where they are at most 144, and otherwise the means of the
-- chosen samples by parts of the window, each a 144th of it long, at the time of the last sample of
-- the part. So no gap marker takes a reading's place, and each reading has the time of a sample.
pub readings-downsample :
    {V : Type 0}
    → (fl : Floats V) (order : List (Sample V) → List (Sample V)) → Sorts order
    → Keeps order
    → (samples : List (Sample V)) (from to : Time) → history_budget * history_budget ≤ to - from
    → (ys : List (Sample V)) × Chosen from to samples ys
      × Drawn fl from to ys (readings (downsample fl order samples from to))
      × All (At samples) (readings (downsample fl order samples from to))
unfolding downsample recorded
readings-downsample fl order h k samples from to wide =
    let ys = dedup (order (inside from to samples)) in
    let xs = averaged fl from to ys in
    let same = readings-points_of (median_spacing xs * gap_factor) xs (
      median_marks xs
        (length-averaged fl from to ys wide (dedup_order_inside-Rising order h samples from to))) in
    let stamped = averaged-At fl samples from to ys (
      All-dedup (At samples) (order (inside from to samples)) (
        h.1 (At samples) (inside from to samples)
          (All-inside (At samples) from to samples (own-At samples)))) in
    (
      ys,
      dedup_order-Chosen order h k samples from to,
      rw same (averaged-Drawn fl from to ys (omega (arith, wide))),
      rw same stamped,
    )
