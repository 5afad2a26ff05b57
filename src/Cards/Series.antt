-- ===== src/Cards/Series.antt =====
-- state/history.go: what Downsample makes is a series of the widgets.
use veduta.Prelude.{
  ℕ, suc, ◌+◌, ◌-◌, ◌*◌, ◌/◌, ◌≤◌, ◌≡◌, refl, inl, inr, Bool, true, false, ◌&&◌, List, [], ◌∷◌,
  arith, length, ltb, ◌==◌, if◌then◌else◌, Bool-cases,
}
use veduta.Cards.CardState.{Time, max_history_points}
use veduta.Cards.History.{
  Floats, Sample, SeriesPoint, gap_factor, inside, dedup, median_spacing, reading, points_after,
  points_of, recorded, downsample,
}
use veduta.Cards.Window.{Rising, times, Sorts, dedup_order_inside-Rising, averaged-Rising}

-- What a marker needs: a silence wider than the gap, and room.
pub marker_opens :
    (gap wide made : ℕ)
    → (ltb 0 gap && ltb gap wide && ltb made 287) ≡ true
    → (1 ≤ gap) × (suc gap ≤ wide) × (made ≤ 286)
marker_opens gap wide made h = (ground arith, ground arith, ground arith)

module _ {V : Type 0} where
  abbrev pub point_times : List (SeriesPoint V) → List Time
  point_times [] = []
  point_times (p ∷ ps) = p.t ∷ point_times ps

  -- The samples that are drawn, before the markers, lie in the window in strictly increasing order.
  recorded-Rising :
      (fl : Floats V) (order : List (Sample V) → List (Sample V))
      → Sorts order
      → (samples : List (Sample V)) (from to : Time)
      → Rising from to (times (recorded fl order samples from to))
  unfolding recorded
  recorded-Rising fl order h samples from to =
      averaged-Rising fl from to (dedup (order (inside from to samples)))
        (dedup_order_inside-Rising order h samples from to)

  -- A marker lies strictly between the readings beside it.
  points_after-Rising :
      (gap made p hi : ℕ) (xs : List (Sample V))
      → Rising (suc p) hi (times xs)
      → Rising (suc p) hi (point_times (points_after gap made p xs))
  points_after-Rising gap made p hi [] r = tt
  points_after-Rising gap made p hi (s ∷ xs) r =
      go (λ n. points_after-Rising gap n s.t hi xs r.2)
        (ltb 0 gap && ltb gap (s.t - p) && ltb made 287) refl
    where
      Rest : Type 0
      Rest = (n : ℕ) → Rising (suc s.t) hi (point_times (points_after gap n s.t xs))

      ended :
          Rest
          → (lo here : ℕ) → lo ≤ s.t
          → Rising lo hi (
              point_times
                (if here == 288 then [] else reading s ∷ points_after gap (suc here) s.t xs))
      ended rest lo here h = elim (Bool-cases (here == 288)) [
        | inl e ↦ rw e tt
        | inr e ↦ rw e (h, r.1, rest (suc here))
      ]

      go :
          Rest
          → (q : Bool) → (ltb 0 gap && ltb gap (s.t - p) && ltb made 287) ≡ q
          → Rising (suc p) hi (point_times (points_after gap made p (s ∷ xs)))
      go rest false e = rw e (ended rest (suc p) (made + 0) r.0)
      go rest true e =
          let (a, b, c) = marker_opens gap (s.t - p) made e in
          rw e (
            omega arith,
            omega (arith, r.1),
            ended rest (suc (p + (s.t - p) / 2)) (made + 1) (omega arith),
          )

  points_after-fits :
      (gap made p : ℕ) (xs : List (Sample V))
      → made ≤ max_history_points
      → made + length (points_after gap made p xs) ≤ max_history_points
  points_after-fits gap made p [] h = omega (arith, h)
  points_after-fits gap made p (s ∷ xs) h =
      go (λ n. points_after-fits gap n s.t xs) (ltb 0 gap && ltb gap (s.t - p) && ltb made 287) refl
    where
      Rest : Type 0
      Rest = (n : ℕ) → n ≤ 288 → n + length (points_after gap n s.t xs) ≤ 288

      ended :
          Rest
          → (here : ℕ) → here ≤ 288
          → here
              + length (if here == 288 then [] else reading s ∷ points_after gap (suc here) s.t xs)
            ≤ 288
      ended rest here k = elim (Bool-cases (here == 288)) [
        | inl e ↦ rw e (omega (arith, k))
        | inr e ↦
            let more : suc here ≤ 288 = ground arith in rw e (omega (arith, rest (suc here) more))
      ]

      go :
          Rest
          → (q : Bool) → (ltb 0 gap && ltb gap (s.t - p) && ltb made 287) ≡ q
          → made + length (points_after gap made p (s ∷ xs)) ≤ 288
      go rest false e = rw e (omega (arith, ended rest (made + 0) (omega (arith, h))))
      go rest true e =
          let (a, b, c) = marker_opens gap (s.t - p) made e in
          rw e (omega (arith, ended rest (made + 1) (omega (arith, c))))

  points_of-Rising :
      (gap lo hi : ℕ) (xs : List (Sample V))
      → Rising lo hi (times xs)
      → Rising lo hi (point_times (points_of gap xs))
  points_of-Rising gap lo hi [] r = tt
  points_of-Rising gap lo hi (s ∷ xs) r = (r.0, r.1, points_after-Rising gap 1 s.t hi xs r.2)

  points_of-fits : (gap : ℕ) (xs : List (Sample V)) → length (points_of gap xs) ≤ max_history_points
  points_of-fits gap [] = omega arith
  points_of-fits gap (s ∷ xs) = omega (arith, points_after-fits gap 1 s.t xs (omega arith))

-- Whatever samples are retained, in whatever order they are read and by whatever sorting, what is
-- drawn has at most 288 points, at strictly increasing times inside the window, gap markers
-- included.
pub downsample-Rising :
    {V : Type 0}
    → (fl : Floats V) (order : List (Sample V) → List (Sample V)) → Sorts order
    → (samples : List (Sample V)) (from to : Time)
    → (length (downsample fl order samples from to) ≤ max_history_points)
      × Rising from to (point_times (downsample fl order samples from to))
unfolding downsample
downsample-Rising fl order h samples from to =
    let xs = recorded fl order samples from to in
    let gap = median_spacing xs * gap_factor in
    (
      points_of-fits gap xs,
      points_of-Rising gap from to xs (recorded-Rising fl order h samples from to),
    )
