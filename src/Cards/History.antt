-- ===== src/Cards/History.antt =====
-- state/history.go: the points that are drawn of a signal's retained samples.
use veduta.Prelude.{
  ℕ, zero, suc, ◌+◌, ◌-◌, ◌*◌, ◌/◌, true, false, not, ◌&&◌, Option, none, some, List, [], ◌∷◌, ◌++◌,
  length, leb, ltb, ◌==◌, if◌then◌else◌,
}
use veduta.Cards.CardState.{Time, max_history_points}

-- What the source uses of float64.
pub record Floats (V : Type 0) : Type 0 where
  pub nought : V
  pub add : V → V → V
  pub divide : V → ℕ → V

-- `Sample`.
pub record Sample (V : Type 0) : Type 0 where
  pub t : Time
  pub v : V

-- A point of a series: `widgets.SeriesPoint`, where a point without a value marks a gap.
pub record SeriesPoint (V : Type 0) : Type 0 where
  pub t : Time
  pub v : Option V

abbrev pub gap_factor : ℕ
gap_factor = 3

-- The points that leave room for as many gap markers: `budget`.
abbrev pub history_budget : ℕ
history_budget = 144

abbrev pub put_up : ℕ → List ℕ → List ℕ
put_up x [] = x ∷ []
put_up x (y ∷ ys) = let rest = put_up x ys in if leb x y then x ∷ y ∷ ys else y ∷ rest

-- `sort.Slice` of durations by `<`.
abbrev pub sort_up : List ℕ → List ℕ
sort_up [] = []
sort_up (x ∷ xs) = put_up x (sort_up xs)

-- An item by its index; the source's index is always in range.
abbrev pub nth : ℕ → List ℕ → ℕ
nth k [] = 0
nth zero (x ∷ xs) = x
nth (suc k) (x ∷ xs) = nth k xs

abbrev pub bucket_width : Time → Time → ℕ
bucket_width from to = let width = (to - from) / history_budget in if width == 0 then 1 else width

module _ {V : Type 0} where
  -- The samples inside [from, to].
  abbrev pub inside : Time → Time → List (Sample V) → List (Sample V)
  inside from to [] = []
  inside from to (s ∷ samples) =
      let rest = inside from to samples in
      if not (ltb s.t from) && not (ltb to s.t) then s ∷ rest else rest

  -- Of samples at one instant the last is kept; `p` is the last that was kept.
  abbrev pub dedup_after : Sample V → List (Sample V) → List (Sample V)
  dedup_after p [] = p ∷ []
  dedup_after p (s ∷ xs) = let rest = dedup_after s xs in if p.t == s.t then rest else p ∷ rest

  abbrev pub dedup : List (Sample V) → List (Sample V)
  dedup [] = []
  dedup (s ∷ xs) = dedup_after s xs

  -- `flush`.
  abbrev pub flush : Floats V → V → ℕ → Time → List (Sample V)
  flush fl sum zero last = []
  flush fl sum (suc n) last = record { t = last; v = fl.divide sum (suc n) } ∷ []

  -- The loop over the samples. The bucket is the source's plus one, so 0 is its -1.
  abbrev pub average_from :
      Floats V → Time → ℕ → ℕ → V → ℕ → Time → List (Sample V) → List (Sample V)
  average_from fl from width bucket sum n last [] = flush fl sum n last
  average_from fl from width bucket sum n last (s ∷ xs) =
      let b = suc ((s.t - from) / width) in
      elim (b == bucket) [
        | true ↦ average_from fl from width bucket (fl.add sum s.v) (suc n) s.t xs
        | false ↦
            flush fl sum n last ++ average_from fl from width b (fl.add fl.nought s.v) 1 s.t xs
      ]

  -- The samples themselves when they fit, otherwise the mean of each bucket.
  abbrev pub averaged : Floats V → Time → Time → List (Sample V) → List (Sample V)
  averaged fl from to xs =
      if ltb history_budget (length xs)
      then average_from fl from (bucket_width from to) 0 fl.nought 0 0 xs
      else xs

  abbrev pub spacings_after : Time → List (Sample V) → List ℕ
  spacings_after p [] = []
  spacings_after p (s ∷ xs) = (s.t - p) ∷ spacings_after s.t xs

  abbrev pub spacings : List (Sample V) → List ℕ
  spacings [] = []
  spacings (s ∷ xs) = spacings_after s.t xs

  -- `medianSpacing`.
  unfoldable pub median_spacing : List (Sample V) → ℕ
  median_spacing xs =
      if ltb (length xs) 3 then 0 else let d = sort_up (spacings xs) in nth (length d / 2) d

  -- The marker between two readings, when `made` points are there already.
  abbrev pub gap_marker : ℕ → ℕ → Time → Time → List (SeriesPoint V)
  gap_marker gap made p t =
      if ltb 0 gap && ltb gap (t - p) && ltb made (max_history_points - 1)
      then record { t = p + (t - p) / 2; v = none } ∷ []
      else []

  abbrev pub reading : Sample V → SeriesPoint V
  reading s = record { t = s.t; v = some s.v }

  -- The loop that makes the points, after a reading at `p`.
  abbrev pub points_after : ℕ → ℕ → Time → List (Sample V) → List (SeriesPoint V)
  points_after gap made p [] = []
  points_after gap made p (s ∷ xs) =
      let marker = gap_marker gap made p s.t in
      let here = made + length marker in
      let rest = points_after gap (suc here) s.t xs in
      marker ++ (if here == max_history_points then [] else reading s ∷ rest)

  abbrev pub points_of : ℕ → List (Sample V) → List (SeriesPoint V)
  points_of gap [] = []
  points_of gap (s ∷ xs) = reading s ∷ points_after gap 1 s.t xs

  -- What is drawn, before the markers: `order` is the order that `sort.Slice` makes of the samples.
  unfoldable pub recorded :
      Floats V
      → (List (Sample V) → List (Sample V))
      → List (Sample V)
      → Time
      → Time
      → List (Sample V)
  recorded fl order samples from to = averaged fl from to (dedup (order (inside from to samples)))

  -- `Downsample`.
  unfoldable pub downsample :
      Floats V
      → (List (Sample V) → List (Sample V))
      → List (Sample V)
      → Time
      → Time
      → List (SeriesPoint V)
  unfolding recorded median_spacing
  downsample fl order samples from to =
      let xs = recorded fl order samples from to in points_of (median_spacing xs * gap_factor) xs
