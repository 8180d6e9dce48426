-- ===== src/Viewport/Grid.antt =====
-- components/map/SchematicMap.tsx: the bounds that are shown at first, the lines of the grid, and the scale.
use zhiyuche.Common.{
  ℕ, zero, suc, String, ◌<>◌, Bool, ◌||◌, Option, none, some, List, [], ◌∷◌, ◌++◌, if◌then◌else◌,
}
use zhiyuche.Common.Number.{Number}
use zhiyuche.Geo.{MathOf, LngLat, max_of, Bounds, is_valid_lng_lat, bounds_of, pad_bounds}
use zhiyuche.Viewport.{Size, Projection, project, unproject}

-- `ceil` and `log10` are those of `Math`, and `to_fixed` prints with so many digits.
module _ (number : Number) (math : MathOf number) (ceil log10 : number.Carrier → number.Carrier)
    (to_fixed : number.Carrier → number.Carrier → String) where
  open number use {Carrier, of_ℕ, neg, plus, minus, times, over, eqn, ltn, parse, show}
  open math use {abs}

  -- `GRID_STEPS` but the last, and the last
  abbrev pub grid_steps : List Carrier
  grid_steps =
      parse "0.0002"
      ∷ parse "0.0005"
      ∷ parse "0.001"
      ∷ parse "0.002"
      ∷ parse "0.005"
      ∷ parse "0.01"
      ∷ parse "0.02"
      ∷ parse "0.05"
      ∷ parse "0.1"
      ∷ parse "0.2"
      ∷ parse "0.5"
      ∷ of_ℕ 1
      ∷ of_ℕ 2
      ∷ of_ℕ 5
      ∷ of_ℕ 10
      ∷ []

  abbrev pub last_step : Carrier
  last_step = of_ℕ 20

  -- `pickStep` on the steps, with the most lines that there may be; `<=` is false on NaN.
  unfoldable pub is_enough : Carrier → ℕ → Carrier → Bool
  is_enough range most st = ltn (over range st) (of_ℕ most) || eqn (over range st) (of_ℕ most)

  unfoldable pub pick_step : Carrier → ℕ → List Carrier → Carrier
  unfolding is_enough
  pick_step range most [] = last_step
  pick_step range most (st ∷ sts) =
      let rest = pick_step range most sts in if is_enough range most st then st else rest

  unfoldable pub step_digits : Carrier → Carrier
  step_digits st = max_of number (of_ℕ 0) (ceil (neg (log10 st)))

  unfoldable pub format_meters : Carrier → String
  format_meters m = if ltn m (of_ℕ 1000) then show m <> " m" else show (over m (of_ℕ 1000)) <> " km"

  pub record Line : Type 0 where
    pub at : Carrier
    pub label : String

  -- A loop of the grid from a value on, which is left after the line that makes 41 of them.
  unfoldable pub lines_from : ℕ → (Carrier → Carrier) → Carrier → Carrier → Carrier → List Line
  lines_from zero place last st value = []
  lines_from (suc fuel) place last st value =
      let rest = lines_from fuel place last st (plus value st) in
      if ltn value last || eqn value last
      then record { at = place value; label = to_fixed (step_digits st) value } ∷ rest
      else []

  unfoldable pub grid_lines : (Carrier → Carrier) → Carrier → Carrier → Carrier → List Line
  unfolding lines_from
  grid_lines place first last st = lines_from 41 place last st (times (ceil (over first st)) st)

  -- `grid`: the lines across and along.
  unfoldable pub grid : Projection number math → Size number math → List Line × List Line
  unfolding grid_lines pick_step project unproject
  grid p size =
      let (lng_l, lat_b) = unproject number math p (of_ℕ 0, size.h) in
      let (lng_r, lat_t) = unproject number math p (size.w, of_ℕ 0) in
      (
        grid_lines (λ lng. (project number math p (lng, lat_b)).0) lng_l lng_r
            (pick_step (abs (minus lng_r lng_l)) 8 grid_steps),
        grid_lines (λ lat. (project number math p (lng_l, lat)).1) lat_b lat_t
            (pick_step (abs (minus lat_t lat_b)) 8 grid_steps),
      )

  -- `SCALE_METERS`
  abbrev pub scale_meters : List ℕ
  scale_meters =
      5 ∷ 10 ∷ 20 ∷ 50 ∷ 100 ∷ 200 ∷ 500 ∷ 1000 ∷ 2000 ∷ 5000 ∷ 10000 ∷ 20000 ∷ 50000 ∷ 100000
      ∷ 200000 ∷ 500000 ∷ []

  -- The loop of `scale`: the last length that fits in 140 pixels, or the first of all.
  unfoldable pub best_scale : Carrier → ℕ → List ℕ → ℕ
  best_scale m_per_px best [] = best
  best_scale m_per_px best (m ∷ ms) =
      let px = over (of_ℕ m) m_per_px in
      let kept = best_scale m_per_px best ms in
      let taken = best_scale m_per_px m ms in
      if ltn px (of_ℕ 140) || eqn px (of_ℕ 140) then taken else kept

  unfoldable pub scale : Projection number math → Carrier × String
  unfolding best_scale format_meters
  scale p =
      let m_per_px = over (of_ℕ 111320) p.px_per_deg_lat in
      let best = best_scale m_per_px 5 scale_meters in
      (over (of_ℕ best) m_per_px, format_meters (of_ℕ best))

  points_of : List (List (LngLat number)) → List (LngLat number)
  points_of [] = []
  points_of (l ∷ ls) = l ++ points_of ls

  or_center : Option (LngLat number) → List (LngLat number) → List (LngLat number)
  or_center (some c) [] = if is_valid_lng_lat number math c then c ∷ [] else []
  or_center center points = points

  padded : Carrier → Option (Bounds number) → Option (Bounds number)
  padded span none = none
  padded span (some b) = some (pad_bounds number (parse "0.12") span b)

  -- `computeBounds`, of the places of the markers and the points of the lines
  unfoldable pub compute_bounds :
      List (LngLat number)
      → List (List (LngLat number))
      → Option (LngLat number)
      → Bool
      → Carrier
      → Option (Bounds number)
  unfolding points_of or_center padded bounds_of
  compute_bounds markers polylines center fit_bounds span = padded span (
      bounds_of number math
        (or_center center (if fit_bounds then markers ++ points_of polylines else [])))

  -- What `FrozenCanvas` shows where there are no bounds: Beijing.
  unfoldable pub initial_bounds : Option (Bounds number) → Bounds number
  initial_bounds none = pad_bounds number (parse "0.12") (parse "0.05") (record {
    min_lng = parse "116.3975";
    max_lng = parse "116.3975";
    min_lat = parse "39.9087";
    max_lat = parse "39.9087";
  })
  initial_bounds (some b) = b
