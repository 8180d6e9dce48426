-- ===== src/Geo/Simplify.antt =====
-- utils/geo.ts: `simplifyIndices`, the thinning of a line with a stack of spans. The array of flags is a
-- function from indices; the stack has its top first.
pub mod Flat
pub mod Result
use zhiyuche.Common.{
  ℕ, zero, suc, ◌+◌, ◌-◌, ◌*◌, Bool, true, false, ◌&&◌, ◌||◌, Option, none, some, List, [], ◌∷◌,
  filter, length, get_elem?, leb, eqb, if◌then◌else◌, map,
}
use zhiyuche.Common.Number.{Number}
use zhiyuche.Geo.{MathOf, LngLat, perpendicular_distance}

-- The indices from `i` on, as many as told.
unfoldable pub range : ℕ → ℕ → List ℕ
range i zero = []
range i (suc n) = i ∷ range (suc i) n

abbrev pub Flags : Type 0
Flags = ℕ → Bool

unfoldable pub raise : ℕ → Flags → Flags
raise i keep j = eqb j i || keep j

-- The two ends.
abbrev pub ends_of : ℕ → Flags
ends_of n j = eqb j 0 || eqb j (n - 1)

module _ (number : Number) where
  open number use {Carrier, of_ℕ, ltn}

  -- The distance of a point from the line through two others, by their indices.
  abbrev pub Distance : Type 0
  Distance = ℕ → ℕ → ℕ → Carrier

  -- The loop for the point that is furthest away: over the number of its rounds, with the largest
  -- distance so far and its index, where -1 is `none`.
  unfoldable pub furthest : Distance → ℕ → ℕ → ℕ → ℕ → Carrier → Option ℕ → Carrier × Option ℕ
  furthest d s e i zero max_d idx = (max_d, idx)
  furthest d s e i (suc n) max_d idx =
      let next = furthest d s e (suc i) n (d i s e) (some i) in
      let same = furthest d s e (suc i) n max_d idx in if ltn max_d (d i s e) then next else same

  -- Where a span is split, if it is.
  unfoldable pub split_of : Carrier → Carrier × Option ℕ → Option ℕ
  split_of tolerance (max_d, none) = none
  split_of tolerance (max_d, some i) = if ltn tolerance max_d then some i else none

  unfoldable pub split_at : Distance → Carrier → ℕ → ℕ → Option ℕ
  unfolding furthest split_of
  split_at d tolerance s e = split_of tolerance (furthest d s e (suc s) (e - suc s) (of_ℕ 0) none)

  -- One round of `while (stack.length > 0)`.
  unfoldable pub round : Option ℕ → ℕ → ℕ → Flags → List (ℕ × ℕ) → Flags × List (ℕ × ℕ)
  round none s e keep stack = (keep, stack)
  round (some i) s e keep stack = (raise i keep, (i, e) ∷ (s, i) ∷ stack)

  -- `none` means that the fuel ran out.
  unfoldable pub thin : Distance → Carrier → ℕ → Flags → List (ℕ × ℕ) → Option Flags
  unfolding split_at round
  thin d tolerance zero keep [] = some keep
  thin d tolerance zero keep (_ ∷ _) = none
  thin d tolerance (suc fuel) keep [] = some keep
  thin d tolerance (suc fuel) keep ((s, e) ∷ stack) =
      let (keep', stack') = round (split_at d tolerance s e) s e keep stack in
      thin d tolerance fuel keep' stack'

  kept : ℕ → Option Flags → Option (List ℕ)
  unfolding range
  kept n none = none
  kept n (some keep) = some (filter keep (range 0 n))

  unfoldable pub simplify : Distance → Carrier → ℕ → Option (List ℕ)
  unfolding thin kept range
  simplify d tolerance n =
      let thinned = kept n (thin d tolerance (2 * n) (ends_of n) ((0, n - 1) ∷ [])) in
      if leb n 2 then some (range 0 n) else thinned

  module _ (math : MathOf number) where
    -- The distance at indices, which are those of points.
    at : List (LngLat number) → ℕ → LngLat number
    at points i = elim (get_elem? points i) [ none ↦ (of_ℕ 0, of_ℕ 0) | some p ↦ p ]

    unfoldable pub distance_in : List (LngLat number) → Distance
    unfolding at
    distance_in points i s e =
        perpendicular_distance number math (at points i) (at points s) (at points e)

    -- `simplifyIndices`
    unfoldable pub simplify_indices : List (LngLat number) → Carrier → Option (List ℕ)
    unfolding simplify distance_in
    simplify_indices points tolerance = simplify (distance_in points) tolerance (length points)

    points_at : List (LngLat number) → Option (List ℕ) → Option (List (LngLat number))
    unfolding at
    points_at points none = none
    points_at points (some indices) = some (map (at points) indices)

    -- `simplifyPath`
    unfoldable pub simplify_path : List (LngLat number) → Carrier → Option (List (LngLat number))
    unfolding points_at simplify_indices
    simplify_path points tolerance = points_at points (simplify_indices points tolerance)
