-- ===== src/Geo.antt =====
-- utils/geo.ts: positions, their distances and bounds. The functions of `Math` are a parameter beside
-- the numbers. A constant with decimals is read from its text.
pub mod Simplify
use zhiyuche.Common.{
  ℕ, zero, suc, ◌-◌, Bool, true, false, not, ◌&&◌, ◌||◌, Option, none, some, List, [], ◌∷◌,
  get_elem?, if◌then◌else◌,
}
use zhiyuche.Common.Number.{Number}

-- `Math`, with `%` on numbers.
pub record MathOf (number : Number) : Type 0 where
  pub pi : number.Carrier
  pub infinity : number.Carrier
  pub sin : number.Carrier → number.Carrier
  pub cos : number.Carrier → number.Carrier
  pub asin : number.Carrier → number.Carrier
  pub sqrt : number.Carrier → number.Carrier
  pub abs : number.Carrier → number.Carrier
  pub atan2 : number.Carrier → number.Carrier → number.Carrier
  pub hypot : number.Carrier → number.Carrier → number.Carrier
  pub remainder : number.Carrier → number.Carrier → number.Carrier

module _ (number : Number) where
  open number use {Carrier, of_ℕ, neg, plus, minus, times, over, eqn, ltn, is_finite, parse}

  abbrev pub LngLat : Type 0
  LngLat = Carrier × Carrier

  -- `Math.min` and `Math.max`, which answer NaN where the second is NaN
  abbrev pub min_of : Carrier → Carrier → Carrier
  min_of a b = if ltn a b then a else b

  abbrev pub max_of : Carrier → Carrier → Carrier
  max_of a b = if ltn b a then a else b

  pub record Bounds : Type 0 where
    pub min_lng : Carrier
    pub min_lat : Carrier
    pub max_lng : Carrier
    pub max_lat : Carrier

  -- The body of the loop of `boundsOf`, for a valid position.
  unfoldable pub widen : Option Bounds → LngLat → Bounds
  widen none (lng, lat) = record { min_lng = lng; min_lat = lat; max_lng = lng; max_lat = lat }
  widen (some b) (lng, lat) = record {
    min_lng = if ltn lng b.min_lng then lng else b.min_lng;
    max_lng = if ltn b.max_lng lng then lng else b.max_lng;
    min_lat = if ltn lat b.min_lat then lat else b.min_lat;
    max_lat = if ltn b.max_lat lat then lat else b.max_lat;
  }

  unfoldable pub bounds_center : Bounds → LngLat
  bounds_center b =
      (over (plus b.min_lng b.max_lng) (of_ℕ 2), over (plus b.min_lat b.max_lat) (of_ℕ 2))

  -- `padBounds`, with the ratio and the least span
  unfoldable pub pad_bounds : Carrier → Carrier → Bounds → Bounds
  pad_bounds ratio min_span b =
      let half : Carrier → Carrier = λ x. over x (of_ℕ 2) in
      let grown : Carrier → Carrier = λ x.
        times (if ltn x min_span then min_span else x) (plus (of_ℕ 1) (times ratio (of_ℕ 2))) in
      let w = grown (minus b.max_lng b.min_lng) in
      let h = grown (minus b.max_lat b.min_lat) in
      let cy =
        max_of (plus (neg (of_ℕ 85)) (half h))
          (min_of (minus (of_ℕ 85) (half h)) (half (plus b.min_lat b.max_lat))) in
      let cx =
        max_of (plus (neg (of_ℕ 180)) (half w))
          (min_of (minus (of_ℕ 180) (half w)) (half (plus b.min_lng b.max_lng))) in
      record {
        min_lng = minus cx (half w);
        min_lat = minus cy (half h);
        max_lng = plus cx (half w);
        max_lat = plus cy (half h);
      }

  module _ (math : MathOf number) where
    open math use {pi, infinity, sin, cos, asin, sqrt, abs, atan2, hypot, remainder}

    earth_radius_m : Carrier
    earth_radius_m = of_ℕ 6371000

    deg : Carrier
    deg = over pi (of_ℕ 180)

    square : Carrier → Carrier
    square x = times x x

    unfoldable pub haversine_meters : LngLat → LngLat → Carrier
    unfolding earth_radius_m deg square
    haversine_meters (lng1, lat1) (lng2, lat2) =
        let d_lat = times (minus lat2 lat1) deg in
        let d_lng = times (minus lng2 lng1) deg in
        let s = plus (square (sin (over d_lat (of_ℕ 2)))) (
          times (times (cos (times lat1 deg)) (cos (times lat2 deg)))
            (square (sin (over d_lng (of_ℕ 2))))) in
        times (times (of_ℕ 2) earth_radius_m) (asin (min_of (of_ℕ 1) (sqrt s)))

    length_from : Carrier → LngLat → List LngLat → Carrier
    unfolding haversine_meters
    length_from total p [] = total
    length_from total p (q ∷ qs) = length_from (plus total (haversine_meters p q)) q qs

    -- `pathLengthMeters`
    unfoldable pub path_length_meters : List LngLat → Carrier
    unfolding length_from
    path_length_meters [] = of_ℕ 0
    path_length_meters (p ∷ ps) = length_from (of_ℕ 0) p ps

    -- `isValidLngLat`
    unfoldable pub is_valid_lng_lat : LngLat → Bool
    is_valid_lng_lat (lng, lat) =
        is_finite lng
        && (is_finite lat
            && (not (ltn (of_ℕ 180) (abs lng))
                && (not (ltn (of_ℕ 90) (abs lat)) && not (eqn lng (of_ℕ 0) && eqn lat (of_ℕ 0)))))

    -- `toLngLat`
    unfoldable pub to_lng_lat : Option Carrier → Option Carrier → Option LngLat
    unfolding is_valid_lng_lat
    to_lng_lat (some lng) (some lat) = if is_valid_lng_lat (lng, lat) then some (lng, lat) else none
    to_lng_lat _ _ = none

    bounds_from : Option Bounds → List LngLat → Option Bounds
    unfolding widen is_valid_lng_lat
    bounds_from b [] = b
    bounds_from b (p ∷ ps) =
        let next = if is_valid_lng_lat p then some (widen b p) else b in bounds_from next ps

    -- `boundsOf`
    unfoldable pub bounds_of : List LngLat → Option Bounds
    unfolding bounds_from
    bounds_of points = bounds_from none points

    -- `perpendicularDistance`
    unfoldable pub perpendicular_distance : LngLat → LngLat → LngLat → Carrier
    perpendicular_distance (px, py) (ax, ay) (bx, by) =
        let dx = minus bx ax in
        let dy = minus by ay in
        let t =
          over (plus (times (minus px ax) dx) (times (minus py ay) dy))
            (plus (times dx dx) (times dy dy)) in
        let along = max_of (of_ℕ 0) (min_of (of_ℕ 1) t) in
        if eqn dx (of_ℕ 0) && eqn dy (of_ℕ 0)
        then hypot (minus px ax) (minus py ay)
        else hypot (minus px (plus ax (times along dx))) (minus py (plus ay (times along dy)))

    -- The loop of `nearestIndex`: the index of the next point, and the best index so far with its
    -- distance.
    nearest_from : LngLat → ℕ → Option ℕ → Carrier → List LngLat → Option ℕ
    unfolding haversine_meters
    nearest_from target i best best_d [] = best
    nearest_from target i best best_d (p ∷ ps) =
        let d = haversine_meters p target in
        let closer = nearest_from target (suc i) (some i) d ps in
        let same = nearest_from target (suc i) best best_d ps in
        if ltn d best_d then closer else same

    -- `nearestIndex`, where -1 is `none`
    unfoldable pub nearest_index : List LngLat → LngLat → Option ℕ
    unfolding nearest_from
    nearest_index points target = nearest_from target 0 none infinity points

    -- `bearing`
    unfoldable pub bearing : LngLat → LngLat → Carrier
    unfolding deg
    bearing (lng1, lat1) (lng2, lat2) =
        let f1 = times lat1 deg in
        let f2 = times lat2 deg in
        let dl = times (minus lng2 lng1) deg in
        let y = times (sin dl) (cos f2) in
        let x = minus (times (cos f1) (sin f2)) (times (times (sin f1) (cos f2)) (cos dl)) in
        remainder (plus (over (atan2 y x) deg) (of_ℕ 360)) (of_ℕ 360)
