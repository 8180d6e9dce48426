-- ===== src/Track/Search.antt =====
-- The binary search finds the last time that has come; a track made ready is in order of time.
use zhiyuche.Common.{
  ℕ, zero, suc, ◌+◌, ◌-◌, ◌/◌, ◌≤◌, ◌<◌, String, Option, some, List, [], ◌∷◌, length, get_elem?,
  ltb, leb, ◌≡◌, refl, ◌⊎◌, inl, inr, arith, Bool-cases,
}
use zhiyuche.Common.Number.{Number}
use zhiyuche.Geo.{MathOf}
use zhiyuche.Track.{
  not_after, search, index_at, time_at, Point, timed, insert, sort, times_of, prepare,
}

abbrev pub IsSorted : List ℕ → Type 0
IsSorted times = (i j : ℕ) → i ≤ j → j < length times → time_at times i ≤ time_at times j

-- All later times lie after `t`, and this one does not unless it is the first.
abbrev pub IsLastBefore : List ℕ → ℕ → ℕ → Type 0
IsLastBefore times t r =
    (r < length times)
    × (((r ≡ 0) ⊎ (time_at times r ≤ t))
        × ((i : ℕ) → r < i → i < length times → t < time_at times i))

pub get_elem?-time_at :
    (times : List ℕ) (i : ℕ) → i < length times → get_elem? times i ≡ some (time_at times i)
get_elem?-time_at [] i h = elim (none_below i h) [ ]
  where
    none_below : (i : ℕ) → i < 0 → ⊥
    none_below i h = omega arith
get_elem?-time_at (x ∷ times) zero h = refl
get_elem?-time_at (x ∷ times) (suc i) h = get_elem?-time_at times i (omega arith)

module _ (times : List ℕ) (t : ℕ) (sorted : IsSorted times) where
  not_after-time_at :
      (i : ℕ) → i < length times → not_after (get_elem? times i) t ≡ leb (time_at times i) t
  unfolding not_after
  not_after-time_at i h = rw (get_elem?-time_at times i h) refl

  search-IsLastBefore :
      (fuel lo hi : ℕ)
      → hi - lo ≤ fuel
      → lo ≤ hi
      → hi < length times
      → (lo ≡ 0) ⊎ (time_at times lo ≤ t)
      → ((i : ℕ) → hi < i → i < length times → t < time_at times i)
      → IsLastBefore times t (search fuel times t lo hi)
  unfolding search
  search-IsLastBefore zero lo hi enough le inside low high =
      (omega arith, (low, λ i a b. high i (omega arith) b))
  search-IsLastBefore (suc fuel) lo hi enough le inside low high = elim (Bool-cases (ltb lo hi)) [
    | inr met ↦ rw met (ground arith, (low, λ i a b. high i (ground arith) b))
    | inl open_ ↦
        let lt : lo < hi = ground arith in
        elim (Bool-cases (leb (time_at times ((lo + hi + 1) / 2)) t)) [
          | inl come ↦ rw open_ (
              rw (not_after-time_at ((lo + hi + 1) / 2) (omega arith)) (
                rw come (
                  search-IsLastBefore fuel ((lo + hi + 1) / 2) hi (omega arith) (omega arith) inside
                    (inr (ground (arith, come))) high)))
          | inr not_yet ↦ rw open_ (
              rw (not_after-time_at ((lo + hi + 1) / 2) (omega arith)) (
                rw not_yet (
                  search-IsLastBefore fuel lo ((lo + hi + 1) / 2 - 1) (omega arith) (omega arith)
                    (omega arith) low
                    (λ i a b. ground (arith, not_yet, sorted ((lo + hi + 1) / 2) i, a, b)))))
        ]
  ]

  -- In a list of times in order, which has one, the index of a time is that of the last time not after
  -- it, or the first where all are.
  pub index_at-IsLastBefore : 0 < length times → IsLastBefore times t (index_at times t)
  unfolding index_at
  index_at-IsLastBefore some_time =
      search-IsLastBefore (length times) 0 (length times - 1) (omega arith) (omega arith)
        (omega arith) (inl refl) (λ i a b. elim (past_last (length times) i a b) [ ])
    where
      past_last : (n i : ℕ) → n - 1 < i → i < n → ⊥
      past_last n i a b = omega arith

-- Each time before all that follow it.
abbrev pub AtMost : ℕ → List ℕ → Type 0
AtMost x [] = Unit
AtMost x (y ∷ ys) = (x ≤ y) × AtMost x ys

abbrev pub Ascends : List ℕ → Type 0
Ascends [] = Unit
Ascends (x ∷ xs) = AtMost x xs × Ascends xs

AtMost-lower : (a b : ℕ) (xs : List ℕ) → a ≤ b → AtMost b xs → AtMost a xs
AtMost-lower a b [] le h = tt
AtMost-lower a b (x ∷ xs) le (here, there) = (omega arith, AtMost-lower a b xs le there)

AtMost-time_at : (x : ℕ) (xs : List ℕ) (i : ℕ) → AtMost x xs → i < length xs → x ≤ time_at xs i
AtMost-time_at x [] i h lt = omega arith
AtMost-time_at x (y ∷ xs) zero h lt = h.0
AtMost-time_at x (y ∷ xs) (suc i) h lt = AtMost-time_at x xs i h.1 (omega arith)

pub Ascends-IsSorted : (xs : List ℕ) → Ascends xs → IsSorted xs
Ascends-IsSorted [] h i j le lt = omega arith
Ascends-IsSorted (x ∷ xs) h zero zero le lt = omega arith
Ascends-IsSorted (x ∷ xs) h zero (suc j) le lt = AtMost-time_at x xs j h.0 (omega arith)
Ascends-IsSorted (x ∷ xs) h (suc i) zero le lt = omega arith
Ascends-IsSorted (x ∷ xs) h (suc i) (suc j) le lt =
    Ascends-IsSorted xs h.1 i j (omega arith) (omega arith)

module _ (number : Number) (math : MathOf number) (parse_date : String → Option ℕ) where
  abbrev times : List (ℕ × Point number math parse_date) → List ℕ
  times points = times_of number math parse_date points

  AtMost-insert :
      (a : ℕ) (x : ℕ × Point number math parse_date) (ys : List (ℕ × Point number math parse_date))
      → a ≤ x.0
      → AtMost a (times ys)
      → AtMost a (times (insert number math parse_date x ys))
  unfolding insert times_of
  AtMost-insert a x [] le h = (le, tt)
  AtMost-insert a x (y ∷ ys) le h = elim (Bool-cases (leb x.0 y.0)) [
    | inl first ↦ rw first (le, h)
    | inr later ↦ rw later (h.0, AtMost-insert a x ys le h.1)
  ]

  Ascends-insert :
      (x : ℕ × Point number math parse_date) (ys : List (ℕ × Point number math parse_date))
      → Ascends (times ys)
      → Ascends (times (insert number math parse_date x ys))
  unfolding insert times_of
  Ascends-insert x [] h = (tt, tt)
  Ascends-insert x (y ∷ ys) h = elim (Bool-cases (leb x.0 y.0)) [
    | inl first ↦
        let le : x.0 ≤ y.0 = ground arith in
        rw first ((le, AtMost-lower x.0 y.0 (times ys) le h.0), h)
    | inr later ↦
        let le : y.0 ≤ x.0 = ground arith in
        rw later (AtMost-insert y.0 x ys le h.0, Ascends-insert x ys h.1)
  ]

  Ascends-sort :
      (xs : List (ℕ × Point number math parse_date))
      → Ascends (times (sort number math parse_date xs))
  unfolding sort times_of
  Ascends-sort [] = tt
  Ascends-sort (x ∷ xs) = Ascends-insert x (sort number math parse_date xs) (Ascends-sort xs)

  pub prepare-IsSorted :
      (raw : List (Point number math parse_date))
      → IsSorted (times (prepare number math parse_date raw).points)
  unfolding prepare
  prepare-IsSorted raw = Ascends-IsSorted _ (Ascends-sort (timed number math parse_date raw))

  -- On a track made ready from any points, of which one is left, the search finds for every time the
  -- last point that has come by then, or the first point where none has.
  pub index_at-prepare :
      (raw : List (Point number math parse_date)) (t : ℕ)
      → 0 < length (times_of number math parse_date (prepare number math parse_date raw).points)
      → IsLastBefore
          (times_of number math parse_date (prepare number math parse_date raw).points)
          t
          (index_at (times_of number math parse_date (prepare number math parse_date raw).points) t)
  index_at-prepare raw t some_point =
      index_at-IsLastBefore (times (prepare number math parse_date raw).points) t
        (prepare-IsSorted raw) some_point
