-- ===== src/Trips/Laws.antt =====
-- The step of a long track.
use zhiyuche.Common.{ℕ, ◌*◌, ◌≤◌, ◌<◌, leb, arith, Bool-cases, inl, inr}
use zhiyuche.Trips.{track_step, track_max_points}

-- The step that is asked for is the least above 0 that leaves at most 2000 points of a track, or 1.
track_step-IsLeast :
    (n : ℕ)
    → (0 < track_step n)
      × ((n ≤ track_step n * track_max_points)
          × ((k : ℕ) → 0 < k → k < track_step n → k * track_max_points < n))
unfolding track_step
track_step-IsLeast n = elim (Bool-cases (leb n 2000)) [
  | inl few ↦ rw few (omega arith, (ground (arith, few), λ k pos below. omega arith))
  | inr many ↦
      rw many (ground (arith, many), (ground (arith, many), λ k pos below. ground (arith, many)))
]
