-- ===== src/Tests/Tracks.antt =====
-- A line of five points thinned, and a track of three points played.
use zhiyuche.Common.{
  ℕ, ◌+◌, String, true, false, Option, none, some, List, [], ◌∷◌, ltb, eqb, ◌≡◌, refl, ◌⊎◌, inl,
  inr, Bool-cases, arith,
}
use zhiyuche.Tests.Requests.{naturals}
use zhiyuche.Geo.{MathOf}
use zhiyuche.Geo.Simplify.{
  Distance, simplify, thin, range, furthest, split_at, split_of, round, raise,
}
use zhiyuche.Geo.Simplify.Flat.{IsOrdered}
use zhiyuche.Geo.Simplify.Result.{IsThinned, simplify-IsThinned}
use zhiyuche.Track.{
  index_at, search, first_state, frame, toggled, sought, run, Point, prepare, times_of,
}
use zhiyuche.Track.Search.{IsLastBefore, IsSorted, Ascends-IsSorted, index_at-prepare}
use zhiyuche.Track.Play.{IsInStep, run-IsInStep}

low_or_high : (a b c : ℕ) → ltb a b ≡ true → (ltb a c ≡ true) ⊎ (ltb c b ≡ true)
low_or_high a b c h = elim (Bool-cases (ltb a c)) [
  | inl low ↦ inl low
  | inr not_low ↦ inr (ground (arith, h, not_low))
]

naturals-IsOrdered : IsOrdered naturals
naturals-IsOrdered = record {
  right_numeric = λ a b h. ground arith;
  asymmetric = λ a b h. ground arith;
  zero_numeric = refl;
  between = λ a b c h k. low_or_high a b c h;
}

-- The third point is far out.
abbrev bend : Distance naturals
bend i s e = elim (eqb i 2) [ true ↦ 9 | false ↦ 1 ]

simplify-IsThinned_example :
    (indices : List ℕ) × ((simplify naturals bend 3 5 ≡ some indices)
      × IsThinned naturals naturals-IsOrdered bend 3 refl 5 indices)
simplify-IsThinned_example = simplify-IsThinned naturals naturals-IsOrdered bend 3 refl 5

bent : simplify naturals bend 3 5 ≡ some (0 ∷ 2 ∷ 4 ∷ [])
unfolding simplify thin range furthest split_at split_of round raise
bent = refl

abbrev pub flat_math : MathOf naturals
flat_math = record {
  pi = 3;
  infinity = 1000;
  sin = λ x. x;
  cos = λ x. x;
  asin = λ x. x;
  sqrt = λ x. x;
  abs = λ x. x;
  atan2 = λ x y. x;
  hypot = λ x y. x + y;
  remainder = λ x y. x;
}

-- The second of the points has no time.
abbrev date_of : String → Option ℕ
date_of s = some 100

abbrev point : ℕ → Point naturals flat_math date_of
point n = record { ts = "t"; lng = n; lat = 1; speed = none; soc = none; heading = none }

abbrev raw : List (Point naturals flat_math date_of)
raw = point 1 ∷ point 2 ∷ []

index_at-prepare_example :
    IsLastBefore
      (times_of naturals flat_math date_of (prepare naturals flat_math date_of raw).points)
      150
      (index_at
        (times_of naturals flat_math date_of (prepare naturals flat_math date_of raw).points)
        150)
unfolding prepare times_of
index_at-prepare_example = index_at-prepare naturals flat_math date_of raw 150 (omega arith)

abbrev times : List ℕ
times = 0 ∷ 1000 ∷ 5000 ∷ []

found : index_at times 4999 ≡ 1
unfolding index_at search
found = refl

times-IsSorted : IsSorted times
times-IsSorted =
    Ascends-IsSorted times ((omega arith, (omega arith, tt)), ((omega arith, tt), (tt, tt)))

run-IsInStep_example :
    IsInStep times
      (run times (first_state times true) (frame 300 ∷ sought 2 ∷ toggled ∷ toggled ∷ []))
run-IsInStep_example =
    run-IsInStep times times-IsSorted (omega arith) true
      (frame 300 ∷ sought 2 ∷ toggled ∷ toggled ∷ [])
