-- ===== src/Track/Play.antt =====
-- The playing of a track: the point that is shown and the time that it stands for.
use mathlib.Core.Path.{subst}
use zhiyuche.Common.{
  ℕ, zero, suc, false, Option, none, refl, sym, ltb→lt, ◌+◌, ◌-◌, ◌*◌, ◌≤◌, ◌<◌, max, min, Bool,
  not, ◌&&◌, ◌||◌, some, List, [], ◌∷◌, length, ltb, leb, ◌≡◌, ◌⊎◌, inl, inr, arith, Bool-cases,
}
use zhiyuche.Track.{
  Player, time_at, or_first, first_state, current, seek, toggle_play, set_rate, tick, Event, frame,
  toggled, sought, rated, step, run,
}
use zhiyuche.Track.Search.{IsSorted, IsLastBefore, index_at-IsLastBefore, get_elem?-time_at}

-- The time that is played lies from the point shown up to the last point, and no point whose time has come
-- is later than the point shown; before anything is played, the first point is shown.
abbrev pub IsAt : List ℕ → ℕ → Option ℕ → Type 0
IsAt times idx none = idx ≡ 0
IsAt times idx (some v) =
    (time_at times idx ≤ v)
    × ((v ≤ time_at times (length times - 1))
        × ((j : ℕ) → (v < time_at times j) ⊎ (time_at times j ≤ time_at times idx)))

-- The point shown is one of the track, and the one of the time that is played; it plays only where there
-- are two points or more.
pub record IsInStep (times : List ℕ) (s : Player) : Type 0 where
  pub shown : s.idx < length times
  pub two_points : (s.playing ≡ false) ⊎ (2 ≤ length times)
  pub in_time : IsAt times s.idx s.virtual

time_at_outside : (times : List ℕ) (j : ℕ) → length times ≤ j → time_at times j ≡ 0
time_at_outside [] j h = refl
time_at_outside (x ∷ times) zero h = omega arith
time_at_outside (x ∷ times) (suc j) h = time_at_outside times j (omega arith)

module _ (times : List ℕ) (sorted : IsSorted times) (some_time : 0 < length times) where
  -- A point, at its own time.
  IsAt-point : (i : ℕ) → i < length times → IsAt times i (some (time_at times i))
  IsAt-point i h = (
    omega arith,
    (
      sorted i (length times - 1) (omega arith) (omega arith),
      λ j. elim (Bool-cases (ltb (time_at times i) (time_at times j))) [
        | inl later ↦ inl (ground (arith, later))
        | inr come ↦ inr (ground (arith, come))
      ],
    ),
  )

  -- The last point whose time has come.
  IsAt-last_before :
      (r v : ℕ)
      → IsLastBefore times v r
      → time_at times r ≤ v
      → v ≤ time_at times (length times - 1)
      → IsAt times r (some v)
  IsAt-last_before r v (inside, (_, after)) come ahead = (come, (ahead, λ j. others j))
    where
      others : (j : ℕ) → (v < time_at times j) ⊎ (time_at times j ≤ time_at times r)
      others j = elim (Bool-cases (ltb r j)) [
        | inl behind ↦ elim (Bool-cases (ltb j (length times))) [
          | inl on ↦ inl (after j (ltb→lt r j behind) (ltb→lt j (length times) on))
          | inr off ↦ inr (omega (arith, time_at_outside times j (ground (arith, off))))
        ]
        | inr before ↦ inr (sorted j r (ground (arith, before)) inside)
      ]

  seek-IsInStep : (i : ℕ) (s : Player) → IsInStep times s → IsInStep times (seek times i s)
  unfolding seek
  seek-IsInStep i s h =
      let clamped = max 0 (min (length times - 1) i) in
      let there = get_elem?-time_at times (max 0 (min (length times - 1) i)) (omega arith) in
      record {
        shown = omega arith;
        two_points = h.two_points;
        in_time = subst (IsAt times clamped) (sym there) (IsAt-point clamped (omega arith));
      }

  flipped-IsInStep :
      (s : Player)
      → 2 ≤ length times
      → IsInStep times s
      → IsInStep times (record s { playing = not s.playing })
  flipped-IsInStep s two h = record { shown = h.shown; two_points = inr two; in_time = h.in_time }

  toggle_play-IsInStep : (s : Player) → IsInStep times s → IsInStep times (toggle_play times s)
  unfolding toggle_play
  toggle_play-IsInStep s h = elim (Bool-cases (ltb (length times) 2)) [
    | inl short ↦ rw short h
    | inr long ↦
        let two : 2 ≤ length times = ground arith in
        elim (Bool-cases (not s.playing && leb (length times - 1) (current times s))) [
          | inl again ↦
              rw long (rw again (flipped-IsInStep (seek times 0 s) two (seek-IsInStep 0 s h)))
          | inr on ↦ rw long (rw on (flipped-IsInStep s two h))
        ]
  ]

  or_first_low : (s : Player) → IsInStep times s → time_at times 0 ≤ or_first times s.virtual
  or_first_low s h = low s.virtual h.in_time
    where
      low : (o : Option ℕ) → IsAt times s.idx o → time_at times 0 ≤ or_first times o
      low none at = omega arith
      low (some v) (here, _) = omega (arith, here, sorted 0 s.idx (omega arith) h.shown)

  low_or_first :
      (r v : ℕ) → (r ≡ 0) ⊎ (time_at times r ≤ v) → time_at times 0 ≤ v → time_at times r ≤ v
  low_or_first r v (inl first) h = rw first h
  low_or_first r v (inr come) h = come

  tick-IsInStep :
      (elapsed : ℕ) (s : Player) → IsInStep times s → IsInStep times (tick times elapsed s)
  unfolding tick
  tick-IsInStep elapsed s h = elim (Bool-cases (not s.playing || ltb (length times) 2)) [
    | inl idle ↦ rw idle h
    | inr plays ↦
        let two : 2 ≤ length times = ground arith in
        elim (Bool-cases
          (leb (time_at times (length times - 1)) (or_first times s.virtual + elapsed * s.rate))) [
            | inl over ↦ rw plays (
                rw over (record {
                  shown = omega arith;
                  two_points = inr two;
                  in_time = IsAt-point (length times - 1) (omega arith);
                }))
            | inr before ↦
                let last =
                  index_at-IsLastBefore times (or_first times s.virtual + elapsed * s.rate) sorted
                    some_time in
                let begun : time_at times 0 ≤ or_first times s.virtual + elapsed * s.rate =
                  omega (arith, or_first_low s h) in
                let ahead : or_first times s.virtual + elapsed * s.rate
                    ≤ time_at times (length times - 1) =
                  ground arith in
                rw plays (
                  rw before (record {
                    shown = last.0;
                    two_points = inr two;
                    in_time = IsAt-last_before _ _ last (low_or_first _ _ (last.1).0 begun) ahead;
                  }))
          ]
  ]

  step-IsInStep : (s : Player) (e : Event) → IsInStep times s → IsInStep times (step times s e)
  unfolding step set_rate
  step-IsInStep s (frame elapsed) h = tick-IsInStep elapsed s h
  step-IsInStep s toggled h = toggle_play-IsInStep s h
  step-IsInStep s (sought i) h = seek-IsInStep i s h
  step-IsInStep s (rated rate) h = record {
    shown = h.shown;
    two_points = h.two_points;
    in_time = h.in_time;
  }

  run-IsInStep_from :
      (s : Player) (es : List Event) → IsInStep times s → IsInStep times (run times s es)
  unfolding run
  run-IsInStep_from s [] h = h
  run-IsInStep_from s (e ∷ es) h = run-IsInStep_from (step times s e) es (step-IsInStep s e h)

  -- Whatever frames come and whatever is clicked: on a track in order of time with a point, the point shown is
  -- one of its points, and it plays only where there are two. The time that it plays lies from that of the
  -- point shown up to that of the last point, and every point with a later time than the one shown is still
  -- to come; before any time is played, the first point is shown.
  pub run-IsInStep :
      (auto_play : Bool) (es : List Event)
      → IsInStep times (run times (first_state times auto_play) es)
  run-IsInStep auto_play es = run-IsInStep_from (first_state times auto_play) es (record {
    shown = some_time;
    two_points = elim (Bool-cases (ltb 1 (length times))) [
      | inl two ↦ inr (ground (arith, two))
      | inr few ↦ inl (ground (arith, few))
    ];
    in_time = refl;
  })
