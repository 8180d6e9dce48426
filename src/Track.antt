-- ===== src/Track.antt =====
-- components/map/TrackPlayer.tsx: a track made ready, the search for the point of a time, and the
-- playing. Times are milliseconds, as natural numbers; `Date.parse` is a parameter that answers `none`
-- for NaN. How lines and markers look is not modelled.
pub mod Search
pub mod Play
use zhiyuche.Common.{
  ℕ, zero, suc, ◌+◌, ◌-◌, ◌*◌, ◌/◌, ◌%◌, max, min, String, ◌<>◌, Bool, true, false, not, ◌&&◌, ◌||◌,
  Option, none, some, List, [], ◌∷◌, ◌++◌, map, length, get_elem?, ltb, leb, eqb, if◌then◌else◌,
}
use zhiyuche.Common.Number.{Number}
use zhiyuche.Geo.{MathOf, LngLat, is_valid_lng_lat, path_length_meters}
use zhiyuche.Geo.Simplify.{simplify_indices}

-- The loop of `indexAt`, on fuel; a time that is not there compares as `undefined` does.
not_after : Option ℕ → ℕ → Bool
not_after none t = false
not_after (some time) t = leb time t

unfoldable pub search : ℕ → List ℕ → ℕ → ℕ → ℕ → ℕ
unfolding not_after
search zero times t lo hi = lo
search (suc fuel) times t lo hi =
    let mid = (lo + hi + 1) / 2 in
    let later = search fuel times t mid hi in
    let earlier = search fuel times t lo (mid - 1) in
    if ltb lo hi then (if not_after (get_elem? times mid) t then later else earlier) else lo

-- `indexAt`
unfoldable pub index_at : List ℕ → ℕ → ℕ
unfolding search
index_at times t = search (length times) times t 0 (length times - 1)

-- `formatDuration` of whole seconds, over the text of a number.
unfoldable pub format_duration : (ℕ → String) → ℕ → String
format_duration show_ℕ s =
    let h = s / 3600 in
    let m = (s % 3600) / 60 in
    let sec = s % 60 in
    if ltb 0 h
    then show_ℕ h <> ("h " <> (show_ℕ m <> "m"))
    else if ltb 0 m
    then show_ℕ m <> ("m " <> (show_ℕ sec <> "s"))
    else show_ℕ sec <> "s"

pub record Player : Type 0 where
  pub idx : ℕ
  pub playing : Bool
  pub rate : ℕ
  -- `virtualRef.current`
  pub virtual : Option ℕ

abbrev pub time_at : List ℕ → ℕ → ℕ
time_at times i = elim (get_elem? times i) [ none ↦ 0 | some t ↦ t ]

abbrev pub or_first : List ℕ → Option ℕ → ℕ
or_first times none = time_at times 0
or_first times (some v) = v

abbrev pub first_state : List ℕ → Bool → Player
first_state times auto_play = record {
  idx = 0;
  playing = auto_play && ltb 1 (length times);
  rate = 4;
  virtual = none;
}

-- `cur`
abbrev pub current : List ℕ → Player → ℕ
current times s = min s.idx (max 0 (length times - 1))

-- `seek`; an index below 0 is 0 here.
unfoldable pub seek : List ℕ → ℕ → Player → Player
seek times i s =
    let clamped = max 0 (min (length times - 1) i) in
    record s { idx = clamped; virtual = get_elem? times clamped }

-- `togglePlay`
unfoldable pub toggle_play : List ℕ → Player → Player
unfolding seek
toggle_play times s =
    let again =
      if not s.playing && leb (length times - 1) (current times s) then seek times 0 s else s in
    if ltb (length times) 2 then s else record again { playing = not s.playing }

set_rate : ℕ → Player → Player
set_rate rate s = record s { rate = rate }

-- `tick`, with the time since the last one; it runs only while playing.
unfoldable pub tick : List ℕ → ℕ → Player → Player
unfolding index_at
tick times elapsed s =
    let v = or_first times s.virtual + elapsed * s.rate in
    let end = time_at times (length times - 1) in
    if not s.playing || ltb (length times) 2
    then s
    else if leb end v
    then record s { idx = length times - 1; playing = false; virtual = some end }
    else record s { idx = index_at times v; virtual = some v }

pub data Event : Type 0 where
  frame : ℕ → Event
  toggled : Event
  sought : ℕ → Event
  rated : ℕ → Event

unfoldable pub step : List ℕ → Player → Event → Player
unfolding seek toggle_play set_rate tick
step times s (frame elapsed) = tick times elapsed s
step times s toggled = toggle_play times s
step times s (sought i) = seek times i s
step times s (rated rate) = set_rate rate s

unfoldable pub run : List ℕ → Player → List Event → Player
run times s [] = s
run times s (e ∷ es) = run times (step times s e) es

-- The line that was passed and the one that remains, over the thinned indices.
unfoldable pub passed : ℕ → List ℕ → List ℕ
passed cur [] = cur ∷ []
passed cur (i ∷ drawn) = let rest = passed cur drawn in if leb i cur then i ∷ rest else rest

after : ℕ → List ℕ → List ℕ
after cur [] = []
after cur (i ∷ drawn) = let rest = after cur drawn in if leb i cur then rest else i ∷ rest

unfoldable pub remaining : ℕ → List ℕ → List ℕ
unfolding after
remaining cur drawn = cur ∷ after cur drawn

module _ (number : Number) (math : MathOf number) (parse_date : String → Option ℕ) where
  open number use {Carrier, parse}

  -- `TrackPlayerPoint`
  pub record Point : Type 0 where
    pub ts : String
    pub lng : Carrier
    pub lat : Carrier
    pub speed : Option Carrier
    pub soc : Option Carrier
    pub heading : Option Carrier

  pub record Prepared : Type 0 where
    -- The points with their times.
    pub points : List (ℕ × Point)
    pub drawn : Option (List ℕ)

  -- The points that `filter` keeps, with the times that the rest of the code computes of them.
  timed : List Point → List (ℕ × Point)
  unfolding is_valid_lng_lat
  timed [] = []
  timed (p ∷ ps) =
      let rest = timed ps in
      elim (parse_date p.ts) [
        | none ↦ rest
        | some t ↦ if is_valid_lng_lat number math (p.lng, p.lat) then (t, p) ∷ rest else rest
      ]

  -- `sort` by the times, which keeps the order of equal ones.
  insert : ℕ × Point → List (ℕ × Point) → List (ℕ × Point)
  insert x [] = x ∷ []
  insert x (y ∷ ys) = let rest = insert x ys in if leb x.0 y.0 then x ∷ y ∷ ys else y ∷ rest

  sort : List (ℕ × Point) → List (ℕ × Point)
  unfolding insert
  sort [] = []
  sort (x ∷ xs) = insert x (sort xs)

  unfoldable pub coords : List (ℕ × Point) → List (LngLat number)
  coords points = map (λ x. ((x.1).lng, (x.1).lat)) points

  unfoldable pub times_of : List (ℕ × Point) → List ℕ
  times_of points = map (λ x. x.0) points

  -- `prepare`
  unfoldable pub prepare : List Point → Prepared
  unfolding timed sort coords
  prepare raw =
      let points = sort (timed raw) in
      record {
        points = points;
        drawn = simplify_indices number math (coords points) (parse "0.00003");
      }
