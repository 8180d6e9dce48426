-- ===== src/Trips.antt =====
-- pages/trips/style.ts: how the events of a trip are told in a sentence, and the step by which a long track
-- is thinned. An event's colours and icons are not modelled.
pub mod Cost
pub mod Laws
use zhiyuche.Common.{
  ℕ, ◌+◌, ◌-◌, ◌/◌, ◌||◌, String, ◌<>◌, Option, none, some, List, [], ◌∷◌, ◌++◌, if◌then◌else◌, leb,
  not,
}
use zhiyuche.Common.Json.{Json, Fields, end, member, as_num, as_str}
use zhiyuche.Common.Number.{Number}
use zhiyuche.Session.{truthy}
use zhiyuche.Trips.Cost.{num_of}

pub data EventLevel : Type 0 where
  red : EventLevel
  amber : EventLevel
  blue : EventLevel
  gray : EventLevel

-- `other` is a type that the source has no entry for, and that no object inherits.
pub data EventType : Type 0 where
  started : EventType
  ended : EventType
  deviation : EventType
  overspeed : EventType
  low_soc : EventType
  sign_on : EventType
  sign_off : EventType
  cancelled : EventType
  other : String → EventType

-- `eventMeta`, its label and its level.
unfoldable pub event_meta : EventType → String × EventLevel
event_meta started = ("行程开始", blue)
event_meta ended = ("行程结束", blue)
event_meta deviation = ("路线偏离", red)
event_meta overspeed = ("超速", red)
event_meta low_soc = ("低电量", amber)
event_meta sign_on = ("灯牌亮起", gray)
event_meta sign_off = ("灯牌熄灭", gray)
event_meta cancelled = ("行程作废", gray)
event_meta (other type) = (type, gray)

-- What is said where there is something to say, each part only where it is there.
abbrev said : Option String → List String
said none = []
said (some part) = part ∷ []

-- `parts.join(' · ')`, or the text for no parts.
unfoldable pub joined : String → List String → String
joined blank [] = blank
joined blank (part ∷ []) = part
joined blank (part ∷ next ∷ parts) = part <> (" · " <> joined blank (next ∷ parts))

abbrev pub track_max_points : ℕ
track_max_points = 2000

-- `trackStep`; no count is a count of 0.
unfoldable pub track_step : ℕ → ℕ
track_step point_count =
    if leb point_count track_max_points
    then 1
    else (point_count + (track_max_points - 1)) / track_max_points

-- The texts of `Math.round(v)` and of `v.toFixed(1)`, and `v >= 1000`.
module _ (number : Number) (rounded fixed : number.Carrier → String) where
  open number use {Carrier, of_ℕ, over, ltn, eqn}

  abbrev around : String → String → Option Carrier → (Carrier → String) → Option String
  around before after none show = none
  around before after (some v) show = some (before <> (show v <> after))

  abbrev or_text : String → Option String → String
  or_text blank none = blank
  or_text blank (some s) = s

  meters : Carrier → String
  meters d =
      if ltn (of_ℕ 1000) d || eqn d (of_ℕ 1000)
      then fixed (over d (of_ℕ 1000)) <> " km"
      else rounded d <> " m"

  speeding : Option Carrier → Option Carrier → String
  speeding none limit = "超速行驶"
  speeding (some speed) limit =
      "超速 " <> (rounded speed <> (" km/h" <> or_text "" (around "（限 " "）" limit rounded)))

  -- `describeEvent` of a type and the payload, `{}` where there is none.
  unfoldable pub describe_event : EventType → Fields Carrier → String
  unfolding event_meta joined meters speeding num_of
  describe_event overspeed p = speeding (num_of number "speed" p) (num_of number "limit" p)
  describe_event deviation p =
      or_text "偏离计划路线" (around "偏离计划路线约 " "" (num_of number "distance_m" p) meters)
  describe_event low_soc p = or_text "电量过低" (around "电量仅剩 " "%" (num_of number "soc" p) rounded)
  describe_event started p = joined "行程开始" (
      said (around "里程表 " " km" (num_of number "odometer_km" p) fixed)
      ++ said (around "SOC " "%" (num_of number "soc" p) rounded))
  describe_event ended p = joined "行程结束" (
      said (around "行驶 " " km" (num_of number "distance_km" p) fixed)
      ++ (said (around "耗电 " " kWh" (num_of number "energy_kwh" p) fixed)
          ++ said (around "SOC " "%" (num_of number "soc" p) rounded)))
  describe_event cancelled p = or_text "行程作废" (cancel_text (truthy (as_str (member "reason" p))))
    where
      cancel_text : Option String → Option String
      cancel_text none = none
      cancel_text (some reason) = some ("作废：" <> reason)
  describe_event sign_on p = (event_meta sign_on).0
  describe_event sign_off p = (event_meta sign_off).0
  describe_event (other type) p = (event_meta (other type)).0
