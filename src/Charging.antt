-- ===== src/Charging.antt =====
-- pages/charging/style.ts: why a charge waits for a review, how long it took, and the names of its parts. A
-- text that is looked up in a table is taken to be none of the names that every object inherits.
pub mod Actions
use zhiyuche.Forms.{is_some}
use zhiyuche.Common.{
  ℕ, String, ◌<>◌, Bool, true, false, not, ◌&&◌, Option, none, some, List, [], ◌∷◌, ◌==◌,
  if◌then◌else◌,
}
use zhiyuche.Common.Dayjs.{Dayjs}
use zhiyuche.Common.Number.{Number}
use zhiyuche.Session.{truthy}
use zhiyuche.Format.{empty_text, text_or}
use zhiyuche.Geo.{max_of}

pub data ChargeStatus : Type 0 where
  charging : ChargeStatus
  ended : ChargeStatus
  settled : ChargeStatus
  cancelled : ChargeStatus

pub data ReviewStatus : Type 0 where
  unneeded : ReviewStatus
  pending : ReviewStatus
  approved : ReviewStatus
  rejected : ReviewStatus

pub data ReasonKind : Type 0 where
  unbound : ReasonKind
  deviation : ReasonKind
  pricing : ReasonKind
  other : ReasonKind

-- The entry of a table, if there is one.
unfoldable pub entry {ℓ} : {A : Type ℓ} → String → List (String × A) → Option A
entry k [] = none
entry k ((j, a) ∷ table) = let rest = entry k table in if j == k then some a else rest

abbrev pub bind_method_labels : List (String × String)
bind_method_labels =
    ("card", "刷卡匹配")
    ∷ ("location", "桩位匹配")
    ∷ ("recent_trip", "最近行程")
    ∷ ("manual", "人工指定")
    ∷ ("none", "未绑定")
    ∷ []

abbrev pub attribution_labels : List (String × String)
attribution_labels = ("enterprise", "企业账户") ∷ ("department", "部门账户") ∷ ("employee", "员工账户") ∷ []

label_in : List (String × String) → Option String → Option String
unfolding entry
label_in table none = none
label_in table (some v) = some (text_or v (entry v table))

-- `bindMethodLabel` and `attributionLabel`
unfoldable pub bind_method_label : Option String → String
unfolding label_in
bind_method_label v = text_or "未绑定" (label_in bind_method_labels (truthy v))

unfoldable pub attribution_label : Option String → Option String
unfolding label_in
attribution_label v = label_in attribution_labels (truthy v)

-- The style of a connector: its label, its badge and its colour, whether it pulses, and whether a charge
-- can be started there.
pub record ConnectorStyle : Type 0 where
  pub label : String
  pub badge : String
  pub hex : String
  pub pulse : Bool
  pub startable : Bool

plain : String → String → String → ConnectorStyle
plain label badge hex = record {
  label = label;
  badge = badge;
  hex = hex;
  pulse = false;
  startable = false;
}

abbrev connector_styles : List (String × ConnectorStyle)
unfolding plain
connector_styles =
    ("Available", record (plain "空闲" "green" "#10b981") { startable = true })
    ∷ ("Preparing", record (plain "已插枪" "blue" "#3b82f6") { startable = true })
    ∷ ("Charging", record (plain "充电中" "amber" "#f59e0b") { pulse = true })
    ∷ ("SuspendedEV", plain "车端暂停" "gray" "#94a3b8")
    ∷ ("SuspendedEVSE", plain "桩端暂停" "gray" "#94a3b8")
    ∷ ("Finishing", plain "结束中" "blue" "#3b82f6")
    ∷ ("Reserved", plain "已预约" "purple" "#8b5cf6")
    ∷ ("Unavailable", plain "不可用" "gray" "#cbd5e1")
    ∷ ("Faulted", plain "故障" "red" "#ef4444")
    ∷ []

or_style : ConnectorStyle → Option ConnectorStyle → ConnectorStyle
or_style style none = style
or_style style (some other_style) = other_style

unfoldable pub connector_style : String → ConnectorStyle
unfolding entry plain or_style
connector_style status = or_style (plain status "gray" "#94a3b8") (entry status connector_styles)

unfoldable pub is_charging : ChargeStatus → Bool
is_charging charging = true
is_charging _ = false

is_pending : ReviewStatus → Bool
is_pending pending = true
is_pending _ = false

-- `isStoppable`
unfoldable pub is_stoppable : Option ChargeStatus → Bool
unfolding is_charging
is_stoppable none = false
is_stoppable (some status) = is_charging status

-- `fixed digits v` stands for `v.toFixed(digits)`.
module _ (number : Number) (fixed : ℕ → number.Carrier → String) where
  open number use {Carrier, of_ℕ, is_finite, ltn}

  measure : ℕ → String → Option Carrier → String
  measure digits unit none = empty_text
  measure digits unit (some v) = if is_finite v then fixed digits v <> unit else empty_text

  unfoldable pub format_pct : Option Carrier → ℕ → String
  unfolding measure
  format_pct v digits = measure digits "%" v

  unfoldable pub format_kwh : Option Carrier → ℕ → String
  unfolding measure
  format_kwh v digits = measure digits " kWh" v

  unfoldable pub format_kw : Option Carrier → ℕ → String
  unfolding measure
  format_kw v digits = measure digits " kW" v

  unfoldable pub deviation_exceeded : Option Carrier → Bool
  deviation_exceeded none = false
  deviation_exceeded (some pct) = is_finite pct && ltn (of_ℕ 5) pct

  -- A charge, as far as the functions below read it; of the vehicle they ask only whether it is there.
  pub record Charge : Type 0 where
    pub has_vehicle : Bool
    pub deviation_pct : Option Carrier
    pub cost : Option Carrier
    pub review_status : ReviewStatus
    pub status : ChargeStatus
    pub start_at : String
    pub end_at : Option String
    pub duration_min : Option Carrier

  -- `reviewReason`
  unfoldable pub review_reason : Charge → ReasonKind × String
  unfolding deviation_exceeded format_pct is_pending is_charging
  review_reason t =
      if not t.has_vehicle
      then (unbound, "未绑定车辆")
      else if deviation_exceeded t.deviation_pct
      then (deviation, "偏差 " <> format_pct t.deviation_pct 1)
      else if is_pending t.review_status && (not (is_charging t.status) && not (is_some t.cost))
      then (pricing, "计价失败")
      else (other, "待确认")

  -- `diff s e` is `e.diff(s, 'minute', true)`, and `now` the instant of the call.
  module _ (dayjs : Dayjs) (diff : dayjs.Instant → dayjs.Instant → Carrier) where
    open dayjs use {Instant, read}

    end_of : Instant → Option String → ChargeStatus → Option Instant
    end_of now (some end_at) status = read end_at
    end_of now none charging = some now
    end_of now none _ = none

    minutes_between : Option Instant → Option Instant → Option Carrier
    minutes_between none e = none
    minutes_between (some s) none = none
    minutes_between (some s) (some e) = some (max_of number (of_ℕ 0) (diff s e))

    or_minutes : Option Carrier → Option Carrier → Option Carrier
    or_minutes (some minutes) counted = some minutes
    or_minutes none counted = counted

    -- `txDurationMin`
    unfoldable pub tx_duration_min : Instant → Charge → Option Carrier
    unfolding end_of minutes_between or_minutes
    tx_duration_min now t =
        or_minutes t.duration_min
          (minutes_between (read t.start_at) (end_of now (truthy t.end_at) t.status))
