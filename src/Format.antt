-- ===== src/Format.antt =====
-- utils/format.ts: dates, durations and texts for display and for the inputs of forms. `null` and
-- `undefined` are both `none`. The methods of dates are those of the parameter `dayjs`.
pub mod Laws
use zhiyuche.Common.{ℕ, ◌/◌, ◌%◌, String, ◌<>◌, Option, none, some, leb, ltb, if◌then◌else◌}
use zhiyuche.Common.Dayjs.{Dayjs}
use zhiyuche.Common.Number.{Number}
use zhiyuche.Session.{truthy}

-- `EMPTY`
abbrev pub empty_text : String
empty_text = "—"

abbrev pub text_or : String → Option String → String
text_or other none = other
text_or other (some s) = s

module _ (dayjs : Dayjs) where
  open dayjs use {Instant, read, to_iso, format, same_day}

  abbrev read_some : Option String → Option Instant
  read_some none = none
  read_some (some s) = read s

  abbrev format_some : String → Option Instant → Option String
  format_some pattern none = none
  format_some pattern (some d) = some (format pattern d)

  unfoldable pub format_date_time : Option String → String
  format_date_time value =
      text_or empty_text (format_some "YYYY-MM-DD HH:mm" (read_some (truthy value)))

  unfoldable pub format_date : Option String → String
  format_date value = text_or empty_text (format_some "YYYY-MM-DD" (read_some (truthy value)))

  abbrev iso_some : Option Instant → Option String
  iso_some none = none
  iso_some (some d) = some (to_iso d)

  -- `localToRFC3339`
  unfoldable pub local_to_rfc3339 : Option String → Option String
  local_to_rfc3339 value = iso_some (read_some (truthy value))

  -- `rfc3339ToLocal`
  unfoldable pub rfc3339_to_local : Option String → String
  rfc3339_to_local value = text_or "" (format_some "YYYY-MM-DDTHH:mm" (read_some (truthy value)))

  range_text : String → Option Instant → Option Instant → String
  range_text ongoing none e = empty_text
  range_text ongoing (some s) none = (format "MM-DD HH:mm" s <> " → ") <> ongoing
  range_text ongoing (some s) (some e) =
      (format "MM-DD HH:mm" s <> " → ")
      <> (if same_day s e then format "HH:mm" e else format "MM-DD HH:mm" e)

  unfoldable pub format_time_range : Option String → Option String → String → String
  unfolding range_text
  format_time_range start end ongoing =
      range_text ongoing (read_some (truthy start)) (read_some (truthy end))

-- `text` of a string; of a number it is `String(value)`.
unfoldable pub text : Option String → String
text value = text_or empty_text (truthy value)

module _ (number : Number) (show_ℕ : ℕ → String) where
  open number use {Carrier, is_finite}

  minutes_text : ℕ → String
  minutes_text m =
      if leb 60 m
      then (if ltb 0 (m % 60)
          then show_ℕ (m / 60) <> (" 小时 " <> (show_ℕ (m % 60) <> " 分"))
          else show_ℕ (m / 60) <> " 小时")
      else show_ℕ m <> " 分钟"

  -- `formatMinutes`; `rounded` is `Math.max(0, Math.round(min))`.
  unfoldable pub format_minutes : (Carrier → ℕ) → Option Carrier → String
  unfolding minutes_text
  format_minutes rounded none = empty_text
  format_minutes rounded (some min) =
      if is_finite min then minutes_text (rounded min) else empty_text

-- `locale digits v` stands for `v.toLocaleString('zh-CN', ...)` with that many fraction digits.
module _ (number : Number) (locale : ℕ → number.Carrier → String) where
  open number use {Carrier, is_finite, eqn}

  -- Only NaN differs from itself.
  unfoldable pub format_money : Option Carrier → String
  format_money none = empty_text
  format_money (some value) = if eqn value value then locale 2 value else empty_text

  -- `formatNumber(value, digits)`, with a blank unit.
  unfoldable pub format_number : Option Carrier → ℕ → String
  format_number none digits = empty_text
  format_number (some value) digits = if is_finite value then locale digits value else empty_text
