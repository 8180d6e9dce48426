-- ===== src/Settlements/Print.antt =====
-- pages/billing/settlements/print.ts: the page that is printed, whose template is given line by line.
use zhiyuche.Settlements.Style.{style}
use zhiyuche.Common.{
  ℕ, String, ◌<>◌, Bool, Option, none, some, List, [], ◌∷◌, length, if◌then◌else◌,
}
use zhiyuche.Common.Dayjs.{Dayjs}
use zhiyuche.Common.Number.{Number}
use zhiyuche.Session.{truthy}
use zhiyuche.Format.{text_or, format_date_time, format_money, format_number}
use zhiyuche.Settlements.{LineKind, trip, charge, penalty, esc, Line, Group, group_lines}

pub data Status : Type 0 where
  draft : Status
  confirmed : Status

-- `SETTLEMENT_LINE_KIND_LABEL`, `lineQuantityUnit` and `SETTLEMENT_STATUS_LABEL`
unfoldable pub kind_label : LineKind → String
kind_label trip = "行程"
kind_label charge = "充电"
kind_label penalty = "罚金"

unfoldable pub line_quantity_unit : LineKind → String
line_quantity_unit trip = "km"
line_quantity_unit charge = "kWh"
line_quantity_unit penalty = ""

unfoldable pub status_label : Status → String
status_label draft = "草稿"
status_label confirmed = "已确认"

unfoldable pub stamp : Status → String
stamp draft = "draft"
stamp confirmed = "ok"

-- A template: its pieces one after the other; and `join('')`.
unfoldable pub join_all : List String → String
join_all [] = ""
join_all (p ∷ ps) = p <> join_all ps

pub record PrintOptions : Type 0 where
  pub tenant_name : String
  pub printed_by : String

-- `show_ℕ` prints a count, `locale` is `toLocaleString` and `fixed` is `toFixed` with so many digits.
module _ (number : Number) (dayjs : Dayjs) (show_ℕ : ℕ → String)
    (locale fixed : ℕ → number.Carrier → String) (leq : String → String → Bool) where
  open number use {Carrier, of_ℕ, ltn, over, times}

  pub record Settlement : Type 0 where
    pub id : String
    pub period : String
    pub dept_id : Option String
    pub dept_name : Option String
    pub generated_at : String
    pub status : Status
    pub confirmed_at : Option String
    pub confirmed_by_name : Option String
    pub trip_count : ℕ
    pub trip_cost : Carrier
    pub charge_count : ℕ
    pub charge_cost : Carrier
    pub penalty : Carrier
    pub total : Carrier
    pub budget : Carrier
    pub lines : List (Line number)

  abbrev pub money : Carrier → String
  money value = format_money number locale (some value)

  unfoldable pub quantity_text : LineKind → Option Carrier → String
  unfolding line_quantity_unit
  quantity_text kind none = "—"
  quantity_text kind (some q) =
      esc (format_number number locale (some q) 1 <> (" " <> line_quantity_unit kind))

  unfoldable pub line_row : Line number → List String
  line_row l =
      "<tr>\n"
      ∷ "  <td>"
      ∷ esc (text_or l.ref_id (truthy l.ref_no))
      ∷ "</td>\n"
      ∷ "  <td>"
      ∷ esc (format_date_time dayjs (some l.occurred_at))
      ∷ "</td>\n"
      ∷ "  <td>"
      ∷ esc (text_or "—" (truthy l.user_name))
      ∷ "</td>\n"
      ∷ "  <td>"
      ∷ esc (text_or "—" (truthy l.vehicle_plate))
      ∷ "</td>\n"
      ∷ "  <td class=\"num\">"
      ∷ quantity_text l.kind l.quantity
      ∷ "</td>\n"
      ∷ "  <td class=\"num\">"
      ∷ esc (money l.amount)
      ∷ "</td>\n"
      ∷ "</tr>"
      ∷ []

  -- `lineRows`
  unfoldable pub line_rows : List (Line number) → String
  unfolding line_row join_all
  line_rows [] = ""
  line_rows (l ∷ ls) = join_all (line_row l) <> line_rows ls

  unfoldable pub group_html : Group number → List String
  unfolding line_rows kind_label
  group_html g =
      "<h3>"
      ∷ esc (kind_label g.kind)
      ∷ "（"
      ∷ show_ℕ (length g.lines)
      ∷ " 笔）</h3>\n"
      ∷ "<table class=\"lines\">\n"
      ∷ "<thead><tr><th>单号</th><th>日期</th><th>用车人</th><th>车牌</th><th class=\"num\">数量</th><th class=\"num\">金额（元）</th></tr></thead>\n"
      ∷ "<tbody>"
      ∷ line_rows g.lines
      ∷ "</tbody>\n"
      ∷ "<tfoot><tr><td colspan=\"5\">小计</td><td class=\"num\">"
      ∷ esc (money g.subtotal)
      ∷ "</td></tr></tfoot>\n"
      ∷ "</table>"
      ∷ []

  unfoldable pub groups_html : List (Group number) → String
  unfolding group_html join_all
  groups_html [] = ""
  groups_html (g ∷ gs) = join_all (group_html g) <> groups_html gs

  unfoldable pub detail : List (Group number) → String
  unfolding groups_html
  detail [] = "<p class=\"muted\">本期无明细行</p>"
  detail (g ∷ gs) = groups_html (g ∷ gs)

  unfoldable pub target_of : PrintOptions → Settlement → String
  target_of opts s = elim (truthy s.dept_id) [
    | none ↦ opts.tenant_name <> "（企业汇总）"
    | some id ↦ text_or "部门" s.dept_name <> "（部门结算单）"
  ]

  unfoldable pub usage : Settlement → String
  usage s =
      if ltn (of_ℕ 0) s.budget
      then fixed 1 (times (over s.total s.budget) (of_ℕ 100)) <> "%"
      else "未设预算"

  unfoldable pub confirmed_text : Option String → String
  confirmed_text at = elim (truthy at) [ none ↦ "—" | some at ↦ format_date_time dayjs (some at) ]

  unfoldable pub page_head : Settlement → PrintOptions → List String
  page_head s opts =
      "<!doctype html>\n"
      ∷ "<html lang=\"zh-CN\">\n"
      ∷ "<head>\n"
      ∷ "<meta charset=\"utf-8\">\n"
      ∷ "<title>"
      ∷ esc opts.tenant_name
      ∷ " "
      ∷ esc s.period
      ∷ " 结算单</title>\n"
      ∷ []

  unfoldable pub page_meta : Settlement → PrintOptions → List String
  unfolding target_of status_label stamp confirmed_text
  page_meta s opts =
      "<body>\n"
      ∷ "<div class=\"sheet\">\n"
      ∷ "  <div class=\"actions\"><button type=\"button\" onclick=\"window.print()\">打印 / 存为 PDF</button></div>\n"
      ∷ "  <h1>智御公务用车月度结算单</h1>\n"
      ∷ "  <div class=\"sub\">"
      ∷ esc opts.tenant_name
      ∷ " · 结算期 "
      ∷ esc s.period
      ∷ "</div>\n"
      ∷ "  <hr class=\"rule\">\n"
      ∷ "  <div class=\"meta\">\n"
      ∷ "    <div><b>结算对象</b><span>"
      ∷ esc (target_of opts s)
      ∷ "</span></div>\n"
      ∷ "    <div><b>结算单号</b><span>"
      ∷ esc s.id
      ∷ "</span></div>\n"
      ∷ "    <div><b>生成时间</b><span>"
      ∷ esc (format_date_time dayjs (some s.generated_at))
      ∷ "</span></div>\n"
      ∷ "    <div><b>状态</b><span class=\"stamp "
      ∷ stamp s.status
      ∷ "\">"
      ∷ esc (status_label s.status)
      ∷ "</span></div>\n"
      ∷ "    <div><b>确认时间</b><span>"
      ∷ esc (confirmed_text s.confirmed_at)
      ∷ "</span></div>\n"
      ∷ "    <div><b>确认人</b><span>"
      ∷ esc (text_or "—" (truthy s.confirmed_by_name))
      ∷ "</span></div>\n"
      ∷ "  </div>\n"
      ∷ "  <hr class=\"rule thin\">\n"
      ∷ []

  unfoldable pub page_summary : String → Settlement → PrintOptions → List String
  unfolding usage detail
  page_summary now s opts =
      "  <table class=\"summary\">\n"
      ∷ "    <thead><tr><th>项目</th><th class=\"num\">笔数</th><th class=\"num\">金额（元）</th></tr></thead>\n"
      ∷ "    <tbody>\n"
      ∷ "      <tr><td>行程费用</td><td class=\"num\">"
      ∷ show_ℕ s.trip_count
      ∷ "</td><td class=\"num\">"
      ∷ esc (money s.trip_cost)
      ∷ "</td></tr>\n"
      ∷ "      <tr><td>充电费用</td><td class=\"num\">"
      ∷ show_ℕ s.charge_count
      ∷ "</td><td class=\"num\">"
      ∷ esc (money s.charge_cost)
      ∷ "</td></tr>\n"
      ∷ "      <tr><td>违规罚金</td><td class=\"num\">—</td><td class=\"num\">"
      ∷ esc (money s.penalty)
      ∷ "</td></tr>\n"
      ∷ "      <tr><td class=\"total\">合计</td><td class=\"num\"></td><td class=\"num total\">¥ "
      ∷ esc (money s.total)
      ∷ "</td></tr>\n"
      ∷ "      <tr><td>月度预算</td><td class=\"num\"></td><td class=\"num\">"
      ∷ esc (if ltn (of_ℕ 0) s.budget then money s.budget else "未设")
      ∷ "</td></tr>\n"
      ∷ "      <tr><td>预算使用率</td><td class=\"num\"></td><td class=\"num\">"
      ∷ esc (usage s)
      ∷ "</td></tr>\n"
      ∷ "    </tbody>\n"
      ∷ "  </table>\n"
      ∷ "  <hr class=\"rule thin\">\n"
      ∷ "  <h2 style=\"font-size:14px;margin:8px 0 0\">费用明细</h2>\n"
      ∷ "  "
      ∷ detail (group_lines number leq s.lines)
      ∷ "\n"
      ∷ "  <hr class=\"rule\">\n"
      ∷ "  <div class=\"footer\">\n"
      ∷ "    <span>数据来源：系统自动生成，不可篡改</span>\n"
      ∷ "    <span>打印人："
      ∷ esc opts.printed_by
      ∷ " · "
      ∷ esc (format_date_time dayjs (some now))
      ∷ "</span>\n"
      ∷ "  </div>\n"
      ∷ "</div>\n"
      ∷ "</body>\n"
      ∷ "</html>"
      ∷ []

  -- `buildSettlementPrintHtml`, with the clock's time.
  unfoldable pub build_settlement_print_html : String → Settlement → PrintOptions → String
  unfolding page_head page_meta page_summary join_all
  build_settlement_print_html now s opts =
      join_all (page_head s opts)
      <> (join_all style <> (join_all (page_meta s opts) <> join_all (page_summary now s opts)))
