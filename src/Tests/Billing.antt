-- ===== src/Tests/Billing.antt =====
-- Accounts that move money to the ones below, the rows of their tree, and the page of a settlement.
use zhiyuche.Common.{
  ℕ, Bool, eqb, false, map, All, String, true, none, some, [], ◌∷◌, ◌+◌, ◌≡◌, refl,
}
use zhiyuche.Common.Text.{trim, is_text, units}
use zhiyuche.Tests.Forms.{dates}
use zhiyuche.Tests.Requests.{naturals}
use zhiyuche.Common.Number.{Number}
use zhiyuche.Billing.{enterprise, department, employee}
use zhiyuche.Accounts.{
  Account, AccountNode, node, nil, cons, Choice, pick, child_level, MoneyForm, is_money_form,
  is_positive_money, AllocateBody, to_owner, submit_allocate,
}
use zhiyuche.Accounts.Edits.{Limits, active, frozen, edit_form, edit_request}
use zhiyuche.Accounts.Rows.{flatten, hide, hide-flatten}
use zhiyuche.Accounts.Laws.{AllBelow, IsSoundTransfer, submit_allocate-IsSoundTransfer}
use zhiyuche.Settlements.{trip, penalty, Line, group_lines}
use zhiyuche.Settlements.Groups.{count, count_grouped, IsGroup, group_lines-IsGrouping}
use zhiyuche.Settlements.Print.{draft, PrintOptions, Settlement, build_settlement_print_html}
use zhiyuche.Settlements.Laws.{opens, detail_tags, opens-build_settlement_print_html}

abbrev firm : Account
firm = record { id = "a1"; exists = none; level = enterprise; owner_id = "t1" }

abbrev office : Account
office = record { id = "a2"; exists = some true; level = department; owner_id = "d1" }

abbrev driver : Account
driver = record { id = ""; exists = none; level = employee; owner_id = "u1" }

abbrev accounts : AccountNode
accounts = node firm (cons (node office (cons (node driver nil) nil)) nil)

hide-flatten_example : flatten accounts ("a2" ∷ []) ≡ hide ("a2" ∷ []) none (flatten accounts [])
hide-flatten_example = hide-flatten accounts ("a2" ∷ [])

-- Every text is the number 5.
abbrev fives : Number
fives = record naturals { parse = λ s. 5 }

abbrev money_form : MoneyForm fives
money_form = record { amount = " 5 "; remark = "trip" }

money_form-valid : is_money_form fives money_form ≡ true
unfolding is_money_form is_positive_money trim is_text units
money_form-valid = refl

abbrev choice : Choice
choice = record { target = none; mode = pick; child_key = ""; dept_id = some "d2"; user = none }

abbrev transfer : AllocateBody fives
transfer = record { target = to_owner department "d2"; amount = 5; remark = some "trip" }

submitted : submit_allocate fives accounts choice money_form ≡ some transfer
unfolding submit_allocate trim
submitted = refl

below : AllBelow firm (cons (node office (cons (node driver nil) nil)) nil)
unfolding child_level
below = (refl, tt)

submit_allocate-IsSoundTransfer_example : IsSoundTransfer fives accounts choice transfer
submit_allocate-IsSoundTransfer_example =
    submit_allocate-IsSoundTransfer fives accounts choice money_form transfer below tt
      money_form-valid submitted

abbrev ride : Line naturals
ride = record {
  kind = trip;
  ref_no = none;
  ref_id = "<b>";
  occurred_at = "2024-05-01";
  user_name = some "Li";
  vehicle_plate = none;
  quantity = some 12;
  amount = 30;
}

abbrev printed : ℕ → ℕ → String
printed digits n = "<1>"

abbrev settlement : Settlement naturals dates (λ n. "n") printed printed (λ a b. true)
settlement = record {
  id = "s1";
  period = "2024-05";
  dept_id = none;
  dept_name = none;
  generated_at = "2024-06-01";
  status = draft;
  confirmed_at = none;
  confirmed_by_name = none;
  trip_count = 1;
  trip_cost = 30;
  charge_count = 0;
  charge_cost = 0;
  penalty = 0;
  total = 30;
  budget = 100;
  lines = ride ∷ [];
}

abbrev options : PrintOptions
options = record { tenant_name = "<script>"; printed_by = "Li" }

plain : (n : ℕ) → opens "n" ≡ 0
unfolding opens
plain n = refl

opens-build_settlement_print_html_example :
    opens (
      build_settlement_print_html naturals dates
        (λ n. "n")
        printed
        printed
        (λ a b. true)
        "now"
        settlement
        options)
    ≡ 134
      + detail_tags naturals dates
          (λ n. "n")
          printed
          printed
          (λ a b. true)
          plain
          (group_lines naturals (λ a b. true) (ride ∷ []))
opens-build_settlement_print_html_example =
    opens-build_settlement_print_html naturals dates (λ n. "n") printed printed (λ a b. true) plain
      settlement options "now"

abbrev fine : Line naturals
fine = record ride { kind = penalty; amount = 200 }

abbrev always : String → String → Bool
always a b = true

always-total : (a b : String) → always a b ≡ false → always b a ≡ true
always-total a b h = refl

group_lines-IsGrouping_example :
    All (IsGroup naturals always) (group_lines naturals always (fine ∷ ride ∷ fine ∷ []))
    × (count_grouped naturals
          (λ l. eqb l.amount 200)
          (group_lines naturals always (fine ∷ ride ∷ fine ∷ []))
        ≡ count naturals (λ l. eqb l.amount 200) (fine ∷ ride ∷ fine ∷ []))
group_lines-IsGrouping_example =
    group_lines-IsGrouping naturals always always-total (λ l. eqb l.amount 200)
      (fine ∷ ride ∷ fine ∷ [])

-- The ride comes first.
grouped :
    map (λ g. g.subtotal) (group_lines naturals always (fine ∷ ride ∷ fine ∷ [])) ≡ 30 ∷ 400 ∷ []
unfolding group_lines
grouped = refl

-- Nothing is sent where nothing changed, and only the status where an account is frozen.
abbrev limits : Limits fives
limits = record { credit_limit = 5; monthly_budget = 5; status = active }

untouched : edit_request fives (edit_form fives limits) limits ≡ none
unfolding edit_request edit_form
untouched = refl

frozen_now :
    edit_request fives (record (edit_form fives limits) { is_frozen = true }) limits
    ≡ some (record { credit_limit = none; monthly_budget = none; status = some frozen })
unfolding edit_request edit_form
frozen_now = refl
