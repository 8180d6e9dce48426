-- ===== src/Billing/Form.antt =====
-- pages/billing/rules/schemas.ts: `docToForm`, `formToDoc` and the fields that a penalty uses.
pub mod RoundTrip
pub mod Fields
use zhiyuche.Common.{
  String, ◌<>◌, Bool, true, false, Option, none, some, List, [], ◌∷◌, map, if◌then◌else◌,
}
use zhiyuche.Common.Number.{Number}
use zhiyuche.Common.Text.{trim}
use zhiyuche.Billing.{
  AccountLevel, department, employee, PenaltyType, overspeed, not_charging_on_return, harsh_driving,
  late_return, Multiplier, Penalty, RuleDoc, MultiplierForm, PenaltyForm, RuleForm, num, str,
}
use zhiyuche.Billing.Range.{split_range}

-- `meta`: the rule's own keys beside its document.
pub record Meta : Type 0 where
  pub name : String
  pub enabled : Bool
  pub effective_from : Option String
  pub effective_to : Option String

abbrev pub or_else {ℓ} : {A : Type ℓ} → Option A → A → A
or_else none other = other
or_else (some a) other = a

abbrev name_in : Option Meta → Option String
name_in none = none
name_in (some m) = some m.name

abbrev enabled_in : Option Meta → Option Bool
enabled_in none = none
enabled_in (some m) = some m.enabled

abbrev from_in : Option Meta → Option String
from_in none = none
from_in (some m) = m.effective_from

abbrev to_in : Option Meta → Option String
to_in none = none
to_in (some m) = m.effective_to

module _ (number : Number) where
  open number use {Carrier, of_ℕ, ltn}

  multiplier_form : Multiplier number → MultiplierForm
  multiplier_form m =
      let (start, end) = split_range m.range in
      record { name = m.name; start = start; end = end; factor = str number (some m.factor) }

  penalty_form : Penalty number → PenaltyForm
  penalty_form p = record {
    type = p.type;
    threshold_kmh = str number p.threshold_kmh;
    fine_per_event = str number p.fine_per_event;
    min_soc_required = str number p.min_soc_required;
    fine = str number p.fine;
    fine_per_hour = str number p.fine_per_hour;
    max_fine = str number p.max_fine;
  }

  -- `docToForm`
  unfoldable pub doc_to_form : RuleDoc number → Option Meta → RuleForm
  unfolding multiplier_form penalty_form
  doc_to_form doc meta = record {
    name = or_else (name_in meta) doc.rule_name;
    enabled = or_else (enabled_in meta) true;
    effective_from = or_else (from_in meta) "";
    effective_to = or_else (to_in meta) "";
    rule_name = doc.rule_name;
    per_km = str number doc.per_km;
    per_hour = str number doc.per_hour;
    daily_cap = str number doc.daily_cap;
    electricity_cost_per_kwh = str number doc.electricity_cost_per_kwh;
    include_electricity_in_trip = or_else doc.include_electricity_in_trip false;
    charging_attribution = or_else doc.charging_attribution department;
    threshold_soc = str number doc.threshold_soc;
    surcharge_pct = str number doc.surcharge_pct;
    time_multipliers = map multiplier_form doc.time_multipliers;
    penalty_rules = map penalty_form doc.penalty_rules;
    official = or_else doc.official department;
    daily = or_else doc.daily employee;
  }

  -- `{ type }`, with `max_fine` where it is above 0.
  unfoldable pub capped : PenaltyForm → Penalty number
  capped p = record {
    type = p.type;
    threshold_kmh = none;
    fine_per_event = none;
    min_soc_required = none;
    fine = none;
    fine_per_hour = none;
    max_fine = if ltn (of_ℕ 0) (num number p.max_fine) then some (num number p.max_fine) else none;
  }

  unfoldable pub penalty_of : PenaltyType → PenaltyForm → Penalty number
  unfolding capped
  penalty_of overspeed p = record (capped p) {
    threshold_kmh = some (num number p.threshold_kmh);
    fine_per_event = some (num number p.fine_per_event);
  }
  penalty_of harsh_driving p = record (capped p) {
    fine_per_event = some (num number p.fine_per_event);
  }
  penalty_of not_charging_on_return p = record (capped p) {
    min_soc_required = some (num number p.min_soc_required);
    fine = some (num number p.fine);
  }
  penalty_of late_return p = record (capped p) {
    fine = some (num number p.fine);
    fine_per_hour = some (num number p.fine_per_hour);
  }

  -- `penaltyToDoc`
  unfoldable pub penalty_to_doc : PenaltyForm → Penalty number
  unfolding penalty_of
  penalty_to_doc p = penalty_of p.type p

  unfoldable pub multiplier_to_doc : MultiplierForm → Multiplier number
  multiplier_to_doc m = record {
    name = trim m.name;
    range = m.start <> ("-" <> m.end);
    factor = num number m.factor;
  }

  -- `formToDoc`
  unfoldable pub form_to_doc : RuleForm → RuleDoc number
  unfolding penalty_to_doc multiplier_to_doc
  form_to_doc v = record {
    rule_name = trim v.rule_name;
    per_km = some (num number v.per_km);
    per_hour = some (num number v.per_hour);
    daily_cap = some (num number v.daily_cap);
    electricity_cost_per_kwh = some (num number v.electricity_cost_per_kwh);
    include_electricity_in_trip = some v.include_electricity_in_trip;
    charging_attribution = some v.charging_attribution;
    threshold_soc = some (num number v.threshold_soc);
    surcharge_pct = some (num number v.surcharge_pct);
    time_multipliers = map multiplier_to_doc v.time_multipliers;
    penalty_rules = map penalty_to_doc v.penalty_rules;
    official = some v.official;
    daily = some v.daily;
  }

  -- `DEFAULT_RULE_DOC`; a number of the source is read from its text.
  abbrev pub default_rule_doc : RuleDoc number
  default_rule_doc = record {
    rule_name = "纯电车队标准套餐";
    per_km = some (number.parse "0.6");
    per_hour = some (of_ℕ 5);
    daily_cap = some (of_ℕ 80);
    electricity_cost_per_kwh = some (number.parse "0.65");
    include_electricity_in_trip = some true;
    charging_attribution = some department;
    threshold_soc = some (of_ℕ 20);
    surcharge_pct = some (of_ℕ 10);
    time_multipliers =
        record { name = "早高峰"; range = "07:30-09:00"; factor = number.parse "1.3" }
        ∷ record { name = "晚高峰"; range = "17:30-19:00"; factor = number.parse "1.3" }
        ∷ record { name = "深夜"; range = "23:00-06:00"; factor = number.parse "0.7" }
        ∷ [];
    penalty_rules =
        record {
          type = overspeed;
          threshold_kmh = some (of_ℕ 80);
          fine_per_event = some (of_ℕ 5);
          min_soc_required = none;
          fine = none;
          fine_per_hour = none;
          max_fine = some (of_ℕ 50);
        }
        ∷ record {
          type = not_charging_on_return;
          threshold_kmh = none;
          fine_per_event = none;
          min_soc_required = some (of_ℕ 30);
          fine = some (of_ℕ 10);
          fine_per_hour = none;
          max_fine = none;
        }
        ∷ [];
    official = some department;
    daily = some employee;
  }

-- The keys of a penalty's fields, and `PENALTY_FIELDS`.
pub data PenaltyField : Type 0 where
  threshold_kmh fine_per_event min_soc_required fine fine_per_hour max_fine : PenaltyField

unfoldable pub penalty_fields : PenaltyType → List PenaltyField
penalty_fields overspeed = threshold_kmh ∷ fine_per_event ∷ max_fine ∷ []
penalty_fields not_charging_on_return = min_soc_required ∷ fine ∷ []
penalty_fields harsh_driving = fine_per_event ∷ max_fine ∷ []
penalty_fields late_return = fine ∷ fine_per_hour ∷ max_fine ∷ []
