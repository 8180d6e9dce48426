-- ===== src/Billing.antt =====
-- pages/billing/rules/schemas.ts: a pricing rule as a document and as the texts of a form. Keys that are
-- absent are `none`; an object that is absent stands as one whose keys all are.
pub mod Range
pub mod Form
pub mod Valid
pub mod Simulate
use zhiyuche.Common.{
  String, Bool, true, false, not, Option, none, some, List, [], ◌∷◌, ◌==◌, if◌then◌else◌,
}
use zhiyuche.Common.Number.{Number}
use zhiyuche.Common.Text.{trim}

pub data AccountLevel : Type 0 where
  enterprise department employee : AccountLevel

pub data PenaltyType : Type 0 where
  overspeed not_charging_on_return harsh_driving late_return : PenaltyType

module _ (number : Number) where
  open number use {Carrier, of_ℕ, is_finite, parse, show}

  pub record Multiplier : Type 0 where
    pub name : String
    pub range : String
    pub factor : Carrier

  -- `BillingPenaltyRule`
  pub record Penalty : Type 0 where
    pub type : PenaltyType
    pub threshold_kmh : Option Carrier
    pub fine_per_event : Option Carrier
    pub min_soc_required : Option Carrier
    pub fine : Option Carrier
    pub fine_per_hour : Option Carrier
    pub max_fine : Option Carrier

  -- `BillingRuleDoc`, with the keys of `base_rate`, `ev_specific` and `low_battery_surcharge` beside
  -- the others.
  pub record RuleDoc : Type 0 where
    pub rule_name : String
    pub per_km : Option Carrier
    pub per_hour : Option Carrier
    pub daily_cap : Option Carrier
    pub electricity_cost_per_kwh : Option Carrier
    pub include_electricity_in_trip : Option Bool
    pub charging_attribution : Option AccountLevel
    pub threshold_soc : Option Carrier
    pub surcharge_pct : Option Carrier
    pub time_multipliers : List Multiplier
    pub penalty_rules : List Penalty
    pub official : Option AccountLevel
    pub daily : Option AccountLevel

  -- `num`
  unfoldable pub num : String → Carrier
  num v =
      let n = parse (trim v) in if trim v == "" then of_ℕ 0 else (if is_finite n then n else of_ℕ 0)

  -- `str`
  unfoldable pub str : Option Carrier → String
  str none = ""
  str (some v) = show v

-- `MultiplierFormValues`
pub record MultiplierForm : Type 0 where
  pub name : String
  pub start : String
  pub end : String
  pub factor : String

-- `PenaltyFormValues`
pub record PenaltyForm : Type 0 where
  pub type : PenaltyType
  pub threshold_kmh : String
  pub fine_per_event : String
  pub min_soc_required : String
  pub fine : String
  pub fine_per_hour : String
  pub max_fine : String

-- `RuleFormValues`
pub record RuleForm : Type 0 where
  pub name : String
  pub enabled : Bool
  pub effective_from : String
  pub effective_to : String
  pub rule_name : String
  pub per_km : String
  pub per_hour : String
  pub daily_cap : String
  pub electricity_cost_per_kwh : String
  pub include_electricity_in_trip : Bool
  pub charging_attribution : AccountLevel
  pub threshold_soc : String
  pub surcharge_pct : String
  pub time_multipliers : List MultiplierForm
  pub penalty_rules : List PenaltyForm
  pub official : AccountLevel
  pub daily : AccountLevel

unfoldable pub empty_penalty : PenaltyType → PenaltyForm
empty_penalty type = record {
  type = type;
  threshold_kmh = "";
  fine_per_event = "";
  min_soc_required = "";
  fine = "";
  fine_per_hour = "";
  max_fine = "";
}

abbrev pub empty_multiplier : MultiplierForm
empty_multiplier = record { name = ""; start = ""; end = ""; factor = "1" }
