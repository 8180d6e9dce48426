-- ===== src/Billing/Valid.antt =====
-- pages/billing/rules/schemas.ts: the checks of the form, as tests of its values. The values are the
-- ones before trimming; each check trims what the source trims. Dates are compared as texts.
pub mod Laws
use Prim.Native.Char.{code}
use Prim.Native.Nat.{Ordering}
use Prim.Native.String.{compare}
use zhiyuche.Common.{
  ℕ, suc, String, Bool, true, false, not, ◌&&◌, ◌||◌, Option, none, some, List, [], ◌∷◌, all, any,
  ◌==◌, leb, eqb, if◌then◌else◌,
}
use zhiyuche.Common.Number.{Number}
use zhiyuche.Common.Text.{trim, units}
use zhiyuche.Billing.{
  PenaltyType, overspeed, not_charging_on_return, harsh_driving, late_return, MultiplierForm,
  PenaltyForm, RuleForm, num,
}
use zhiyuche.Billing.Range.{is_digit, is_time}

-- `z.string().trim().min(1).max(n)`
unfoldable pub is_name : ℕ → String → Bool
is_name most v = leb 1 (units (trim v)) && leb (units (trim v)) most

is_hyphen : ℕ → Bool
is_hyphen c = eqb c 45

-- `DATE_RULE`
is_date : String → Bool
unfolding is_digit is_hyphen
is_date
      (String.◌∷◌ a (
        String.◌∷◌ b (
          String.◌∷◌ c (
            String.◌∷◌ d (
              String.◌∷◌ e (
                String.◌∷◌ f
                  (String.◌∷◌ g (String.◌∷◌ h (String.◌∷◌ i (String.◌∷◌ j String.[])))))))))) =
    is_digit (code a)
    && is_digit (code b)
    && is_digit (code c)
    && is_digit (code d)
    && is_hyphen (code e)
    && is_digit (code f)
    && is_digit (code g)
    && is_hyphen (code h)
    && is_digit (code i)
    && is_digit (code j)
is_date _ = false

-- `optionalDate`
unfoldable pub is_optional_date : String → Bool
unfolding is_date
is_optional_date v = trim v == "" || is_date (trim v)

unfoldable pub is_later : String → String → Bool
is_later s t = elim (compare s t) [ Ordering.gt ↦ true | _ ↦ false ]

abbrev pub same_type : PenaltyType → PenaltyType → Bool
same_type overspeed overspeed = true
same_type not_charging_on_return not_charging_on_return = true
same_type harsh_driving harsh_driving = true
same_type late_return late_return = true
same_type _ _ = false

-- The loop over the penalties with the types seen: the rows that repeat a type.
repeated_rows : ℕ → List PenaltyType → List PenaltyForm → List ℕ
repeated_rows i seen [] = []
repeated_rows i seen (p ∷ ps) =
    let rest = repeated_rows (suc i) (p.type ∷ seen) ps in
    if any (same_type p.type) seen then i ∷ rest else rest

abbrev pub is_none {ℓ} : {A : Type ℓ} → List A → Bool
is_none [] = true
is_none (_ ∷ _) = false

module _ (number : Number) where
  open number use {Carrier, of_ℕ, is_finite, parse, ltn, eqn}

  -- `numField(message, min, max)`
  is_between : ℕ → Option ℕ → Carrier → Bool
  is_between least none n = not (ltn n (of_ℕ least))
  is_between least (some most) n = not (ltn n (of_ℕ least)) && not (ltn (of_ℕ most) n)

  unfoldable pub is_num_field : ℕ → Option ℕ → String → Bool
  unfolding is_between
  is_num_field least most v =
      trim v == "" || (is_finite (parse (trim v)) && is_between least most (parse (trim v)))

  -- `multiplierSchema`; the last check is the one of the whole row.
  unfoldable pub is_multiplier : MultiplierForm → Bool
  unfolding is_name
  is_multiplier m =
      is_name 32 m.name
      && (is_time m.start
          && (is_time m.end
              && ((not (trim m.factor == "")
                    && (is_finite (parse (trim m.factor)) && ltn (of_ℕ 0) (parse (trim m.factor))))
                  && not (m.start == m.end))))

  -- `penaltySchema`
  unfoldable pub is_penalty : PenaltyForm → Bool
  unfolding is_num_field
  is_penalty p =
      is_num_field 0 none p.threshold_kmh
      && (is_num_field 0 none p.fine_per_event
          && (is_num_field 0 (some 100) p.min_soc_required
              && (is_num_field 0 none p.fine
                  && (is_num_field 0 none p.fine_per_hour && is_num_field 0 none p.max_fine))))

  -- The checks of the whole form, each of which adds one issue.
  unfoldable pub both_free : RuleForm → Bool
  both_free v = eqn (num number v.per_km) (of_ℕ 0) && eqn (num number v.per_hour) (of_ℕ 0)

  unfoldable pub ends_before : RuleForm → Bool
  unfolding is_later
  ends_before v =
      not (trim v.effective_from == "")
      && (not (trim v.effective_to == "") && is_later (trim v.effective_from) (trim v.effective_to))

  -- `ruleFormSchema`: no field and no check of the whole has an issue.
  unfoldable pub is_rule_form : RuleForm → Bool
  unfolding is_name is_optional_date is_num_field is_multiplier is_penalty both_free ends_before
      repeated_rows
  is_rule_form v =
      (is_name 64 v.name
        && (is_optional_date v.effective_from
            && (is_optional_date v.effective_to && is_name 64 v.rule_name)))
      && ((is_num_field 0 none v.per_km
            && (is_num_field 0 none v.per_hour && is_num_field 0 none v.daily_cap))
          && ((is_num_field 0 none v.electricity_cost_per_kwh
                && (is_num_field 0 (some 100) v.threshold_soc
                    && is_num_field 0 none v.surcharge_pct))
              && ((all is_multiplier v.time_multipliers && all is_penalty v.penalty_rules)
                  && (not (both_free v)
                      && (not (ends_before v) && is_none (repeated_rows 0 [] v.penalty_rules))))))
