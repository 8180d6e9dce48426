-- ===== src/Billing/Valid/Laws.antt =====
-- What a form that passes the checks is turned into.
use zhiyuche.Common.{
  ℕ, suc, ◌≤◌, not, ◌&&◌, String, ◌<>◌, Bool, true, false, Option, none, some, List, [], ◌∷◌, any,
  map, All, ◌==◌, ◌≡◌, refl, arith, if◌then◌else◌, All-imp, All-map, and-split, Bool-cases, inl,
  inr,
}
use zhiyuche.Common.Number.{Number}
use zhiyuche.Common.Text.{trim, trim_idem, units}
use zhiyuche.Billing.{
  PenaltyType, overspeed, not_charging_on_return, harsh_driving, late_return, Multiplier, Penalty,
  RuleDoc, MultiplierForm, PenaltyForm, RuleForm, num,
}
use zhiyuche.Billing.Range.{is_time}
use zhiyuche.Billing.Form.{penalty_of, capped, penalty_to_doc, multiplier_to_doc, form_to_doc}
use zhiyuche.Billing.Valid.{
  is_optional_date, ends_before, is_name, both_free, same_type, repeated_rows, is_none, is_between,
  is_num_field, is_multiplier, is_penalty, is_rule_form,
}

module _ (number : Number) where
  open number use {Carrier, of_ℕ, is_finite, parse, ltn, eqn}

  -- A number that is there is not below the first bound, nor above the second.
  abbrev pub IsWithin : ℕ → Option ℕ → Option Carrier → Type 0
  IsWithin least most none = Unit
  IsWithin least none (some n) = ltn n (of_ℕ least) ≡ false
  IsWithin least (some most) (some n) = (ltn n (of_ℕ least) ≡ false) × (ltn (of_ℕ most) n ≡ false)

  pub record IsSoundMultiplier (m : Multiplier number) : Type 0 where
    pub between :
        (start : String) × ((end : String) × ((m.range ≡ start <> ("-" <> end))
            × ((is_time start ≡ true) × ((is_time end ≡ true) × ((start == end) ≡ false)))))
    pub positive : ltn (of_ℕ 0) m.factor ≡ true

  pub record IsSoundPenalty (p : Penalty number) : Type 0 where
    pub threshold_kmh : IsWithin 0 none p.threshold_kmh
    pub fine_per_event : IsWithin 0 none p.fine_per_event
    pub min_soc_required : IsWithin 0 (some 100) p.min_soc_required
    pub fine : IsWithin 0 none p.fine
    pub fine_per_hour : IsWithin 0 none p.fine_per_hour
    pub max_fine : IsWithin 0 none p.max_fine

  -- No type twice.
  abbrev pub IsDistinct : List (Penalty number) → Type 0
  IsDistinct [] = Unit
  IsDistinct (p ∷ ps) = All (λ q. same_type q.type p.type ≡ false) ps × IsDistinct ps

  abbrev pub is_free : Option Carrier → Bool
  is_free none = true
  is_free (some n) = eqn n (of_ℕ 0)

  pub record IsSoundDoc (doc : RuleDoc number) : Type 0 where
    -- Not only white space.
    pub rule_name : (1 ≤ units (trim doc.rule_name)) × (units doc.rule_name ≤ 64)
    pub some_rate : (is_free doc.per_km && is_free doc.per_hour) ≡ false
    pub per_km : IsWithin 0 none doc.per_km
    pub per_hour : IsWithin 0 none doc.per_hour
    pub daily_cap : IsWithin 0 none doc.daily_cap
    pub electricity_cost_per_kwh : IsWithin 0 none doc.electricity_cost_per_kwh
    pub threshold_soc : IsWithin 0 (some 100) doc.threshold_soc
    pub surcharge_pct : IsWithin 0 none doc.surcharge_pct
    pub multipliers : All IsSoundMultiplier doc.time_multipliers
    pub penalties : All IsSoundPenalty doc.penalty_rules
    pub distinct : IsDistinct doc.penalty_rules

  sound_fields :
      (t : PenaltyType) (p : PenaltyForm)
      → ltn (num number p.threshold_kmh) (of_ℕ 0) ≡ false
      → ltn (num number p.fine_per_event) (of_ℕ 0) ≡ false
      → (ltn (num number p.min_soc_required) (of_ℕ 0) ≡ false)
        × (ltn (of_ℕ 100) (num number p.min_soc_required) ≡ false)
      → ltn (num number p.fine) (of_ℕ 0) ≡ false
      → ltn (num number p.fine_per_hour) (of_ℕ 0) ≡ false
      → IsWithin 0 none
          (if ltn (of_ℕ 0) (num number p.max_fine) then some (num number p.max_fine) else none)
      → IsSoundPenalty (penalty_of number t p)
  unfolding penalty_of capped
  sound_fields overspeed p a b c d e f = record {
    threshold_kmh = a;
    fine_per_event = b;
    min_soc_required = tt;
    fine = tt;
    fine_per_hour = tt;
    max_fine = f;
  }
  sound_fields not_charging_on_return p a b c d e f = record {
    threshold_kmh = tt;
    fine_per_event = tt;
    min_soc_required = c;
    fine = d;
    fine_per_hour = tt;
    max_fine = f;
  }
  sound_fields harsh_driving p a b c d e f = record {
    threshold_kmh = tt;
    fine_per_event = b;
    min_soc_required = tt;
    fine = tt;
    fine_per_hour = tt;
    max_fine = f;
  }
  sound_fields late_return p a b c d e f = record {
    threshold_kmh = tt;
    fine_per_event = tt;
    min_soc_required = tt;
    fine = d;
    fine_per_hour = e;
    max_fine = f;
  }

  type_of_penalty : (t : PenaltyType) (p : PenaltyForm) → (penalty_of number t p).type ≡ p.type
  unfolding penalty_of capped
  type_of_penalty overspeed p = refl
  type_of_penalty not_charging_on_return p = refl
  type_of_penalty harsh_driving p = refl
  type_of_penalty late_return p = refl

  type_in_doc : (p : PenaltyForm) → (penalty_to_doc number p).type ≡ p.type
  unfolding penalty_to_doc
  type_in_doc p = type_of_penalty p.type p

  row_new :
      (repeated : Bool) (i : ℕ) (rest : List ℕ)
      → is_none (if repeated then i ∷ rest else rest) ≡ true
      → (repeated ≡ false) × (is_none rest ≡ true)
  row_new true i rest h = cc
  row_new false i rest h = (refl, h)

  -- A type that was seen does not come again.
  unseen :
      (i : ℕ) (seen : List PenaltyType) (ps : List PenaltyForm)
      → is_none (repeated_rows i seen ps) ≡ true
      → All (λ q. any (same_type q.type) seen ≡ false) ps
  unfolding repeated_rows
  unseen i seen [] h = tt
  unseen i seen (p ∷ ps) h =
      let (new, rest) = row_new (any (same_type p.type) seen) i _ h in
      (new, All-imp _ _ (λ q k. ground (arith, k)) ps (unseen (suc i) (p.type ∷ seen) ps rest))

  differs :
      (p : PenaltyForm) (seen : List PenaltyType) (ps : List PenaltyForm)
      → All (λ q. any (same_type q.type) (p.type ∷ seen) ≡ false) ps
      → All
          (λ q. same_type q.type (penalty_to_doc number p).type ≡ false)
          (map (penalty_to_doc number) ps)
  differs p seen [] h = tt
  differs p seen (q ∷ ps) (here, there) =
      (rw (type_in_doc q) (rw (type_in_doc p) (ground (arith, here))), differs p seen ps there)

  IsDistinct-rows :
      (i : ℕ) (seen : List PenaltyType) (ps : List PenaltyForm)
      → is_none (repeated_rows i seen ps) ≡ true
      → IsDistinct (map (penalty_to_doc number) ps)
  unfolding repeated_rows
  IsDistinct-rows i seen [] h = tt
  IsDistinct-rows i seen (p ∷ ps) h =
      let (new, rest) = row_new (any (same_type p.type) seen) i _ h in
      (
        differs p seen ps (unseen (suc i) (p.type ∷ seen) ps rest),
        IsDistinct-rows (suc i) (p.type ∷ seen) ps rest,
      )

  name_within :
      (v : String) → is_name 64 v ≡ true → (1 ≤ units (trim (trim v))) × (units (trim v) ≤ 64)
  unfolding is_name
  name_within v h = (rw (trim_idem v) (ground (arith, h)), ground (arith, h))

  not-both_free :
      (v : RuleForm)
      → not (both_free number v) ≡ true
      → (eqn (num number v.per_km) (of_ℕ 0) && eqn (num number v.per_hour) (of_ℕ 0)) ≡ false
  unfolding both_free
  not-both_free v h = ground (arith, h)

  module _ (zero_low : ltn (of_ℕ 0) (of_ℕ 0) ≡ false)
      (zero_high : ltn (of_ℕ 100) (of_ℕ 0) ≡ false) where
    num_low :
        (v : String) → is_num_field number 0 none v ≡ true → ltn (num number v) (of_ℕ 0) ≡ false
    unfolding is_num_field is_between num
    num_low v h = ground (arith, zero_low)

    num_percent :
        (v : String)
        → is_num_field number 0 (some 100) v ≡ true
        → (ltn (num number v) (of_ℕ 0) ≡ false) × (ltn (of_ℕ 100) (num number v) ≡ false)
    unfolding is_num_field is_between num
    num_percent v h = ground (arith, zero_low, zero_high)

    cap-IsWithin :
        (v : String)
        → is_num_field number 0 none v ≡ true
        → IsWithin 0 none (if ltn (of_ℕ 0) (num number v) then some (num number v) else none)
    cap-IsWithin v h = elim (Bool-cases (ltn (of_ℕ 0) (num number v))) [
      | inl above ↦ rw above (num_low v h)
      | inr not_above ↦ rw not_above tt
    ]

    penalty_of-IsSoundPenalty :
        (t : PenaltyType) (p : PenaltyForm)
        → is_penalty number p ≡ true
        → IsSoundPenalty (penalty_of number t p)
    unfolding is_penalty
    penalty_of-IsSoundPenalty t p h =
        let (a, r1) = and-split (is_num_field number 0 none p.threshold_kmh) _ h in
        let (b, r2) = and-split (is_num_field number 0 none p.fine_per_event) _ r1 in
        let (c, r3) = and-split (is_num_field number 0 (some 100) p.min_soc_required) _ r2 in
        let (d, r4) = and-split (is_num_field number 0 none p.fine) _ r3 in
        let (e, f) = and-split (is_num_field number 0 none p.fine_per_hour) _ r4 in
        sound_fields t p (num_low p.threshold_kmh a) (num_low p.fine_per_event b)
          (num_percent p.min_soc_required c) (num_low p.fine d) (num_low p.fine_per_hour e)
          (cap-IsWithin p.max_fine f)

    multiplier_to_doc-IsSoundMultiplier :
        (m : MultiplierForm)
        → is_multiplier number m ≡ true
        → IsSoundMultiplier (multiplier_to_doc number m)
    unfolding is_multiplier multiplier_to_doc num
    multiplier_to_doc-IsSoundMultiplier m h = record {
      between =
          (m.start, (m.end, (refl, (ground (arith, h), (ground (arith, h), ground (arith, h))))));
      positive = ground (arith, h);
    }

    -- A form that passes the checks gives a document with a name of 1 to 64 characters, not blank, and a rate by
    -- distance or by time that is not 0: no rate, fine or price below 0, charges of batteries from 0 to 100,
    -- factors above 0 between two different times, and no type of penalty twice. For numbers where 0 is not
    -- below 0 and 100 not below 0.
    pub form_to_doc-IsSoundDoc :
        (v : RuleForm) → is_rule_form number v ≡ true → IsSoundDoc (form_to_doc number v)
    unfolding is_rule_form form_to_doc
    form_to_doc-IsSoundDoc v h =
        let (texts, r1) = and-split _ _ h in
        let (rates, r2) = and-split _ _ r1 in
        let (ev, r3) = and-split _ _ r2 in
        let (rows, whole) = and-split _ _ r3 in
        let (km, hours_and_cap) = and-split _ _ rates in
        let (hours, cap) = and-split _ _ hours_and_cap in
        let (price, battery) = and-split _ _ ev in
        let (threshold, surcharge) = and-split _ _ battery in
        let (multipliers, penalties) = and-split _ _ rows in
        let (charged, order) = and-split _ _ whole in
        let (_, dated) = and-split (is_name 64 v.name) _ texts in
        let (_, named) = and-split (is_optional_date v.effective_from) _ dated in
        let (_, name) =
          and-split (is_optional_date v.effective_to) (is_name 64 v.rule_name) named in
        let (_, once) = and-split (not (ends_before number v)) _ order in
        record {
          rule_name = name_within v.rule_name name;
          some_rate = not-both_free v charged;
          per_km = num_low v.per_km km;
          per_hour = num_low v.per_hour hours;
          daily_cap = num_low v.daily_cap cap;
          electricity_cost_per_kwh = num_low v.electricity_cost_per_kwh price;
          threshold_soc = num_percent v.threshold_soc threshold;
          surcharge_pct = num_low v.surcharge_pct surcharge;
          multipliers =
              All-map IsSoundMultiplier (multiplier_to_doc number) (is_multiplier number)
                multiplier_to_doc-IsSoundMultiplier v.time_multipliers multipliers;
          penalties =
              All-map IsSoundPenalty (penalty_to_doc number) (is_penalty number)
                (λ p k. unfold penalty_to_doc in penalty_of-IsSoundPenalty p.type p k)
                v.penalty_rules penalties;
          distinct = IsDistinct-rows 0 [] v.penalty_rules once;
        }
