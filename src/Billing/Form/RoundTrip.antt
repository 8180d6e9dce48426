-- ===== src/Billing/Form/RoundTrip.antt =====
-- What becomes of a document that is opened in the form and saved.
use zhiyuche.Common.{
  String, ◌<>◌, true, false, Option, none, some, List, [], ◌∷◌, map, All, ◌==◌, ◌≡◌, refl, arith,
  if◌then◌else◌, ap, sym, ◌∙◌,
}
use zhiyuche.Common.Number.{Number}
use zhiyuche.Common.Text.{trim}
use zhiyuche.Billing.{
  department, employee, overspeed, not_charging_on_return, harsh_driving, late_return, Multiplier,
  Penalty, RuleDoc, num, str,
}
use zhiyuche.Billing.Range.{split_range, is_time}
use zhiyuche.Billing.Range.Laws.{split_range_of_times}
use zhiyuche.Billing.Form.{
  Meta, or_else, multiplier_form, penalty_form, doc_to_form, capped, penalty_of, penalty_to_doc,
  multiplier_to_doc, form_to_doc,
}

module _ (number : Number) where
  open number use {Carrier, of_ℕ, is_finite, parse, show, ltn}

  -- `String` of a number is a text that is not blank, without spaces around it.
  pub record ShowsPlainly : Type 0 where
    pub shown_trimmed : (n : Carrier) → trim (show n) ≡ show n
    pub shown_some : (n : Carrier) → (show n == "") ≡ false

  -- A finite number that `Number` reads back from its text, as it does all but -0.
  abbrev pub IsReadBack : Carrier → Type 0
  IsReadBack n = (is_finite n ≡ true) × (parse (show n) ≡ n)

  abbrev pub AllReadBack : Option Carrier → Type 0
  AllReadBack none = Unit
  AllReadBack (some n) = IsReadBack n

  pub record IsWellMade (m : Multiplier number) : Type 0 where
    pub named : trim m.name ≡ m.name
    pub between :
        (start : String) × ((end : String) × ((m.range ≡ start <> ("-" <> end))
            × ((is_time start ≡ true) × (is_time end ≡ true))))
    pub factor : IsReadBack m.factor

  pub record IsKeptPenalty (p : Penalty number) : Type 0 where
    pub threshold_kmh : AllReadBack p.threshold_kmh
    pub fine_per_event : AllReadBack p.fine_per_event
    pub min_soc_required : AllReadBack p.min_soc_required
    pub fine : AllReadBack p.fine
    pub fine_per_hour : AllReadBack p.fine_per_hour
    pub max_fine : AllReadBack p.max_fine

  pub record IsWellFormed (doc : RuleDoc number) : Type 0 where
    pub named : trim doc.rule_name ≡ doc.rule_name
    pub per_km : AllReadBack doc.per_km
    pub per_hour : AllReadBack doc.per_hour
    pub daily_cap : AllReadBack doc.daily_cap
    pub electricity_cost_per_kwh : AllReadBack doc.electricity_cost_per_kwh
    pub threshold_soc : AllReadBack doc.threshold_soc
    pub surcharge_pct : AllReadBack doc.surcharge_pct
    pub multipliers : All IsWellMade doc.time_multipliers
    pub penalties : All IsKeptPenalty doc.penalty_rules

  -- What is absent, as the form reads it.
  abbrev pub or_zero : Option Carrier → Carrier
  or_zero o = or_else o (of_ℕ 0)

  abbrev pub or_uncapped : Option Carrier → Option Carrier
  or_uncapped o = if ltn (of_ℕ 0) (or_zero o) then some (or_zero o) else none

  -- A penalty with the keys of its type and no others, absent ones as 0, and with its cap where that is
  -- above 0.
  abbrev pub completed_penalty : Penalty number → Penalty number
  completed_penalty p = record {
    type = p.type;
    threshold_kmh = elim p.type [ overspeed ↦ some (or_zero p.threshold_kmh) | _ ↦ none ];
    fine_per_event = elim p.type [
      | overspeed ↦ some (or_zero p.fine_per_event)
      | harsh_driving ↦ some (or_zero p.fine_per_event)
      | _ ↦ none
    ];
    min_soc_required = elim p.type [
      | not_charging_on_return ↦ some (or_zero p.min_soc_required)
      | _ ↦ none
    ];
    fine = elim p.type [
      | not_charging_on_return ↦ some (or_zero p.fine)
      | late_return ↦ some (or_zero p.fine)
      | _ ↦ none
    ];
    fine_per_hour = elim p.type [ late_return ↦ some (or_zero p.fine_per_hour) | _ ↦ none ];
    max_fine = or_uncapped p.max_fine;
  }

  -- The document with every key there: an absent number is 0, an absent switch is off, and an absent
  -- account is the department's, or the employee's for daily trips.
  abbrev pub completed : RuleDoc number → RuleDoc number
  completed doc = record {
    rule_name = doc.rule_name;
    per_km = some (or_zero doc.per_km);
    per_hour = some (or_zero doc.per_hour);
    daily_cap = some (or_zero doc.daily_cap);
    electricity_cost_per_kwh = some (or_zero doc.electricity_cost_per_kwh);
    include_electricity_in_trip = some (or_else doc.include_electricity_in_trip false);
    charging_attribution = some (or_else doc.charging_attribution department);
    threshold_soc = some (or_zero doc.threshold_soc);
    surcharge_pct = some (or_zero doc.surcharge_pct);
    time_multipliers = doc.time_multipliers;
    penalty_rules = map completed_penalty doc.penalty_rules;
    official = some (or_else doc.official department);
    daily = some (or_else doc.daily employee);
  }

  module _ (shows : ShowsPlainly) where
    num-str : (o : Option Carrier) → AllReadBack o → num number (str number o) ≡ or_zero o
    unfolding num str
    num-str none h = unfold trim in refl
    num-str (some n) h = rw (shows.shown_trimmed n) (rw (shows.shown_some n) (rw h.1 (rw h.0 refl)))

    multiplier_back :
        (m : Multiplier number)
        → IsWellMade m
        → multiplier_to_doc number (multiplier_form number m) ≡ m
    unfolding multiplier_to_doc multiplier_form
    multiplier_back m made =
        let (start, (end, (range, (h, k)))) = made.between in
        let split : split_range m.range ≡ (start, end) =
          ap split_range range ∙ split_range_of_times start end h k in
        let back : (split_range m.range).0 <> ("-" <> (split_range m.range).1) ≡ m.range =
          rw split (sym range) in
        cc (back, made.named, num-str (some m.factor) made.factor)

    penalty_back :
        (p : Penalty number)
        → IsKeptPenalty p
        → penalty_to_doc number (penalty_form number p) ≡ completed_penalty p
    unfolding penalty_to_doc penalty_of capped penalty_form
    penalty_back p h = ground (
      arith,
      num-str p.threshold_kmh h.threshold_kmh,
      num-str p.fine_per_event h.fine_per_event,
      num-str p.min_soc_required h.min_soc_required,
      num-str p.fine h.fine,
      num-str p.fine_per_hour h.fine_per_hour,
      num-str p.max_fine h.max_fine,
    )

    map_back {ℓ κ} :
        {A : Type ℓ} {B : Type κ} (P : A → Type 0) (f : A → B) (g : B → A) (h : A → A)
        → ((a : A) → P a → g (f a) ≡ h a)
        → (xs : List A) → All P xs
        → map g (map f xs) ≡ map h xs
    map_back P f g h back [] k = refl
    map_back P f g h back (x ∷ xs) k = cc (back x k.0, map_back P f g h back xs k.1)

    map_id {ℓ} : {A : Type ℓ} (xs : List A) → map (λ x. x) xs ≡ xs
    map_id [] = refl
    map_id (x ∷ xs) = ap (λ l. x ∷ l) (map_id xs)

    -- What a document becomes that the form shows and that is saved without a change. The name and the time
    -- multipliers are the same, and so is every rate and price that was there; an absent number is 0, an
    -- absent switch is off, an absent account the department's, or the employee's for daily trips. A penalty
    -- keeps the keys of its type, absent ones as 0, and its cap where that is above 0; keys that are not of
    -- its type and other caps are dropped. For names that are trimmed, ranges of the form HH:MM-HH:MM, and
    -- finite numbers that are read back from their texts.
    pub form_to_doc-doc_to_form :
        (doc : RuleDoc number) (meta : Option Meta)
        → IsWellFormed doc
        → form_to_doc number (doc_to_form number doc meta) ≡ completed doc
    unfolding form_to_doc doc_to_form
    form_to_doc-doc_to_form doc meta formed =
        let multipliers =
          map_back IsWellMade (multiplier_form number) (multiplier_to_doc number) (λ m. m)
            multiplier_back doc.time_multipliers formed.multipliers
          ∙ map_id doc.time_multipliers in
        let penalties =
          map_back IsKeptPenalty (penalty_form number) (penalty_to_doc number) completed_penalty
            penalty_back doc.penalty_rules formed.penalties in
        cc (
          formed.named,
          num-str doc.per_km formed.per_km,
          num-str doc.per_hour formed.per_hour,
          num-str doc.daily_cap formed.daily_cap,
          num-str doc.electricity_cost_per_kwh formed.electricity_cost_per_kwh,
          num-str doc.threshold_soc formed.threshold_soc,
          num-str doc.surcharge_pct formed.surcharge_pct,
          multipliers,
          penalties,
        )
