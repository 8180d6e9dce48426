-- ===== src/Tests/Forms.antt =====
-- A booking that is edited, and a pricing rule through its form. The numbers of the rule are bits, which
-- read back from their texts.
use zhiyuche.Common.{
  eq_iff, Option, if◌then◌else◌, String, Bool, true, false, not, ◌&&◌, none, some, [], ◌∷◌, ◌==◌,
  eqb, ◌≡◌, refl,
}
use zhiyuche.Common.Dayjs.{Dayjs}
use zhiyuche.Common.Number.{Number}
use zhiyuche.Common.Text.{trim, units}
use zhiyuche.Booking.{Booking, BookingForm, phone, booking_to_form, to_booking_update}
use zhiyuche.Booking.Laws.{shown_before, shown_in, updated, updated-to_booking_update, IsTrimmed}
use zhiyuche.Billing.{
  RuleDoc, RuleForm, PenaltyForm, department, employee, overspeed, late_return, num, empty_penalty,
}
use zhiyuche.Billing.Range.{split_range, is_time}
use zhiyuche.Billing.Form.{doc_to_form, form_to_doc, penalty_to_doc, penalty_fields}
use zhiyuche.Billing.Form.RoundTrip.{ShowsPlainly, IsWellFormed, completed, form_to_doc-doc_to_form}
use zhiyuche.Billing.Form.Fields.{penalty_to_doc-penalty_fields}
use zhiyuche.Billing.Valid.{is_rule_form}
use zhiyuche.Billing.Valid.Laws.{IsSoundDoc, form_to_doc-IsSoundDoc}

-- Texts for instants.
abbrev pub dates : Dayjs
dates = record {
  Instant = String;
  read = λ s. some s;
  to_iso = λ i. i;
  format = λ pattern i. i;
  same = λ a b. a == b;
  same_day = λ a b. a == b;
  is_after = λ a b. false;
  minutes = λ a b. 60;
}

abbrev before : Booking
before = record {
  source = phone;
  contact_name = "Li";
  contact_phone = none;
  passenger = none;
  reserve_start = "09:00";
  reserve_end = "11:00";
  vehicle = some "v1";
  origin = "A";
  destination = "B";
  purpose = some "visit";
  remark = none;
}

data Moment : Type 0 where
  nine ten eleven : Moment

abbrev iso : Moment → String
iso nine = "09:00"
iso ten = "10:00"
iso eleven = "11:00"

abbrev read_moment : String → Option Moment
read_moment s =
    if s == "09:00"
    then some nine
    else if s == "10:00"
    then some ten
    else if s == "11:00"
    then some eleven
    else none

-- Three moments of a day.
abbrev clock : Dayjs
clock = record {
  Instant = Moment;
  read = read_moment;
  to_iso = iso;
  format = λ pattern i. iso i;
  same = λ a b. iso a == iso b;
  same_day = λ a b. true;
  is_after = λ a b. false;
  minutes = λ a b. 60;
}

iso_read : (i : Moment) → read_moment (iso i) ≡ some i
iso_read nine = refl
iso_read ten = refl
iso_read eleven = refl

iso_filled : (i : Moment) → (iso i == "") ≡ false
iso_filled nine = refl
iso_filled ten = refl
iso_filled eleven = refl

iso_same : (i j : Moment) → (iso i == iso j) ≡ true → iso i ≡ iso j
iso_same i j h = (eq_iff (iso i) (iso j)).0 h

-- The vehicle is taken away, the end is earlier, and the destination is another.
abbrev edited : BookingForm
edited = record (booking_to_form clock before) {
  vehicle_id = "";
  reserve_end = "10:00";
  destination = " C ";
}

updated-to_booking_update_example :
    updated clock (to_booking_update clock edited before) (shown_before clock before)
    ≡ shown_in clock edited before
updated-to_booking_update_example =
    updated-to_booking_update clock iso_read iso_filled iso_same edited before

before-IsTrimmed : IsTrimmed before
unfolding trim
before-IsTrimmed = record {
  contact_name = refl;
  contact_phone = refl;
  origin = refl;
  destination = refl;
  purpose = refl;
  remark = refl;
}

cleared : (to_booking_update clock edited before).clear_vehicle ≡ true
unfolding to_booking_update booking_to_form
cleared = refl

abbrev show_bit : Bool → String
show_bit true = "1"
show_bit false = "0"

abbrev pub bits : Number
bits = record {
  Carrier = Bool;
  of_ℕ = λ n. not (eqb n 0);
  neg = λ a. a;
  plus = λ a b. a && b;
  minus = λ a b. a && not b;
  times = λ a b. a && b;
  over = λ a b. a;
  eqn = λ a b. not (a && not b) && not (b && not a);
  ltn = λ a b. not a && b;
  is_finite = λ a. true;
  parse = λ s. s == "1";
  show = show_bit;
}

shown_trimmed : (n : Bool) → trim (show_bit n) ≡ show_bit n
unfolding trim
shown_trimmed true = refl
shown_trimmed false = refl

shown_some : (n : Bool) → (show_bit n == "") ≡ false
shown_some true = refl
shown_some false = refl

pub bits-ShowsPlainly : ShowsPlainly bits
bits-ShowsPlainly = record { shown_trimmed = shown_trimmed; shown_some = shown_some }

abbrev doc : RuleDoc bits
doc = record {
  rule_name = "standard";
  per_km = some true;
  per_hour = none;
  daily_cap = some false;
  electricity_cost_per_kwh = none;
  include_electricity_in_trip = none;
  charging_attribution = none;
  threshold_soc = some true;
  surcharge_pct = none;
  time_multipliers = record { name = "late"; range = "23:00-06:00"; factor = true } ∷ [];
  penalty_rules =
      record {
        type = overspeed;
        threshold_kmh = some true;
        fine_per_event = none;
        min_soc_required = none;
        fine = none;
        fine_per_hour = none;
        max_fine = some true;
      }
      ∷ [];
  official = none;
  daily = some department;
}

doc-IsWellFormed : IsWellFormed bits doc
unfolding trim is_time
doc-IsWellFormed = record {
  named = refl;
  per_km = (refl, refl);
  per_hour = tt;
  daily_cap = (refl, refl);
  electricity_cost_per_kwh = tt;
  threshold_soc = (refl, refl);
  surcharge_pct = tt;
  multipliers = (
    record {
      named = refl;
      between = ("23:00", ("06:00", (refl, (refl, refl))));
      factor = (refl, refl);
    },
    tt,
  );
  penalties = (
    record {
      threshold_kmh = (refl, refl);
      fine_per_event = tt;
      min_soc_required = tt;
      fine = tt;
      fine_per_hour = tt;
      max_fine = (refl, refl);
    },
    tt,
  );
}

form_to_doc-doc_to_form_example : form_to_doc bits (doc_to_form bits doc none) ≡ completed bits doc
form_to_doc-doc_to_form_example =
    form_to_doc-doc_to_form bits bits-ShowsPlainly doc none doc-IsWellFormed

odd_range : split_range " 7:5 - 19:00" ≡ ("07:05", "19:00")
unfolding split_range trim
odd_range = refl

abbrev row : PenaltyForm
row = record (empty_penalty late_return) { fine = "1" }

penalty_to_doc-penalty_fields_example :
    penalty_to_doc bits row ≡ penalty_to_doc bits (record row { threshold_kmh = "80" })
unfolding empty_penalty penalty_fields
penalty_to_doc-penalty_fields_example =
    penalty_to_doc-penalty_fields bits row (record row { threshold_kmh = "80" }) refl
      (refl, (refl, (refl, tt))) (λ e. refl)

abbrev form : RuleForm
form = record {
  name = "a";
  enabled = true;
  effective_from = "2024-01-01";
  effective_to = "2024-12-31";
  rule_name = "a";
  per_km = "1";
  per_hour = "";
  daily_cap = "0";
  electricity_cost_per_kwh = "";
  include_electricity_in_trip = true;
  charging_attribution = department;
  threshold_soc = "1";
  surcharge_pct = "";
  time_multipliers = record { name = "late"; start = "23:00"; end = "06:00"; factor = "1" } ∷ [];
  penalty_rules = empty_penalty overspeed ∷ empty_penalty late_return ∷ [];
  official = department;
  daily = employee;
}

form_to_doc-IsSoundDoc_example : IsSoundDoc bits (form_to_doc bits form)
unfolding is_rule_form trim units num is_time empty_penalty
form_to_doc-IsSoundDoc_example = form_to_doc-IsSoundDoc bits refl refl form refl

repeated :
    is_rule_form bits
      (record form { penalty_rules = empty_penalty overspeed ∷ empty_penalty overspeed ∷ [] })
    ≡ false
unfolding is_rule_form trim units num is_time empty_penalty
repeated = refl
