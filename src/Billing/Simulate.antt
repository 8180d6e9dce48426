-- ===== src/Billing/Simulate.antt =====
-- pages/billing/rules/schemas.ts: the form of the simulation, its checks, and the trip that it asks
-- for. The default example, which reads the clock, is not modelled.
use Prim.Native.Char.{code}
use zhiyuche.Common.{
  String, Bool, true, not, ◌&&◌, ◌||◌, Option, none, some, ◌==◌, leb, if◌then◌else◌,
}
use zhiyuche.Common.Dayjs.{Dayjs}
use zhiyuche.Common.Number.{Number}
use zhiyuche.Common.Text.{trim, units}
use zhiyuche.Billing.{num}
use zhiyuche.Billing.Range.{is_digit}
use zhiyuche.Billing.Valid.{is_num_field, is_later}
use zhiyuche.Format.{local_to_rfc3339, text_or}
use zhiyuche.Session.{truthy}

pub data TripType : Type 0 where
  official daily : TripType

-- `SimulateFormValues`
pub record SimulateForm : Type 0 where
  pub trip_type : TripType
  pub start_at : String
  pub end_at : String
  pub distance_km : String
  pub energy_kwh : String
  pub end_soc : String
  pub overspeed_events : String
  pub harsh_events : String
  pub planned_end : String

-- `/^\d+$/`
is_digits : String → Bool
unfolding is_digit
is_digits String.[] = true
is_digits (String.◌∷◌ c s) = is_digit (code c) && is_digits s

is_count : String → Bool
unfolding is_digits
is_count v = trim v == "" || is_digits (trim v)

module _ (number : Number) where
  open number use {Carrier, of_ℕ, is_finite, parse, ltn}

  -- `BillingTripInput`
  pub record TripInput : Type 0 where
    pub trip_type : TripType
    pub start_at : String
    pub end_at : String
    pub distance_km : Carrier
    pub energy_kwh : Option Carrier
    pub end_soc : Option Carrier
    pub overspeed_events : Option Carrier
    pub harsh_events : Option Carrier
    pub planned_end : Option String

  -- `simulateSchema`
  unfoldable pub is_simulate_form : SimulateForm → Bool
  unfolding is_num_field is_later is_count
  is_simulate_form v =
      (leb 1 (units (trim v.start_at)) && leb 1 (units (trim v.end_at)))
      && ((not (trim v.distance_km == "")
            && (is_finite (parse (trim v.distance_km))
                && not (ltn (parse (trim v.distance_km)) (of_ℕ 0))))
          && ((is_num_field number 0 none v.energy_kwh
                && is_num_field number 0 (some 100) v.end_soc)
              && ((is_count v.overspeed_events && is_count v.harsh_events)
                  && not (is_later (trim v.start_at) (trim v.end_at)))))

  -- `if (text.trim() !== '') trip.key = ...`
  given : (String → Carrier) → String → Option Carrier
  given read v = if trim v == "" then none else some (read v)

  -- `simulateToTrip`
  unfoldable pub simulate_to_trip : Dayjs → SimulateForm → TripInput
  unfolding given
  simulate_to_trip dayjs v = record {
    trip_type = v.trip_type;
    start_at = text_or v.start_at (local_to_rfc3339 dayjs (some v.start_at));
    end_at = text_or v.end_at (local_to_rfc3339 dayjs (some v.end_at));
    distance_km = num number v.distance_km;
    energy_kwh = given (num number) v.energy_kwh;
    end_soc = given (num number) v.end_soc;
    overspeed_events = given parse v.overspeed_events;
    harsh_events = given parse v.harsh_events;
    planned_end = truthy (local_to_rfc3339 dayjs (some v.planned_end));
  }
