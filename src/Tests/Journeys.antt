-- ===== src/Tests/Journeys.antt =====
-- The cost of a trip that is written and read, the step of a long track, and forms that are sent.
use zhiyuche.Common.{ℕ, true, false, Option, none, some, [], ◌∷◌, ◌≡◌, refl}
use zhiyuche.Common.Dayjs.{Dayjs}
use zhiyuche.Common.Json.{field, str, num, arr, obj, end, nil, cons, member}
use zhiyuche.Common.Text.{trim, units, is_text}
use zhiyuche.Tests.Requests.{naturals}
use zhiyuche.Tests.Forms.{dates}
use zhiyuche.Trips.{track_step, describe_event, overspeed}
use zhiyuche.Trips.Cost.{CostLine, CostDetail, is_kind, parse_cost_detail}
use zhiyuche.Trips.Cost.Laws.{
  IsComplete, detail_json, parse_cost_detail-detail_json, parse_cost_detail-IsComplete,
}
use zhiyuche.Charging.Actions.{
  Pile, StartBody, starts, initial_connector, choose_all, start_body, start_body-IsStartable,
}
use zhiyuche.Charging.{
  Charge, charging, ended, pending, deviation, other, pricing, review_reason, connector_style,
}
use zhiyuche.Billing.Simulate.{official}
use zhiyuche.Booking.{BookingForm, phone, to_booking_create}
use zhiyuche.Booking.Valid.{is_booking_form}
use zhiyuche.Booking.Valid.Laws.{IsSoundBooking, to_booking_create-IsSoundBooking}
use zhiyuche.Approval.{
  ApprovalForm, normal, is_approval_form, to_approval_create, current_approver_name, pending_l2,
  is_url,
}
use zhiyuche.Approval.Laws.{IsSoundRequest, to_approval_create-IsSoundRequest}

three : track_step 4001 ≡ 3
unfolding track_step
three = refl

abbrev line : CostLine naturals
line = record {
  item = "distance";
  kind = "base";
  qty = 12;
  unit = "km";
  unit_price = 2;
  amount = 24;
  note = some "half price";
}

abbrev cost : CostDetail naturals
cost = record {
  rule_name = "standard";
  lines = line ∷ record line { note = none } ∷ [];
  base = 24;
  multiplier = 1;
  cap_applied = false;
  surcharge = 0;
  electricity = 3;
  penalty = 0;
  total = 27;
  attribution = "department";
}

cost-IsComplete : IsComplete naturals cost
unfolding is_kind
cost-IsComplete = record {
  lines = (
    record { kind = refl; qty = refl; unit_price = refl; amount = refl; note = refl },
    (record { kind = refl; qty = refl; unit_price = refl; amount = refl; note = refl }, tt),
  );
  base = refl;
  multiplier = refl;
  surcharge = refl;
  electricity = refl;
  penalty = refl;
}

parse_cost_detail-detail_json_example :
    parse_cost_detail naturals (detail_json naturals cost) ≡ some cost
parse_cost_detail-detail_json_example =
    parse_cost_detail-detail_json naturals cost cost-IsComplete refl

parse_cost_detail-IsComplete_example : IsComplete naturals cost
parse_cost_detail-IsComplete_example =
    parse_cost_detail-IsComplete naturals refl refl (detail_json naturals cost) cost
      parse_cost_detail-detail_json_example

abbrev total_in : Option (CostDetail naturals) → Option ℕ
total_in none = none
total_in (some d) = some d.total

-- A line without an amount is passed over, and the total is the sum of the others.
lenient :
    total_in (
      parse_cost_detail naturals (
        obj (
          field "lines"
            (arr (
              cons
                (obj (field "item" (str "a") end))
                (cons (obj (field "item" (str "b") (field "amount" (num 5) end))) nil)))
            end)))
    ≡ some 5
unfolding parse_cost_detail member
lenient = refl

told :
    describe_event naturals (λ n. "92") (λ n. "1.0") overspeed (field "speed" (num 92) end)
    ≡ "超速 92 km/h"
unfolding describe_event member
told = refl

abbrev trip : BookingForm
trip = record {
  source = phone;
  contact_name = " Li ";
  contact_phone = "";
  passenger = none;
  reserve_start = "09:00";
  reserve_end = "10:00";
  vehicle_id = "";
  origin = "A";
  destination = "B";
  purpose = "";
  remark = "";
}

to_booking_create-IsSoundBooking_example : IsSoundBooking dates (to_booking_create dates trip)
unfolding is_booking_form is_text trim units
to_booking_create-IsSoundBooking_example =
    to_booking_create-IsSoundBooking dates (λ i. refl) trip refl

-- Every time lies after every other.
abbrev later_dates : Dayjs
later_dates = record dates { is_after = λ a b. true }

abbrev wish : ApprovalForm naturals
wish = record {
  applicant = none;
  trip_type = official;
  purpose_code = "visit";
  purpose_detail = "a visit";
  planned_start = "09:00";
  planned_end = "10:00";
  destination = "B";
  dest = none;
  planned_km = "12";
  vehicle_id = "";
  passengers = [];
  urgency = normal;
  attachments = record { name = "map"; url = "HTTPS://a.b/c" } ∷ [];
}

abbrev no_route : Option ℕ
no_route = none

to_approval_create-IsSoundRequest_example :
    IsSoundRequest naturals later_dates ℕ (to_approval_create naturals later_dates wish no_route)
unfolding is_approval_form is_text trim units is_url
to_approval_create-IsSoundRequest_example =
    to_approval_create-IsSoundRequest naturals later_dates (λ i. refl) (λ s. refl) wish no_route
      refl

second_level :
    current_approver_name pending_l2 2 (
      record { step_no = 1; is_waiting = false; approver = "Wang" }
      ∷ record { step_no = 2; is_waiting = true; approver = "Zhao" }
      ∷ [])
    ≡ some "Zhao"
unfolding current_approver_name
second_level = refl

abbrev unread : Charge naturals (λ d n. "6.5")
unread = record {
  has_vehicle = true;
  deviation_pct = some 6;
  cost = none;
  review_status = pending;
  status = charging;
  start_at = "09:00";
  end_at = none;
  duration_min = none;
}

-- The deviation comes before the missing cost, which is no reason while the charge goes on.
reasons :
    (review_reason naturals (λ d n. "6.5") unread ≡ (deviation, "偏差 6.5%"))
    × ((review_reason naturals (λ d n. "6.5") (record unread { deviation_pct = some 5 })
          ≡ (other, "待确认"))
        × (review_reason naturals
              (λ d n. "6.5")
              (record unread { deviation_pct = none; status = ended })
            ≡ (pricing, "计价失败")))
unfolding review_reason
reasons = (refl, (refl, refl))

faulted : (connector_style "Faulted").label ≡ "故障"
unfolding connector_style
faulted = refl

-- The first connector is charging, the third is out of order.
abbrev pile : Pile
pile = record {
  online = true;
  connectors =
      record { connector_id = 1; status = "Charging"; has_transaction = true }
      ∷ record { connector_id = 2; status = "Preparing"; has_transaction = false }
      ∷ record { connector_id = 3; status = "Faulted"; has_transaction = false }
      ∷ [];
}

abbrev started : StartBody
started = record { connector_id = 2; id_tag = some "card"; vehicle_id = none }

started_two :
    start_body pile (choose_all pile (3 ∷ []) (initial_connector (some 1) pile)) " card " ""
    ≡ some started
unfolding start_body choose_all initial_connector trim
started_two = refl

start_body-IsStartable_example :
    (pile.online ≡ true) × (starts started.connector_id pile.connectors ≡ true)
start_body-IsStartable_example =
    start_body-IsStartable pile (some 1) (3 ∷ []) " card " "" started started_two
