-- ===== src/Booking.antt =====
-- pages/booking/schemas.ts: a booking as a form, and the form as the body of a request. `null` and
-- `undefined` are both `none`. Of a user and a vehicle only what is read or kept stands here.
pub mod Laws
pub mod Valid
use zhiyuche.Common.{
  ℕ, ◌*◌, ◌+◌, String, Bool, true, false, not, ◌&&◌, ◌||◌, Option, none, some, List, [], ◌∷◌, ◌++◌,
  ◌==◌, leb, ltb, eqb, if◌then◌else◌,
}
use zhiyuche.Common.Dayjs.{Dayjs}
use zhiyuche.Common.Text.{trim}
use zhiyuche.Forms.{or_blank, changed, changed_link}
use zhiyuche.Format.{local_to_rfc3339, rfc3339_to_local, text_or}
use zhiyuche.Session.{truthy}

pub data BookingSource : Type 0 where
  phone direct : BookingSource

abbrev pub same_source : BookingSource → BookingSource → Bool
same_source phone phone = true
same_source direct direct = true
same_source _ _ = false

pub record UserBrief : Type 0 where
  pub id : String
  pub name : String

pub record Booking : Type 0 where
  pub source : BookingSource
  pub contact_name : String
  pub contact_phone : Option String
  pub passenger : Option UserBrief
  pub reserve_start : String
  pub reserve_end : String
  -- The id of `vehicle`
  pub vehicle : Option String
  pub origin : String
  pub destination : String
  pub purpose : Option String
  pub remark : Option String

pub record BookingForm : Type 0 where
  pub source : BookingSource
  pub contact_name : String
  pub contact_phone : String
  pub passenger : Option UserBrief
  pub reserve_start : String
  pub reserve_end : String
  pub vehicle_id : String
  pub origin : String
  pub destination : String
  pub purpose : String
  pub remark : String

pub record BookingCreate : Type 0 where
  pub source : BookingSource
  pub contact_name : String
  pub contact_phone : Option String
  pub passenger_id : Option String
  pub reserve_start : String
  pub reserve_end : String
  pub vehicle_id : Option String
  pub origin : String
  pub destination : String
  pub purpose : Option String
  pub remark : Option String

-- A key that is not there is `none`, a flag that is not there `false`.
pub record BookingUpdate : Type 0 where
  pub source : Option BookingSource
  pub contact_name : Option String
  pub contact_phone : Option String
  pub passenger_id : Option String
  pub clear_passenger : Bool
  pub reserve_start : Option String
  pub reserve_end : Option String
  pub vehicle_id : Option String
  pub clear_vehicle : Bool
  pub origin : Option String
  pub destination : Option String
  pub purpose : Option String
  pub remark : Option String

abbrev pub min_duration_min : ℕ
min_duration_min = 5

abbrev pub max_duration_days : ℕ
max_duration_days = 7

abbrev pub id_of : Option UserBrief → Option String
id_of none = none
id_of (some u) = some u.id

module _ (dayjs : Dayjs) where
  open dayjs use {Instant, read, same, minutes}

  -- `bookingToForm`
  unfoldable pub booking_to_form : Booking → BookingForm
  booking_to_form b = record {
    source = b.source;
    contact_name = b.contact_name;
    contact_phone = or_blank b.contact_phone;
    passenger = b.passenger;
    reserve_start = rfc3339_to_local dayjs (some b.reserve_start);
    reserve_end = rfc3339_to_local dayjs (some b.reserve_end);
    vehicle_id = or_blank b.vehicle;
    origin = b.origin;
    destination = b.destination;
    purpose = or_blank b.purpose;
    remark = or_blank b.remark;
  }

  -- `toBookingCreate`
  unfoldable pub to_booking_create : BookingForm → BookingCreate
  to_booking_create v = record {
    source = v.source;
    contact_name = trim v.contact_name;
    contact_phone = truthy (some (trim v.contact_phone));
    passenger_id = id_of v.passenger;
    reserve_start = text_or v.reserve_start (local_to_rfc3339 dayjs (some v.reserve_start));
    reserve_end = text_or v.reserve_end (local_to_rfc3339 dayjs (some v.reserve_end));
    vehicle_id = truthy (some v.vehicle_id);
    origin = trim v.origin;
    destination = trim v.destination;
    purpose = truthy (some (trim v.purpose));
    remark = truthy (some (trim v.remark));
  }

  -- `dayjs(a).isSame(b)`
  same_instant : Option Instant → Option Instant → Bool
  same_instant (some a) (some b) = same a b
  same_instant _ _ = false

  changed_time : Option String → String → Option String
  unfolding same_instant
  changed_time none before = none
  changed_time (some now) before = if same_instant (read now) (read before) then none else some now

  -- `toBookingUpdate`
  unfoldable pub to_booking_update : BookingForm → Booking → BookingUpdate
  unfolding changed changed_link changed_time
  to_booking_update v before =
      let (passenger_id, clear_passenger) =
        changed_link (or_blank (id_of v.passenger)) (or_blank (id_of before.passenger)) in
      let (vehicle_id, clear_vehicle) = changed_link v.vehicle_id (or_blank before.vehicle) in
      record {
        source = if same_source v.source before.source then none else some v.source;
        contact_name = changed (trim v.contact_name) before.contact_name;
        contact_phone = changed (trim v.contact_phone) (or_blank before.contact_phone);
        passenger_id = passenger_id;
        clear_passenger = clear_passenger;
        reserve_start =
            changed_time (truthy (local_to_rfc3339 dayjs (some v.reserve_start)))
              before.reserve_start;
        reserve_end =
            changed_time (truthy (local_to_rfc3339 dayjs (some v.reserve_end))) before.reserve_end;
        vehicle_id = vehicle_id;
        clear_vehicle = clear_vehicle;
        origin = changed (trim v.origin) before.origin;
        destination = changed (trim v.destination) before.destination;
        purpose = changed (trim v.purpose) (or_blank before.purpose);
        remark = changed (trim v.remark) (or_blank before.remark);
      }
