-- ===== src/Vehicles.antt =====
-- pages/assets/vehicles: the form of a vehicle with its checks (schemas.ts), and what VehicleDrawer.tsx
-- fills it with and sends. `upper` stands for `toUpperCase`.
pub mod Laws
pub mod Save
pub mod Vin
use zhiyuche.Vehicles.Vin.{is_vin}
use zhiyuche.Common.{
  ℕ, String, Bool, true, false, not, ◌&&◌, ◌||◌, Option, none, some, ◌==◌, leb, eqb, if◌then◌else◌,
}
use zhiyuche.Common.Number.{Number}
use zhiyuche.Common.Text.{trim, units, is_text}
use zhiyuche.Session.{truthy}
use zhiyuche.Forms.{or_blank}
use zhiyuche.Billing.Range.{is_digit}
use zhiyuche.Billing.Valid.{is_optional_date, is_num_field}
use zhiyuche.Forms.{
  changed, changed_dept, changed_some, is_upper, is_lower, each, number_or_undefined,
  changed_number,
}

pub data Status : Type 0 where
  idle : Status
  in_use : Status
  charging : Status
  maintenance : Status
  disabled : Status

abbrev pub same_status : Status → Status → Bool
same_status idle idle = true
same_status in_use in_use = true
same_status charging charging = true
same_status maintenance maintenance = true
same_status disabled disabled = true
same_status _ _ = false

-- `isManualStatus` and `isStatusLocked`
unfoldable pub is_manual_status : Status → Bool
is_manual_status idle = true
is_manual_status maintenance = true
is_manual_status disabled = true
is_manual_status _ = false

unfoldable pub is_status_locked : Status → Bool
is_status_locked in_use = true
is_status_locked charging = true
is_status_locked _ = false

-- `VehicleFormValues`; one of the statuses that can be chosen.
pub record VehicleForm : Type 0 where
  pub plate_no : String
  pub vin : String
  pub brand : String
  pub model : String
  pub color : String
  pub seat_count : String
  pub battery_kwh : String
  pub range_km_full : String
  pub odometer_km : String
  pub purchase_date : String
  pub insurance_expire : String
  pub inspection_expire : String
  pub home_dept_id : Option String
  pub status : Status
  pub remark : String

-- `defaultsFor(undefined)`
abbrev pub blank_form : VehicleForm
blank_form = record {
  plate_no = "";
  vin = "";
  brand = "";
  model = "";
  color = "";
  seat_count = "5";
  battery_kwh = "60";
  range_km_full = "400";
  odometer_km = "0";
  purchase_date = "";
  insurance_expire = "";
  inspection_expire = "";
  home_dept_id = none;
  status = idle;
  remark = "";
}

module _ (number : Number) where
  open number use {Carrier, of_ℕ, ltn, parse, show}

  pub record Vehicle : Type 0 where
    pub plate_no : String
    pub vin : Option String
    pub brand : Option String
    pub model : Option String
    pub color : Option String
    pub seat_count : Carrier
    pub battery_kwh : Carrier
    pub range_km_full : Carrier
    pub odometer_km : Carrier
    pub purchase_date : Option String
    pub insurance_expire : Option String
    pub inspection_expire : Option String
    pub home_dept_id : Option String
    pub status : Status
    -- `live.status`, where there is a live state
    pub live : Option Status
    pub remark : Option String

  -- `VehicleUpdate`
  pub record VehicleUpdate : Type 0 where
    pub plate_no : Option String
    pub vin : Option String
    pub brand : Option String
    pub model : Option String
    pub color : Option String
    pub remark : Option String
    pub purchase_date : Option String
    pub insurance_expire : Option String
    pub inspection_expire : Option String
    pub seat_count : Option Carrier
    pub battery_kwh : Option Carrier
    pub range_km_full : Option Carrier
    pub odometer_km : Option Carrier
    pub home_dept_id : Option String
    pub clear_home_dept : Bool
    pub status : Option Status

  -- `intField(min, max, message)`
  unfoldable pub is_int_field : ℕ → ℕ → String → Bool
  unfolding each is_digit
  is_int_field least most v =
      trim v == ""
      || (each is_digit (trim v)
          && (not (ltn (parse (trim v)) (of_ℕ least)) && not (ltn (of_ℕ most) (parse (trim v)))))

  -- `vehicleFormSchema`: no field has an issue.
  unfoldable pub is_vehicle_form : VehicleForm → Bool
  unfolding is_text is_vin is_int_field is_num_field is_optional_date is_manual_status
  is_vehicle_form v =
      (is_text 2 16 v.plate_no
        && ((trim v.vin == "" || is_vin (trim v.vin))
            && (is_text 0 64 v.brand && (is_text 0 64 v.model && is_text 0 32 v.color))))
      && ((is_int_field 1 60 v.seat_count
            && (is_num_field number 1 none v.battery_kwh
                && (is_int_field 1 5000 v.range_km_full
                    && is_num_field number 0 none v.odometer_km)))
          && ((is_optional_date v.purchase_date
                && (is_optional_date v.insurance_expire && is_optional_date v.inspection_expire))
              && (is_manual_status v.status && is_text 0 500 v.remark)))

  -- The values that the schema gives on: the texts of `trim()` fields are trimmed.
  unfoldable pub parsed : VehicleForm → VehicleForm
  parsed v = record v {
    plate_no = trim v.plate_no;
    vin = trim v.vin;
    brand = trim v.brand;
    model = trim v.model;
    color = trim v.color;
    seat_count = trim v.seat_count;
    battery_kwh = trim v.battery_kwh;
    range_km_full = trim v.range_km_full;
    odometer_km = trim v.odometer_km;
    purchase_date = trim v.purchase_date;
    insurance_expire = trim v.insurance_expire;
    inspection_expire = trim v.inspection_expire;
    remark = trim v.remark;
  }

  -- `defaultsFor(vehicle)`
  unfoldable pub defaults_for : Vehicle → VehicleForm
  unfolding is_manual_status
  defaults_for v = record {
    plate_no = v.plate_no;
    vin = or_blank v.vin;
    brand = or_blank v.brand;
    model = or_blank v.model;
    color = or_blank v.color;
    seat_count = show v.seat_count;
    battery_kwh = show v.battery_kwh;
    range_km_full = show v.range_km_full;
    odometer_km = show v.odometer_km;
    purchase_date = or_blank v.purchase_date;
    insurance_expire = or_blank v.insurance_expire;
    inspection_expire = or_blank v.inspection_expire;
    home_dept_id = v.home_dept_id;
    status = if is_manual_status v.status then v.status else idle;
    remark = or_blank v.remark;
  }

  current_status : Vehicle → Status
  current_status v = elim v.live [ none ↦ v.status | some status ↦ status ]

  -- `statusLocked`
  unfoldable pub status_locked : Vehicle → Bool
  unfolding current_status is_status_locked
  status_locked v = is_status_locked (current_status v)

  changed_status : Bool → Status → Status → Option Status
  changed_status locked now before =
      if not locked && not (same_status now before) then some now else none

  module _ (upper : String → String) where
    -- The body that `save` builds for a vehicle that is there.
    unfoldable pub update_body : VehicleForm → Vehicle → VehicleUpdate
    unfolding changed changed_dept changed_some changed_number changed_status number_or_undefined
        status_locked
    update_body v before = record {
      plate_no = changed v.plate_no before.plate_no;
      vin = changed (upper v.vin) (or_blank before.vin);
      brand = changed v.brand (or_blank before.brand);
      model = changed v.model (or_blank before.model);
      color = changed v.color (or_blank before.color);
      remark = changed v.remark (or_blank before.remark);
      purchase_date = changed_some v.purchase_date (or_blank before.purchase_date);
      insurance_expire = changed_some v.insurance_expire (or_blank before.insurance_expire);
      inspection_expire = changed_some v.inspection_expire (or_blank before.inspection_expire);
      seat_count =
          changed_number number (number_or_undefined number v.seat_count) before.seat_count;
      battery_kwh =
          changed_number number (number_or_undefined number v.battery_kwh) before.battery_kwh;
      range_km_full =
          changed_number number (number_or_undefined number v.range_km_full) before.range_km_full;
      odometer_km =
          changed_number number (number_or_undefined number v.odometer_km) before.odometer_km;
      home_dept_id = (changed_dept v.home_dept_id before.home_dept_id).0;
      clear_home_dept = (changed_dept v.home_dept_id before.home_dept_id).1;
      status = changed_status (status_locked before) v.status before.status;
    }
