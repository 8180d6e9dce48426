-- ===== src/Vehicles/Save.antt =====
-- pages/assets/vehicles/VehicleDrawer.tsx: what `save` sends, a new vehicle, an update, or nothing.
use zhiyuche.Forms.{is_some}
use zhiyuche.Common.{String, Bool, true, false, ◌||◌, Option, none, some}
use zhiyuche.Common.Number.{Number}
use zhiyuche.Session.{truthy}
use zhiyuche.Forms.{number_or_undefined}
use zhiyuche.Vehicles.{Vehicle, VehicleForm, VehicleUpdate, update_body}

module _ (number : Number) where
  open number use {Carrier, of_ℕ}

  pub record VehicleCreate : Type 0 where
    pub plate_no : String
    pub vin : Option String
    pub brand : Option String
    pub model : Option String
    pub color : Option String
    pub seat_count : Carrier
    pub battery_kwh : Carrier
    pub range_km_full : Carrier
    pub odometer_km : Option Carrier
    pub purchase_date : Option String
    pub insurance_expire : Option String
    pub inspection_expire : Option String
    pub home_dept_id : Option String
    pub remark : Option String

  -- The two requests, and the vehicle given back with no request.
  pub data Sent : Type 0 where
    created : VehicleCreate → Sent
    updated : VehicleUpdate number → Sent
    unchanged : Sent

  or_default : Carrier → Option Carrier → Carrier
  or_default other none = other
  or_default other (some n) = n

  upper_some : (String → String) → Option String → Option String
  upper_some upper none = none
  upper_some upper (some s) = some (upper s)

  unfoldable pub create_body : (String → String) → VehicleForm → VehicleCreate
  unfolding number_or_undefined or_default upper_some
  create_body upper v = record {
    plate_no = v.plate_no;
    vin = upper_some upper (truthy (some v.vin));
    brand = truthy (some v.brand);
    model = truthy (some v.model);
    color = truthy (some v.color);
    seat_count = or_default (of_ℕ 5) (number_or_undefined number v.seat_count);
    battery_kwh = or_default (of_ℕ 60) (number_or_undefined number v.battery_kwh);
    range_km_full = or_default (of_ℕ 400) (number_or_undefined number v.range_km_full);
    odometer_km = number_or_undefined number v.odometer_km;
    purchase_date = truthy (some v.purchase_date);
    insurance_expire = truthy (some v.insurance_expire);
    inspection_expire = truthy (some v.inspection_expire);
    home_dept_id = v.home_dept_id;
    remark = truthy (some v.remark);
  }

  -- `Object.keys(body).length > 0`
  unfoldable pub has_keys : VehicleUpdate number → Bool
  has_keys b =
      is_some b.plate_no
      || is_some b.vin
      || is_some b.brand
      || is_some b.model
      || is_some b.color
      || is_some b.remark
      || is_some b.purchase_date
      || is_some b.insurance_expire
      || is_some b.inspection_expire
      || is_some b.seat_count
      || is_some b.battery_kwh
      || is_some b.range_km_full
      || is_some b.odometer_km
      || is_some b.home_dept_id
      || b.clear_home_dept
      || is_some b.status

  abbrev pub send_keys : Bool → VehicleUpdate number → Sent
  send_keys true b = updated b
  send_keys false b = unchanged

  -- `save` of the values that the schema gave on.
  unfoldable pub save : (String → String) → VehicleForm → Option (Vehicle number) → Sent
  unfolding create_body has_keys update_body
  save upper v none = created (create_body upper v)
  save upper v (some before) =
      send_keys (has_keys (update_body number upper v before)) (update_body number upper v before)
