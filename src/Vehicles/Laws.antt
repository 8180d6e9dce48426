-- ===== src/Vehicles/Laws.antt =====
-- What an update of a vehicle does, and when none is sent.
use mathlib.Core.Path.{subst}
use zhiyuche.Common.{
  String, Bool, true, false, none, some, ◌==◌, ◌≡◌, ◌⊎◌, refl, sym, inl, inr, Bool-cases,
  if◌then◌else◌,
}
use zhiyuche.Common.Number.{Number}
use zhiyuche.Common.Text.{trim}
use zhiyuche.Forms.{or_blank}
use zhiyuche.Billing.Form.RoundTrip.{ShowsPlainly}
use zhiyuche.Forms.{changed_some, changed_number, number_or_undefined}
use zhiyuche.Forms.Laws.{
  replace, replace_link, replace-changed, replace-changed_dept, replace-changed_some, changed_same,
  changed_some_same, changed_dept_same, given_or, replace-changed_number,
}
use zhiyuche.Vehicles.{
  Status, idle, in_use, charging, maintenance, disabled, same_status, is_manual_status, VehicleForm,
  Vehicle, VehicleUpdate, parsed, defaults_for, status_locked, changed_status, update_body,
}
use zhiyuche.Vehicles.Save.{unchanged, has_keys, save}

same_status-same : (a b : Status) → same_status a b ≡ true → a ≡ b
same_status-same idle idle h = refl
same_status-same in_use in_use h = refl
same_status-same charging charging h = refl
same_status-same maintenance maintenance h = refl
same_status-same disabled disabled h = refl
same_status-same _ _ h = cc h

same_status_self : (s : Status) → same_status s s ≡ true
same_status_self idle = refl
same_status_self in_use = refl
same_status_self charging = refl
same_status_self maintenance = refl
same_status_self disabled = refl

module _ (number : Number) where
  open number use {Carrier, eqn, is_finite, parse, show}

  abbrev pub Same : Carrier → Carrier → Type 0
  Same a b = (b ≡ a) ⊎ (eqn a b ≡ true)

  -- The vehicle before with the keys of the body replaced, against what the form says.
  pub record IsUpdated (upper : String → String) (v : VehicleForm) (before : Vehicle number)
      (b : VehicleUpdate number) : Type 0 where
    pub plate_no : replace b.plate_no before.plate_no ≡ v.plate_no
    pub vin : replace b.vin (or_blank before.vin) ≡ upper v.vin
    pub brand : replace b.brand (or_blank before.brand) ≡ v.brand
    pub model : replace b.model (or_blank before.model) ≡ v.model
    pub color : replace b.color (or_blank before.color) ≡ v.color
    pub remark : replace b.remark (or_blank before.remark) ≡ v.remark
    pub purchase_date :
        replace b.purchase_date (or_blank before.purchase_date)
        ≡ (if v.purchase_date == "" then or_blank before.purchase_date else v.purchase_date)
    pub insurance_expire : replace b.insurance_expire (or_blank before.insurance_expire) ≡ (
        if v.insurance_expire == "" then or_blank before.insurance_expire else v.insurance_expire)
    pub inspection_expire : replace b.inspection_expire (or_blank before.inspection_expire) ≡ (
        if v.inspection_expire == ""
        then or_blank before.inspection_expire
        else v.inspection_expire)
    pub seat_count :
        Same
          (given_or number before.seat_count (number_or_undefined number v.seat_count))
          (replace b.seat_count before.seat_count)
    pub battery_kwh :
        Same
          (given_or number before.battery_kwh (number_or_undefined number v.battery_kwh))
          (replace b.battery_kwh before.battery_kwh)
    pub range_km_full :
        Same
          (given_or number before.range_km_full (number_or_undefined number v.range_km_full))
          (replace b.range_km_full before.range_km_full)
    pub odometer_km :
        Same
          (given_or number before.odometer_km (number_or_undefined number v.odometer_km))
          (replace b.odometer_km before.odometer_km)
    pub home_dept_id :
        replace_link b.home_dept_id b.clear_home_dept (or_blank before.home_dept_id)
        ≡ or_blank v.home_dept_id
    pub status :
        replace b.status before.status
        ≡ (if status_locked number before then before.status else v.status)

  replace-changed_status :
      (locked : Bool) (now before : Status)
      → replace (changed_status number locked now before) before ≡ (if locked then before else now)
  unfolding changed_status
  replace-changed_status true now before = refl
  replace-changed_status false now before = elim (Bool-cases (same_status now before)) [
    | inl same ↦ rw same (sym (same_status-same now before same))
    | inr other ↦ rw other refl
  ]

  -- The body of an update carried out on the vehicle gives what the form says: its texts, with the letters of
  -- the VIN made large; a date where one is given, and the old one otherwise; a number where one is given,
  -- or one that equals it; the department or none; and the status unless a trip or a charge holds it.
  pub update_body-IsUpdated :
      (upper : String → String) (v : VehicleForm) (before : Vehicle number)
      → IsUpdated upper v before (update_body number upper v before)
  unfolding update_body
  update_body-IsUpdated upper v before = record {
    plate_no = replace-changed v.plate_no before.plate_no;
    vin = replace-changed (upper v.vin) (or_blank before.vin);
    brand = replace-changed v.brand (or_blank before.brand);
    model = replace-changed v.model (or_blank before.model);
    color = replace-changed v.color (or_blank before.color);
    remark = replace-changed v.remark (or_blank before.remark);
    purchase_date = replace-changed_some v.purchase_date (or_blank before.purchase_date);
    insurance_expire = replace-changed_some v.insurance_expire (or_blank before.insurance_expire);
    inspection_expire =
        replace-changed_some v.inspection_expire (or_blank before.inspection_expire);
    seat_count =
        replace-changed_number number (number_or_undefined number v.seat_count) before.seat_count;
    battery_kwh =
        replace-changed_number number (number_or_undefined number v.battery_kwh) before.battery_kwh;
    range_km_full =
        replace-changed_number number (number_or_undefined number v.range_km_full)
          before.range_km_full;
    odometer_km =
        replace-changed_number number (number_or_undefined number v.odometer_km) before.odometer_km;
    home_dept_id = replace-changed_dept v.home_dept_id before.home_dept_id;
    status = replace-changed_status (status_locked number before) v.status before.status;
  }

  -- A vehicle as the interface keeps it: trimmed texts, large letters in the VIN, finite numbers, and a
  -- status that the form can show unless the status is locked.
  pub record IsKept (upper : String → String) (v : Vehicle number) : Type 0 where
    pub plate_no : trim v.plate_no ≡ v.plate_no
    pub vin : upper (trim (or_blank v.vin)) ≡ or_blank v.vin
    pub brand : trim (or_blank v.brand) ≡ or_blank v.brand
    pub model : trim (or_blank v.model) ≡ or_blank v.model
    pub color : trim (or_blank v.color) ≡ or_blank v.color
    pub remark : trim (or_blank v.remark) ≡ or_blank v.remark
    pub purchase_date : trim (or_blank v.purchase_date) ≡ or_blank v.purchase_date
    pub insurance_expire : trim (or_blank v.insurance_expire) ≡ or_blank v.insurance_expire
    pub inspection_expire : trim (or_blank v.inspection_expire) ≡ or_blank v.inspection_expire
    pub seat_count : is_finite v.seat_count ≡ true
    pub battery_kwh : is_finite v.battery_kwh ≡ true
    pub range_km_full : is_finite v.range_km_full ≡ true
    pub odometer_km : is_finite v.odometer_km ≡ true
    pub status : (status_locked number v ≡ true) ⊎ (is_manual_status v.status ≡ true)

  module _ (shows : ShowsPlainly number)
      (reads : (n : Carrier)
        → is_finite n ≡ true
        → (is_finite (parse (show n)) ≡ true) × (eqn (parse (show n)) n ≡ true)) where
    number_same :
        (n : Carrier)
        → is_finite n ≡ true
        → changed_number number (number_or_undefined number (trim (show n))) n ≡ none
    unfolding changed_number number_or_undefined
    number_same n h =
        let (finite, same) = reads n h in
        rw (shows.shown_trimmed n)
          (rw (shows.shown_trimmed n) (rw (shows.shown_some n) (rw finite (rw same refl))))

    date_same : (now before : String) → now ≡ before → changed_some now before ≡ none
    date_same now before e =
        subst (λ s. changed_some s before ≡ none) (sym e) (changed_some_same before)

    status_same :
        (locked : Bool) (s : Status)
        → (locked ≡ true) ⊎ (is_manual_status s ≡ true)
        → changed_status number locked (if is_manual_status s then s else idle) s ≡ none
    unfolding changed_status
    status_same true s h = refl
    status_same false s (inl h) = cc h
    status_same false s (inr h) = rw h (rw (same_status_self s) refl)

    -- A vehicle that is opened in the form and saved as it is sends nothing, if it is kept as the interface
    -- keeps it: for finite numbers whose texts are read as finite numbers that equal them.
    pub save-defaults_for :
        (upper : String → String) (v : Vehicle number)
        → IsKept upper v
        → save number upper (parsed number (defaults_for number v)) (some v) ≡ unchanged
    unfolding save has_keys update_body parsed defaults_for
    save-defaults_for upper v h =
        rw
          (
            changed_same (trim v.plate_no) v.plate_no h.plate_no,
            changed_same (upper (trim (or_blank v.vin))) (or_blank v.vin) h.vin,
            changed_same (trim (or_blank v.brand)) (or_blank v.brand) h.brand,
            changed_same (trim (or_blank v.model)) (or_blank v.model) h.model,
            changed_same (trim (or_blank v.color)) (or_blank v.color) h.color,
            changed_same (trim (or_blank v.remark)) (or_blank v.remark) h.remark,
            date_same (trim (or_blank v.purchase_date)) (or_blank v.purchase_date) h.purchase_date,
            date_same (trim (or_blank v.insurance_expire)) (or_blank v.insurance_expire)
                h.insurance_expire,
            date_same (trim (or_blank v.inspection_expire)) (or_blank v.inspection_expire)
                h.inspection_expire,
            number_same v.seat_count h.seat_count,
            number_same v.battery_kwh h.battery_kwh,
            number_same v.range_km_full h.range_km_full,
            number_same v.odometer_km h.odometer_km,
            changed_dept_same v.home_dept_id,
            status_same (status_locked number v) v.status h.status,
          )
          refl
