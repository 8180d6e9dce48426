-- ===== src/Tests/Desk.antt =====
-- The pages of vehicles and users: forms that are opened, edited and saved, and lists compared as sets.
use zhiyuche.Common.{String, Bool, true, false, none, some, List, [], ◌∷◌, ◌↔◌, inr, ◌≡◌, refl}
use zhiyuche.Common.StringSet.{has, of_list, add, Nodup}
use zhiyuche.Common.Text.{trim}
use zhiyuche.Sets.{same_id_set}
use zhiyuche.Forms.{changed, changed_dept}
use zhiyuche.Sets.Laws.{SameMembers, same_id_set_iff}
use zhiyuche.Tests.Forms.{bits, bits-ShowsPlainly}
use zhiyuche.Users
use zhiyuche.Users.{User, UserForm, update_body}
use zhiyuche.Users.Save.{
  Request, create, update, assign, Result, ok, failed, ask, has_keys, then_ask, save_existing, save,
}
use zhiyuche.Users.Laws.{wanted, IsEnd, save-IsEnd}
use zhiyuche.Vehicles
use zhiyuche.Vehicles.{Vehicle, VehicleForm}
use zhiyuche.Vehicles.Save
use zhiyuche.Vehicles.Laws.{IsUpdated, update_body-IsUpdated, IsKept, save-defaults_for}

abbrev there : List String
there = "a" ∷ "b" ∷ []

abbrev back : List String
back = "b" ∷ "a" ∷ []

there-Nodup : Nodup there
unfolding has
there-Nodup = (refl, (refl, tt))

back-Nodup : Nodup back
unfolding has
back-Nodup = (refl, (refl, tt))

same_id_set_iff_example : (same_id_set there back ≡ true) ↔ SameMembers there back
same_id_set_iff_example = same_id_set_iff there back there-Nodup back-Nodup

-- With a repetition the identifiers may differ.
repeated : same_id_set there ("a" ∷ "a" ∷ []) ≡ true
unfolding same_id_set has of_list add
repeated = refl

abbrev van : Vehicle bits
van = record {
  plate_no = "A1";
  vin = none;
  brand = some "BYD";
  model = none;
  color = none;
  seat_count = true;
  battery_kwh = true;
  range_km_full = true;
  odometer_km = false;
  purchase_date = some "2024-01-02";
  insurance_expire = none;
  inspection_expire = none;
  home_dept_id = some "d1";
  status = Vehicles.maintenance;
  live = none;
  remark = none;
}

abbrev repainted : VehicleForm
repainted = record {
  plate_no = "A1";
  vin = "";
  brand = "";
  model = "";
  color = "red";
  seat_count = "0";
  battery_kwh = "";
  range_km_full = "1";
  odometer_km = "1";
  purchase_date = "";
  insurance_expire = "";
  inspection_expire = "";
  home_dept_id = none;
  status = Vehicles.idle;
  remark = "";
}

update_body-IsUpdated_example :
    IsUpdated bits (λ s. s) repainted van (Vehicles.update_body bits (λ s. s) repainted van)
update_body-IsUpdated_example = update_body-IsUpdated bits (λ s. s) repainted van

van-IsKept : IsKept bits (λ s. s) van
unfolding trim
van-IsKept = record {
  plate_no = refl;
  vin = refl;
  brand = refl;
  model = refl;
  color = refl;
  remark = refl;
  purchase_date = refl;
  insurance_expire = refl;
  inspection_expire = refl;
  seat_count = refl;
  battery_kwh = refl;
  range_km_full = refl;
  odometer_km = refl;
  status = inr (unfold Vehicles.is_manual_status in refl);
}

bit_read :
    (b : Bool)
    → bits.is_finite b ≡ true
    → (bits.is_finite (bits.parse (bits.show b)) ≡ true)
      × (bits.eqn (bits.parse (bits.show b)) b ≡ true)
bit_read true h = (refl, refl)
bit_read false h = (refl, refl)

save-defaults_for_example :
    Vehicles.Save.save bits
      (λ s. s)
      (Vehicles.parsed bits (Vehicles.defaults_for bits van))
      (some van)
    ≡ Vehicles.Save.unchanged
save-defaults_for_example =
    save-defaults_for bits bits-ShowsPlainly bit_read (λ s. s) van van-IsKept

-- A vehicle on record as charging, whose live state is idle, is set to idle by a save without an edit.
abbrev plugged : Vehicle bits
plugged = record van { status = Vehicles.charging; live = some Vehicles.idle }

freed :
    (Vehicles.update_body bits
      (λ s. s)
      (Vehicles.parsed bits (Vehicles.defaults_for bits plugged))
      plugged).status
    ≡ some Vehicles.idle
unfolding Vehicles.update_body Vehicles.parsed Vehicles.defaults_for Vehicles.is_manual_status
freed = refl

abbrev clerk : User
clerk = record {
  id = "u1";
  username = "li";
  name = "Li";
  phone = none;
  email = none;
  employee_no = none;
  dept_id = none;
  roles = "r1" ∷ [];
  status = Users.active;
}

abbrev renamed : UserForm
renamed = record {
  username = "li";
  name = "Lin";
  password = "";
  phone = "";
  email = "";
  employee_no = "";
  dept_id = some "d1";
  role_ids = "r2" ∷ [];
  status = Users.active;
}

-- Roles cannot be assigned.
abbrev answer : List Request → Request → Result
answer sent (create body) = ok clerk
answer sent (update id body) = ok clerk
answer sent (assign id roles) = failed "forbidden"

save-IsEnd_example :
    IsEnd answer (wanted true renamed (some clerk)) (save answer true renamed (some clerk))
save-IsEnd_example = save-IsEnd answer true renamed (some clerk)

roles_refused :
    save answer true renamed (some clerk)
    ≡ (failed "forbidden", assign "u1" ("r2" ∷ []) ∷ update "u1" (update_body renamed clerk) ∷ [])
unfolding save save_existing has_keys then_ask ask update_body changed changed_dept same_id_set has
    of_list add
roles_refused = refl
