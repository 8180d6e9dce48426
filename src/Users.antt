-- ===== src/Users.antt =====
-- pages/system/users: the form of a user with its checks (schemas.ts), and what UserDrawer.tsx fills it
-- with and sends, with the server as a function of the requests so far. `is_email` is the library's check.
pub mod Laws
pub mod Save
use Prim.Native.Char.{code}
use zhiyuche.Common.{
  ℕ, String, Bool, true, false, not, ◌&&◌, ◌||◌, Option, none, some, List, [], ◌∷◌, ◌++◌, map, ◌==◌,
  leb, eqb, if◌then◌else◌,
}
use zhiyuche.Common.Text.{trim, units, is_text}
use zhiyuche.Session.{truthy}
use zhiyuche.Forms.{or_blank}
use zhiyuche.Billing.Range.{is_digit}
use zhiyuche.Forms.{changed, changed_dept, is_upper, is_lower, each, one_of}
use zhiyuche.Sets.{same_id_set}

pub data Status : Type 0 where
  active : Status
  disabled : Status
  locked : Status

abbrev pub same_status : Status → Status → Bool
same_status active active = true
same_status disabled disabled = true
same_status locked locked = true
same_status _ _ = false

pub record UserForm : Type 0 where
  pub username : String
  pub name : String
  pub password : String
  pub phone : String
  pub email : String
  pub employee_no : String
  pub dept_id : Option String
  pub role_ids : List String
  pub status : Status

pub record User : Type 0 where
  pub id : String
  pub username : String
  pub name : String
  pub phone : Option String
  pub email : Option String
  pub employee_no : Option String
  pub dept_id : Option String
  -- the identifiers of `roles`
  pub roles : List String
  pub status : Status

pub record UserCreate : Type 0 where
  pub username : String
  pub name : String
  pub password : Option String
  pub phone : Option String
  pub email : Option String
  pub employee_no : Option String
  pub dept_id : Option String
  pub role_ids : List String
  pub status : Status

pub record UserUpdate : Type 0 where
  pub name : Option String
  pub status : Option Status
  pub phone : Option String
  pub email : Option String
  pub employee_no : Option String
  pub dept_id : Option String
  pub clear_dept : Bool

-- A line terminator, which `.` does not match.
is_terminator : ℕ → Bool
is_terminator c = eqb c 10 || (eqb c 13 || (eqb c 8232 || eqb c 8233))

is_letter : ℕ → Bool
unfolding is_upper is_lower
is_letter c = is_upper c || is_lower c

-- `PASSWORD_RULE`
unfoldable pub is_password : String → Bool
unfolding is_letter is_terminator is_digit one_of each
is_password v =
    (one_of is_letter v && one_of is_digit v)
    && (leb 8 (units v) && each (λ c. not (is_terminator c)) v)

-- `optionalPassword`
unfoldable pub is_optional_password : String → Bool
unfolding is_password
is_optional_password v = leb (units v) 72 && (v == "" || is_password v)

-- `PHONE_RULE`
unfoldable pub is_phone : String → Bool
unfolding each is_digit
is_phone v = eqb (units v) 11 && each is_digit v

-- `userFormSchema`: no field has an issue.
unfoldable pub is_user_form : (String → Bool) → UserForm → Bool
unfolding is_text is_optional_password is_phone
is_user_form is_email v =
    (is_text 2 64 v.username && (is_text 1 64 v.name && is_optional_password v.password))
    && ((trim v.phone == "" || is_phone (trim v.phone))
        && ((trim v.email == "" || is_email (trim v.email)) && is_text 0 64 v.employee_no))

-- The values that the schema gives on; the password is not trimmed.
unfoldable pub parsed : UserForm → UserForm
parsed v = record v {
  username = trim v.username;
  name = trim v.name;
  phone = trim v.phone;
  email = trim v.email;
  employee_no = trim v.employee_no;
}

-- `defaultsFor(undefined)`
abbrev pub blank_form : UserForm
blank_form = record {
  username = "";
  name = "";
  password = "";
  phone = "";
  email = "";
  employee_no = "";
  dept_id = none;
  role_ids = [];
  status = active;
}

-- `defaultsFor(user)`
unfoldable pub defaults_for : User → UserForm
defaults_for u = record {
  username = u.username;
  name = u.name;
  password = "";
  phone = or_blank u.phone;
  email = or_blank u.email;
  employee_no = or_blank u.employee_no;
  dept_id = u.dept_id;
  role_ids = u.roles;
  status = u.status;
}

unfoldable pub create_body : UserForm → UserCreate
create_body v = record {
  username = v.username;
  name = v.name;
  password = truthy (some v.password);
  phone = truthy (some v.phone);
  email = truthy (some v.email);
  employee_no = truthy (some v.employee_no);
  dept_id = v.dept_id;
  role_ids = v.role_ids;
  status = if same_status v.status disabled then disabled else active;
}

unfoldable pub update_body : UserForm → User → UserUpdate
unfolding changed changed_dept
update_body v before = record {
  name = changed v.name before.name;
  status = if same_status v.status before.status then none else some v.status;
  phone = changed v.phone (or_blank before.phone);
  email = changed v.email (or_blank before.email);
  employee_no = changed v.employee_no (or_blank before.employee_no);
  dept_id = (changed_dept v.dept_id before.dept_id).0;
  clear_dept = (changed_dept v.dept_id before.dept_id).1;
}
