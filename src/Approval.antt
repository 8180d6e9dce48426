-- ===== src/Approval.antt =====
-- pages/approval/schemas.ts: the form that asks for a vehicle, its checks, and the body that it sends; and
-- from pages/approval/style.ts whom a pending request waits for. The values of the form are the ones before
-- trimming; each check trims what the source trims. A planned route is passed on as it is.
pub mod Laws
use Prim.Native.Char.{code}
use Prim.Native.String.{String}
use zhiyuche.Common.{
  ℕ, ◌+◌, Bool, true, false, not, ◌&&◌, ◌||◌, Option, none, some, List, [], ◌∷◌, map, all, ◌==◌,
  leb, eqb, if◌then◌else◌,
}
use zhiyuche.Common.Dayjs.{Dayjs}
use zhiyuche.Common.Number.{Number}
use zhiyuche.Common.Text.{trim, units, is_text}
use zhiyuche.Session.{truthy}
use zhiyuche.Format.{text_or, local_to_rfc3339}
use zhiyuche.Booking.{UserBrief, id_of}
use zhiyuche.Billing.Simulate.{TripType}

pub data Urgency : Type 0 where
  normal : Urgency
  urgent : Urgency

pub record Attachment : Type 0 where
  pub name : String
  pub url : String

-- A letter of A to Z as the one of a to z, other characters as they are.
lower : ℕ → ℕ
lower c = if leb 65 c && leb c 90 then c + 32 else c

-- Begins with a text of lower case, whatever the case.
begins : String → String → Bool
unfolding lower
begins s String.[] = true
begins String.[] (String.◌∷◌ c t) = false
begins (String.◌∷◌ d s) (String.◌∷◌ c t) = eqb (lower (code d)) (code c) && begins s t

-- `URL_RULE`
unfoldable pub is_url : String → Bool
unfolding begins
is_url v = begins v "http://" || (begins v "https://" || begins v "/")

unfoldable pub is_attachment : Attachment → Bool
unfolding is_url is_text
is_attachment f = is_text 1 100 f.name && (leb 1 (units (trim f.url)) && is_url (trim f.url))

-- A list that is sent only where it has items.
unfoldable pub if_any {ℓ} : {A : Type ℓ} → List A → Option (List A)
if_any [] = none
if_any (x ∷ xs) = some (x ∷ xs)

abbrev pub trimmed : Attachment → Attachment
trimmed f = record { name = trim f.name; url = trim f.url }

-- The points that a request may end at carry numbers and an address, which is not sent.
module _ (number : Number) where
  open number use {Carrier, of_ℕ, is_finite, ltn, parse}

  pub record ApprovalForm : Type 0 where
    pub applicant : Option UserBrief
    pub trip_type : TripType
    pub purpose_code : String
    pub purpose_detail : String
    pub planned_start : String
    pub planned_end : String
    pub destination : String
    pub dest : Option (Carrier × Carrier)
    pub planned_km : String
    pub vehicle_id : String
    pub passengers : List UserBrief
    pub urgency : Urgency
    pub attachments : List Attachment

  pub record ApprovalCreate (Route : Type 0) : Type 0 where
    pub applicant_id : Option String
    pub trip_type : TripType
    pub purpose_code : String
    pub purpose_detail : String
    pub planned_start : String
    pub planned_end : String
    pub destination : String
    pub dest_lng : Option Carrier
    pub dest_lat : Option Carrier
    pub planned_route : Option Route
    pub planned_km : Option Carrier
    pub passenger_ids : Option (List String)
    pub attachments : Option (List Attachment)
    pub vehicle_id : Option String
    pub urgency : Urgency

  unfoldable pub is_distance : String → Bool
  is_distance v =
      trim v == "" || (is_finite (parse (trim v)) && not (ltn (parse (trim v)) (of_ℕ 0)))

  -- `v === '' ? undefined : Number(v)` on the trimmed text.
  unfoldable pub km_of : String → Option Carrier
  km_of v = if trim v == "" then none else some (parse v)

  module _ (dayjs : Dayjs) where
    open dayjs use {Instant, read, is_after}

    -- No issue is found where a time cannot be read.
    unfoldable pub in_order : Option Instant → Option Instant → Bool
    in_order (some s) (some e) = is_after e s
    in_order none e = true
    in_order (some s) none = true

    -- `approvalFormSchema`: no field and no check of the whole has an issue.
    unfoldable pub is_approval_form : ApprovalForm → Bool
    unfolding is_text is_distance is_attachment in_order
    is_approval_form v =
        (leb 1 (units v.purpose_code)
          && (is_text 2 500 v.purpose_detail
              && (leb 1 (units v.planned_start) && leb 1 (units v.planned_end))))
        && ((is_text 1 200 v.destination && is_distance v.planned_km)
            && (all is_attachment v.attachments
                && in_order (read v.planned_start) (read v.planned_end)))

    -- `toApprovalCreate`
    unfoldable pub to_approval_create :
        {Route : Type 0} → ApprovalForm → Option Route → ApprovalCreate Route
    unfolding km_of if_any
    to_approval_create v route = record {
      applicant_id = id_of v.applicant;
      trip_type = v.trip_type;
      purpose_code = v.purpose_code;
      purpose_detail = trim v.purpose_detail;
      planned_start = text_or v.planned_start (local_to_rfc3339 dayjs (some v.planned_start));
      planned_end = text_or v.planned_end (local_to_rfc3339 dayjs (some v.planned_end));
      destination = trim v.destination;
      dest_lng = first v.dest;
      dest_lat = second v.dest;
      planned_route = route;
      planned_km = km_of v.planned_km;
      passenger_ids = if_any (map (λ p. p.id) v.passengers);
      attachments = if_any (map trimmed v.attachments);
      vehicle_id = truthy (some v.vehicle_id);
      urgency = v.urgency;
    }
      where
        first : Option (Carrier × Carrier) → Option Carrier
        first none = none
        first (some (lng, lat)) = some lng

        second : Option (Carrier × Carrier) → Option Carrier
        second none = none
        second (some (lng, lat)) = some lat

-- `ApprovalStatus`
pub data Status : Type 0 where
  pending_l1 : Status
  pending_l2 : Status
  approved : Status
  rejected : Status
  cancelled : Status
  in_use : Status
  completed : Status
  expired : Status

-- `isPendingStatus`
unfoldable pub is_pending_status : Status → Bool
is_pending_status pending_l1 = true
is_pending_status pending_l2 = true
is_pending_status _ = false

-- A step with its number, whether its action is `pending`, and the name of its approver.
pub record Step : Type 0 where
  pub step_no : ℕ
  pub is_waiting : Bool
  pub approver : String

find_step : (Step → Bool) → List Step → Option Step
find_step p [] = none
find_step p (s ∷ steps) = let rest = find_step p steps in if p s then some s else rest

name_of : Option Step → Option String
name_of none = none
name_of (some s) = some s.approver

or_step : Option Step → Option Step → Option Step
or_step none other = other
or_step (some s) other = some s

-- `currentApproverName` of the status, the current step and the steps.
unfoldable pub current_approver_name : Status → ℕ → List Step → Option String
unfolding is_pending_status find_step name_of or_step
current_approver_name status current_step steps =
    if is_pending_status status
    then name_of (
        or_step (find_step (λ s. eqb s.step_no current_step) steps)
          (find_step (λ s. s.is_waiting) steps))
    else none

-- `purposeText`
unfoldable pub purpose_text : String → Option String → String
purpose_text code label = text_or code (truthy label)
