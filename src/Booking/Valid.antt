-- ===== src/Booking/Valid.antt =====
-- pages/booking/schemas.ts: the checks of the form of a booking. The values are the ones before trimming;
-- each check trims what the source trims.
pub mod Laws
use zhiyuche.Common.{
  ℕ, ◌*◌, Bool, true, false, ◌&&◌, Option, none, some, List, [], ◌∷◌, ◌++◌, leb, ltb, eqb,
  if◌then◌else◌,
}
use zhiyuche.Common.Dayjs.{Dayjs}
use zhiyuche.Common.Text.{units, is_text}
use zhiyuche.Booking.{BookingForm, min_duration_min, max_duration_days}

-- The issues of the check of the whole form, all of them at `reserve_end`.
pub data PeriodIssue : Type 0 where
  not_after : PeriodIssue
  too_short : PeriodIssue
  too_long : PeriodIssue

-- The issues of a period of some minutes, where 0 stands for what is not above 0.
unfoldable pub length_issues : ℕ → List PeriodIssue
length_issues minutes =
    if eqb minutes 0
    then not_after ∷ []
    else (if ltb minutes min_duration_min then too_short ∷ [] else [])
      ++ (if ltb (max_duration_days * 24 * 60) minutes then too_long ∷ [] else [])

abbrev pub no_issue : List PeriodIssue → Bool
no_issue [] = true
no_issue (_ ∷ _) = false

module _ (dayjs : Dayjs) where
  open dayjs use {Instant, read, minutes}

  -- `superRefine`
  unfoldable pub period_issues : Option Instant → Option Instant → List PeriodIssue
  unfolding length_issues
  period_issues (some s) (some e) = length_issues (minutes s e)
  period_issues none e = []
  period_issues (some s) none = []

  -- `bookingFormSchema`: no field and no check of the whole has an issue.
  unfoldable pub is_booking_form : BookingForm → Bool
  unfolding period_issues
  is_booking_form v =
      (is_text 1 64 v.contact_name
        && (is_text 0 32 v.contact_phone
            && (leb 1 (units v.reserve_start) && leb 1 (units v.reserve_end))))
      && ((is_text 1 200 v.origin && is_text 1 200 v.destination)
          && ((is_text 0 200 v.purpose && is_text 0 500 v.remark)
              && no_issue (period_issues (read v.reserve_start) (read v.reserve_end))))
