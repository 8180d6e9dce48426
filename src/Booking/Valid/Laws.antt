-- ===== src/Booking/Valid/Laws.antt =====
-- What a booking that passes the checks sends.
use zhiyuche.Common.{
  ℕ, ◌≤◌, String, ◌==◌, false, true, ◌&&◌, Option, none, some, some-injective, leb, ◌≡◌, sym, ◌∙◌,
  ap, inl, inr, arith, Bool-cases, and-split,
}
use zhiyuche.Common.Dayjs.{Dayjs}
use zhiyuche.Common.Text.{trim, units, is_text}
use zhiyuche.Session.{truthy}
use zhiyuche.Format.Laws.{read-local, full_text}
use zhiyuche.Booking.{BookingForm, BookingCreate, to_booking_create}
use zhiyuche.Booking.Valid.{length_issues, no_issue, period_issues, is_booking_form}

module _ (dayjs : Dayjs) where
  open dayjs use {Instant, read, to_iso, minutes}

  -- A text that is there has so many characters at least and at most.
  abbrev pub IsWithin : ℕ → ℕ → Option String → Type 0
  IsWithin least most none = Unit
  IsWithin least most (some s) = (least ≤ units s) × (units s ≤ most)

  pub record IsSoundBooking (b : BookingCreate) : Type 0 where
    pub contact_name : (1 ≤ units b.contact_name) × (units b.contact_name ≤ 64)
    pub origin : (1 ≤ units b.origin) × (units b.origin ≤ 200)
    pub destination : (1 ≤ units b.destination) × (units b.destination ≤ 200)
    pub contact_phone : IsWithin 1 32 b.contact_phone
    pub purpose : IsWithin 1 200 b.purpose
    pub remark : IsWithin 1 500 b.remark
    pub in_time :
        (s e : Instant)
        → read b.reserve_start ≡ some s
        → read b.reserve_end ≡ some e
        → (5 ≤ minutes s e) × (minutes s e ≤ 10080)

  within : (m : ℕ) → no_issue (length_issues m) ≡ true → (5 ≤ m) × (m ≤ 10080)
  unfolding length_issues
  within m h = elim (Bool-cases (leb 5 m && leb m 10080)) [
    | inl inside ↦ (ground (arith, inside), ground (arith, inside))
    | inr outside ↦ (ground (arith, h, outside), ground (arith, h, outside))
  ]

  period_within :
      (s e : Instant) (first last : Option Instant)
      → first ≡ some s
      → last ≡ some e
      → no_issue (period_issues dayjs first last) ≡ true
      → (5 ≤ minutes s e) × (minutes s e ≤ 10080)
  unfolding period_issues
  period_within s e none last a b h = cc a
  period_within s e (some i) none a b h = cc b
  period_within s e (some i) (some j) a b h =
      let start : i ≡ s = some-injective _ _ a in
      let finish : j ≡ e = some-injective _ _ b in
      within (minutes s e) (
        ap (λ x. no_issue (length_issues x))
          (sym (ap (λ x. minutes x j) start ∙ ap (minutes s) finish))
        ∙ h)

  units-filled : (s : String) → (s == "") ≡ false → 1 ≤ units s
  unfolding units
  units-filled String.[] h = cc h
  units-filled (String.◌∷◌ c s) h = ground arith

  -- A text of the form that is not blank is sent, within its bound.
  truthy-IsWithin : (most : ℕ) (s : String) → units s ≤ most → IsWithin 1 most (truthy (some s))
  truthy-IsWithin most s h = elim (Bool-cases (s == "")) [
    | inl blank ↦ rw (blank, IsWithin) tt
    | inr filled ↦ rw (filled, IsWithin) (units-filled s filled, h)
  ]

  -- A form that passes the checks sends texts within their bounds, those that may be left out where they are
  -- there, and a period of 5 minutes to 7 days wherever both its ends can be read. For dates that read what
  -- they write.
  pub to_booking_create-IsSoundBooking :
      ((i : Instant) → read (to_iso i) ≡ some i)
      → (v : BookingForm) → is_booking_form dayjs v ≡ true
      → IsSoundBooking (to_booking_create dayjs v)
  unfolding is_booking_form to_booking_create is_text
  to_booking_create-IsSoundBooking back v h =
      let (person, rest) = and-split _ _ h in
      let (name, times_too) = and-split (is_text 1 64 v.contact_name) _ person in
      let (phone, times) = and-split (is_text 0 32 v.contact_phone) _ times_too in
      let (starts, ends) = and-split _ _ times in
      let (places, last) = and-split _ _ rest in
      let (from, to) = and-split (is_text 1 200 v.origin) (is_text 1 200 v.destination) places in
      let (notes, period) =
        and-split (is_text 0 200 v.purpose && is_text 0 500 v.remark)
          (no_issue (period_issues dayjs (read v.reserve_start) (read v.reserve_end))) last in
      record {
        contact_name = (ground (arith, name), ground (arith, name));
        origin = (ground (arith, from), ground (arith, from));
        destination = (ground (arith, to), ground (arith, to));
        contact_phone = truthy-IsWithin 32 (trim v.contact_phone) (ground (arith, phone));
        purpose = truthy-IsWithin 200 (trim v.purpose) (ground (arith, notes));
        remark = truthy-IsWithin 500 (trim v.remark) (ground (arith, notes));
        in_time = λ s e rs re.
            period_within s e (read v.reserve_start) (read v.reserve_end)
              (sym (read-local dayjs back v.reserve_start (full_text v.reserve_start starts)) ∙ rs)
              (sym (read-local dayjs back v.reserve_end (full_text v.reserve_end ends)) ∙ re)
              period;
      }
