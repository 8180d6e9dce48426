-- ===== src/Booking/Laws.antt =====
-- What the body of an update says, against the booking before and the form.
use zhiyuche.Common.{
  String, true, false, Option, none, some, ◌==◌, ◌≡◌, refl, sym, ap, Option-cases, inl, inr, arith,
  Bool-cases, if◌then◌else◌,
}
use zhiyuche.Common.Dayjs.{Dayjs}
use zhiyuche.Common.Text.{trim}
use zhiyuche.Format.{local_to_rfc3339, rfc3339_to_local}
use zhiyuche.Session.{truthy}
use zhiyuche.Forms.Laws.{
  replace, replace_link, replace-changed, replace-changed_link, changed_same, changed_link_same,
}
use zhiyuche.Forms.{or_blank}
use zhiyuche.Booking.{
  BookingSource, phone, direct, same_source, Booking, BookingForm, BookingUpdate, id_of,
  booking_to_form, same_instant, changed_time, to_booking_update,
}

-- What a booking says, with a blank for what it leaves out, and its times as ISO texts.
pub record Shown : Type 0 where
  pub source : BookingSource
  pub contact_name : String
  pub contact_phone : String
  pub passenger : String
  pub reserve_start : Option String
  pub reserve_end : Option String
  pub vehicle : String
  pub origin : String
  pub destination : String
  pub purpose : String
  pub remark : String

replace-source :
    (now before : BookingSource)
    → replace (if same_source now before then none else some now) before ≡ now
replace-source phone phone = refl
replace-source phone direct = refl
replace-source direct phone = refl
replace-source direct direct = refl

pub record IsTrimmed (b : Booking) : Type 0 where
  pub contact_name : trim b.contact_name ≡ b.contact_name
  pub contact_phone : trim (or_blank b.contact_phone) ≡ or_blank b.contact_phone
  pub origin : trim b.origin ≡ b.origin
  pub destination : trim b.destination ≡ b.destination
  pub purpose : trim (or_blank b.purpose) ≡ or_blank b.purpose
  pub remark : trim (or_blank b.remark) ≡ or_blank b.remark

abbrev pub no_update : BookingUpdate
no_update = record {
  source = none;
  contact_name = none;
  contact_phone = none;
  passenger_id = none;
  clear_passenger = false;
  reserve_start = none;
  reserve_end = none;
  vehicle_id = none;
  clear_vehicle = false;
  origin = none;
  destination = none;
  purpose = none;
  remark = none;
}

module _ (dayjs : Dayjs) where
  open dayjs use {Instant, read, to_iso, format, same}

  abbrev pub moment_or : Option String → Option Instant → Option String
  moment_or other none = other
  moment_or other (some i) = some (to_iso i)

  -- The moment that a text stands for.
  abbrev pub moment : String → Option String
  moment t = moment_or none (read t)

  -- The moment in an input of the form; one that is blank or cannot be read leaves the old moment.
  abbrev pub moment_in : String → String → Option String
  moment_in local before =
      if local == "" then moment before else moment_or (moment before) (read local)

  abbrev pub shown_before : Booking → Shown
  shown_before b = record {
    source = b.source;
    contact_name = b.contact_name;
    contact_phone = or_blank b.contact_phone;
    passenger = or_blank (id_of b.passenger);
    reserve_start = moment b.reserve_start;
    reserve_end = moment b.reserve_end;
    vehicle = or_blank b.vehicle;
    origin = b.origin;
    destination = b.destination;
    purpose = or_blank b.purpose;
    remark = or_blank b.remark;
  }

  abbrev pub shown_in : BookingForm → Booking → Shown
  shown_in v before = record {
    source = v.source;
    contact_name = trim v.contact_name;
    contact_phone = trim v.contact_phone;
    passenger = or_blank (id_of v.passenger);
    reserve_start = moment_in v.reserve_start before.reserve_start;
    reserve_end = moment_in v.reserve_end before.reserve_end;
    vehicle = v.vehicle_id;
    origin = trim v.origin;
    destination = trim v.destination;
    purpose = trim v.purpose;
    remark = trim v.remark;
  }

  abbrev pub replace_time : Option String → Option String → Option String
  replace_time none before = before
  replace_time (some t) before = moment t

  abbrev pub updated : BookingUpdate → Shown → Shown
  updated u s = record {
    source = replace u.source s.source;
    contact_name = replace u.contact_name s.contact_name;
    contact_phone = replace u.contact_phone s.contact_phone;
    passenger = replace_link u.passenger_id u.clear_passenger s.passenger;
    reserve_start = replace_time u.reserve_start s.reserve_start;
    reserve_end = replace_time u.reserve_end s.reserve_end;
    vehicle = replace_link u.vehicle_id u.clear_vehicle s.vehicle;
    origin = replace u.origin s.origin;
    destination = replace u.destination s.destination;
    purpose = replace u.purpose s.purpose;
    remark = replace u.remark s.remark;
  }

  module _ (read-to_iso : (i : Instant) → read (to_iso i) ≡ some i)
      (full_iso : (i : Instant) → (to_iso i == "") ≡ false)
      (same_iso : (i j : Instant) → same i j ≡ true → to_iso i ≡ to_iso j) where
    moment-to_iso : (i : Instant) → moment (to_iso i) ≡ some (to_iso i)
    moment-to_iso i = ap (moment_or none) (read-to_iso i)

    -- A moment that is sent, or not sent because it is the one before.
    sent_moment :
        (i : Instant) (before : String)
        → replace_time (changed_time dayjs (some (to_iso i)) before) (moment before)
          ≡ some (to_iso i)
    unfolding changed_time same_instant
    sent_moment i before = elim (Option-cases (read before)) [
      | inl unread ↦ rw (unread, read-to_iso i) (moment-to_iso i)
      | inr (j, reads) ↦ elim (Bool-cases (same i j)) [
        | inl is_same ↦
            rw (reads, read-to_iso i) (rw is_same (ap some (sym (same_iso i j is_same))))
        | inr other ↦ rw (reads, read-to_iso i) (rw other (moment-to_iso i))
      ]
    ]

    replace-changed_time :
        (local before : String)
        → replace_time
            (changed_time dayjs (truthy (local_to_rfc3339 dayjs (some local))) before)
            (moment before)
          ≡ moment_in local before
    unfolding local_to_rfc3339
    replace-changed_time local before = elim (Bool-cases (local == "")) [
      | inl blank ↦ rw blank (unfold changed_time in refl)
      | inr filled ↦ elim (Option-cases (read local)) [
        | inl unread ↦ rw filled (rw unread (unfold changed_time in refl))
        | inr (i, reads) ↦ rw filled (rw reads (rw (full_iso i) (sent_moment i before)))
      ]
    ]

    -- The update carried out on what the booking said gives what the form says, its texts trimmed and its
    -- times as moments: keys that changed are there, a passenger or a vehicle that was taken away is cleared,
    -- and an input of time that is blank or cannot be read leaves the time before. For dates that read what
    -- they write, write no blank, and write the same for what they call the same.
    pub updated-to_booking_update :
        (v : BookingForm) (before : Booking)
        → updated (to_booking_update dayjs v before) (shown_before before) ≡ shown_in v before
    unfolding to_booking_update
    updated-to_booking_update v before = ground (
      arith,
      replace-source v.source before.source,
      replace-changed (trim v.contact_name) before.contact_name,
      replace-changed (trim v.contact_phone) (or_blank before.contact_phone),
      replace-changed_link (or_blank (id_of v.passenger)) (or_blank (id_of before.passenger)),
      replace-changed_time v.reserve_start before.reserve_start,
      replace-changed_time v.reserve_end before.reserve_end,
      replace-changed_link v.vehicle_id (or_blank before.vehicle),
      replace-changed (trim v.origin) before.origin,
      replace-changed (trim v.destination) before.destination,
      replace-changed (trim v.purpose) (or_blank before.purpose),
      replace-changed (trim v.remark) (or_blank before.remark),
    )

  -- A time that the input of the form, which has no seconds, gives back as it was.
  abbrev pub IsWholeMinute : String → Type 0
  IsWholeMinute t =
      (i : Instant) × ((read t ≡ some i) × (read (format "YYYY-MM-DDTHH:mm" i) ≡ some i))

  module _ (read-to_iso : (i : Instant) → read (to_iso i) ≡ some i)
      (same_self : (i : Instant) → same i i ≡ true) where
    same_time :
        (t : String) (i : Instant) → read t ≡ some i → changed_time dayjs (some (to_iso i)) t ≡ none
    unfolding changed_time same_instant
    same_time t i reads = rw (read-to_iso i) (rw reads (rw (same_self i) refl))

    not_changed :
        (t : String) (i : Instant)
        → read t ≡ some i
        → changed_time dayjs (truthy (some (to_iso i))) t ≡ none
    unfolding changed_time
    not_changed t i reads = elim (Bool-cases (to_iso i == "")) [
      | inl blank ↦ rw blank refl
      | inr filled ↦ rw filled (same_time t i reads)
    ]

    from_local :
        (t local : String) (i : Instant)
        → read t ≡ some i
        → read local ≡ some i
        → changed_time dayjs (truthy (local_to_rfc3339 dayjs (some local))) t ≡ none
    unfolding local_to_rfc3339 changed_time
    from_local t local i reads back = elim (Bool-cases (local == "")) [
      | inl blank ↦ rw blank refl
      | inr filled ↦ rw filled (rw back (not_changed t i reads))
    ]

    time_unchanged :
        (t : String)
        → IsWholeMinute t
        → changed_time dayjs
            (truthy (local_to_rfc3339 dayjs (some (rfc3339_to_local dayjs (some t)))))
            t
          ≡ none
    unfolding rfc3339_to_local
    time_unchanged t (i, (reads, back)) = elim (Bool-cases (t == "")) [
      | inl blank ↦ rw blank (unfold local_to_rfc3339 changed_time in refl)
      | inr filled ↦ rw filled (rw reads (from_local t (format "YYYY-MM-DDTHH:mm" i) i reads back))
    ]

    same_source_self : (s : BookingSource) → same_source s s ≡ true
    same_source_self phone = refl
    same_source_self direct = refl

    -- A booking that is opened in the form and saved as it is gives an empty body, where its texts are
    -- trimmed and its times are whole minutes: for dates that read what they write.
    to_booking_update-booking_to_form :
        (b : Booking)
        → IsTrimmed b
        → IsWholeMinute b.reserve_start
        → IsWholeMinute b.reserve_end
        → to_booking_update dayjs (booking_to_form dayjs b) b ≡ no_update
    unfolding to_booking_update booking_to_form
    to_booking_update-booking_to_form b trimmed start end = ground (
      arith,
      same_source_self b.source,
      changed_same (trim b.contact_name) b.contact_name trimmed.contact_name,
      changed_same (trim (or_blank b.contact_phone)) (or_blank b.contact_phone)
          trimmed.contact_phone,
      changed_link_same (or_blank (id_of b.passenger)),
      changed_link_same (or_blank b.vehicle),
      time_unchanged b.reserve_start start,
      time_unchanged b.reserve_end end,
      changed_same (trim b.origin) b.origin trimmed.origin,
      changed_same (trim b.destination) b.destination trimmed.destination,
      changed_same (trim (or_blank b.purpose)) (or_blank b.purpose) trimmed.purpose,
      changed_same (trim (or_blank b.remark)) (or_blank b.remark) trimmed.remark,
    )
