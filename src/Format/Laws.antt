-- ===== src/Format/Laws.antt =====
-- Times that go from an input to the interface.
use mathlib.Core.Path.{subst}
use zhiyuche.Common.{
  String, true, false, some, leb, ◌==◌, eq_iff, ◌≡◌, inl, inr, Bool-cases, Option-cases,
}
use zhiyuche.Common.Dayjs.{Dayjs}
use zhiyuche.Common.Text.{units}
use zhiyuche.Format.{text_or, local_to_rfc3339}

pub full_text : (v : String) → leb 1 (units v) ≡ true → (v == "") ≡ false
unfolding units
full_text v h = elim (Bool-cases (v == "")) [
  | inl empty ↦
      let same : v ≡ "" = (eq_iff v "").0 empty in cc (subst (λ s. leb 1 (units s) ≡ true) same h)
  | inr full ↦ full
]

module _ (dayjs : Dayjs) where
  open dayjs use {Instant, read, to_iso}

  -- What is sent for a time is read as that time is.
  pub read-local :
      ((i : Instant) → read (to_iso i) ≡ some i)
      → (v : String) → (v == "") ≡ false
      → read (text_or v (local_to_rfc3339 dayjs (some v))) ≡ read v
  unfolding local_to_rfc3339
  read-local back v full = elim (Option-cases (read v)) [
    | inl unread ↦ rw full (rw unread unread)
    | inr (i, is) ↦ rw full (rw is (back i))
  ]
