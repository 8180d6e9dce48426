-- ===== src/Approval/Laws.antt =====
-- What a request that passes the checks sends.
use zhiyuche.Common.{
  ◌≤◌, String, true, false, Option, none, some, some-injective, List, [], ◌∷◌, length, map, ◌==◌,
  leb, ◌≡◌, sym, ◌∙◌, ap, inl, inr, arith, Bool-cases, and-split, All, All-map,
}
use zhiyuche.Common.Dayjs.{Dayjs}
use zhiyuche.Common.Number.{Number}
use zhiyuche.Common.Text.{trim, units, is_text}
use zhiyuche.Format.Laws.{read-local, full_text}
use zhiyuche.Approval.{
  Attachment, is_url, is_attachment, if_any, ApprovalForm, ApprovalCreate, trimmed, is_distance,
  km_of, in_order, is_approval_form, to_approval_create,
}

pub record IsSoundAttachment (f : Attachment) : Type 0 where
  pub named : 1 ≤ units f.name
  pub bounded : units f.name ≤ 100
  pub address : is_url f.url ≡ true

trimmed-IsSoundAttachment :
    (f : Attachment) → is_attachment f ≡ true → IsSoundAttachment (trimmed f)
unfolding is_attachment is_text
trimmed-IsSoundAttachment f h = record {
  named = ground (arith, h);
  bounded = ground (arith, h);
  address = ground (arith, h);
}

-- What holds of every list that is sent.
abbrev pub Sent {ℓ κ} : {A : Type ℓ} → (A → Type κ) → Option (List A) → Type κ
Sent P none = Unit
Sent P (some xs) = (1 ≤ length xs) × All P xs

Sent-if_any {ℓ κ} : {A : Type ℓ} (P : A → Type κ) (xs : List A) → All P xs → Sent P (if_any xs)
unfolding if_any
Sent-if_any P [] h = tt
Sent-if_any P (x ∷ xs) h = (omega arith, h)

module _ (number : Number) where
  open number use {Carrier, of_ℕ, is_finite, ltn, parse}

  -- A distance that is sent is finite and not below 0.
  abbrev pub IsDistance : Option Carrier → Type 0
  IsDistance none = Unit
  IsDistance (some n) = (is_finite n ≡ true) × (ltn n (of_ℕ 0) ≡ false)

  km_of-IsDistance :
      ((v : String) → parse (trim v) ≡ parse v)
      → (v : String) → is_distance number v ≡ true
      → IsDistance (km_of number v)
  unfolding is_distance km_of
  km_of-IsDistance same v h = elim (Bool-cases (trim v == "")) [
    | inl blank ↦ rw blank tt
    | inr given ↦ rw given (ground (arith, h, same v, given), ground (arith, h, same v, given))
  ]

  module _ (dayjs : Dayjs) where
    open dayjs use {Instant, read, to_iso, is_after}

    pub record IsSoundRequest (Route : Type 0) (b : ApprovalCreate number Route) : Type 0 where
      pub purpose_coded : 1 ≤ units b.purpose_code
      pub purpose_told : (2 ≤ units b.purpose_detail) × (units b.purpose_detail ≤ 500)
      pub destination : (1 ≤ units b.destination) × (units b.destination ≤ 200)
      pub planned_km : IsDistance b.planned_km
      pub attachments : Sent IsSoundAttachment b.attachments
      pub in_time :
          (s e : Instant)
          → read b.planned_start ≡ some s
          → read b.planned_end ≡ some e
          → is_after e s ≡ true

    ordered :
        (s e : Instant) (first last : Option Instant)
        → first ≡ some s
        → last ≡ some e
        → in_order number dayjs first last ≡ true
        → is_after e s ≡ true
    unfolding in_order
    ordered s e none last a b h = cc a
    ordered s e (some i) none a b h = cc b
    ordered s e (some i) (some j) a b h =
        ap (λ x. is_after x s) (sym (some-injective _ _ b))
        ∙ (ap (is_after j) (sym (some-injective _ _ a)) ∙ h)

    -- A form that passes the checks sends a purpose, a destination, a distance and attachments within
    -- their bounds, and a time that ends after it starts wherever both can be read. For dates that read
    -- what they write, and numbers that are read from a text as from the trimmed text.
    pub to_approval_create-IsSoundRequest :
        ((i : Instant) → read (to_iso i) ≡ some i)
        → ((v : String) → parse (trim v) ≡ parse v)
        → {Route : Type 0} (v : ApprovalForm number) (route : Option Route)
        → is_approval_form number dayjs v ≡ true
        → IsSoundRequest Route (to_approval_create number dayjs v route)
    unfolding is_approval_form to_approval_create is_text
    to_approval_create-IsSoundRequest back same {Route} v route h =
        let (texts, rest) = and-split _ _ h in
        let (code, told_and_times) = and-split (leb 1 (units v.purpose_code)) _ texts in
        let (told, times) = and-split (is_text 2 500 v.purpose_detail) _ told_and_times in
        let (starts, ends) = and-split _ _ times in
        let (place_and_km, last) = and-split _ _ rest in
        let (place, km) = and-split (is_text 1 200 v.destination) _ place_and_km in
        let (files, order) = and-split _ _ last in
        record {
          purpose_coded = ground (arith, code);
          purpose_told = (ground (arith, told), ground (arith, told));
          destination = (ground (arith, place), ground (arith, place));
          planned_km = km_of-IsDistance same v.planned_km km;
          attachments = Sent-if_any IsSoundAttachment (map trimmed v.attachments) (
              All-map IsSoundAttachment trimmed is_attachment trimmed-IsSoundAttachment
                v.attachments files);
          in_time = λ s e rs re.
              ordered s e (read v.planned_start) (read v.planned_end)
                (sym (read-local dayjs back v.planned_start (full_text v.planned_start starts))
                  ∙ rs)
                (sym (read-local dayjs back v.planned_end (full_text v.planned_end ends)) ∙ re)
                order;
        }
