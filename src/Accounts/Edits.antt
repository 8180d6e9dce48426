-- ===== src/Accounts/Edits.antt =====
-- pages/billing/accounts/AccountModals.tsx: the forms that recharge, adjust and edit an account, and the
-- amounts with a sign of pages/billing/style.ts. `abs` is that of `Math`, `locale` is `toLocaleString`.
use zhiyuche.Common.{
  ℕ, String, ◌<>◌, Bool, true, false, not, ◌&&◌, ◌||◌, Option, none, some, ◌==◌, ◌≡◌, ◌⊎◌, refl,
  sym, inl, inr, Bool-cases, if◌then◌else◌,
}
use zhiyuche.Common.Number.{Number}
use zhiyuche.Common.Text.{trim, is_text}
use zhiyuche.Session.{truthy}
use zhiyuche.Format.{format_money}
use zhiyuche.Forms.{is_some}
use zhiyuche.Forms.Laws.{replace}
use zhiyuche.Accounts.{MoneyForm, is_non_negative_money}

pub data AccountStatus : Type 0 where
  active : AccountStatus
  frozen : AccountStatus

abbrev same_account_status : AccountStatus → AccountStatus → Bool
same_account_status active active = true
same_account_status frozen frozen = true
same_account_status _ _ = false

pub data AdjustType : Type 0 where
  adjust : AdjustType
  refund : AdjustType

module _ (number : Number) where
  open number use {Carrier, of_ℕ, is_finite, parse, show, eqn, ltn}

  pub record RechargeBody : Type 0 where
    pub amount : Carrier
    pub remark : Option String

  -- The body of a recharge, of a form whose texts are trimmed by the schema.
  unfoldable pub recharge_body : MoneyForm number → RechargeBody
  recharge_body v = record {
    amount = parse (trim v.amount);
    remark = truthy (some (trim v.remark));
  }

  pub record AdjustForm : Type 0 where
    pub amount : String
    pub type : AdjustType
    pub remark : String

  -- `adjustSchema`
  unfoldable pub is_adjust_form : AdjustForm → Bool
  unfolding is_text
  is_adjust_form v =
      (not (trim v.amount == "")
        && (is_finite (parse (trim v.amount)) && not (eqn (parse (trim v.amount)) (of_ℕ 0))))
      && is_text 1 200 v.remark

  pub record AdjustBody : Type 0 where
    pub amount : Carrier
    pub type : AdjustType
    pub remark : String

  unfoldable pub adjust_body : AdjustForm → AdjustBody
  adjust_body v = record { amount = parse (trim v.amount); type = v.type; remark = trim v.remark }

  -- What the edit reads of an account.
  pub record Limits : Type 0 where
    pub credit_limit : Carrier
    pub monthly_budget : Carrier
    pub status : AccountStatus

  pub record EditForm : Type 0 where
    pub credit_limit : String
    pub monthly_budget : String
    pub is_frozen : Bool

  pub record EditBody : Type 0 where
    pub credit_limit : Option Carrier
    pub monthly_budget : Option Carrier
    pub status : Option AccountStatus

  -- The values that the form starts from.
  unfoldable pub edit_form : Limits → EditForm
  edit_form a = record {
    credit_limit = show a.credit_limit;
    monthly_budget = show a.monthly_budget;
    is_frozen = same_account_status a.status frozen;
  }

  -- `editSchema`
  unfoldable pub is_edit_form : EditForm → Bool
  unfolding is_non_negative_money
  is_edit_form v =
      is_non_negative_money number v.credit_limit && is_non_negative_money number v.monthly_budget

  unfoldable pub changed_amount : Carrier → Carrier → Option Carrier
  changed_amount now before = if eqn now before then none else some now

  unfoldable pub status_of : Bool → AccountStatus
  status_of is_frozen = if is_frozen then frozen else active

  unfoldable pub edit_body : EditForm → Limits → EditBody
  unfolding changed_amount status_of
  edit_body v before = record {
    credit_limit = changed_amount (parse (trim v.credit_limit)) before.credit_limit;
    monthly_budget = changed_amount (parse (trim v.monthly_budget)) before.monthly_budget;
    status =
        if same_account_status (status_of v.is_frozen) before.status
        then none
        else some (status_of v.is_frozen);
  }

  -- The save of an edit: no request where no key is there.
  unfoldable pub edit_request : EditForm → Limits → Option EditBody
  unfolding edit_body
  edit_request v before =
      let body = edit_body v before in
      if is_some body.credit_limit || (is_some body.monthly_budget || is_some body.status)
      then some body
      else none

  -- `formatSignedMoney`; NaN does not equal itself.
  unfoldable pub format_signed_money :
      (Carrier → Carrier) → (ℕ → Carrier → String) → Option Carrier → String
  unfolding format_money
  format_signed_money abs locale none = "—"
  format_signed_money abs locale (some value) =
      let text = format_money number locale (some (abs value)) in
      if not (eqn value value)
      then "—"
      else (if ltn (of_ℕ 0) value
          then "+" <> text
          else (if ltn value (of_ℕ 0) then "-" <> text else text))

  same_account_status-same : (a b : AccountStatus) → same_account_status a b ≡ true → a ≡ b
  same_account_status-same active active h = refl
  same_account_status-same frozen frozen h = refl
  same_account_status-same _ _ h = cc h

  -- An edit carried out: the amount that was typed, or one that equals it.
  replace-changed_amount :
      (now before : Carrier)
      → (replace (changed_amount now before) before ≡ now)
        ⊎ (eqn now (replace (changed_amount now before) before) ≡ true)
  unfolding changed_amount
  replace-changed_amount now before = elim (Bool-cases (eqn now before)) [
    | inl same ↦ inr (rw same same)
    | inr other ↦ inl (rw other refl)
  ]

  -- And the status that was chosen.
  edit_body-status :
      (v : EditForm) (before : Limits)
      → replace (edit_body v before).status before.status ≡ status_of v.is_frozen
  unfolding edit_body
  edit_body-status v before =
      elim (Bool-cases (same_account_status (status_of v.is_frozen) before.status)) [
        | inl same ↦
            rw same (sym (same_account_status-same (status_of v.is_frozen) before.status same))
        | inr other ↦ rw other refl
      ]
