-- ===== src/Forms/Laws.antt =====
-- What an update that holds the keys that changed does to what was there.
use zhiyuche.Common.{
  String, Bool, true, false, Option, none, some, ◌==◌, eq_iff, eq_refl, ◌≡◌, ◌⊎◌, refl, inl, inr,
  arith, if◌then◌else◌, Bool-cases,
}
use zhiyuche.Common.Number.{Number}
use zhiyuche.Forms.{or_blank}
use zhiyuche.Forms.{changed, changed_link, changed_dept, changed_some, changed_number}

-- A key of an update replaces, a key that is not there keeps, and a flag clears.
abbrev pub replace {ℓ} : {A : Type ℓ} → Option A → A → A
replace none before = before
replace (some now) before = now

abbrev pub replace_link : Option String → Bool → String → String
replace_link now clear before = if clear then "" else replace now before

pub replace-changed : (now before : String) → replace (changed now before) before ≡ now
unfolding changed
replace-changed now before = ground (arith, eq_iff now before)

pub replace-changed_link :
    (now before : String)
    → replace_link (changed_link now before).0 (changed_link now before).1 before ≡ now
unfolding changed_link
replace-changed_link now before = ground (arith, eq_iff now before, eq_iff now "")

pub replace-changed_some :
    (now before : String)
    → replace (changed_some now before) before ≡ (if now == "" then before else now)
unfolding changed_some changed
replace-changed_some now before = ground (arith, eq_iff now before)

pub changed_same : (now before : String) → now ≡ before → changed now before ≡ none
unfolding changed
changed_same now before e = ground (arith, eq_iff now before)

pub changed_some_same : (s : String) → changed_some s s ≡ none
unfolding changed_some changed
changed_some_same s = ground (arith, eq_refl s)

pub changed_link_same : (s : String) → changed_link s s ≡ (none, false)
unfolding changed_link
changed_link_same s = ground (arith, eq_refl s)

pub replace-changed_dept :
    (now before : Option String)
    → replace_link (changed_dept now before).0 (changed_dept now before).1 (or_blank before)
      ≡ or_blank now
unfolding changed_dept
replace-changed_dept none none = refl
replace-changed_dept none (some before) = refl
replace-changed_dept (some now) none = ground (arith, eq_iff now "")
replace-changed_dept (some now) (some before) = replace-changed_link now before

pub changed_dept_same : (d : Option String) → changed_dept d d ≡ (none, false)
unfolding changed_dept
changed_dept_same none = refl
changed_dept_same (some d) = changed_link_same d

module _ (number : Number) where
  open number use {Carrier, eqn}

  abbrev pub given_or : Carrier → Option Carrier → Carrier
  given_or before none = before
  given_or before (some now) = now

  -- The number that was given, or one that equals it.
  pub replace-changed_number :
      (now : Option Carrier) (before : Carrier)
      → (replace (changed_number number now before) before ≡ given_or before now)
        ⊎ (eqn (given_or before now) (replace (changed_number number now before) before) ≡ true)
  unfolding changed_number
  replace-changed_number none before = inl refl
  replace-changed_number (some now) before = elim (Bool-cases (eqn now before)) [
    | inl same ↦ inr (rw same same)
    | inr other ↦ inl (rw other refl)
  ]
