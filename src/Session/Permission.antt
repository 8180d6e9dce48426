-- ===== src/Session/Permission.antt =====
-- auth/permission.ts and hooks/usePermission.ts.
use zhiyuche.Common.{
  String, Bool, true, false, Option, none, some, List, [], ◌∷◌, ◌==◌, all, any, if◌then◌else◌, ◌≡◌,
  refl, sym, ◌∙◌, Bool-cases, eq_refl, ◌↔◌, ◌⊎◌, inl, inr, arith,
}
use zhiyuche.Common.StringSet.{
  has, of_list, has-of_list, has_of_all, has_of_any, any_of_has, all_of_has,
}
use zhiyuche.Session.{Profile}

pub data PermissionInput : Type 0 where
  one : String → PermissionInput
  many : List String → PermissionInput

pub data PermissionMode : Type 0 where
  any_of all_of : PermissionMode

unfoldable pub codes_of : PermissionInput → List String
codes_of (one perm) = if perm == "" then [] else perm ∷ []
codes_of (many perms) = perms

-- `codes` is not empty here.
owns : PermissionMode → Profile → List String → Bool
owns all_of p codes = all (has (of_list p.permissions)) codes
owns any_of p codes = any (has (of_list p.permissions)) codes

grants : Option Profile → PermissionMode → List String → Bool
unfolding owns
grants profile mode [] = true
grants none mode (c ∷ cs) = false
grants (some p) mode (c ∷ cs) = if p.is_super then true else owns mode p (c ∷ cs)

unfoldable pub has_permission : Option Profile → PermissionInput → PermissionMode → Bool
unfolding grants
has_permission profile perm mode = grants profile mode (codes_of perm)

-- `usePermission`
unfoldable pub can : Option Profile → PermissionInput → Bool
unfolding has_permission
can profile perm = has_permission profile perm any_of

unfoldable pub can_all : Option Profile → List String → Bool
unfolding has_permission
can_all profile perms = has_permission profile (many perms) all_of

-- What a profile may do, without the code's early returns: a super administrator everything, any
-- other user what the listed permissions grant.
abbrev pub MayUse : Option Profile → String → Type 0
MayUse none c = ⊥
MayUse (some p) c = (p.is_super ≡ true) ⊎ (has p.permissions c ≡ true)

not-has-nil : (c : String) → ¬ (has [] c ≡ true)
unfolding has
not-has-nil c h = cc

has_head : (c : String) (cs : List String) → has (c ∷ cs) c ≡ true
unfolding has
has_head c cs = rw (eq_refl c)

-- The conditions on one profile and a list of codes that is not empty.
module _ (p : Profile) (c : String) (cs : List String) where
  grants-any_sound :
      grants (some p) any_of (c ∷ cs) ≡ true
      → (c ∷ cs ≡ []) ⊎ ((j : String) × (has (c ∷ cs) j ≡ true) × MayUse (some p) j)
  unfolding grants
  grants-any_sound h = elim (Bool-cases p.is_super) [
    | inl super ↦ inr (c, has_head c cs, inl super)
    | inr plain ↦
        let (j, e, q) = has_of_any (has (of_list p.permissions)) (c ∷ cs) (ground arith) in
        inr (j, e, inr (sym (has-of_list p.permissions j) ∙ q))
  ]

  grants-any_complete :
      (c ∷ cs ≡ []) ⊎ ((j : String) × (has (c ∷ cs) j ≡ true) × MayUse (some p) j)
      → grants (some p) any_of (c ∷ cs) ≡ true
  unfolding grants
  grants-any_complete (inl h) = cc
  grants-any_complete (inr (j, e, inl super)) = rw super
  grants-any_complete (inr (j, e, inr owned)) = ground (
    arith,
    any_of_has (has (of_list p.permissions)) (c ∷ cs) j e (has-of_list p.permissions j ∙ owned),
  )

  grants-all_sound :
      grants (some p) all_of (c ∷ cs) ≡ true
      → (j : String) → has (c ∷ cs) j ≡ true
      → MayUse (some p) j
  unfolding grants
  grants-all_sound h j e = elim (Bool-cases p.is_super) [
    | inl super ↦ inl super
    | inr plain ↦ inr (
        sym (has-of_list p.permissions j)
        ∙ has_of_all (has (of_list p.permissions)) (c ∷ cs) j (ground arith) e)
  ]

  grants-all_complete :
      ((j : String) → has (c ∷ cs) j ≡ true → MayUse (some p) j)
      → grants (some p) all_of (c ∷ cs) ≡ true
  unfolding grants
  grants-all_complete h = elim (Bool-cases p.is_super) [
    | inl super ↦ rw super
    | inr plain ↦ rw plain (
        all_of_has (has (of_list p.permissions)) (c ∷ cs)
          λ j e. ground (arith, h j e, has-of_list p.permissions j))
  ]

-- With mode 'any' a permission is given exactly when nothing is asked for or some code asked for may
-- be used.
pub has_permission-any_iff :
    (profile : Option Profile) (perm : PermissionInput)
    → (has_permission profile perm any_of ≡ true)
      ↔ ((codes_of perm ≡ []) ⊎ ((c : String) × (has (codes_of perm) c ≡ true) × MayUse profile c))
unfolding has_permission
has_permission-any_iff profile perm = go profile (codes_of perm)
  where
    go :
        (q : Option Profile) (cs : List String)
        → (grants q any_of cs ≡ true)
          ↔ ((cs ≡ []) ⊎ ((c : String) × (has cs c ≡ true) × MayUse q c))
    go q [] = (λ _. inl refl, λ _. refl)
    go none (c ∷ cs) = (λ h. cc, λ h. ground arith)
    go (some p) (c ∷ cs) = (grants-any_sound p c cs, grants-any_complete p c cs)

-- With mode 'all' a permission is given exactly when every code asked for may be used.
has_permission-all_iff :
    (profile : Option Profile) (perm : PermissionInput)
    → (has_permission profile perm all_of ≡ true)
      ↔ ((c : String) → has (codes_of perm) c ≡ true → MayUse profile c)
unfolding has_permission
has_permission-all_iff profile perm = go profile (codes_of perm)
  where
    go :
        (q : Option Profile) (cs : List String)
        → (grants q all_of cs ≡ true) ↔ ((c : String) → has cs c ≡ true → MayUse q c)
    go q [] = (λ _ c h. absurd (not-has-nil c h), λ _. refl)
    go none (c ∷ cs) = (λ h. cc, λ h. absurd (h c (has_head c cs)))
    go (some p) (c ∷ cs) = (grants-all_sound p c cs, grants-all_complete p c cs)
