-- ===== src/Router/Laws.antt =====
-- Who is shown what: pages behind their permission codes, and the way through the login page.
use mathlib.Core.Path.{subst}
use zhiyuche.Common.{
  String, Bool, true, Option, none, some, List, [], ◌∷◌, ◌==◌, find?, if◌then◌else◌, ◌≡◌, ◌≢◌, refl,
  sym, ◌⊎◌, inl, inr, eq_iff, arith, Bool-cases, Option-cases,
}
use zhiyuche.Common.Text.{starts_with}
use zhiyuche.Common.StringSet.{has}
use zhiyuche.Session.{Profile, AuthState, truthy}
use zhiyuche.Session.Permission.{one, can, codes_of, has_permission-any_iff, MayUse}
use zhiyuche.Router.{
  AppRoute, app_routes, find_app_route, Screen, navigate, page, login_url, require_auth,
  permission_guard, landing, public_only, layout_screen, screen,
}

find?-holds {ℓ} :
    {A : Type ℓ} (p : A → Bool) (xs : List A) (a : A) → find? p xs ≡ some a → p a ≡ true
find?-holds p [] a h = cc
find?-holds p (x ∷ xs) a h = ground (arith, find?-holds p xs a)

-- What a page that is shown has behind it.
pub record IsAdmitted (s : AuthState) (pathname : String) (r : AppRoute) : Type 0 where
  pub token : String
  pub logged_in : truthy s.access_token ≡ some token
  pub user : Profile
  pub loaded : s.profile ≡ some user
  pub at_path : r.path ≡ pathname
  pub permitted : (r.perm ≡ "") ⊎ MayUse (some user) r.perm

can-MayUse :
    (user : Profile) (perm : String)
    → can (some user) (one perm) ≡ true
    → (perm ≡ "") ⊎ MayUse (some user) perm
unfolding can codes_of has
can-MayUse user perm h = elim (Bool-cases (perm == "")) [
  | inl e ↦ inl ((eq_iff perm "").0 e)
  | inr e ↦ elim ((has_permission-any_iff (some user) (one perm)).0 h) [
    | inl nothing ↦ absurd (ground arith)
    | inr (c, asked, q) ↦
        inr (subst (MayUse (some user)) (sym ((eq_iff perm c).0 (ground arith))) q)
  ]
]

find_app_route-path :
    (pathname : String) (found : AppRoute)
    → find_app_route pathname ≡ some found
    → (found.path == pathname) ≡ true
unfolding find_app_route
find_app_route-path pathname found e = find?-holds (λ r. r.path == pathname) app_routes found e

module _ (encode : String → String) (s : AuthState) (failed : Bool) where
  layout-page :
      (user : Profile) (pathname : String) (r : AppRoute)
      → s.profile ≡ some user
      → layout_screen s pathname ≡ page r
      → (r.path ≡ pathname) × ((r.perm ≡ "") ⊎ MayUse (some user) r.perm)
  unfolding layout_screen permission_guard
  layout-page user pathname r loaded h = elim (Option-cases (find_app_route pathname)) [
    | inl missing ↦ absurd (ground arith)
    | inr (found, e) ↦
        let same : found ≡ r = ground arith in
        let allowed : can s.profile (one found.perm) ≡ true = ground arith in
        (
          (eq_iff r.path pathname).0 (
              subst (λ q. (q.path == pathname) ≡ true) same (find_app_route-path pathname found e)),
          can-MayUse user r.perm (
              subst (λ q. can (some user) (one q.perm) ≡ true) same
                (subst (λ q. can q (one found.perm) ≡ true) loaded allowed)),
        )
  ]

  -- A page is shown only to a user who is logged in and whose profile is loaded, at the page's own
  -- path, and only if the page asks for no permission code or the user may use the one it asks for.
  pub screen-IsAdmitted :
      (pathname search : String) (redirect : Option String) (r : AppRoute)
      → screen encode s failed pathname search redirect ≡ page r
      → IsAdmitted s pathname r
  unfolding screen require_auth public_only
  screen-IsAdmitted pathname search redirect r h = elim (Bool-cases (pathname == "/login")) [
    | inl at_login ↦ absurd (ground arith)
    | inr elsewhere ↦ elim (Option-cases (truthy s.access_token)) [
      | inl no_token ↦ absurd (ground arith)
      | inr (token, logged_in) ↦ elim (Option-cases s.profile) [
        | inl no_profile ↦ absurd (ground arith)
        | inr (user, loaded) ↦
            let shown = layout-page user pathname r loaded (ground arith) in
            record {
              token = token;
              logged_in = logged_in;
              user = user;
              loaded = loaded;
              at_path = shown.0;
              permitted = shown.1;
            }
      ]
    ]
  ]

  -- Without a token every path but the login page's sends the browser to the login page.
  screen_logged_out :
      (pathname search : String) (redirect : Option String)
      → truthy s.access_token ≡ none
      → pathname ≢ "/login"
      → screen encode s failed pathname search redirect
        ≡ navigate (login_url encode pathname search)
  unfolding screen require_auth
  screen_logged_out pathname search redirect h k = ground (arith, eq_iff pathname "/login")

landing-some :
    (r : String)
    → landing (some r) ≡ (if r == "" then "/" else (if starts_with r "/" then r else "/"))
unfolding landing
landing-some r = ground arith

slash-starts_with : starts_with "/" "/" ≡ true
unfolding starts_with
slash-starts_with = refl

landing-starts_with : (redirect : Option String) → starts_with (landing redirect) "/" ≡ true
landing-starts_with none = unfold landing in slash-starts_with
landing-starts_with (some r) = elim (Bool-cases (r == "")) [
  | inl e ↦ rw (landing-some, e) slash-starts_with
  | inr e ↦ elim (Bool-cases (starts_with r "/")) [
    | inl inside ↦ rw (landing-some, e, inside) inside
    | inr outside ↦ rw (landing-some, e, outside) slash-starts_with
  ]
]

public_only-landing :
    (s : AuthState) (redirect : Option String) (child : Screen) (target : String)
    → child ≢ navigate target
    → public_only s redirect child ≡ navigate target
    → landing redirect ≡ target
unfolding public_only
public_only-landing s redirect child target k h = ground arith

-- A logged in visitor of the login page is only ever sent to an address that begins with a slash.
public_only-starts_with :
    (s : AuthState) (redirect : Option String) (child : Screen) (target : String)
    → child ≢ navigate target
    → public_only s redirect child ≡ navigate target
    → starts_with target "/" ≡ true
unfolding public_only
public_only-starts_with s redirect child target k h =
    subst (λ t. starts_with t "/" ≡ true) (public_only-landing s redirect child target k h)
      (landing-starts_with redirect)
