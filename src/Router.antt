-- ===== src/Router.antt =====
-- router/routes.tsx, router/guards.tsx and router/index.tsx: which screen a path shows. Titles,
-- descriptions and the lazily loaded components of the routes are not modelled. `encode` stands for
-- `encodeURIComponent`, and `redirect` for the parameter that `URLSearchParams` reads.
pub mod Laws
use zhiyuche.Common.{
  String, ◌<>◌, Bool, true, false, Option, none, some, List, [], ◌∷◌, ◌==◌, find?, if◌then◌else◌,
}
use zhiyuche.Common.Text.{starts_with}
use zhiyuche.Session.{Profile, AuthState, truthy}
use zhiyuche.Session.Permission.{one, can}

pub record AppRoute : Type 0 where
  pub path : String
  pub perm : String

abbrev route : String → String → AppRoute
route path perm = record { path = path; perm = perm }

unfoldable pub app_routes : List AppRoute
app_routes =
    route "/" "dashboard:view"
    ∷ route "/approval" "approval:view"
    ∷ route "/approval/rules" "approval:rule"
    ∷ route "/bookings" "booking:view"
    ∷ route "/trips" "trip:view"
    ∷ route "/charging" "charging:view"
    ∷ route "/reports" "report:view"
    ∷ route "/health" "health:view"
    ∷ route "/assets/vehicles" "asset:vehicle:view"
    ∷ route "/assets/devices" "asset:device:view"
    ∷ route "/assets/cards" "asset:card:view"
    ∷ route "/assets/piles" "asset:pile:view"
    ∷ route "/billing/rules" "billing:rule:view"
    ∷ route "/billing/accounts" "billing:account:view"
    ∷ route "/billing/settlements" "billing:settlement:view"
    ∷ route "/notifications" ""
    ∷ route "/me/account" ""
    ∷ route "/system/users" "system:user:view"
    ∷ route "/system/depts" "system:dept:view"
    ∷ route "/system/roles" "system:role:view"
    ∷ route "/system/permissions" "system:permission:view"
    ∷ route "/system/dicts" "system:dict:view"
    ∷ route "/system/params" "system:param:view"
    ∷ route "/system/templates" "system:template:view"
    ∷ route "/system/audit-logs" "system:audit:view"
    ∷ route "/system/tenants" "system:tenant:view"
    ∷ []

-- `findAppRoute`
unfoldable pub find_app_route : String → Option AppRoute
unfolding app_routes
find_app_route pathname = find? (λ r. r.path == pathname) app_routes

pub data Screen : Type 0 where
  navigate : String → Screen
  login : Screen
  profile_error : Screen
  profile_loading : Screen
  forbidden : Screen
  not_found : Screen
  page : AppRoute → Screen

-- Whether the background query for the profile has failed.
abbrev pub MeFailed : Type 0
MeFailed = Bool

unfoldable pub login_url : (String → String) → String → String → String
login_url encode pathname search =
    let target = pathname <> search in
    if target == ""
    then "/login"
    else (if target == "/" then "/login" else "/login?redirect=" <> encode target)

-- `RequireAuth`, with the screen of its outlet.
require_auth : (String → String) → AuthState → MeFailed → String → String → Screen → Screen
require_auth encode s failed pathname search outlet = elim (truthy s.access_token) [
  | none ↦ navigate (login_url encode pathname search)
  | some _ ↦ elim s.profile [
    | none ↦ if failed then profile_error else profile_loading
    | some _ ↦ outlet
  ]
]

-- `PermissionGuard`
permission_guard : Option Profile → String → Screen → Screen
permission_guard profile perm child = if can profile (one perm) then child else forbidden

landing : Option String → String
landing redirect = elim (truthy redirect) [
  | none ↦ "/"
  | some r ↦ if starts_with r "/" then r else "/"
]

-- `PublicOnly`
unfoldable pub public_only : AuthState → Option String → Screen → Screen
unfolding landing
public_only s redirect child = elim (truthy s.access_token) [
  | none ↦ child
  | some _ ↦ elim s.profile [ none ↦ child | some _ ↦ navigate (landing redirect) ]
]

-- The children of the layout: a declared route behind its guard, or else the wildcard.
layout_screen : AuthState → String → Screen
unfolding permission_guard
layout_screen s pathname =
    if pathname == "/403" then forbidden else (elim (find_app_route pathname) [
      | none ↦ not_found
      | some r ↦ permission_guard s.profile r.perm (page r)
    ])

-- The screen of a path: the login page in its guard, all else in `RequireAuth`.
unfoldable pub screen :
    (String → String) → AuthState → MeFailed → String → String → Option String → Screen
unfolding require_auth layout_screen public_only
screen encode s failed pathname search redirect =
    if pathname == "/login"
    then public_only s redirect login
    else require_auth encode s failed pathname search (layout_screen s pathname)
