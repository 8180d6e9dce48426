-- ===== src/Tests/Sessions.antt =====
-- Users who log in, look at tenants and visit pages.
use zhiyuche.Common.{ℕ, zero, suc, String, false, Option, none, some, List, [], ◌∷◌, ◌≡◌, refl}
use zhiyuche.Common.StringSet.{has, add, add_all, of_list}
use zhiyuche.Common.Text.{starts_with}
use zhiyuche.Session.{
  TokenPair, TenantBrief, Profile, AuthState, empty, Action, log_in, view, act, run, set_session,
  get_view_tenant_id,
}
use zhiyuche.Session.Permission.{codes_of, has_permission, can}
use zhiyuche.Session.Laws.{IsConsistent, run-IsConsistent}
use zhiyuche.Router.{
  AppRoute, find_app_route, navigate, login, page, login_url, public_only, screen,
}
use zhiyuche.Router.Laws.{IsAdmitted, screen-IsAdmitted}

sessions : Unit {0}
unfolding has add add_all of_list starts_with act run set_session get_view_tenant_id codes_of
    has_permission can find_app_route login_url public_only screen
sessions = tt

abbrev tokens : TokenPair
tokens = record { access_token = "a1"; refresh_token = "r1"; expires_at = "2026-01-01T00:00:00Z" }

abbrev acme : TenantBrief
acme = record { id = "t1"; code = "acme"; name = "Acme" }

abbrev driver : Profile
driver = record {
  id = "u1";
  username = "wang";
  name = "Wang";
  is_super = false;
  tenant = acme;
  permissions = "trip:view" ∷ "booking:view" ∷ [];
}

abbrev history : List Action
history = view (some acme) ∷ log_in tokens driver ∷ []

abbrev logged_in : AuthState
logged_in = record {
  access_token = some "a1";
  refresh_token = some "r1";
  expires_at = some "2026-01-01T00:00:00Z";
  profile = some driver;
  view_tenant_id = none;
  view_tenant = none;
}

ran : run empty history ≡ logged_in
unfolding sessions
ran = refl

run-IsConsistent_example : IsConsistent (run empty history)
run-IsConsistent_example = run-IsConsistent history

abbrev trips : AppRoute
trips = record { path = "/trips"; perm = "trip:view" }

on_trips : screen (λ t. t) logged_in false "/trips" "" none ≡ page trips
unfolding sessions
on_trips = refl

screen-IsAdmitted_example : IsAdmitted logged_in "/trips" trips
screen-IsAdmitted_example =
    screen-IsAdmitted (λ t. t) logged_in false "/trips" "" none trips on_trips

login_sends_on : public_only logged_in (some "/trips?id=3") login ≡ navigate "/trips?id=3"
unfolding sessions
login_sends_on = refl

-- A codec that leaves texts as they are, and the lookup that goes with it.
drop_text : ℕ → String → String
drop_text zero s = s
drop_text (suc n) String.[] = ""
drop_text (suc n) (String.◌∷◌ c s) = drop_text n s

size : String → ℕ
size String.[] = 0
size (String.◌∷◌ c s) = suc (size s)

after_question : String → Option String
after_question String.[] = none
after_question (String.◌∷◌ c s) = some (drop_text 9 s)
