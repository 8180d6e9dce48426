-- ===== src/Session.antt =====
-- store/auth.ts: the tokens, the user's profile and the tenant that a super administrator looks at.
-- Of a profile, the fields that the client's own code reads are kept. `persist` saves the six data
-- fields, which are all that a state here has.
pub mod Permission
pub mod Laws
use zhiyuche.Common.{String, Bool, true, false, Option, none, some, List, ◌==◌, if◌then◌else◌}
use mathlib.Core.Option

pub record TokenPair : Type 0 where
  pub access_token : String
  pub refresh_token : String
  pub expires_at : String

pub record TenantBrief : Type 0 where
  pub id : String
  pub code : String
  pub name : String

pub record Profile : Type 0 where
  pub id : String
  pub username : String
  pub name : String
  pub is_super : Bool
  pub tenant : TenantBrief
  pub permissions : List String

pub record AuthState : Type 0 where
  pub access_token : Option String
  pub refresh_token : Option String
  pub expires_at : Option String
  pub profile : Option Profile
  pub view_tenant_id : Option String
  pub view_tenant : Option TenantBrief

abbrev pub empty : AuthState
empty = record {
  access_token = none;
  refresh_token = none;
  expires_at = none;
  profile = none;
  view_tenant_id = none;
  view_tenant = none;
}

unfoldable pub set_session : TokenPair → Profile → AuthState → AuthState
set_session tokens p s = record {
  access_token = some tokens.access_token;
  refresh_token = some tokens.refresh_token;
  expires_at = some tokens.expires_at;
  profile = some p;
  view_tenant_id = none;
  view_tenant = none;
}

unfoldable pub set_tokens : TokenPair → AuthState → AuthState
set_tokens tokens s = record s {
  access_token = some tokens.access_token;
  refresh_token = some tokens.refresh_token;
  expires_at = some tokens.expires_at;
}

unfoldable pub set_profile : Profile → AuthState → AuthState
set_profile p s = record s { profile = some p }

unfoldable pub set_view_tenant : Option TenantBrief → AuthState → AuthState
set_view_tenant tenant s = record s {
  view_tenant_id = Option.map (λ t. t.id) tenant;
  view_tenant = tenant;
}

unfoldable pub clear : AuthState → AuthState
clear s = empty

-- A text that is neither null nor empty, as a condition reads it.
abbrev pub truthy : Option String → Option String
truthy none = none
truthy (some s) = if s == "" then none else some s

abbrev pub is_super : Option Profile → Bool
is_super none = false
is_super (some p) = p.is_super

unfoldable pub get_access_token : AuthState → Option String
get_access_token s = s.access_token

unfoldable pub get_view_tenant_id : AuthState → Option String
get_view_tenant_id s = if is_super s.profile then s.view_tenant_id else none

-- The actions of the store, for histories.
pub data Action : Type 0 where
  log_in : TokenPair → Profile → Action
  refresh : TokenPair → Action
  reload : Profile → Action
  view : Option TenantBrief → Action
  log_out : Action

unfoldable pub act : AuthState → Action → AuthState
unfolding set_session set_tokens set_profile set_view_tenant clear
act s (log_in tokens p) = set_session tokens p s
act s (refresh tokens) = set_tokens tokens s
act s (reload p) = set_profile p s
act s (view tenant) = set_view_tenant tenant s
act s log_out = clear s

unfoldable pub run : AuthState → List Action → AuthState
run s List.[] = s
run s (List.◌∷◌ a as') = run (act s a) as'
