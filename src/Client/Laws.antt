-- ===== src/Client/Laws.antt =====
-- Which headers a request gets, and which bodies reach the caller.
use zhiyuche.Common.{String, true, false, none, some, ◌≡◌, ◌↔◌, arith}
use zhiyuche.Common.Text.{starts_with}
use zhiyuche.Session.{AuthState, truthy, get_view_tenant_id, is_super}
use zhiyuche.Client.{Config, attach, or_empty}

-- When a request names the tenant that is looked at.
abbrev pub NamesTenant : AuthState → Config → String → Type 0
NamesTenant s c id =
    (is_super s.profile ≡ true)
    × (truthy s.view_tenant_id ≡ some id)
    × (c.skip_auth ≡ false)
    × (c.skip_tenant_header ≡ false)
    × (starts_with (or_empty c.url) "/auth" ≡ false)

-- A request that comes without a tenant header is sent with one exactly when a super administrator
-- looks at a tenant, the request skips neither the authorization nor the header, and its address is
-- not one of `/auth`.
pub attach-tenant_iff :
    (s : AuthState) (c : Config) (id : String)
    → c.tenant ≡ none
    → ((attach s c).tenant ≡ some id) ↔ NamesTenant s c id
unfolding attach get_view_tenant_id
attach-tenant_iff s c id h = (λ e. ground arith, λ n. ground arith)

-- A request that skips the authorization is sent as it is.
pub attach_skip_auth : (s : AuthState) (c : Config) → c.skip_auth ≡ true → attach s c ≡ c
unfolding attach
attach_skip_auth s c h = ground arith
