-- ===== src/Session/Laws.antt =====
-- What holds of the session store over every history of its actions.
use mathlib.Core.Option
use zhiyuche.Common.{Bool, true, false, none, List, [], ◌∷◌, ◌≡◌, refl, ◌↔◌, arith}
use zhiyuche.Session.{
  TokenPair, Profile, AuthState, empty, get_view_tenant_id, Action, log_in, refresh, reload, view,
  log_out, act, run,
}

-- The three parts of the tokens are there together, and the tenant that is looked at is the one shown.
pub record IsConsistent (s : AuthState) : Type 0 where
  pub refresh_with_access : (s.refresh_token ≡ none) ↔ (s.access_token ≡ none)
  pub expiry_with_access : (s.expires_at ≡ none) ↔ (s.access_token ≡ none)
  pub view_shown : s.view_tenant_id ≡ Option.map (λ t. t.id) s.view_tenant

act-IsConsistent : (s : AuthState) (a : Action) → IsConsistent s → IsConsistent (act s a)
unfolding act
act-IsConsistent s (log_in tokens p) h = record {
  refresh_with_access = (λ e. cc, λ e. cc);
  expiry_with_access = (λ e. cc, λ e. cc);
  view_shown = refl;
}
act-IsConsistent s (refresh tokens) h = record {
  refresh_with_access = (λ e. cc, λ e. cc);
  expiry_with_access = (λ e. cc, λ e. cc);
  view_shown = h.view_shown;
}
act-IsConsistent s (reload p) h = record {
  refresh_with_access = h.refresh_with_access;
  expiry_with_access = h.expiry_with_access;
  view_shown = h.view_shown;
}
act-IsConsistent s (view tenant) h = record {
  refresh_with_access = h.refresh_with_access;
  expiry_with_access = h.expiry_with_access;
  view_shown = refl;
}
act-IsConsistent s log_out h = record {
  refresh_with_access = (λ e. refl, λ e. refl);
  expiry_with_access = (λ e. refl, λ e. refl);
  view_shown = refl;
}

run_from-IsConsistent :
    (s : AuthState) (history : List Action) → IsConsistent s → IsConsistent (run s history)
unfolding run
run_from-IsConsistent s [] h = h
run_from-IsConsistent s (a ∷ history) h =
    run_from-IsConsistent (act s a) history (act-IsConsistent s a h)

-- In every history of the store's actions the access token, the refresh token and the expiry are all
-- set or all null, and the id of the tenant looked at is that of the tenant shown.
pub run-IsConsistent : (history : List Action) → IsConsistent (run empty history)
run-IsConsistent history = run_from-IsConsistent empty history (record {
  refresh_with_access = (λ e. refl, λ e. refl);
  expiry_with_access = (λ e. refl, λ e. refl);
  view_shown = refl;
})

abbrev pub is_view : Action → Bool
is_view (view _) = true
is_view _ = false

abbrev pub no_view : List Action → Bool
no_view [] = true
no_view (view _ ∷ history) = false
no_view (_ ∷ history) = no_view history

run-view_none :
    (s : AuthState) (history : List Action)
    → s.view_tenant_id ≡ none
    → no_view history ≡ true
    → (run s history).view_tenant_id ≡ none
unfolding run act
run-view_none s [] e h = e
run-view_none s (log_in tokens p ∷ history) e h = run-view_none _ history refl h
run-view_none s (refresh tokens ∷ history) e h = run-view_none _ history e h
run-view_none s (reload p ∷ history) e h = run-view_none _ history e h
run-view_none s (view t ∷ history) e h = cc
run-view_none s (log_out ∷ history) e h = run-view_none _ history refl h

-- After a login, whatever tenant was looked at before, requests name no tenant until one is chosen.
log_in-get_view_tenant_id :
    (before after : List Action) (tokens : TokenPair) (p : Profile)
    → no_view after ≡ true
    → get_view_tenant_id (run (act (run empty before) (log_in tokens p)) after) ≡ none
unfolding act get_view_tenant_id
log_in-get_view_tenant_id before after tokens p h =
    ground (arith, run-view_none (act (run empty before) (log_in tokens p)) after refl h)
