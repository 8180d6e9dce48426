-- ===== src/Client/Requests.antt =====
-- api/client.ts: a request with its retry after a refresh of the tokens, for one caller. A request
-- can start others, so the recursion is on fuel; two levels are enough. `send` is axios with the
-- server, over the state `World`, and `read_pair` how a body is taken for a pair of tokens, `none`
-- where that throws.
mod Finish
pub mod Retry
use zhiyuche.Common.{
  ℕ, zero, suc, String, Bool, not, ◌&&◌, Option, none, some, ◌==◌, eqb, if◌then◌else◌,
}
use zhiyuche.Common.Number.{Number}
use zhiyuche.Session.{TokenPair, AuthState, truthy, set_tokens, clear}
use zhiyuche.Client.{
  Config, attach, refresh_request, replay, Body, undefined, Reply, answer, failure, thrown, Outcome,
  resolved, rejected, other, unwrap, as_api_error,
}

-- What the client stands on: axios with the server, and the language.
pub record Server : Type 1 where
  pub number : Number
  pub World : Type 0
  pub show_ℕ : ℕ → String
  pub send : World → Config → Reply number × World
  pub read_pair : Body number → Option TokenPair

pub record State (W : Type 0) : Type 0 where
  pub auth : AuthState
  pub world : W

abbrev pub is_retryable : Config → ℕ → Bool
is_retryable c status = eqb status 401 && not c.skip_auth_refresh && not c.retried

module _ (server : Server) where
  open server use {number, World, show_ℕ, send, read_pair}

  -- `none` means that the fuel ran out.
  abbrev pub Run : Type 0
  Run = Option (Outcome number × State World)

  abbrev pub Requester : Type 0
  Requester = Config → State World → Run

  -- The end of `doRefresh`: the tokens are stored, or the session is cleared.
  store_pair : State World → Option TokenPair → Option String × State World
  store_pair s none = (none, record s { auth = clear s.auth })
  store_pair s (some pair) = (some pair.access_token, record s { auth = set_tokens pair s.auth })

  refreshed : Outcome number → State World → Option String × State World
  unfolding store_pair
  refreshed (rejected _) s = (none, record s { auth = clear s.auth })
  refreshed (resolved body) s = store_pair s (read_pair body)

  -- What is done with a request's error once the refresh is over.
  resume : Requester → Config → Outcome number → Option String × State World → Run
  resume again c failed (none, s) = some (failed, s)
  resume again c failed (some token, s) =
      let rest = again (replay token c) s in if token == "" then some (failed, s) else rest

  after_refresh : Requester → Config → Outcome number → Run → Run
  unfolding refreshed resume
  after_refresh again c failed none = none
  after_refresh again c failed (some (o, s)) = resume again c failed (refreshed o s)

  -- A 401 that may be retried: `refreshAccessToken`, then the request once more.
  recover_by : Requester → Config → Outcome number → State World → Option String → Run
  unfolding after_refresh
  recover_by again c failed s none = some (failed, record s { auth = clear s.auth })
  recover_by again c failed s (some token) =
      after_refresh again c failed (again (refresh_request token) s)

  recover : Requester → Config → Outcome number → State World → Run
  unfolding recover_by
  recover again c failed s = recover_by again c failed s (truthy s.auth.refresh_token)

  -- The response interceptors.
  unfoldable pub settle : Requester → Config → Reply number → State World → Run
  unfolding recover
  settle again c (answer status body) s = some (unwrap number show_ℕ status body, s)
  settle again c (thrown message) s = some (rejected (other message), s)
  settle again c (failure none code message) s =
      some (rejected (as_api_error number show_ℕ none undefined code message), s)
  settle again c (failure (some (status, body)) code message) s =
      let failed = rejected (as_api_error number show_ℕ (some status) body code message) in
      let retry = recover again c failed s in
      if is_retryable c status then retry else some (failed, s)

  -- `client.request`
  unfoldable pub client_request : ℕ → Config → State World → Run
  unfolding settle
  client_request zero c s = none
  client_request (suc fuel) c s =
      let sent = attach s.auth c in
      let (reply, w) = send s.world sent in
      settle (client_request fuel) sent reply (record s { world = w })
