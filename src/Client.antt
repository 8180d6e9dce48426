-- ===== src/Client.antt =====
-- api/client.ts: the request and response interceptors around axios. axios itself, with the server
-- behind it, is the parameter `send`. Headers other than the two that are set here, the HTTP method
-- and the time limit are not modelled.
pub mod Download
pub mod Requests
pub mod Flight
pub mod Laws
use mathlib.Core.Option
use zhiyuche.Common.{
  ℕ, zero, suc, String, ◌<>◌, Bool, true, false, not, ◌&&◌, ◌||◌, Option, none, some, List, ◌==◌,
  eqb, if◌then◌else◌,
}
use zhiyuche.Common.Number.{Number}
use zhiyuche.Common.Json
use zhiyuche.Common.Json.{Json, Fields, member, as_num, as_str, as_obj}
use zhiyuche.Common.Text.{starts_with, includes}
use zhiyuche.Session.{TokenPair, AuthState, truthy, set_tokens, clear, get_view_tenant_id}

pub record Config : Type 0 where
  pub url : Option String
  pub skip_auth : Bool
  pub skip_auth_refresh : Bool
  pub skip_tenant_header : Bool
  pub retried : Bool
  -- The headers `Authorization` and `X-Tenant-ID`.
  pub authorization : Option String
  pub tenant : Option String
  -- The `refresh_token` of the body, where the request has one.
  pub refresh_with : Option String

abbrev or_empty : Option String → String
or_empty none = ""
or_empty (some s) = s

bearer : String → String
bearer token = "Bearer " <> token

set_token : Option String → Config → Config
unfolding bearer
set_token none c = c
set_token (some token) c = record c { authorization = some (bearer token) }

set_tenant : Option String → Config → Config
set_tenant none c = c
set_tenant (some id) c = record c { tenant = some id }

-- The request interceptor.
unfoldable pub attach : AuthState → Config → Config
unfolding set_token set_tenant
attach s c =
    let with_token = set_token (truthy s.access_token) c in
    let is_auth_api = starts_with (or_empty c.url) "/auth" in
    if c.skip_auth
    then c
    else (if not c.skip_tenant_header && not is_auth_api
        then set_tenant (truthy (get_view_tenant_id s)) with_token
        else with_token)

-- The request of `doRefresh`.
unfoldable pub refresh_request : String → Config
refresh_request token = record {
  url = some "/auth/refresh";
  skip_auth = true;
  skip_auth_refresh = true;
  skip_tenant_header = false;
  retried = false;
  authorization = none;
  tenant = none;
  refresh_with = some token;
}

-- The request that is sent again once the tokens are new.
unfoldable pub replay : String → Config → Config
unfolding bearer
replay token c = record c { retried = true; authorization = some (bearer token) }

module _ (𝓝 : Number) where
  open 𝓝 use {Carrier, of_ℕ, neg, eqn, show}

  -- A body, parsed or, for a download, as a `Blob` with its type and what its text parses to.
  pub data Body : Type 0 where
    parsed : Json Carrier → Body
    blob : String → Option (Json Carrier) → Body
    undefined : Body

  pub data Reply : Type 0 where
    -- a response with a status that axios takes for a success
    answer : ℕ → Body → Reply
    -- an error of axios: the response, if there is one, then its `code` and its `message`
    failure : Option (ℕ × Body) → String → String → Reply
    -- any other exception
    thrown : String → Reply

  -- An `ApiError`, or an exception that is passed on.
  pub data Failure : Type 0 where
    api_error : String → Carrier → Option (Json Carrier) → Option ℕ → Failure
    other : String → Failure

  pub data Outcome : Type 0 where
    resolved : Body → Outcome
    rejected : Failure → Outcome

  pub record Envelope : Type 0 where
    pub code : Carrier
    pub message : String
    pub content : Option (Json Carrier)
    pub request_id : Option (Json Carrier)

  -- `isEnvelope`, with what the code reads of one.
  read_envelope : Fields Carrier → Option Carrier → Option String → Option Envelope
  read_envelope fs (some code) (some message) = some (record {
    code = code;
    message = message;
    content = member "data" fs;
    request_id = member "request_id" fs;
  })
  read_envelope fs _ _ = none

  envelope_in : Option (Fields Carrier) → Option Envelope
  unfolding read_envelope
  envelope_in none = none
  envelope_in (some fs) =
      read_envelope fs (as_num (member "code" fs)) (as_str (member "message" fs))

  json_of : Body → Option (Json Carrier)
  json_of (parsed v) = some v
  json_of (blob _ _) = none
  json_of undefined = none

  unfoldable pub as_envelope : Body → Option Envelope
  unfolding envelope_in json_of
  as_envelope b = envelope_in (as_obj (json_of b))

  -- `readErrorBody`
  unfoldable pub read_error_body : Body → Body
  read_error_body (parsed v) = parsed v
  read_error_body undefined = undefined
  read_error_body (blob type none) = undefined
  read_error_body (blob type (some v)) = if includes type "json" then parsed v else undefined

  abbrev or_text : String → String → String
  or_text s t = if s == "" then t else s

  content_body : Option (Json Carrier) → Body
  content_body none = undefined
  content_body (some v) = parsed v

  module _ (show_ℕ : ℕ → String) where
    -- The interceptor of a response that succeeded.
    unfoldable pub unwrap : ℕ → Body → Outcome
    unfolding content_body
    unwrap status body = elim (as_envelope body) [
      | none ↦ resolved body
      | some e ↦
          if eqn e.code (of_ℕ 0)
          then resolved (content_body e.content)
          else rejected (
              api_error (or_text e.message ("请求失败 (code " <> show e.code <> ")")) e.code
                e.request_id (some status))
    ]

    -- `ErrorCode.Network`
    unfoldable pub network : Carrier
    network = neg (of_ℕ 1)

    network_message : Option ℕ → String → String
    network_message status code = if code == "ECONNABORTED" then "请求超时，请稍后重试" else (elim status [
      | none ↦ "网络连接失败，请检查后端服务"
      | some n ↦ if eqb n 0 then "网络连接失败，请检查后端服务" else "服务异常 (HTTP " <> show_ℕ n <> ")"
    ])

    -- The end of the interceptor of an error of axios: the status and the body of the response.
    unfoldable pub as_api_error : Option ℕ → Body → String → String → Failure
    unfolding network network_message
    as_api_error status body code message = elim (as_envelope (read_error_body body)) [
      | some e ↦ api_error (or_text e.message message) e.code e.request_id status
      | none ↦ api_error (network_message status code) network none status
    ]
