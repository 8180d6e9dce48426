-- ===== src/Socket/Url.antt =====
-- hooks/useWebSocket.ts: the address of the socket. The settings of the build and the address of the page
-- are a record, and `encode` stands for `encodeURIComponent`.
use Prim.Native.Char.{code}
use zhiyuche.Common.{String, ◌<>◌, Option, none, some, ◌==◌, eqb, if◌then◌else◌}
use zhiyuche.Common.Text.{trim, includes, starts_with}
use zhiyuche.Session.{truthy}
use zhiyuche.Client.Download.{after}

pub record Place : Type 0 where
  -- `VITE_WS_URL` and `VITE_API_BASE`
  pub ws_url : Option String
  pub api_base : Option String
  -- `window.location`
  pub protocol : String
  pub host : String

abbrev setting_or : String → Option String → String
setting_or default none = default
setting_or default (some s) = s

-- `replace(/\/$/, '')`
unfoldable pub drop_slash : String → String
drop_slash String.[] = ""
drop_slash (String.◌∷◌ c s) =
    let rest = drop_slash s in
    if s == "" then (if eqb (code c) 47 then "" else String.◌∷◌ c s) else String.◌∷◌ c rest

-- The rest after `http` where the text begins with `http://` or `https://`, in letters of any size.
unfoldable pub after_http : String → Option String
unfolding after
after_http s = elim (after "http://" s) [
  | some rest ↦ after "http" s
  | none ↦ elim (after "https://" s) [ some rest ↦ after "http" s | none ↦ none ]
]

unfoldable pub base_of : Place → String
unfolding drop_slash after_http
base_of place =
    let api = drop_slash (setting_or "/api/v1" place.api_base) in
    let proto = if place.protocol == "https:" then "wss:" else "ws:" in
    let path = if starts_with api "/" then api else "/" <> api in
    elim (after_http api) [
      | some rest ↦ "ws" <> rest <> "/ws"
      | none ↦ proto <> "//" <> place.host <> path <> "/ws"
    ]

unfoldable pub base_url : Place → String
unfolding base_of
base_url place =
    let explicit = trim (setting_or "" place.ws_url) in
    let base = base_of place in if explicit == "" then base else explicit

-- `buildWsUrl`
unfoldable pub build_ws_url : (String → String) → Place → String → Option String → String
unfolding base_url
build_ws_url encode place token tenant_id =
    let base = base_url place in
    let url = base <> (if includes base "?" then "&" else "?") <> "access_token=" <> encode token in
    elim (truthy tenant_id) [ none ↦ url | some id ↦ url <> "&tenant_id=" <> encode id ]
