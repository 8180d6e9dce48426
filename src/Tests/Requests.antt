-- ===== src/Tests/Requests.antt =====
-- A server that turns one token down, refreshes it and then answers; and callers who share a refresh.
use zhiyuche.Common.{
  ℕ, zero, suc, ◌+◌, ◌-◌, ◌*◌, ◌/◌, ◌<>◌, true, false, none, some, List, [], ◌∷◌, ◌++◌, map, ◌≡◌,
  refl, ◌↔◌, ltb, eqb, arith,
}
use zhiyuche.Common.Number.{Number}
use zhiyuche.Common.Text.{starts_with}
use zhiyuche.Session.{TokenPair, empty, set_tokens, get_view_tenant_id}
use zhiyuche.Client.{Config, attach, replay, undefined, Reply, answer, failure, unwrap, as_envelope}
use zhiyuche.Client.Laws.{NamesTenant, attach-tenant_iff}
use zhiyuche.Forms.{each}
use zhiyuche.Client.Download.{filename_from_disposition, is_value, take_while, compact_params}
use zhiyuche.Client.Download.Laws.{is_no_star, filename_from_disposition_lem}
use zhiyuche.Common.Json
use zhiyuche.Client.Requests.{Server, State, client_request}
use zhiyuche.Client.Requests.Retry.{Within, Ends, client_request-Ends, client_request-recovers}
use zhiyuche.Client.Flight.{
  Event, call, settle, step, run, start_of, waiting_in, callers, run-callers,
}

-- Natural numbers for the numbers of the language.
abbrev pub naturals : Number
naturals = record {
  Carrier = ℕ;
  of_ℕ = λ n. n;
  neg = λ n. 0;
  plus = λ a b. a + b;
  minus = λ a b. a - b;
  times = λ a b. a * b;
  over = λ a b. a / b;
  eqn = eqb;
  ltn = ltb;
  is_finite = λ n. true;
  parse = λ s. 0;
  show = λ n. "n";
}

abbrev fresh : TokenPair
fresh = record { access_token = "a2"; refresh_token = "r2"; expires_at = "later" }

-- The world counts the requests; the first is turned down.
abbrev reply_to : ℕ → Reply naturals
reply_to zero = failure (some (401, undefined)) "ERR_BAD_REQUEST" "unauthorized"
reply_to (suc n) = answer 200 undefined

abbrev server : Server
server = record {
  number = naturals;
  World = ℕ;
  show_ℕ = λ n. "n";
  send = λ w c. (reply_to w, suc w);
  read_pair = λ b. some fresh;
}

abbrev stale : State ℕ
stale = record {
  auth = record empty { access_token = some "a1"; refresh_token = some "r1" };
  world = 0;
}

abbrev ask : Config
ask = record {
  url = some "/trips";
  skip_auth = false;
  skip_auth_refresh = false;
  skip_tenant_header = false;
  retried = false;
  authorization = none;
  tenant = none;
  refresh_with = none;
}

client_request-Ends_example :
    Ends server
      (Within server (λ w. w) (λ w c. omega arith) 3 stale)
      (client_request server 2 ask stale)
client_request-Ends_example = client_request-Ends server (λ w. w) (λ w c. omega arith) 0 ask stale

client_request-recovers_example :
    (client_request server 2 ask stale
      ≡ some (
        unwrap naturals (λ n. "n") 200 undefined,
        record { auth = set_tokens fresh stale.auth; world = 3 },
      ))
    × ((attach (set_tokens fresh stale.auth) (replay "a2" (attach stale.auth ask))).authorization
        ≡ some ("Bearer " <> "a2"))
unfolding starts_with get_view_tenant_id as_envelope
client_request-recovers_example =
    client_request-recovers server 0 ask stale "r1" fresh 1 2 3 200 200 undefined undefined
      undefined undefined "ERR_BAD_REQUEST" "unauthorized" refl (unfold attach in refl) refl refl
      (unfold unwrap in refl) refl refl refl

abbrev events : List Event
events = call 1 ∷ call 2 ∷ settle (some fresh) ∷ call 3 ∷ []

run-callers_example :
    map (λ d. d.0) (run (start_of stale.auth) events).delivered
      ++ waiting_in (run (start_of stale.auth) events).refreshing
    ≡ callers events
run-callers_example = run-callers stale.auth events

shared : (run (start_of stale.auth) events).delivered ≡ (1, some "a2") ∷ (2, some "a2") ∷ []
unfolding run step set_tokens
shared = refl

attach-tenant_iff_example :
    ((attach stale.auth ask).tenant ≡ some "t1") ↔ NamesTenant stale.auth ask "t1"
attach-tenant_iff_example = attach-tenant_iff stale.auth ask "t1" refl

no_star : each is_no_star "attachment; filename=\"r.csv\"; " ≡ true
unfolding each
no_star = refl

one_value : each is_value "r.csv" ≡ true
unfolding each
one_value = refl

ends_there : take_while is_value "; size=3" ≡ ""
unfolding take_while
ends_there = refl

filename_from_disposition_lem_example :
    filename_from_disposition
      (λ s. some s)
      (some
        ("attachment; filename=\"r.csv\"; " <> ("filename*=UTF-8''" <> ("r.csv" <> "; size=3"))))
    ≡ some "r.csv"
filename_from_disposition_lem_example =
    filename_from_disposition_lem (λ s. some s) "attachment; filename=\"r.csv\"; " "r.csv"
      "; size=3" no_star refl one_value ends_there

-- The quotation marks around a name that is not encoded are left out, and a blank parameter is not sent.
quoted_name :
    filename_from_disposition (λ s. some s) (some "inline; FILENAME=\"a b.csv\"") ≡ some "a b.csv"
unfolding filename_from_disposition
quoted_name = refl

sent_parameters :
    compact_params {N = ℕ}
      (("q", some (Json.str "")) ∷ ("page", some (Json.num 1)) ∷ ("to", none) ∷ [])
    ≡ ("page", some (Json.num 1)) ∷ []
unfolding compact_params
sent_parameters = refl
