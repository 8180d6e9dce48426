-- ===== src/Client/Flight.antt =====
-- api/client.ts: `refreshAccessToken` for many callers at once, who share the promise `refreshing`.
-- A caller is a number. `asked` tells whether the promise waits for the server or, where there was no
-- refresh token, only for its turn in the event loop.
use zhiyuche.Common.{
  ℕ, suc, ◌+◌, ◌≤◌, Bool, true, false, Option, none, some, List, [], ◌∷◌, ◌++◌, map, String, ◌≡◌,
  refl, sym, ◌∙◌, ap, append_assoc, append-nil, map-append, arith,
}
use zhiyuche.Session.{TokenPair, AuthState, truthy, set_tokens, clear}

pub record Flight : Type 0 where
  pub asked : Bool
  pub waiting : List ℕ

pub record FlightState : Type 0 where
  pub auth : AuthState
  pub refreshing : Option Flight
  -- How many requests for new tokens were sent, and how many came back.
  pub sent : ℕ
  pub answered : ℕ
  -- The callers whose promise is settled, each with its token, in the order of their calls.
  pub delivered : List (ℕ × Option String)

pub data Event : Type 0 where
  call : ℕ → Event
  -- The promise settles; the server's answer, where it was asked, is a pair of tokens or an error.
  settle : Option TokenPair → Event

-- `doRefresh`, up to its request.
start : ℕ → FlightState → Option String → FlightState
start caller s none = record s {
  auth = clear s.auth;
  refreshing = some (record { asked = false; waiting = caller ∷ [] });
}
start caller s (some token) = record s {
  refreshing = some (record { asked = true; waiting = caller ∷ [] });
  sent = suc s.sent;
}

-- `refreshAccessToken`
join : ℕ → FlightState → Option Flight → FlightState
unfolding start
join caller s none = start caller s (truthy s.auth.refresh_token)
join caller s (some f) = record s {
  refreshing = some (record f { waiting = f.waiting ++ caller ∷ [] });
}

deliver : Option String → List ℕ → List (ℕ × Option String)
deliver token callers = map (λ c. (c, token)) callers

-- The rest of `doRefresh` and its `finally`.
land : Flight → Bool → Option TokenPair → FlightState → FlightState
unfolding deliver
land f false answer s = record s {
  refreshing = none;
  delivered = s.delivered ++ deliver none f.waiting;
}
land f true none s = record s {
  auth = clear s.auth;
  refreshing = none;
  answered = suc s.answered;
  delivered = s.delivered ++ deliver none f.waiting;
}
land f true (some pair) s = record s {
  auth = set_tokens pair s.auth;
  refreshing = none;
  answered = suc s.answered;
  delivered = s.delivered ++ deliver (some pair.access_token) f.waiting;
}

finish : Option Flight → Option TokenPair → FlightState → FlightState
unfolding land
finish none answer s = s
finish (some f) answer s = land f f.asked answer s

unfoldable pub step : FlightState → Event → FlightState
unfolding join finish
step s (call caller) = join caller s s.refreshing
step s (settle answer) = finish s.refreshing answer s

unfoldable pub run : FlightState → List Event → FlightState
run s [] = s
run s (e ∷ es) = run (step s e) es

abbrev pub start_of : AuthState → FlightState
start_of auth = record { auth = auth; refreshing = none; sent = 0; answered = 0; delivered = [] }

-- The callers, in the order of their calls.
abbrev pub callers : List Event → List ℕ
callers [] = []
callers (call c ∷ es) = c ∷ callers es
callers (settle _ ∷ es) = callers es

abbrev pub waiting_in : Option Flight → List ℕ
waiting_in none = []
waiting_in (some f) = f.waiting

-- How many requests are under way.
abbrev pub under_way : Option Flight → ℕ
under_way none = 0
under_way (some f) = elim f.asked [ true ↦ 1 | false ↦ 0 ]

-- Everyone who called, settled or waiting.
abbrev everyone : FlightState → List ℕ
everyone s = map (λ d. d.0) s.delivered ++ waiting_in s.refreshing

callers-deliver : (token : Option String) (cs : List ℕ) → map (λ d. d.0) (deliver token cs) ≡ cs
unfolding deliver
callers-deliver token [] = refl
callers-deliver token (c ∷ cs) = ap (λ l. c ∷ l) (callers-deliver token cs)

everyone-call :
    (s : FlightState) (caller : ℕ) → everyone (step s (call caller)) ≡ everyone s ++ caller ∷ []
unfolding step
everyone-call s caller = ground (
  arith,
  append-nil (map (λ d. d.0) s.delivered),
  append_assoc (map (λ d. d.0) s.delivered) (waiting_in s.refreshing) (caller ∷ []),
)

callers-delivered :
    (d : List (ℕ × Option String)) (token : Option String) (cs : List ℕ)
    → map (λ p. p.0) (d ++ deliver token cs) ++ [] ≡ map (λ p. p.0) d ++ cs
callers-delivered d token cs =
    append-nil (map (λ p. p.0) (d ++ deliver token cs))
    ∙ map-append (λ p. p.0) d (deliver token cs)
    ∙ ap (λ l. map (λ p. p.0) d ++ l) (callers-deliver token cs)

everyone-land :
    (f : Flight) (asked : Bool) (answer : Option TokenPair) (s : FlightState)
    → everyone (land f asked answer s) ≡ map (λ d. d.0) s.delivered ++ f.waiting
unfolding land
everyone-land f false answer s = callers-delivered s.delivered none f.waiting
everyone-land f true none s = callers-delivered s.delivered none f.waiting
everyone-land f true (some pair) s =
    callers-delivered s.delivered (some pair.access_token) f.waiting

everyone-finish :
    (answer : Option TokenPair) (s : FlightState) (r : Option Flight)
    → s.refreshing ≡ r
    → everyone (finish r answer s) ≡ everyone s
unfolding finish
everyone-finish answer s none e = refl
everyone-finish answer s (some f) e =
    everyone-land f f.asked answer s ∙ ap (λ r. map (λ d. d.0) s.delivered ++ waiting_in r) (sym e)

everyone-settle :
    (s : FlightState) (answer : Option TokenPair) → everyone (step s (settle answer)) ≡ everyone s
unfolding step
everyone-settle s answer = everyone-finish answer s s.refreshing refl

everyone-run : (s : FlightState) (es : List Event) → everyone (run s es) ≡ everyone s ++ callers es
unfolding run
everyone-run s [] = sym (append-nil (everyone s))
everyone-run s (call c ∷ es) =
    everyone-run (step s (call c)) es
    ∙ ap (λ l. l ++ callers es) (everyone-call s c)
    ∙ append_assoc (everyone s) (c ∷ []) (callers es)
everyone-run s (settle answer ∷ es) =
    everyone-run (step s (settle answer)) es ∙ ap (λ l. l ++ callers es) (everyone-settle s answer)

-- Nobody is forgotten and nobody is answered twice: the callers whose promise is settled, followed by
-- those who wait, are the callers in the order of their calls.
pub run-callers :
    (auth : AuthState) (es : List Event)
    → map (λ d. d.0) (run (start_of auth) es).delivered
        ++ waiting_in (run (start_of auth) es).refreshing
      ≡ callers es
run-callers auth es = everyone-run (start_of auth) es

step-balance :
    (s : FlightState) (e : Event)
    → s.sent ≡ s.answered + under_way s.refreshing
    → (step s e).sent ≡ (step s e).answered + under_way (step s e).refreshing
unfolding step start
step-balance s (call c) h = ground arith
step-balance s (settle answer) h = ground arith

run-balance :
    (s : FlightState) (es : List Event)
    → s.sent ≡ s.answered + under_way s.refreshing
    → (run s es).sent ≡ (run s es).answered + under_way (run s es).refreshing
unfolding run
run-balance s [] h = h
run-balance s (e ∷ es) h = run-balance (step s e) es (step-balance s e h)

under_way-le : (r : Option Flight) → under_way r ≤ 1
under_way-le r = ground arith

-- However many callers ask at once, at most one request for new tokens is under way.
run_one_flight :
    (auth : AuthState) (es : List Event)
    → (run (start_of auth) es).sent ≤ suc (run (start_of auth) es).answered
run_one_flight auth es =
    omega
      (arith, run-balance (start_of auth) es refl, under_way-le (run (start_of auth) es).refreshing)
