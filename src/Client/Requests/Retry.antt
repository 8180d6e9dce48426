-- ===== src/Client/Requests/Retry.antt =====
-- The retry after a 401: that it ends, how often it sends, and what it leaves of the session.
use mathlib.Core.Path.{subst}
use zhiyuche.Common.{
  ℕ, suc, ◌+◌, ◌≤◌, String, true, false, Option, none, some, ◌==◌, ◌≡◌, refl, ◌⊎◌, inl, inr, ◌<>◌,
  arith, Bool-cases,
}
use zhiyuche.Session.{TokenPair, AuthState, truthy, set_tokens, clear}
use zhiyuche.Client.{
  Config, attach, refresh_request, replay, Body, Reply, answer, failure, thrown, Outcome, resolved,
  rejected, unwrap,
}
use zhiyuche.Client.Requests.{
  Server, State, Run, store_pair, refreshed, resume, after_refresh, recover_by, recover,
  is_retryable, settle, client_request,
}
use zhiyuche.Client.Requests.Finish.{
  finish, once, once_lem, attach-refresh_request, one_shot, client_request_lem,
}

-- A request leaves the session as it was, clears it, or puts new tokens into it.
abbrev pub IsChange : AuthState → AuthState → Type 0
IsChange a b = (b ≡ a) ⊎ ((b ≡ clear a) ⊎ ((pair : TokenPair) × (b ≡ set_tokens pair a)))

attach-replay :
    (pair : TokenPair) (s : AuthState) (c : Config)
    → (attach (set_tokens pair s) (replay pair.access_token c)).authorization
      ≡ some ("Bearer " <> pair.access_token)
unfolding attach set_tokens replay
attach-replay pair s c = ground arith

module _ (server : Server) where
  open server use {number, World, show_ℕ, send, read_pair}

  -- A run ends, in a state of which `P` holds.
  abbrev pub Ends : (State World → Type 0) → Run server → Type 0
  Ends P none = ⊥
  Ends P (some (o, s)) = P s

  module _ (sent : World → ℕ)
      (sends : (w : World) (c : Config) → sent (send w c).1 ≤ suc (sent w)) where
    -- At most `n` requests are sent after the state `s`.
    abbrev pub Within : ℕ → State World → State World → Type 0
    Within n s t = (sent t.world ≤ n + sent s.world) × IsChange s.auth t.auth

    once-sent : (c : Config) (s : State World) → sent (once server c s).1.world ≤ 1 + sent s.world
    unfolding once
    once-sent c s = omega (arith, sends s.world (attach s.auth c))

    once-auth : (c : Config) (s : State World) → (once server c s).1.auth ≡ s.auth
    unfolding once
    once-auth c s = refl

    store_pair-Ends :
        (c : Config) (failed : Outcome number) (s : State World) (pair : Option TokenPair)
        → Ends (Within 1 s) (
            let (t, s') = store_pair server s pair in
            resume server (one_shot server) c failed (t, s'))
    unfolding store_pair resume
    store_pair-Ends c failed s none = (omega arith, inr (inl refl))
    store_pair-Ends c failed s (some pair) = elim (Bool-cases (pair.access_token == "")) [
      | inl e ↦ rw e (omega arith, inr (inr (pair, refl)))
      | inr e ↦ rw e (
        once-sent (replay pair.access_token c) (record s { auth = set_tokens pair s.auth }),
        inr (
            inr (
              pair,
              once-auth (replay pair.access_token c) (record s { auth = set_tokens pair s.auth }),
            )),
      )
    ]

    refreshed-Ends :
        (c : Config) (failed o : Outcome number) (s : State World)
        → Ends (Within 1 s) (after_refresh server (one_shot server) c failed (some (o, s)))
    unfolding after_refresh refreshed
    refreshed-Ends c failed (rejected _) s = unfold resume in (omega arith, inr (inl refl))
    refreshed-Ends c failed (resolved body) s = store_pair-Ends c failed s (read_pair body)

    Ends-map :
        {P Q : State World → Type 0} (run : Run server)
        → ((t : State World) → P t → Q t)
        → Ends P run
        → Ends Q run
    Ends-map none f h = h
    Ends-map (some (o, t)) f h = f t h

    recover_by-Ends :
        (c : Config) (failed : Outcome number) (s : State World) (token : Option String)
        → Ends (Within 2 s) (recover_by server (one_shot server) c failed s token)
    unfolding recover_by
    recover_by-Ends c failed s none = (omega arith, inr (inl refl))
    recover_by-Ends c failed s (some token) =
        let (o, t) = once server (refresh_request token) s in
        Ends-map {P = Within 1 t} {Q = Within 2 s}
          (after_refresh server (one_shot server) c failed (some (o, t)))
          (λ u h. (
            omega (arith, h.0, once-sent (refresh_request token) s),
            subst (λ a. IsChange a u.auth) (once-auth (refresh_request token) s) h.1,
          ))
          (refreshed-Ends c failed o t)

    settle-Ends :
        (c : Config) (r : Reply number) (s : State World)
        → Ends (Within 2 s) (settle server (one_shot server) c r s)
    unfolding settle recover
    settle-Ends c (answer status body) s = (omega arith, inl refl)
    settle-Ends c (thrown message) s = (omega arith, inl refl)
    settle-Ends c (failure none code message) s = (omega arith, inl refl)
    settle-Ends c (failure (some (status, body)) code message) s =
        elim (Bool-cases (is_retryable c status)) [
          | inl retried ↦ rw retried (recover_by-Ends c _ s (truthy s.auth.refresh_token))
          | inr final ↦ rw final (omega arith, inl refl)
        ]

    -- Whatever the server answers, a request ends with fuel for two levels or more; where a send
    -- counts at most one in `sent`, it sends at most three times (itself, the refresh and itself once
    -- more); and it leaves the session as it was, cleared, or with new tokens.
    pub client_request-Ends :
        (f : ℕ) (c : Config) (s : State World)
        → Ends (Within 3 s) (client_request server (suc (suc f)) c s)
    client_request-Ends f c s =
        let sent_as = attach s.auth c in
        let (r, w) = send s.world sent_as in
        rw (client_request_lem server f c s) (
          Ends-map {P = Within 2 (record s { world = w })} {Q = Within 3 s}
            (settle server (one_shot server) sent_as r (record s { world = w }))
            (λ u h. (omega (arith, h.0, sends s.world sent_as), h.1))
            (settle-Ends sent_as r (record s { world = w })))

  -- A 401 is recovered from: where the request may be retried, there is a refresh token, the refresh
  -- brings a new pair of tokens, and the request sent again succeeds, the caller gets the answer to
  -- the request sent again, which carries the new access token, and the session has the new tokens.
  pub client_request-recovers :
      (f : ℕ) (c : Config) (s : State World) (refresh_token : String) (pair : TokenPair)
      (w₁ w₂ w₃ : World) (status₂ status₃ : ℕ) (body₁ body₂ body₃ content : Body number)
      (code message : String)
      → let sent = attach s.auth c in
        let again = attach (set_tokens pair s.auth) (replay pair.access_token sent) in
        send s.world sent ≡ (failure (some (401, body₁)) code message, w₁)
        → is_retryable sent 401 ≡ true
        → truthy s.auth.refresh_token ≡ some refresh_token
        → send w₁ (refresh_request refresh_token) ≡ (answer status₂ body₂, w₂)
        → unwrap number show_ℕ status₂ body₂ ≡ resolved content
        → read_pair content ≡ some pair
        → (pair.access_token == "") ≡ false
        → send w₂ again ≡ (answer status₃ body₃, w₃)
        → (client_request server (suc (suc f)) c s
            ≡ some (
              unwrap number show_ℕ status₃ body₃,
              record { auth = set_tokens pair s.auth; world = w₃ },
            ))
          × (again.authorization ≡ some ("Bearer " <> pair.access_token))
  client_request-recovers f c s refresh_token pair w₁ w₂ w₃ status₂ status₃ body₁ body₂ body₃
        content code message first may has second opened read filled third =
      let sent = attach s.auth c in
      let s₁ : State World = record s { world = w₁ } in
      let s₂ : State World = record s { world = w₂ } in
      let refreshing =
        once_lem server (refresh_request refresh_token) s₁ (answer status₂ body₂) w₂
          (rw attach-refresh_request second) in
      let s₃ : State World = record { auth = set_tokens pair s.auth; world = w₂ } in
      let replayed =
        once_lem server (replay pair.access_token sent) s₃ (answer status₃ body₃) w₃ third in
      (
        rw (client_request_lem server f c s, first)
            (unfold settle recover in
              rw (may, has)
                (unfold recover_by in
                  rw refreshing (
                    unfold after_refresh refreshed store_pair resume finish in
                    rw (opened, read, filled, replayed)))),
        attach-replay pair s.auth sent,
      )
