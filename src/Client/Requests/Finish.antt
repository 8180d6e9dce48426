-- ===== src/Client/Requests/Finish.antt =====
-- Requests that are not retried, and how the others depend on them.
use zhiyuche.Common.{ℕ, suc, String, true, Option, none, some, ◌≡◌, refl, ◌⊎◌, inl, inr, arith}
use zhiyuche.Session.{AuthState, truthy}
use zhiyuche.Client.{
  Config, attach, refresh_request, replay, undefined, Reply, answer, failure, thrown, Outcome,
  rejected, other, unwrap, as_api_error,
}
use zhiyuche.Client.Requests.{
  Server, State, Run, Requester, refreshed, resume, after_refresh, recover, recover_by, settle,
  client_request,
}

-- A request that is never retried.
abbrev pub IsFinal : Config → Type 0
IsFinal c = (c.skip_auth_refresh ≡ true) ⊎ (c.retried ≡ true)

pub attach-IsFinal : (s : AuthState) (c : Config) → IsFinal c → IsFinal (attach s c)
unfolding attach
attach-IsFinal s c h = ground arith

pub attach-refresh_request :
    (s : AuthState) (token : String) → attach s (refresh_request token) ≡ refresh_request token
unfolding attach refresh_request
attach-refresh_request s token = refl

pub refresh_request-IsFinal : (token : String) → IsFinal (refresh_request token)
unfolding refresh_request
refresh_request-IsFinal token = inl refl

pub replay-IsFinal : (token : String) (c : Config) → IsFinal (replay token c)
unfolding replay
replay-IsFinal token c = inr refl

module _ (server : Server) where
  open server use {number, World, show_ℕ, send, read_pair}

  -- What a request that is not retried ends with.
  unfoldable pub finish : Reply number → Outcome number
  finish (answer status body) = unwrap number show_ℕ status body
  finish (thrown message) = rejected (other message)
  finish (failure none code message) =
      rejected (as_api_error number show_ℕ none undefined code message)
  finish (failure (some (status, body)) code message) =
      rejected (as_api_error number show_ℕ (some status) body code message)

  settle_of_IsFinal :
      (again : Requester server) (c : Config) (r : Reply number) (s : State World)
      → IsFinal c
      → settle server again c r s ≡ some (finish r, s)
  unfolding settle finish
  settle_of_IsFinal again c (answer status body) s h = refl
  settle_of_IsFinal again c (thrown message) s h = refl
  settle_of_IsFinal again c (failure none code message) s h = refl
  settle_of_IsFinal again c (failure (some (status, body)) code message) s h = ground arith

  module _ (again again' : Requester server)
      (agree : (c : Config) (s : State World) → IsFinal c → again c s ≡ again' c s) where
    resume_agree :
        (c : Config) (failed : Outcome number) (token : Option String) (s : State World)
        → resume server again c failed (token, s) ≡ resume server again' c failed (token, s)
    unfolding resume
    resume_agree c failed none s = refl
    resume_agree c failed (some token) s = rw (agree (replay token c) s (replay-IsFinal token c))

    after_refresh_agree :
        (c : Config) (failed : Outcome number) (run : Run server)
        → after_refresh server again c failed run ≡ after_refresh server again' c failed run
    unfolding after_refresh
    after_refresh_agree c failed none = refl
    after_refresh_agree c failed (some (o, s)) =
        resume_agree c failed (refreshed server o s).0 (refreshed server o s).1

    recover_by_agree :
        (c : Config) (failed : Outcome number) (s : State World) (token : Option String)
        → recover_by server again c failed s token ≡ recover_by server again' c failed s token
    unfolding recover_by
    recover_by_agree c failed s none = refl
    recover_by_agree c failed s (some token) =
        rw (agree (refresh_request token) s (refresh_request-IsFinal token))
          (after_refresh_agree c failed (again' (refresh_request token) s))

    pub settle_agree :
        (c : Config) (r : Reply number) (s : State World)
        → settle server again c r s ≡ settle server again' c r s
    unfolding settle recover
    settle_agree c (answer status body) s = refl
    settle_agree c (thrown message) s = refl
    settle_agree c (failure none code message) s = refl
    settle_agree c (failure (some (status, body)) code message) s =
        rw (recover_by_agree c _ s (truthy s.auth.refresh_token))

  -- A request that is sent once and not retried.
  unfoldable pub once : Config → State World → Outcome number × State World
  unfolding finish
  once c s = let (r, w) = send s.world (attach s.auth c) in (finish r, record s { world = w })

  pub once_lem :
      (c : Config) (s : State World) (r : Reply number) (w : World)
      → send s.world (attach s.auth c) ≡ (r, w)
      → once c s ≡ (finish r, record s { world = w })
  unfolding once
  once_lem c s r w h = rw h

  abbrev pub one_shot : Requester server
  one_shot c s = some (once c s)

  client_request_of_IsFinal :
      (f : ℕ) (c : Config) (s : State World)
      → IsFinal c
      → client_request server (suc f) c s ≡ one_shot c s
  unfolding client_request once
  client_request_of_IsFinal f c s h =
      settle_of_IsFinal (client_request server f) (attach s.auth c) _ _ (attach-IsFinal s.auth c h)

  -- With fuel for two levels, a request is one that can send others once.
  pub client_request_lem :
      (f : ℕ) (c : Config) (s : State World)
      → client_request server (suc (suc f)) c s
        ≡ settle server one_shot
            (attach s.auth c)
            (send s.world (attach s.auth c)).0
            (record s { world = (send s.world (attach s.auth c)).1 })
  unfolding client_request
  client_request_lem f c s =
      settle_agree (client_request server (suc f)) one_shot (client_request_of_IsFinal f)
        (attach s.auth c) (send s.world (attach s.auth c)).0
        (record s { world = (send s.world (attach s.auth c)).1 })
