-- ===== src/Socket/Laws.antt =====
-- What holds of the connection after every sequence of events.
use native.Mathlib.Decide.{dec_lt}
use native.Mathlib.Nat.{pow-le-pow_right, mul-le-mul}
use zhiyuche.Common.{
  ℕ, suc, ◌+◌, ◌*◌, ◌-◌, ◌^◌, ◌≤◌, ◌<◌, Bool, true, false, none, some, List, [], ◌∷◌, all, ◌≡◌, ◌≢◌,
  refl, ◌⊎◌, inl, inr, arith,
}
use zhiyuche.Socket.{
  WsStatus, opened, reconnecting, closed, Connection, backoff, delay, Attempt, no_token, throws,
  made_one, connect, Event, timer, open_of, close_of, unmount, step, mounted, run, session,
}

pub record IsSound (s : Connection) : Type 0 where
  -- While a socket is current no reconnection is pending.
  pub one_of_two : s.socket ≢ none → s.reconnect ≡ none
  -- The ping interval runs exactly while the current socket is open, which the store then shows.
  pub ping_while_open : s.ping ≡ s.is_open
  pub open_shown :
      s.is_open ≡ true
      → (s.socket ≢ none) × (s.status ≡ opened) × (s.attempts ≡ 0) × (s.attempt ≡ 0)
  -- A pending reconnection is shown with its number.
  pub reconnect_shown :
      s.reconnect ≢ none → (s.status ≡ reconnecting) × (s.attempts ≡ s.attempt) × (0 < s.attempt)
  pub disposed_quiet :
      s.disposed ≡ true
      → (s.socket ≡ none) × (s.reconnect ≡ none) × (s.ping ≡ false) × (s.status ≡ closed)

step-IsSound : (s : Connection) (e : Event) → IsSound s → IsSound (step s e)
unfolding step
step-IsSound s (timer a) h = ground arith
step-IsSound s (open_of i) h = ground arith
step-IsSound s (close_of i factor) h = ground arith
step-IsSound s unmount h = ground arith

connect-IsSound : (a : Attempt) (st : WsStatus) (n : ℕ) → IsSound (connect a (mounted st n))
unfolding connect
connect-IsSound a st n = ground arith

run-IsSound : (s : Connection) (es : List Event) → IsSound s → IsSound (run s es)
unfolding run
run-IsSound s [] h = h
run-IsSound s (e ∷ es) h = run-IsSound (step s e) es (step-IsSound s e h)

-- In every history of the effect: a current socket and a pending reconnection exclude one another;
-- the ping runs exactly while the current socket is open, and the store then says so, with no
-- attempts; a pending reconnection is shown with its number; and once the effect is over nothing is
-- left running and the store shows a closed connection.
pub session-IsSound :
    (st : WsStatus) (n : ℕ) (first : Attempt) (es : List Event) → IsSound (session st n first es)
unfolding session
session-IsSound st n first es =
    run-IsSound (connect first (mounted st n)) es (connect-IsSound first st n)

-- Something is current or pending, or the effect is over.
abbrev IsAlive : Connection → Type 0
IsAlive s = (s.disposed ≡ true) ⊎ ((s.socket ≢ none) ⊎ (s.reconnect ≢ none))

-- No attempt finds the token gone.
abbrev pub has_token : Attempt → Bool
has_token no_token = false
has_token _ = true

abbrev pub finds_token : Event → Bool
finds_token (timer a) = has_token a
finds_token _ = true

step-IsAlive : (s : Connection) (e : Event) → finds_token e ≡ true → IsAlive s → IsAlive (step s e)
unfolding step
step-IsAlive s (timer no_token) h k = cc
step-IsAlive s (timer (throws factor)) h k = ground arith
step-IsAlive s (timer made_one) h k = ground arith
step-IsAlive s (open_of i) h k = ground arith
step-IsAlive s (close_of i factor) h k = ground arith
step-IsAlive s unmount h k = inl refl

run-IsAlive :
    (s : Connection) (es : List Event) → all finds_token es ≡ true → IsAlive s → IsAlive (run s es)
unfolding run
run-IsAlive s [] h k = k
run-IsAlive s (e ∷ es) h k =
    run-IsAlive (step s e) es (ground arith) (step-IsAlive s e (ground arith) k)

connect-IsAlive :
    (a : Attempt) (st : WsStatus) (n : ℕ) → has_token a ≡ true → IsAlive (connect a (mounted st n))
unfolding connect
connect-IsAlive a st n h = ground arith

-- The client never gives up: as long as every attempt finds a token and the effect is not over, a
-- socket is current or a reconnection is pending.
pub session_alive :
    (st : WsStatus) (n : ℕ) (first : Attempt) (es : List Event)
    → has_token first ≡ true
    → all finds_token es ≡ true
    → (session st n first es).disposed ≡ false
    → ((session st n first es).socket ≢ none) ⊎ ((session st n first es).reconnect ≢ none)
unfolding session
session_alive st n first es h k d =
    ground (arith, run-IsAlive (connect first (mounted st n)) es k (connect-IsAlive first st n h))

-- An event of a socket that is not the current one changes nothing.
pub step_stale :
    (s : Connection) (i factor : ℕ)
    → s.socket ≢ some i
    → (step s (open_of i) ≡ s) × (step s (close_of i factor) ≡ s)
unfolding step
step_stale s i factor h = ground arith

step_disposed : (s : Connection) (e : Event) → IsSound s → s.disposed ≡ true → step s e ≡ s
unfolding step
step_disposed s (timer a) h d = ground arith
step_disposed s (open_of i) h d = ground arith
step_disposed s (close_of i factor) h d = ground arith
step_disposed s unmount h d = ground arith

run_disposed : (s : Connection) (es : List Event) → IsSound s → s.disposed ≡ true → run s es ≡ s
unfolding run
run_disposed s [] h d = refl
run_disposed s (e ∷ es) h d = rw (step_disposed s e h d) (run_disposed s es h d)

-- Once the effect is over, whatever fires later, no event changes anything.
session_over :
    (st : WsStatus) (n : ℕ) (first : Attempt) (es later : List Event)
    → (session st n first es).disposed ≡ true
    → run (session st n first es) later ≡ session st n first es
session_over st n first es later d =
    run_disposed (session st n first es) later (session-IsSound st n first es) d

backoff_bounds : (a : ℕ) → (1000 ≤ backoff a) × (backoff a ≤ 30000)
unfolding backoff
backoff_bounds a =
    let positive : 2 ^ 0 ≤ 2 ^ (a - 1) =
      pow-le-pow_right (omega arith) {i = 0} {j = a - 1} (omega arith) in
    omega arith

backoff_mono : (a b : ℕ) → a ≤ b → backoff a ≤ backoff b
unfolding backoff
backoff_mono a b h =
    let grown : 2 ^ (a - 1) ≤ 2 ^ (b - 1) = pow-le-pow_right (omega arith) (omega arith) in
    omega arith

delay_bounds :
    (b factor : ℕ)
    → 1000 ≤ b
    → b ≤ 30000
    → 800 ≤ factor
    → factor ≤ 1200
    → (800 ≤ delay b factor) × (delay b factor ≤ 36000)
unfolding delay
delay_bounds b factor lb ub lo hi =
    let low : 1000 * 800 ≤ b * factor = mul-le-mul lb lo in
    let high : b * factor ≤ 30000 * 1200 = mul-le-mul ub hi in omega arith

-- From the sixth attempt the base is at its cap, and before it a later base is more than half as much again.
backoff_grows :
    (a b : ℕ)
    → 1 ≤ a
    → a < b
    → (3 * backoff a + 1000 ≤ 2 * backoff b) ⊎ ((backoff a ≡ 30000) × (backoff b ≡ 30000))
unfolding backoff
backoff_grows a b h lt =
    let doubled : 2 ^ suc (a - 1) ≤ 2 ^ (b - 1) =
      pow-le-pow_right (omega arith) {i = suc (a - 1)} {j = b - 1} (omega arith) in
    let positive : 2 ^ 0 ≤ 2 ^ (a - 1) =
      pow-le-pow_right (omega arith) {i = 0} {j = a - 1} (omega arith) in
    elim (dec_lt a 6) [
      | yes early ↦
          let small : 2 ^ (a - 1) ≤ 2 ^ 4 =
            pow-le-pow_right (omega arith) {i = a - 1} {j = 4} (omega arith) in
          inl (omega arith)
      | no late ↦
          let large : 2 ^ 5 ≤ 2 ^ (a - 1) =
            pow-le-pow_right (omega arith) {i = 5} {j = a - 1} (omega arith) in
          inr (omega arith, omega arith)
    ]

delay_grows : (b c f g : ℕ) → 3 * b + 1000 ≤ 2 * c → f ≤ 1200 → 800 ≤ g → delay b f < delay c g
unfolding delay
delay_grows b c f g grown hi lo =
    let most : b * f ≤ b * 1200 = mul-le-mul (omega arith) hi in
    let least : c * 800 ≤ c * g = mul-le-mul (omega arith) lo in omega arith

-- The delays before two attempts to reconnect, the first one or later, each with a random factor from 0.8 to
-- 1.2: the later delay is longer than the earlier one, whatever the factors are, unless the base of both has
-- reached its cap of 30 seconds; the base of the first attempt is one second, and every delay lies between
-- 0.8 and 36 seconds.
pub delay-backoff :
    (a b f g : ℕ)
    → 1 ≤ a
    → a < b
    → 800 ≤ f
    → f ≤ 1200
    → 800 ≤ g
    → ((delay (backoff a) f < delay (backoff b) g) ⊎ ((backoff a ≡ 30000) × (backoff b ≡ 30000)))
      × (backoff 1 ≡ 1000)
      × (800 ≤ delay (backoff a) f)
      × (delay (backoff a) f ≤ 36000)
delay-backoff a b f g first later lo hi lo_later =
    let (low, high) = backoff_bounds a in
    let (least, most) = delay_bounds (backoff a) f low high lo hi in
    let grown : (delay (backoff a) f < delay (backoff b) g)
        ⊎ ((backoff a ≡ 30000) × (backoff b ≡ 30000)) =
      elim (backoff_grows a b first later) [
        | inl more ↦ inl (delay_grows (backoff a) (backoff b) f g more hi lo_later)
        | inr capped ↦ inr capped
      ] in
    (grown, unfold backoff in refl, least, most)
