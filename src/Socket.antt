-- ===== src/Socket.antt =====
-- hooks/useWebSocket.ts: the effect that keeps one connection while there is a token. Sockets are
-- numbered in the order of their construction. The browser's timers and sockets are events: a timer
-- fires, a socket opens (once) or closes. The random factor of a delay is given in thousandths.
pub mod Laws
pub mod Url
use zhiyuche.Common.{
  ℕ, zero, suc, ◌+◌, ◌-◌, ◌*◌, ◌/◌, ◌^◌, min, Bool, true, false, not, ◌&&◌, Option, none, some,
  List, [], ◌∷◌, eqb, if◌then◌else◌,
}

pub data WsStatus : Type 0 where
  idle connecting opened reconnecting closed : WsStatus

pub record Connection : Type 0 where
  pub socket : Option ℕ
  pub made : ℕ
  pub is_open : Bool
  pub disposed : Bool
  pub attempt : ℕ
  pub ever_opened : Bool
  -- The delay of the pending `setTimeout(connect)`, and whether the ping interval runs.
  pub reconnect : Option ℕ
  pub ping : Bool
  -- `status` and `attempts` of the realtime store, and how often the caches were invalidated.
  pub status : WsStatus
  pub attempts : ℕ
  pub resyncs : ℕ

abbrev pub reconnect_base_ms : ℕ
reconnect_base_ms = 1000

abbrev pub reconnect_max_ms : ℕ
reconnect_max_ms = 30000

unfoldable pub backoff : ℕ → ℕ
backoff attempt = min reconnect_max_ms (reconnect_base_ms * 2 ^ (attempt - 1))

-- `Math.round(backoff * factor)`
unfoldable pub delay : ℕ → ℕ → ℕ
delay b factor = (b * factor + 500) / 1000

-- `setStatus` of the store, with a number of attempts.
set_status : WsStatus → ℕ → Connection → Connection
set_status st n s = record s { status = st; attempts = n }

schedule_reconnect : ℕ → Connection → Connection
unfolding set_status
schedule_reconnect factor s =
    if s.disposed
    then s
    else set_status reconnecting (s.attempt + 1) (record s {
      attempt = s.attempt + 1;
      reconnect = some (delay (backoff (s.attempt + 1)) factor);
    })

-- What `connect` finds: whether there is a token, and whether the constructor throws.
pub data Attempt : Type 0 where
  no_token : Attempt
  throws : ℕ → Attempt
  made_one : Attempt

announce : Connection → Connection
unfolding set_status
announce s = set_status (if eqb s.attempt 0 then connecting else reconnecting) s.attempt s

connect_now : Attempt → Connection → Connection
unfolding announce schedule_reconnect
connect_now no_token s = s
connect_now (throws factor) s = schedule_reconnect factor (announce s)
connect_now made_one s = record (announce s) {
  socket = some s.made;
  made = suc s.made;
  is_open = false;
}

connect : Attempt → Connection → Connection
unfolding connect_now
connect a s = if s.disposed then s else connect_now a s

abbrev pub is_current : Option ℕ → ℕ → Bool
is_current none i = false
is_current (some j) i = eqb j i

on_open : Connection → Connection
unfolding set_status
on_open s =
    record (set_status opened 0
      (record s { attempt = 0; ping = true; ever_opened = true; is_open = true })) {
        resyncs = if s.ever_opened then suc s.resyncs else s.resyncs;
      }

on_close : ℕ → Connection → Connection
unfolding schedule_reconnect
on_close factor s =
    schedule_reconnect factor (record s { ping = false; socket = none; is_open = false })

dispose : Connection → Connection
dispose s = record s {
  disposed = true;
  reconnect = none;
  ping = false;
  socket = none;
  is_open = false;
  status = closed;
}

pub data Event : Type 0 where
  timer : Attempt → Event
  open_of : ℕ → Event
  close_of : ℕ → ℕ → Event
  unmount : Event

fire : Attempt → Option ℕ → Connection → Connection
unfolding connect
fire a none s = s
fire a (some _) s = connect a (record s { reconnect = none })

unfoldable pub step : Connection → Event → Connection
unfolding fire on_open on_close dispose
step s (timer a) = fire a s.reconnect s
step s (open_of i) = if is_current s.socket i && not s.is_open then on_open s else s
step s (close_of i factor) = if is_current s.socket i then on_close factor s else s
step s unmount = dispose s

-- The state of the variables when the effect starts, over the store that it finds.
abbrev pub mounted : WsStatus → ℕ → Connection
mounted st n = record {
  socket = none;
  made = 0;
  is_open = false;
  disposed = false;
  attempt = 0;
  ever_opened = false;
  reconnect = none;
  ping = false;
  status = st;
  attempts = n;
  resyncs = 0;
}

unfoldable pub run : Connection → List Event → Connection
run s [] = s
run s (e ∷ es) = run (step s e) es

-- The effect from its start: the first `connect`, then the events.
unfoldable pub session : WsStatus → ℕ → Attempt → List Event → Connection
unfolding connect run
session st n first es = run (connect first (mounted st n)) es
