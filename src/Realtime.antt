-- ===== src/Realtime.antt =====
-- store/realtime.ts: the live states of the vehicles, merged from the snapshots of the interface and
-- the messages of the socket. A state is an object of unknown fields: a list of keys, each once, with
-- their values, where `none` is `undefined`. `now` stands for the clock's text.
pub mod Laws
pub mod Events
use zhiyuche.Common.{
  ℕ, zero, suc, ◌+◌, ◌-◌, max, String, Bool, true, false, Option, none, some, List, [], ◌∷◌, ◌==◌,
  map, if◌then◌else◌, not, ◌||◌,
}
use zhiyuche.Common.Json
use zhiyuche.Common.Json.{Json, str, bool, num}
use zhiyuche.Common.Number.{Number}
use zhiyuche.Socket.{WsStatus, idle, opened}

-- The value of a key, `undefined` if it is not there.
unfoldable pub get {ℓ} : {V : Type ℓ} → String → List (String × Option V) → Option V
get k [] = none
get k ((j, v) ∷ o) = let rest = get k o in if j == k then v else rest

unfoldable pub put {ℓ} :
    {V : Type ℓ} → String → Option V → List (String × Option V) → List (String × Option V)
put k v [] = (k, v) ∷ []
put k v ((j, w) ∷ o) = let rest = put k v o in if j == k then (k, v) ∷ o else (j, w) ∷ rest

module _ (number : Number) where
  abbrev pub Live : Type 0
  Live = List (String × Option (Json (number.Carrier)))

  -- The loop over the entries of the patch.
  merge_into : Live → Live → Live
  unfolding put
  merge_into next [] = next
  merge_into next ((k, none) ∷ patch) = merge_into next patch
  merge_into next ((k, some v) ∷ patch) = merge_into (put k (some v) next) patch

  default_live : String → String → Live
  default_live vehicle_id now =
      ("vehicle_id", some (str vehicle_id))
      ∷ ("plate_no", some (str ""))
      ∷ ("status", some (str "idle"))
      ∷ ("sign_on", some (bool false))
      ∷ ("locked", some (bool false))
      ∷ ("charging", some (bool false))
      ∷ ("online", some (bool false))
      ∷ ("updated_at", some (str now))
      ∷ []

  -- A plate number that a condition reads as false; only NaN differs from itself.
  abbrev pub is_blank : Option (Json (number.Carrier)) → Bool
  is_blank none = true
  is_blank (some Json.null) = true
  is_blank (some (str s)) = s == ""
  is_blank (some (bool b)) = not b
  is_blank (some (num n)) = number.eqn n (number.of_ℕ 0) || not (number.eqn n n)
  is_blank (some _) = false

  -- `mergeVehicleLive`; the patch names its vehicle.
  unfoldable pub merge_vehicle_live : String → Option Live → String → Live → Live
  unfolding merge_into default_live put get
  merge_vehicle_live now none vehicle_id patch = merge_into (default_live vehicle_id now) patch
  merge_vehicle_live now (some prev) vehicle_id patch =
      let next = merge_into prev patch in
      if is_blank (get "plate_no" patch) then put "plate_no" (get "plate_no" prev) next else next

  pub record RealtimeState : Type 0 where
    pub status : WsStatus
    pub attempts : ℕ
    pub vehicles : List (String × Option Live)
    pub unread : Option ℕ
    pub last_event_at : Option String

  abbrev pub initial : RealtimeState
  initial = record {
    status = idle;
    attempts = 0;
    vehicles = [];
    unread = none;
    last_event_at = none;
  }

  unfoldable pub set_status : WsStatus → Option ℕ → RealtimeState → RealtimeState
  set_status opened none s = record s { status = opened; attempts = 0 }
  set_status st none s = record s { status = st }
  set_status st (some n) s = record s { status = st; attempts = n }

  from_entries : List (String × Live) → List (String × Option Live) → List (String × Option Live)
  from_entries [] into = into
  from_entries ((id, live) ∷ rest) into = from_entries rest (put id (some live) into)

  -- `setVehicles`, over the list's states with their ids.
  unfoldable pub set_vehicles : List (String × Live) → RealtimeState → RealtimeState
  unfolding from_entries put
  set_vehicles entries s = record s { vehicles = from_entries entries [] }

  -- `upsertVehicle`, with the state that it returns.
  unfoldable pub upsert_vehicle : String → String → Live → RealtimeState → Live × RealtimeState
  unfolding put get
  upsert_vehicle now id patch s =
      let merged = merge_vehicle_live now (get id s.vehicles) id patch in
      (merged, record s { vehicles = put id (some merged) s.vehicles })

  -- `setUnread(Math.max(0, n))`: numbers here are natural, so the maximum is `n`.
  unfoldable pub set_unread : ℕ → RealtimeState → RealtimeState
  set_unread n s = record s { unread = some (max 0 n) }

  abbrev pub or_zero : Option ℕ → ℕ
  or_zero none = 0
  or_zero (some n) = n

  unfoldable pub inc_unread : RealtimeState → RealtimeState
  inc_unread s = record s { unread = some (or_zero s.unread + 1) }

  abbrev or_now : String → Option String → String
  or_now now none = now
  or_now now (some ts) = ts

  unfoldable pub touch : String → Option String → RealtimeState → RealtimeState
  touch now ts s = record s { last_event_at = some (or_now now ts) }

  unfoldable pub reset : RealtimeState → RealtimeState
  reset s = initial
