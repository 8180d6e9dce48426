-- ===== src/Realtime/Events.antt =====
-- hooks/useWebSocket.ts: `handleEvent` and `applyVehicleStatus`, over the store and the cached answers
-- of the interface that hold a vehicle's live state. A cached answer that is not there is `none`.
-- All clock readings of one message are one text. Of a vehicle and of a page only the fields that
-- are read or written stand here.
pub mod Coherence
pub mod Unread
use zhiyuche.Common.{
  ℕ, String, Bool, true, false, Option, none, some, List, [], ◌∷◌, ◌++◌, map, any, ◌==◌, ◌||◌,
  if◌then◌else◌,
}
use zhiyuche.Common.Json
use zhiyuche.Common.Json.{Json, str, bool, as_str, as_bool}
use zhiyuche.Common.Number.{Number}
use zhiyuche.Session.{truthy}
use zhiyuche.Realtime.{
  get, put, Live, merge_vehicle_live, RealtimeState, upsert_vehicle, inc_unread, touch,
}

-- The prefixes of the cached queries that a message makes stale.
pub data QueryKey : Type 0 where
  approvals trips billing charging dashboard devices notifications : QueryKey

-- The types that the `switch` tells apart; three types of trips share a case.
pub data EventType : Type 0 where
  vehicle_status notification_new approval_updated trip_change charging_updated : EventType
  account_updated device_online other : EventType

event_type : String → EventType
event_type type =
    if type == "vehicle.status"
    then vehicle_status
    else if type == "notification.new"
    then notification_new
    else if type == "approval.updated"
    then approval_updated
    else if type == "trip.started" || type == "trip.ended" || type == "trip.event"
    then trip_change
    else if type == "charging.updated"
    then charging_updated
    else if type == "account.updated"
    then account_updated
    else if type == "device.online"
    then device_online
    else other

module _ (number : Number) where
  pub record Vehicle : Type 0 where
    pub id : String
    pub status : Option (Json (number.Carrier))
    pub live : Option (Live number)

  pub record Caches : Type 0 where
    -- The states of all vehicles, a state and a vehicle by its id, and the pages of the lists.
    pub statuses : Option (List (Live number))
    pub lives : List (String × Option (Live number))
    pub details : List (String × Option Vehicle)
    pub pages : List (Option (List Vehicle))

  pub record Client : Type 0 where
    pub store : RealtimeState number
    pub caches : Caches
    pub stale : List QueryKey
    pub toasts : List (String × Option String)

  -- `ts` and `type` are texts where they are there; `data` is `none` unless it is an object.
  pub record Message : Type 0 where
    pub type : Option String
    pub ts : Option String
    pub data_of : Option (Live number)

  abbrev pub is_text : String → Option (Json (number.Carrier)) → Bool
  is_text id (some (str s)) = s == id
  is_text id _ = false

  unfoldable pub names : String → Live number → Bool
  unfolding get
  names id v = is_text id (get "vehicle_id" v)

  merge_named : String → String → Live number → Live number → Live number
  merge_named now id patch v =
      if names id v then merge_vehicle_live number now (some v) id patch else v

  update_statuses :
      String
      → String
      → Live number
      → Live number
      → Option (List (Live number))
      → Option (List (Live number))
  unfolding merge_named
  update_statuses now id patch merged none = none
  update_statuses now id patch merged (some old) =
      some (if any (names id) old then map (merge_named now id patch) old else old ++ merged ∷ [])

  update_live : String → String → Live number → Option (Live number) → Option (Live number)
  update_live now id patch none = none
  update_live now id patch (some old) = some (merge_vehicle_live number now (some old) id patch)

  -- `{ ...v, status: live.status, live }`
  with_live : Live number → Vehicle → Vehicle
  unfolding get
  with_live live v = record v { status = get "status" live; live = some live }

  merge_vehicle : String → String → Live number → Vehicle → Vehicle
  unfolding with_live
  merge_vehicle now id patch v = with_live (merge_vehicle_live number now v.live id patch) v

  update_detail : String → String → Live number → Option Vehicle → Option Vehicle
  unfolding merge_vehicle
  update_detail now id patch none = none
  update_detail now id patch (some old) = some (merge_vehicle now id patch old)

  is_vehicle : String → Vehicle → Bool
  is_vehicle id v = v.id == id

  merge_item : String → String → Live number → Vehicle → Vehicle
  unfolding is_vehicle merge_vehicle
  merge_item now id patch v = if is_vehicle id v then merge_vehicle now id patch v else v

  update_page : String → String → Live number → Option (List Vehicle) → Option (List Vehicle)
  unfolding merge_item is_vehicle
  update_page now id patch none = none
  update_page now id patch (some old) =
      some (if any (is_vehicle id) old then map (merge_item now id patch) old else old)

  -- `setQueryData`: an updater that returns `undefined` leaves the cache as it is.
  set_query_data {ℓ} :
      {V : Type ℓ} → String → Option V → List (String × Option V) → List (String × Option V)
  unfolding put
  set_query_data k none cache = cache
  set_query_data k (some v) cache = put k (some v) cache

  update_caches : String → String → Live number → Live number → Caches → Caches
  unfolding update_statuses update_live update_detail update_page set_query_data get
  update_caches now id patch merged c = record {
    statuses = update_statuses now id patch merged c.statuses;
    lives = set_query_data id (update_live now id patch (get id c.lives)) c.lives;
    details = set_query_data id (update_detail now id patch (get id c.details)) c.details;
    pages = map (update_page now id patch) c.pages;
  }

  unfoldable pub apply_vehicle_status : String → String → Live number → Client → Client
  unfolding update_caches
  apply_vehicle_status now id patch w =
      let (merged, store) = upsert_vehicle number now id patch w.store in
      record w { store = store; caches = update_caches now id patch merged w.caches }

  invalidate : List QueryKey → Client → Client
  invalidate keys w = record w { stale = w.stale ++ keys }

  apply_named : String → Option String → Live number → Client → Client
  unfolding apply_vehicle_status
  apply_named now none d w = w
  apply_named now (some id) d w = apply_vehicle_status now id d w

  on_vehicle_status : String → Option (Live number) → Client → Client
  unfolding apply_named get
  on_vehicle_status now none w = w
  on_vehicle_status now (some d) w = apply_named now (as_str (get "vehicle_id" d)) d w

  abbrev or_untitled : Option String → String
  or_untitled none = "新通知"
  or_untitled (some title) = title

  toast_of : Option (Live number) → Client → Client
  unfolding get
  toast_of none w = w
  toast_of (some d) w = record w {
    toasts =
        w.toasts ++ (or_untitled (truthy (as_str (get "title" d))), as_str (get "content" d)) ∷ [];
  }

  on_notification : Option (Live number) → Client → Client
  unfolding toast_of invalidate
  on_notification d w =
      invalidate (notifications ∷ []) (toast_of d (record w { store = inc_unread number w.store }))

  -- A vehicle that the store does not hold is left alone.
  apply_online : String → String → Bool → Option (Live number) → Client → Client
  unfolding apply_vehicle_status
  apply_online now id online none w = w
  apply_online now id online (some _) w =
      apply_vehicle_status now id
        (("vehicle_id", some (str id)) ∷ ("online", some (bool online)) ∷ []) w

  set_online : String → Option String → Option Bool → Client → Client
  unfolding apply_online get
  set_online now (some id) (some online) w = apply_online now id online (get id w.store.vehicles) w
  set_online now _ _ w = w

  on_device_online : String → Option (Live number) → Client → Client
  unfolding set_online get
  on_device_online now none w = w
  on_device_online now (some d) w =
      set_online now (as_str (get "vehicle_id" d)) (as_bool (get "online" d)) w

  -- The cases of the `switch`.
  dispatch : String → EventType → Option (Live number) → Client → Client
  unfolding on_vehicle_status on_notification on_device_online invalidate
  dispatch now vehicle_status d w = on_vehicle_status now d w
  dispatch now notification_new d w = on_notification d w
  dispatch now approval_updated d w = invalidate (approvals ∷ dashboard ∷ []) w
  dispatch now trip_change d w = invalidate (trips ∷ dashboard ∷ []) w
  dispatch now charging_updated d w = invalidate (charging ∷ dashboard ∷ []) w
  dispatch now account_updated d w = invalidate (billing ∷ []) w
  dispatch now device_online d w = on_device_online now d (invalidate (devices ∷ dashboard ∷ []) w)
  dispatch now other d w = w

  handle_typed : String → Option String → Message → Client → Client
  unfolding dispatch event_type
  handle_typed now none m w = w
  handle_typed now (some type) m w =
      if type == "pong"
      then w
      else dispatch now (event_type type) m.data_of
          (record w { store = touch number now m.ts w.store })

  -- `handleEvent` on an object; on anything else it does nothing.
  unfoldable pub handle_event : String → Message → Client → Client
  unfolding handle_typed
  handle_event now m w = handle_typed now (truthy m.type) m w

  unfoldable pub handle_all : String → List Message → Client → Client
  handle_all now [] w = w
  handle_all now (m ∷ ms) w = handle_all now ms (handle_event now m w)
