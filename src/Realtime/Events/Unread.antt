-- ===== src/Realtime/Events/Unread.antt =====
-- The number of unread notifications, over any sequence of messages.
use zhiyuche.Common.{
  ◌≢◌, ◌∙◌, Bool-cases, ap, ℕ, ◌+◌, String, Bool, false, Option, none, some, List, [], ◌∷◌, filter,
  length, ◌==◌, if◌then◌else◌, ◌≡◌, refl, arith, eq_iff, inl, inr,
}
use zhiyuche.Common.Json.{as_str, as_bool}
use zhiyuche.Common.Number.{Number}
use zhiyuche.Session.{truthy}
use zhiyuche.Realtime.{get, Live, or_zero, upsert_vehicle, inc_unread, touch}
use zhiyuche.Realtime.Events.{
  EventType, vehicle_status, notification_new, approval_updated, trip_change, charging_updated,
  account_updated, device_online, other, event_type, Client, Message, apply_vehicle_status,
  apply_named, apply_online, on_vehicle_status, toast_of, on_notification, invalidate, set_online,
  on_device_online, dispatch, handle_typed, handle_event, handle_all,
}

module _ (number : Number) where
  apply_keeps :
      (now id : String) (patch : Live number) (w : Client number)
      → (apply_vehicle_status number now id patch w).store.unread ≡ w.store.unread
  unfolding apply_vehicle_status upsert_vehicle
  apply_keeps now id patch w = refl

  apply_named_keeps :
      (now : String) (id : Option String) (d : Live number) (w : Client number)
      → (apply_named number now id d w).store.unread ≡ w.store.unread
  unfolding apply_named
  apply_named_keeps now none d w = refl
  apply_named_keeps now (some id) d w = apply_keeps now id d w

  on_vehicle_status_keeps :
      (now : String) (d : Option (Live number)) (w : Client number)
      → (on_vehicle_status number now d w).store.unread ≡ w.store.unread
  unfolding on_vehicle_status
  on_vehicle_status_keeps now none w = refl
  on_vehicle_status_keeps now (some d) w = apply_named_keeps now (as_str (get "vehicle_id" d)) d w

  apply_online_keeps :
      (now id : String) (online : Bool) (known : Option (Live number)) (w : Client number)
      → (apply_online number now id online known w).store.unread ≡ w.store.unread
  unfolding apply_online
  apply_online_keeps now id online none w = refl
  apply_online_keeps now id online (some live) w = apply_keeps now id _ w

  set_online_keeps :
      (now : String) (id : Option String) (online : Option Bool) (w : Client number)
      → (set_online number now id online w).store.unread ≡ w.store.unread
  unfolding set_online
  set_online_keeps now (some id) (some online) w =
      apply_online_keeps now id online (get id w.store.vehicles) w
  set_online_keeps now none _ w = refl
  set_online_keeps now (some id) none w = refl

  on_device_online_keeps :
      (now : String) (d : Option (Live number)) (w : Client number)
      → (on_device_online number now d w).store.unread ≡ w.store.unread
  unfolding on_device_online
  on_device_online_keeps now none w = refl
  on_device_online_keeps now (some d) w =
      set_online_keeps now (as_str (get "vehicle_id" d)) (as_bool (get "online" d)) w

  on_notification_counts :
      (d : Option (Live number)) (w : Client number)
      → (on_notification number d w).store.unread ≡ some (or_zero number w.store.unread + 1)
  unfolding on_notification toast_of invalidate inc_unread
  on_notification_counts none w = refl
  on_notification_counts (some d) w = refl

  event_type_news :
      (type : String) → (event_type type ≡ notification_new) → type ≡ "notification.new"
  unfolding event_type
  event_type_news type h = ground (arith, eq_iff type "notification.new")

  dispatch-unread :
      (now : String) (type : EventType) (d : Option (Live number)) (w : Client number)
      → type ≢ notification_new
      → (dispatch number now type d w).store.unread ≡ w.store.unread
  unfolding dispatch invalidate
  dispatch-unread now vehicle_status d w h = on_vehicle_status_keeps now d w
  dispatch-unread now notification_new d w h = elim (h refl) [ ]
  dispatch-unread now device_online d w h = on_device_online_keeps now d _
  dispatch-unread now approval_updated d w h = refl
  dispatch-unread now trip_change d w h = refl
  dispatch-unread now charging_updated d w h = refl
  dispatch-unread now account_updated d w h = refl
  dispatch-unread now other d w h = refl

  -- One more for a new notification.
  abbrev grown : Bool → Option ℕ → ℕ
  grown new unread = if new then or_zero number unread + 1 else or_zero number unread

  dispatch-grown :
      (now type : String) (d : Option (Live number)) (w : Client number)
      → or_zero number (dispatch number now (event_type type) d w).store.unread
        ≡ grown (type == "notification.new") w.store.unread
  unfolding event_type dispatch
  dispatch-grown now type d w = elim (Bool-cases (type == "notification.new")) [
    | inl new ↦
        rw ((eq_iff type "notification.new").0 new)
          (ap (or_zero number) (on_notification_counts d w))
    | inr old ↦
        let kept =
          dispatch-unread now (event_type type) d w
            (λ e. ground (arith, event_type_news type e, eq_iff type "notification.new", old)) in
        let same : or_zero number w.store.unread
            ≡ grown (type == "notification.new") w.store.unread =
          rw old refl in
        ap (or_zero number) kept ∙ same
  ]

  -- The type of a message that says there is a new notification.
  abbrev pub is_new : Option String → Bool
  is_new none = false
  is_new (some type) = type == "notification.new"

  abbrev pub is_news : Message number → Bool
  is_news m = is_new m.type

  handle_typed-unread :
      (now : String) (type : Option String) (m : Message number) (w : Client number)
      → or_zero number (handle_typed number now (truthy type) m w).store.unread
        ≡ grown (is_new type) w.store.unread
  unfolding handle_typed touch
  handle_typed-unread now none m w = refl
  handle_typed-unread now (some type) m w = elim (Bool-cases (type == "")) [
    | inl blank ↦ rw ((eq_iff type "").0 blank) refl
    | inr present ↦ elim (Bool-cases (type == "pong")) [
      | inl pong ↦ rw ((eq_iff type "pong").0 pong) refl
      | inr else_ ↦
          let touched : Client number = record w { store = touch number now m.ts w.store } in
          rw present (rw else_ (dispatch-grown now type m.data_of touched))
    ]
  ]

  handle_event-unread :
      (now : String) (m : Message number) (w : Client number)
      → or_zero number (handle_event number now m w).store.unread ≡ grown (is_news m) w.store.unread
  unfolding handle_event
  handle_event-unread now m w = handle_typed-unread now m.type m w

  -- After any sequence of messages the count of unread notifications has grown by the number of the
  -- messages that say there is a new one; no other message changes it.
  handle_all-unread :
      (now : String) (ms : List (Message number)) (w : Client number)
      → or_zero number (handle_all number now ms w).store.unread
        ≡ or_zero number w.store.unread + length (filter is_news ms)
  unfolding handle_all
  handle_all-unread now [] w = omega arith
  handle_all-unread now (m ∷ ms) w =
      ground
        (arith, handle_all-unread now ms (handle_event number now m w), handle_event-unread now m w)
