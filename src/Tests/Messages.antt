-- ===== src/Tests/Messages.antt =====
-- Messages about one vehicle, and notifications.
use zhiyuche.Common.{true, none, some, [], ◌∷◌, ◌≡◌, refl}
use zhiyuche.Common.Json.{bool}
use zhiyuche.Tests.Requests.{naturals}
use zhiyuche.Tests.Sockets.{car, patch}
use zhiyuche.Realtime.{get, put, merge_vehicle_live, initial}
use zhiyuche.Realtime.Events.{Vehicle, Client, Message, names, apply_vehicle_status, handle_event}
use zhiyuche.Realtime.Events.Coherence.{IsCoherent, apply_vehicle_status-IsCoherent}

abbrev detail : Vehicle naturals
detail = record { id = "v1"; status = none; live = some car }

-- The store and the caches hold one state of the vehicle.
abbrev client : Client naturals
client = record {
  store = record (initial naturals) { vehicles = ("v1", some car) ∷ [] };
  caches = record {
    statuses = some (car ∷ []);
    lives = ("v1", some car) ∷ [];
    details = ("v1", some detail) ∷ [];
    pages = some (detail ∷ []) ∷ none ∷ [];
  };
  stale = [];
  toasts = [];
}

inside {ℓ} : {A : Type ℓ} (x y : A) → some x ≡ some y → y ≡ x
inside x y e = cc

client-IsCoherent : IsCoherent naturals "v1" car client
unfolding get names
client-IsCoherent = record {
  stored = refl;
  in_statuses = (λ named. refl, tt);
  in_lives = λ old e. inside car old e;
  in_details = λ old e. let is : old ≡ detail = inside detail old e in rw is (refl, refl);
  in_pages = ((λ same. (refl, refl), tt), (tt, tt));
}

apply_vehicle_status-IsCoherent_example :
    IsCoherent naturals "v1"
      (merge_vehicle_live naturals "now" (some car) "v1" patch)
      (apply_vehicle_status naturals "now" "v1" patch client)
apply_vehicle_status-IsCoherent_example =
    apply_vehicle_status-IsCoherent naturals "now" "v1" patch car client client-IsCoherent

abbrev news : Message naturals
news = record { type = some "notification.new"; ts = none; data_of = none }

abbrev status : Message naturals
status = record { type = some "vehicle.status"; ts = some "t"; data_of = some patch }

titles :
    (handle_event naturals "now" (record news { data_of = some [] }) client).toasts
    ≡ ("新通知", none) ∷ []
unfolding handle_event get
titles = refl

now_online :
    get "online" (merge_vehicle_live naturals "now" (some car) "v1" patch) ≡ some (bool true)
unfolding merge_vehicle_live get put
now_online = refl
