-- ===== src/Tests/Sockets.antt =====
-- A connection that is lost and made again, and patches of one vehicle.
use zhiyuche.Socket.Url.{Place, build_ws_url}
use zhiyuche.Common.Text.{trim, includes, starts_with}
use zhiyuche.Common.{◌≤◌, ◌<◌, true, false, none, some, List, [], ◌∷◌, ◌≡◌, ◌≢◌, refl, ◌⊎◌, arith}
use zhiyuche.Common.Json.{str, bool}
use zhiyuche.Tests.Requests.{naturals}
use zhiyuche.Socket.{
  idle, backoff, delay, made_one, throws, timer, open_of, close_of, Event, step, session,
}
use zhiyuche.Socket.Laws.{IsSound, session-IsSound, session_alive, delay-backoff}
use zhiyuche.Realtime.{get, put, Live, merge_vehicle_live}

-- The first socket opens and is lost; the next attempt throws, the one after it opens.
abbrev lost_and_back : List Event
lost_and_back = open_of 0 ∷ close_of 0 1000 ∷ timer (throws 1000) ∷ timer made_one ∷ open_of 1 ∷ []

resynced : (session idle 0 made_one lost_and_back).resyncs ≡ 1
unfolding session step
resynced = refl

waits :
    (session idle 0 made_one (open_of 0 ∷ close_of 0 1000 ∷ timer (throws 1000) ∷ [])).reconnect
    ≡ some 2000
unfolding session step delay backoff
waits = refl

session-IsSound_example : IsSound (session idle 0 made_one lost_and_back)
session-IsSound_example = session-IsSound idle 0 made_one lost_and_back

session_alive_example :
    ((session idle 0 made_one lost_and_back).socket ≢ none)
    ⊎ ((session idle 0 made_one lost_and_back).reconnect ≢ none)
unfolding session step
session_alive_example = session_alive idle 0 made_one lost_and_back refl refl refl

delay-backoff_example :
    ((delay (backoff 2) 1200 < delay (backoff 5) 800) ⊎ ((backoff 2 ≡ 30000) × (backoff 5 ≡ 30000)))
    × (backoff 1 ≡ 1000)
    × (800 ≤ delay (backoff 2) 1200)
    × (delay (backoff 2) 1200 ≤ 36000)
delay-backoff_example =
    delay-backoff 2 5 1200 800 (omega arith) (omega arith) (omega arith) (omega arith) (omega arith)

abbrev pub car : Live naturals
car =
    ("vehicle_id", some (str "v1"))
    ∷ ("plate_no", some (str "A 1"))
    ∷ ("online", some (bool false))
    ∷ []

abbrev pub patch : Live naturals
patch = ("vehicle_id", some (str "v1")) ∷ ("online", some (bool true)) ∷ ("locked", none) ∷ []

kept_plate :
    get "plate_no" (merge_vehicle_live naturals "now" (some car) "v1" patch) ≡ some (str "A 1")
unfolding merge_vehicle_live get put
kept_plate = refl

abbrev page : Place
page = record {
  ws_url = some " ";
  api_base = some "https://car.example/api/";
  protocol = "http:";
  host = "localhost";
}

abbrev page_alone : Place
page_alone = record { ws_url = none; api_base = none; protocol = "https:"; host = "car.example" }

ws_urls :
    (build_ws_url (λ s. s) page "t1" none ≡ "wss://car.example/api/ws?access_token=t1")
    × (build_ws_url (λ s. s) page_alone "t1" (some "7")
        ≡ "wss://car.example/api/v1/ws?access_token=t1&tenant_id=7")
unfolding build_ws_url trim includes starts_with
ws_urls = (refl, refl)
