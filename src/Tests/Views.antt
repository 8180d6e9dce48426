-- ===== src/Tests/Views.antt =====
-- The map that is drawn, over natural numbers: a press that pans it, one that picks a point, and its zoom.
use zhiyuche.Common.{ℕ, ltb, true, false, List, [], ◌∷◌, ◌≡◌, refl, arith}
use zhiyuche.Geo.{Bounds, is_valid_lng_lat}
use zhiyuche.Tests.Requests.{naturals}
use zhiyuche.Tests.Tracks.{flat_math}
use zhiyuche.Viewport.{Canvas, Event, resize, wheel, zoom, run, mounted, make_projection, unproject}
use zhiyuche.Viewport.Laws.{gesture, after_gesture, run-gesture}
use zhiyuche.Viewport.Zoom.{IsWithin, run-IsWithin}

abbrev shown : Bounds naturals
shown = record { min_lng = 100; min_lat = 20; max_lng = 120; max_lat = 40 }

abbrev canvas : Canvas naturals flat_math
canvas = mounted naturals flat_math shown true

run-gesture_example :
    run naturals flat_math
      (gesture naturals flat_math (10, 10) ((12, 11) ∷ (30, 20) ∷ (11, 10) ∷ []) (11, 10))
      canvas
    ≡ after_gesture naturals flat_math
        (10, 10)
        ((12, 11) ∷ (30, 20) ∷ (11, 10) ∷ [])
        (11, 10)
        canvas
run-gesture_example =
    run-gesture naturals flat_math (10, 10) (11, 10) ((12, 11) ∷ (30, 20) ∷ (11, 10) ∷ []) canvas

not_below_itself : (n : ℕ) → ltb n n ≡ false
not_below_itself n = ground arith

abbrev zooms : List (Event naturals flat_math)
zooms =
    resize (record { w = 300; h = 200 })
    ∷ zoom 100
    ∷ wheel 1 (5, 5) (record { w = 300; h = 200 })
    ∷ []

run-IsWithin_example : IsWithin naturals flat_math (run naturals flat_math zooms canvas).view
run-IsWithin_example =
    run-IsWithin naturals flat_math not_below_itself refl refl refl zooms shown true

-- The pointer stays near, and the point under the click is reported.
picked :
    (run naturals flat_math
      (gesture naturals flat_math (10, 10) ((11, 10) ∷ []) (11, 10))
      canvas).clicks
    ≡ unproject naturals flat_math
        (make_projection naturals flat_math shown (record { w = 0; h = 0 }) canvas.view)
        (11, 10)
      ∷ []
unfolding run mounted make_projection unproject is_valid_lng_lat
picked = refl
