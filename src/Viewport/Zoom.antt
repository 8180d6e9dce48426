-- ===== src/Viewport/Zoom.antt =====
-- How far the view can zoom.
use zhiyuche.Common.{
  ℕ, zero, suc, Bool, true, false, not, ◌&&◌, Option, none, some, List, [], ◌∷◌, ◌≡◌, inl, inr,
  Bool-cases, if◌then◌else◌, eqb,
}
use zhiyuche.Common.Number.{Number}
use zhiyuche.Geo.{MathOf, Bounds, max_of, is_valid_lng_lat}
use zhiyuche.Viewport.{
  View, min_k, max_k, make_projection, unproject, zoomed, zoom_by, wheel_zoom, Drag, Canvas, Event,
  resize, wheel, zoom, fit, down, move, up, click, timeout, pressed, is_near, dragged, moved_by,
  has_moved, timed_out, step, run, mounted,
}

module _ (number : Number) (math : MathOf number) where
  open number use {Carrier, of_ℕ, plus, minus, times, ltn, parse}

  -- The zoom is neither below the least nor above the most.
  abbrev pub IsWithin : View number math → Type 0
  IsWithin v = (ltn v.k (min_k number math) ≡ false) × (ltn (max_k number math) v.k ≡ false)

  module _ (irreflexive : (a : Carrier) → ltn a a ≡ false)
      (ordered : ltn (max_k number math) (min_k number math) ≡ false)
      (one_above : ltn (of_ℕ 1) (min_k number math) ≡ false)
      (one_below : ltn (max_k number math) (of_ℕ 1) ≡ false) where
    not_below :
        (a : Carrier) → ltn (max_of number (min_k number math) a) (min_k number math) ≡ false
    not_below a = elim (Bool-cases (ltn a (min_k number math))) [
      | inl lower ↦ rw lower (irreflexive (min_k number math))
      | inr higher ↦ rw higher higher
    ]

    zoomed-IsWithin :
        (k f : Carrier)
        → (ltn (zoomed number math k f) (min_k number math) ≡ false)
          × (ltn (max_k number math) (zoomed number math k f) ≡ false)
    unfolding zoomed
    zoomed-IsWithin k f =
        let m = max_of number (min_k number math) (times k f) in
        elim (Bool-cases (ltn (max_k number math) m)) [
          | inl over_it ↦ rw over_it (ordered, irreflexive (max_k number math))
          | inr under_it ↦ rw under_it (not_below (times k f), under_it)
        ]

    -- The view of one canvas or of another.
    either :
        (b : Bool) (c e : Canvas number math)
        → IsWithin c.view
        → IsWithin e.view
        → IsWithin (if b then c else e).view
    either true c e h k = h
    either false c e h k = k

    step-IsWithin :
        (e : Event number math) (c : Canvas number math)
        → IsWithin c.view
        → IsWithin (step number math e c).view
    unfolding step zoom_by wheel_zoom
    step-IsWithin (resize size) c h = h
    step-IsWithin (wheel delta p size) c h =
        zoomed-IsWithin c.view.k (if ltn delta (of_ℕ 0) then parse "1.25" else parse "0.8")
    step-IsWithin (zoom f) c h = zoomed-IsWithin c.view.k f
    step-IsWithin fit c h = (one_above, one_below)
    step-IsWithin (down button p) c h =
        either (eqb button 0) (record c { drag = some (pressed number math p c.view) }) c h h
    step-IsWithin (move p) c h = moved_within c.drag
      where
        moved_within : (d : Option (Drag number math)) → IsWithin (moved_by number math d p c).view
        moved_within none = h
        moved_within (some d) =
            either (not d.moved && is_near number math d p) c
              (record c {
                drag = some (record d { moved = true });
                view = dragged number math d p c.view;
              })
              h h
    step-IsWithin up c h = h
    step-IsWithin (click p) c h =
        let at = unproject number math (make_projection number math c.bounds c.size c.view) p in
        either
          (not (has_moved number math c.drag) && (c.listens && is_valid_lng_lat number math at))
          (record c { clicks = at ∷ c.clicks }) c h h
    step-IsWithin timeout c h = timed_within c.timers
      where
        timed_within : (n : ℕ) → IsWithin (timed_out number math n c).view
        timed_within zero = h
        timed_within (suc n) = h

    run_from :
        (es : List (Event number math)) (c : Canvas number math)
        → IsWithin c.view
        → IsWithin (run number math es c).view
    unfolding run
    run_from [] c h = h
    run_from (e ∷ es) c h = run_from es (step number math e c) (step-IsWithin e c h)

    -- In every history of the map the zoom stays within its limits: where no number is below itself, and 1 lies
    -- between the limits.
    pub run-IsWithin :
        (es : List (Event number math)) (bounds : Bounds number) (listens : Bool)
        → IsWithin (run number math es (mounted number math bounds listens)).view
    unfolding mounted
    run-IsWithin es bounds listens =
        run_from es (mounted number math bounds listens) (one_above, one_below)
