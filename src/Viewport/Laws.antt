-- ===== src/Viewport/Laws.antt =====
-- What a gesture of the pointer does.
use zhiyuche.Common.{
  suc, Bool, true, false, not, ◌&&◌, Option, none, some, List, [], ◌∷◌, ◌≡◌, refl, sym, ◌∙◌, ap,
  inl, inr, arith, Bool-cases, if◌then◌else◌,
}
use zhiyuche.Common.Number.{Number}
use zhiyuche.Geo.{MathOf, LngLat, is_valid_lng_lat}
use zhiyuche.Viewport.{
  Point, View, make_projection, unproject, Drag, Canvas, Event, down, move, up, click, timeout,
  pressed, is_near, dragged, moved_by, has_moved, clicked, timed_out, step, run,
}

module _ (number : Number) (math : MathOf number) where
  open number use {Carrier, of_ℕ, plus, minus, times, ltn, parse}

  abbrev pub then_moves :
      List (Point number math) → List (Event number math) → List (Event number math)
  then_moves [] es = es
  then_moves (m ∷ ms) es = move m ∷ then_moves ms es

  -- The pointer is pressed at a point, moved, and released and clicked at another; then the timeout comes.
  abbrev pub gesture :
      Point number math → List (Point number math) → Point number math → List (Event number math)
  gesture p moves q = down 0 p ∷ then_moves moves (up ∷ click q ∷ timeout ∷ [])

  -- All moves stay near where the pointer was pressed.
  abbrev pub is_still : Drag number math → List (Point number math) → Bool
  is_still d [] = true
  is_still d (m ∷ ms) = is_near number math d m && is_still d ms

  abbrev pub last_of : Point number math → List (Point number math) → Point number math
  last_of m [] = m
  last_of m (n ∷ ns) = last_of n ns

  -- The view follows the pointer from the first move that leads away.
  abbrev pub panned :
      Drag number math → List (Point number math) → View number math → View number math
  panned d [] v = v
  panned d (m ∷ ms) v =
      let rest = panned d ms v in
      if is_near number math d m then rest else dragged number math d (last_of m ms) v

  abbrev pub reported : Point number math → Canvas number math → List (LngLat number)
  reported q c =
      let at = unproject number math (make_projection number math c.bounds c.size c.view) q in
      if c.listens && is_valid_lng_lat number math at then at ∷ c.clicks else c.clicks

  -- The canvas after the gesture.
  abbrev pub after_gesture :
      Point number math
      → List (Point number math)
      → Point number math
      → Canvas number math
      → Canvas number math
  after_gesture p moves q c =
      let d = pressed number math p c.view in
      record c {
        view = panned d moves c.view;
        drag = none;
        clicks = if is_still d moves then reported q c else c.clicks;
      }

  module _ (d : Drag number math) (es : List (Event number math)) where
    abbrev gone : Drag number math
    gone = record d { moved = true }

    abbrev stayed : Drag number math
    stayed = record d { moved = false }

    run-gone :
        (ms : List (Point number math)) (m : Point number math) (c : Canvas number math)
        → run number math
            (then_moves ms es)
            (record c { drag = some gone; view = dragged number math d m c.view })
          ≡ run number math es
              (record c { drag = some gone; view = dragged number math d (last_of m ms) c.view })
    unfolding run moved_by dragged
    run-gone [] m c = refl
    run-gone (n ∷ ms) m c = run-gone ms n c

    -- The canvas once the pointer has led away to a point.
    abbrev away : Point number math → Canvas number math → Canvas number math
    away m c = record c { drag = some gone; view = dragged number math d m c.view }

    moved_near :
        (m : Point number math) (c : Canvas number math)
        → is_near number math stayed m ≡ true
        → moved_by number math (some stayed) m c ≡ c
    unfolding moved_by
    moved_near m c h = ap (λ b. if b then c else away m c) h

    moved_far :
        (m : Point number math) (c : Canvas number math)
        → is_near number math stayed m ≡ false
        → moved_by number math (some stayed) m c ≡ away m c
    unfolding moved_by dragged
    moved_far m c h = ap (λ b. if b then c else away m c) h

    -- The end of the moves, where the first of them is near or not.
    abbrev ended :
        Point number math
        → List (Point number math)
        → Canvas number math
        → Bool
        → Canvas number math
    ended m ms c near =
        if near && is_still stayed ms
        then run number math es (record c { drag = some stayed })
        else run number math es (record c {
          drag = some gone;
          view =
              if near
              then panned stayed ms c.view
              else dragged number math stayed (last_of m ms) c.view;
        })

    run-stayed :
        (ms : List (Point number math)) (c : Canvas number math)
        → run number math (then_moves ms es) (record c { drag = some stayed }) ≡ (
            if is_still stayed ms
            then run number math es (record c { drag = some stayed })
            else run number math es (record c { drag = some gone; view = panned stayed ms c.view }))
    unfolding run step
    run-stayed [] c = refl
    run-stayed (m ∷ ms) c = elim (Bool-cases (is_near number math stayed m)) [
      | inl near ↦
          ap (run number math (then_moves ms es))
            (moved_near m (record c { drag = some stayed }) near)
          ∙ run-stayed ms c
          ∙ sym (ap (ended m ms c) near)
      | inr far ↦
          ap (run number math (then_moves ms es))
            (moved_far m (record c { drag = some stayed }) far)
          ∙ run-gone ms m c
          ∙ sym (ap (ended m ms c) far)
    ]

  panned_still :
      (d : Drag number math) (ms : List (Point number math)) (v : View number math)
      → is_still d ms ≡ true
      → panned d ms v ≡ v
  panned_still d [] v h = refl
  panned_still d (m ∷ ms) v h = elim (Bool-cases (is_near number math d m)) [
    | inl near ↦ rw near (panned_still d ms v (ground (arith, h)))
    | inr far ↦ let no : false ≡ true = ground (arith, h, far) in cc no
  ]

  -- The canvas after the click, with a timeout to come.
  abbrev with_click :
      Bool → Option (Drag number math) → LngLat number → Canvas number math → Canvas number math
  with_click b e at c =
      let waiting = record c { drag = e; timers = suc c.timers } in
      if b then record waiting { clicks = at ∷ c.clicks } else waiting

  timed_out-with_click :
      (b : Bool) (e : Option (Drag number math)) (at : LngLat number) (c : Canvas number math)
      → timed_out number math (with_click b e at c).timers (with_click b e at c)
        ≡ record c { drag = none; clicks = if b then at ∷ c.clicks else c.clicks }
  unfolding timed_out
  timed_out-with_click true e at c = refl
  timed_out-with_click false e at c = refl

  finished :
      (e : Option (Drag number math)) (q : Point number math) (c : Canvas number math)
      → run number math (up ∷ click q ∷ timeout ∷ []) (record c { drag = e }) ≡ record c {
        drag = none;
        clicks = if has_moved number math e then c.clicks else reported q c;
      }
  unfolding run step clicked
  finished e q c =
      let at = unproject number math (make_projection number math c.bounds c.size c.view) q in
      timed_out-with_click
        (not (has_moved number math e) && (c.listens && is_valid_lng_lat number math at)) e at c
      ∙ ap (λ l. record c { drag = none; clicks = l }) (said (has_moved number math e) at)
    where
      said :
          (b : Bool) (at : LngLat number)
          → (if not b && (c.listens && is_valid_lng_lat number math at)
              then at ∷ c.clicks
              else c.clicks)
            ≡ (if b
                then c.clicks
                else (if c.listens && is_valid_lng_lat number math at
                    then at ∷ c.clicks
                    else c.clicks))
      said true at = refl
      said false at = refl

  -- Press, move, release and click: where the pointer stays near, the view is what it was, and the point under
  -- the click is reported if it is valid and somebody listens; once it has led away, the view follows it to the
  -- last move and nothing is reported. Nothing else of the canvas changes, and the drag is over.
  pub run-gesture :
      (p q : Point number math) (moves : List (Point number math)) (c : Canvas number math)
      → run number math (gesture p moves q) c ≡ after_gesture p moves q c
  unfolding run pressed
  run-gesture p q moves c =
      let d = pressed number math p c.view in
      let es = up ∷ click q ∷ timeout ∷ [] in
      run-stayed d es moves c ∙ (elim (Bool-cases (is_still d moves)) [
        | inl still ↦ rw still (
            finished (some d) q c
            ∙ ap (λ v. record c { view = v; drag = none; clicks = reported q c })
                (sym (panned_still d moves c.view still)))
        | inr away_once ↦
            rw away_once (finished (some (gone d es)) q (record c { view = panned d moves c.view }))
      ])
