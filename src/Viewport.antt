-- ===== src/Viewport.antt =====
-- components/map/SchematicMap.tsx: the view of the map that is drawn, which zooms and is dragged, with the
-- pointer's events and the browser's timers as events. A point of the screen is relative to the container.
pub mod Grid
pub mod Laws
pub mod Zoom
use zhiyuche.Common.{
  ℕ, zero, suc, Bool, true, false, not, ◌&&◌, Option, none, some, List, [], ◌∷◌, eqb, if◌then◌else◌,
}
use zhiyuche.Common.Number.{Number}
use zhiyuche.Geo.{MathOf, LngLat, min_of, max_of, Bounds, bounds_center, is_valid_lng_lat}

module _ (number : Number) (math : MathOf number) where
  open number use {Carrier, of_ℕ, neg, plus, minus, times, over, ltn, parse}
  open math use {pi, cos, hypot}

  abbrev pub Point : Type 0
  Point = Carrier × Carrier

  pub record Size : Type 0 where
    pub w : Carrier
    pub h : Carrier

  pub record View : Type 0 where
    pub k : Carrier
    pub tx : Carrier
    pub ty : Carrier

  -- `IDENTITY`, `MIN_K`, `MAX_K` and `PAD`
  abbrev pub identity : View
  identity = record { k = of_ℕ 1; tx = of_ℕ 0; ty = of_ℕ 0 }

  abbrev pub min_k : Carrier
  min_k = parse "0.25"

  abbrev pub max_k : Carrier
  max_k = of_ℕ 64

  abbrev pad : Carrier
  pad = of_ℕ 34

  -- What `makeProjection` computes of its arguments, and the two functions that it returns.
  pub record Projection : Type 0 where
    pub cx : Carrier
    pub cy : Carrier
    pub cos_lat : Carrier
    pub px_per_deg_lat : Carrier
    pub ox : Carrier
    pub oy : Carrier

  unfoldable pub make_projection : Bounds number → Size → View → Projection
  unfolding bounds_center
  make_projection b size view =
      let (cx, cy) = bounds_center number b in
      let cos_lat = max_of number (parse "0.2") (cos (over (times cy pi) (of_ℕ 180))) in
      let inner_w = max_of number (of_ℕ 1) (minus size.w (times pad (of_ℕ 2))) in
      let inner_h = max_of number (of_ℕ 1) (minus size.h (times pad (of_ℕ 2))) in
      let span_lng = max_of number (parse "1e-6") (times (minus b.max_lng b.min_lng) cos_lat) in
      let span_lat = max_of number (parse "1e-6") (minus b.max_lat b.min_lat) in
      record {
        cx = cx;
        cy = cy;
        cos_lat = cos_lat;
        px_per_deg_lat =
            times (min_of number (over inner_w span_lng) (over inner_h span_lat)) view.k;
        ox = plus (over size.w (of_ℕ 2)) view.tx;
        oy = plus (over size.h (of_ℕ 2)) view.ty;
      }

  unfoldable pub project : Projection → LngLat number → Point
  project p (lng, lat) = (
    plus (times (times (minus lng p.cx) p.cos_lat) p.px_per_deg_lat) p.ox,
    plus (times (neg (minus lat p.cy)) p.px_per_deg_lat) p.oy,
  )

  unfoldable pub unproject : Projection → Point → LngLat number
  unproject p (x, y) = (
    plus (over (minus x p.ox) (times p.cos_lat p.px_per_deg_lat)) p.cx,
    plus (over (neg (minus y p.oy)) p.px_per_deg_lat) p.cy,
  )

  -- The zoom within its limits.
  unfoldable pub zoomed : Carrier → Carrier → Carrier
  zoomed k f = min_of number max_k (max_of number min_k (times k f))

  -- `zoomBy`
  unfoldable pub zoom_by : Carrier → View → View
  unfolding zoomed
  zoom_by f v =
      let k = zoomed v.k f in
      let real = over k v.k in record { k = k; tx = times real v.tx; ty = times real v.ty }

  -- What the wheel does at a point of a container of that size.
  unfoldable pub wheel_zoom : Carrier → Point → Size → View → View
  unfolding zoomed
  wheel_zoom delta (x, y) size v =
      let f = if ltn delta (of_ℕ 0) then parse "1.25" else parse "0.8" in
      let k = zoomed v.k f in
      let real = over k v.k in
      record {
        k = k;
        tx = plus (times (minus (of_ℕ 1) real) (minus x (over size.w (of_ℕ 2)))) (times real v.tx);
        ty = plus (times (minus (of_ℕ 1) real) (minus y (over size.h (of_ℕ 2)))) (times real v.ty);
      }

  pub record Drag : Type 0 where
    pub x : Carrier
    pub y : Carrier
    pub tx : Carrier
    pub ty : Carrier
    pub moved : Bool

  -- The canvas: `timers` are the timeouts of `onPointerUp` that are still to come, `listens` says whether
  -- there is an `onClick`, and `clicks` are its calls, the last one first.
  pub record Canvas : Type 0 where
    pub bounds : Bounds number
    pub size : Size
    pub view : View
    pub drag : Option Drag
    pub timers : ℕ
    pub listens : Bool
    pub clicks : List (LngLat number)

  pub data Event : Type 0 where
    resize : Size → Event
    wheel : Carrier → Point → Size → Event
    -- the three buttons
    zoom : Carrier → Event
    fit : Event
    -- the pointer: pressed with a button, moved, released, and the click that follows
    down : ℕ → Point → Event
    move : Point → Event
    up : Event
    click : Point → Event
    timeout : Event

  unfoldable pub pressed : Point → View → Drag
  pressed (x, y) v = record { x = x; y = y; tx = v.tx; ty = v.ty; moved = false }

  -- Nearer than 4 pixels to where the pointer was pressed.
  unfoldable pub is_near : Drag → Point → Bool
  is_near d (x, y) = ltn (hypot (minus x d.x) (minus y d.y)) (of_ℕ 4)

  unfoldable pub dragged : Drag → Point → View → View
  dragged d (x, y) v = record v { tx = plus d.tx (minus x d.x); ty = plus d.ty (minus y d.y) }

  unfoldable pub moved_by : Option Drag → Point → Canvas → Canvas
  unfolding is_near dragged
  moved_by none p c = c
  moved_by (some d) p c =
      if not d.moved && is_near d p
      then c
      else record c { drag = some (record d { moved = true }); view = dragged d p c.view }

  unfoldable pub has_moved : Option Drag → Bool
  has_moved none = false
  has_moved (some d) = d.moved

  -- `onBackgroundClick`
  unfoldable pub clicked : Point → Canvas → Canvas
  unfolding has_moved make_projection unproject is_valid_lng_lat
  clicked p c =
      let at = unproject (make_projection c.bounds c.size c.view) p in
      if not (has_moved c.drag) && (c.listens && is_valid_lng_lat number math at)
      then record c { clicks = at ∷ c.clicks }
      else c

  unfoldable pub timed_out : ℕ → Canvas → Canvas
  timed_out zero c = c
  timed_out (suc n) c = record c { timers = n; drag = none }

  unfoldable pub step : Event → Canvas → Canvas
  unfolding wheel_zoom zoom_by pressed moved_by clicked timed_out
  step (resize size) c = record c { size = size }
  step (wheel delta p size) c = record c { view = wheel_zoom delta p size c.view }
  step (zoom f) c = record c { view = zoom_by f c.view }
  step fit c = record c { view = identity }
  step (down button p) c = if eqb button 0 then record c { drag = some (pressed p c.view) } else c
  step (move p) c = moved_by c.drag p c
  step up c = record c { timers = suc c.timers }
  step (click p) c = clicked p c
  step timeout c = timed_out c.timers c

  unfoldable pub run : List Event → Canvas → Canvas
  unfolding step
  run [] c = c
  run (e ∷ es) c = run es (step e c)

  unfoldable pub mounted : Bounds number → Bool → Canvas
  mounted bounds listens = record {
    bounds = bounds;
    size = record { w = of_ℕ 0; h = of_ℕ 0 };
    view = identity;
    drag = none;
    timers = 0;
    listens = listens;
    clicks = [];
  }
