-- ===== src/Toast.antt =====
-- components/ui/Toast.tsx: the toasts on the screen and their timers. A timer is the number of its
-- toast; how long it runs is returned by `duration_of`, and the browser's firing of it is an event.
pub mod Laws
use zhiyuche.Common.{
  ℕ, zero, suc, ◌+◌, ◌-◌, String, Bool, true, false, not, Option, none, some, List, [], ◌∷◌, ◌++◌,
  length, filter, any, eqb, if◌then◌else◌,
}

pub data ToastType : Type 0 where
  success error info warning : ToastType

pub record ToastOptions : Type 0 where
  pub type : Option ToastType
  pub title : String
  pub description : Option String
  pub duration : Option ℕ

pub record ToastItem : Type 0 where
  pub id : ℕ
  pub type : ToastType
  pub title : String
  pub description : Option String

pub record Toasts : Type 0 where
  pub items : List ToastItem
  pub seq : ℕ
  pub timers : List ℕ

abbrev pub max_visible : ℕ
max_visible = 5

-- `slice(-n)`: the last `n`.
drop_front : ℕ → List ToastItem → List ToastItem
drop_front zero xs = xs
drop_front (suc n) [] = []
drop_front (suc n) (x ∷ xs) = drop_front n xs

slice_last : ℕ → List ToastItem → List ToastItem
unfolding drop_front
slice_last n xs = drop_front (length xs - n) xs

type_of : Option ToastType → ToastType
type_of none = info
type_of (some type) = type

unfoldable pub duration_of : Option ℕ → ToastType → ℕ
duration_of (some duration) type = duration
duration_of none error = 5000
duration_of none success = 3500
duration_of none info = 3500
duration_of none warning = 3500

-- `show`, with the time that its timer is given.
unfoldable pub show : ToastOptions → Toasts → ℕ × Toasts
unfolding slice_last type_of duration_of
show opts s =
    let type = type_of opts.type in
    let id = suc s.seq in
    (
      duration_of opts.duration type,
      record {
        items =
            slice_last (max_visible - 1) s.items
            ++ (record { id = id; type = type; title = opts.title; description = opts.description })
              ∷ [];
        seq = id;
        timers = s.timers ++ id ∷ [];
      },
    )

abbrev pub is_pending : ℕ → List ℕ → Bool
is_pending id timers = any (λ t. eqb t id) timers

-- `dismiss`: by its button or by its timer. To delete a timer that is not there changes nothing.
unfoldable pub dismiss : ℕ → Toasts → Toasts
dismiss id s = record {
  items = filter (λ it. not (eqb it.id id)) s.items;
  seq = s.seq;
  timers = filter (λ t. not (eqb t id)) s.timers;
}

pub data Event : Type 0 where
  shown : ToastOptions → Event
  closed : ℕ → Event
  -- A timer fires only if it is pending.
  fired : ℕ → Event

unfoldable pub step : Toasts → Event → Toasts
unfolding show dismiss
step s (shown opts) = (show opts s).1
step s (closed id) = dismiss id s
step s (fired id) = if is_pending id s.timers then dismiss id s else s

unfoldable pub run : Toasts → List Event → Toasts
run s [] = s
run s (e ∷ es) = run (step s e) es

abbrev pub no_toasts : Toasts
no_toasts = record { items = []; seq = 0; timers = [] }
