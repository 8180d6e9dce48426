-- ===== src/Toast/Laws.antt =====
-- Few toasts, told apart, and none that stays for ever.
use zhiyuche.Common.{
  ℕ, zero, suc, ◌-◌, ◌≤◌, ◌<◌, Bool, true, false, not, List, [], ◌∷◌, ◌++◌, length, filter, eqb,
  All, All-append, ◌≡◌, refl, arith, length-append, Bool-cases, inl, inr, ◌||◌,
}
use zhiyuche.Toast.{
  ToastItem, ToastOptions, Toasts, drop_front, slice_last, show, is_pending, dismiss, Event, shown,
  closed, fired, step, run, no_toasts,
}

-- Numbers that grow along the list and lie between the two.
abbrev pub Ascends : ℕ → ℕ → List ToastItem → Type 0
Ascends low high [] = low ≤ high
Ascends low high (it ∷ rest) = (low < it.id) × Ascends it.id high rest

abbrev pub HasTimer : List ℕ → ToastItem → Type 0
HasTimer timers it = is_pending it.id timers ≡ true

pub record IsOrderly (s : Toasts) : Type 0 where
  pub few : length s.items ≤ 5
  pub in_order : Ascends 0 s.seq s.items
  pub will_end : All (HasTimer s.timers) s.items

Ascends-lower : (a b high : ℕ) (xs : List ToastItem) → a ≤ b → Ascends b high xs → Ascends a high xs
Ascends-lower a b high [] h asc = omega arith
Ascends-lower a b high (x ∷ xs) h (lt, asc) = (omega arith, asc)

Ascends-drop_front :
    (n low high : ℕ) (xs : List ToastItem)
    → Ascends low high xs
    → Ascends low high (drop_front n xs)
unfolding drop_front
Ascends-drop_front zero low high xs h = h
Ascends-drop_front (suc n) low high [] h = h
Ascends-drop_front (suc n) low high (x ∷ xs) (lt, h) =
    Ascends-drop_front n low high xs (Ascends-lower low x.id high xs (omega arith) h)

Ascends-append :
    (low high : ℕ) (xs : List ToastItem) (it : ToastItem)
    → Ascends low high xs
    → it.id ≡ suc high
    → Ascends low (suc high) (xs ++ it ∷ [])
Ascends-append low high [] it h e = (omega arith, omega arith)
Ascends-append low high (x ∷ xs) it (lt, h) e = (lt, Ascends-append x.id high xs it h e)

Ascends-filter :
    (p : ToastItem → Bool) (low high : ℕ) (xs : List ToastItem)
    → Ascends low high xs
    → Ascends low high (filter p xs)
Ascends-filter p low high [] h = h
Ascends-filter p low high (x ∷ xs) (lt, h) = elim (Bool-cases (p x)) [
  | inl kept ↦ rw kept (lt, Ascends-filter p x.id high xs h)
  | inr gone ↦
      rw gone
        (Ascends-lower low x.id high (filter p xs) (omega arith) (Ascends-filter p x.id high xs h))
]

length-drop_front : (n : ℕ) (xs : List ToastItem) → length (drop_front n xs) ≡ length xs - n
unfolding drop_front
length-drop_front zero xs = omega arith
length-drop_front (suc n) [] = omega arith
length-drop_front (suc n) (x ∷ xs) = omega (arith, length-drop_front n xs)

length-filter : (p : ToastItem → Bool) (xs : List ToastItem) → length (filter p xs) ≤ length xs
length-filter p [] = omega arith
length-filter p (x ∷ xs) = ground (arith, length-filter p xs)

All-drop_front :
    (P : ToastItem → Type 0) (n : ℕ) (xs : List ToastItem) → All P xs → All P (drop_front n xs)
unfolding drop_front
All-drop_front P zero xs h = h
All-drop_front P (suc n) [] h = h
All-drop_front P (suc n) (x ∷ xs) (_, h) = All-drop_front P n xs h

is_pending-append :
    (id : ℕ) (ts : List ℕ) (t : ℕ) → is_pending id (ts ++ t ∷ []) ≡ (is_pending id ts || eqb t id)
is_pending-append id [] t = ground arith
is_pending-append id (u ∷ ts) t = ground (arith, is_pending-append id ts t)

timers_added :
    (ts : List ℕ) (t : ℕ) (xs : List ToastItem)
    → All (HasTimer ts) xs
    → All (HasTimer (ts ++ t ∷ [])) xs
timers_added ts t [] h = tt
timers_added ts t (x ∷ xs) (h, hs) =
    (ground (arith, is_pending-append x.id ts t), timers_added ts t xs hs)

is_pending-filter :
    (id other : ℕ) (ts : List ℕ)
    → eqb other id ≡ false
    → is_pending other ts ≡ true
    → is_pending other (filter (λ t. not (eqb t id)) ts) ≡ true
is_pending-filter id other [] differ h = h
is_pending-filter id other (t ∷ ts) differ h = ground (arith, is_pending-filter id other ts differ)

timers_left :
    (id : ℕ) (ts : List ℕ) (xs : List ToastItem)
    → All (HasTimer ts) xs
    → All (HasTimer (filter (λ t. not (eqb t id)) ts)) (filter (λ it. not (eqb it.id id)) xs)
timers_left id ts [] h = tt
timers_left id ts (x ∷ xs) (h, hs) = elim (Bool-cases (eqb x.id id)) [
  | inl same ↦ rw same (timers_left id ts xs hs)
  | inr differ ↦ rw differ (is_pending-filter id x.id ts differ h, timers_left id ts xs hs)
]

show-IsOrderly : (opts : ToastOptions) (s : Toasts) → IsOrderly s → IsOrderly (show opts s).1
unfolding show slice_last
show-IsOrderly opts s h =
    let left : List ToastItem = drop_front (length s.items - 4) s.items in
    let cut = length-drop_front (length s.items - 4) s.items in
    record {
      few = omega (arith, cut, h.few, length-append left (_ ∷ []));
      in_order =
          Ascends-append 0 s.seq left _
            (Ascends-drop_front (length s.items - 4) 0 s.seq s.items h.in_order) refl;
      will_end =
          All-append (HasTimer (s.timers ++ suc s.seq ∷ [])) left _
            (timers_added s.timers (suc s.seq) left
              (All-drop_front (HasTimer s.timers) (length s.items - 4) s.items h.will_end))
            (ground (arith, is_pending-append (suc s.seq) s.timers (suc s.seq)), tt);
    }

dismiss-IsOrderly : (id : ℕ) (s : Toasts) → IsOrderly s → IsOrderly (dismiss id s)
unfolding dismiss
dismiss-IsOrderly id s h =
    let fewer = length-filter (λ it. not (eqb it.id id)) s.items in
    record {
      few = omega (arith, fewer, h.few);
      in_order = Ascends-filter _ 0 s.seq s.items h.in_order;
      will_end = timers_left id s.timers s.items h.will_end;
    }

step-IsOrderly : (s : Toasts) (e : Event) → IsOrderly s → IsOrderly (step s e)
unfolding step
step-IsOrderly s (shown opts) h = show-IsOrderly opts s h
step-IsOrderly s (closed id) h = dismiss-IsOrderly id s h
step-IsOrderly s (fired id) h = elim (Bool-cases (is_pending id s.timers)) [
  | inl pending ↦ rw pending (dismiss-IsOrderly id s h)
  | inr gone ↦ rw gone h
]

run-IsOrderly_from : (s : Toasts) (es : List Event) → IsOrderly s → IsOrderly (run s es)
unfolding run
run-IsOrderly_from s [] h = h
run-IsOrderly_from s (e ∷ es) h = run-IsOrderly_from (step s e) es (step-IsOrderly s e h)

-- After any sequence of new toasts, clicks and timers there are at most five toasts, their numbers
-- grow from the oldest to the newest, so that no two share one, and each has a timer pending.
pub run-IsOrderly : (es : List Event) → IsOrderly (run no_toasts es)
run-IsOrderly es =
    run-IsOrderly_from no_toasts es
      (record { few = omega arith; in_order = omega arith; will_end = tt })
