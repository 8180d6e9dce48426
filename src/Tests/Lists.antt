-- ===== src/Tests/Lists.antt =====
-- Pages of a list, and toasts.
use zhiyuche.Common.{◌≤◌, true, none, some, List, [], ◌∷◌, any, length, ◌≡◌, refl, arith}
use zhiyuche.Pagination.{page, gap, page_items, page_count, current_page, go}
use zhiyuche.Pagination.Laws.{IsTrail, is_page, page_items-IsTrail}
use zhiyuche.Toast.{error, ToastOptions, Event, shown, closed, fired, run, no_toasts, show, step}
use zhiyuche.Toast.Laws.{IsOrderly, run-IsOrderly}

middle : page_items 5 9 ≡ page 1 ∷ gap ∷ page 4 ∷ page 5 ∷ page 6 ∷ gap ∷ page 9 ∷ []
unfolding page_items
middle = refl

beyond : current_page 7 (page_count 20 45) ≡ 3
unfolding current_page page_count
beyond = refl

away : go 20 3 3 4 ≡ none
unfolding go
away = refl

page_items-IsTrail_example :
    IsTrail 0 9 (page_items 5 9)
    × ((any (is_page 5) (page_items 5 9) ≡ true) × (length (page_items 5 9) ≤ 7))
page_items-IsTrail_example = page_items-IsTrail 5 9 (omega arith) (omega arith)

abbrev note : ToastOptions
note = record { type = some error; title = "no"; description = none; duration = none }

abbrev busy : List Event
busy =
    shown note
    ∷ shown note
    ∷ closed 1
    ∷ fired 1
    ∷ shown note
    ∷ shown note
    ∷ shown note
    ∷ shown note
    ∷ []

five_left : length (run no_toasts busy).items ≡ 5
unfolding run step show
five_left = refl

long : (show note no_toasts).0 ≡ 5000
unfolding show
long = refl

run-IsOrderly_example : IsOrderly (run no_toasts busy)
run-IsOrderly_example = run-IsOrderly busy
