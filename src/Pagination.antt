-- ===== src/Pagination.antt =====
-- components/ui/Pagination.tsx: the page numbers that are shown, and where a click leads. Pages and
-- totals are natural numbers. How the buttons look is not modelled.
pub mod Laws
pub mod Rows
use zhiyuche.Common.{
  ℕ, zero, suc, ◌+◌, ◌-◌, ◌*◌, ◌/◌, min, max, Bool, true, false, ◌||◌, Option, none, some, List, [],
  ◌∷◌, ◌++◌, ltb, leb, eqb, if◌then◌else◌,
}

pub data PageItem : Type 0 where
  page : ℕ → PageItem
  gap : PageItem

-- The loop `for (let p = start; ...)`, over the number of its rounds.
pages_from : ℕ → ℕ → List PageItem
pages_from start zero = []
pages_from start (suc n) = page start ∷ pages_from (suc start) n

gap_if : Bool → List PageItem
gap_if skipped = if skipped then gap ∷ [] else []

-- The items where there are more than seven pages.
folded : ℕ → ℕ → List PageItem
unfolding gap_if pages_from
folded current pages =
    let start = max 2 (current - 1) in
    let end = min (pages - 1) (current + 1) in
    page 1
    ∷ (gap_if (ltb 2 start)
        ++ (pages_from start (end + 1 - start)
            ++ (gap_if (ltb end (pages - 1)) ++ page pages ∷ [])))

-- `pageItems`
unfoldable pub page_items : ℕ → ℕ → List PageItem
unfolding folded pages_from
page_items current pages = if leb pages 7 then pages_from 1 pages else folded current pages

-- `pages`, `current`, `from` and `to`; the quotient is rounded up.
unfoldable pub page_count : ℕ → ℕ → ℕ
page_count page_size total = max 1 ((total + max 1 page_size - 1) / max 1 page_size)

unfoldable pub current_page : ℕ → ℕ → ℕ
current_page asked pages = min (max 1 asked) pages

unfoldable pub first_row : ℕ → ℕ → ℕ → ℕ
first_row page_size total current = if eqb total 0 then 0 else (current - 1) * page_size + 1

unfoldable pub last_row : ℕ → ℕ → ℕ → ℕ
last_row page_size total current = min total (current * page_size)

-- `go`: the call of `onChange`, if there is one.
unfoldable pub go : ℕ → ℕ → ℕ → ℕ → Option (ℕ × ℕ)
go page_size current pages p =
    if ltb p 1 || ltb pages p || eqb p current then none else some (p, page_size)
