-- ===== src/Pagination/Rows.antt =====
-- The rows that the pages announce: together they are all rows, each once.
use native.Mathlib.Nat.{div-mul-le_self, lt-div-mul-add, mul-le-mul, suc-mul, zero-mul}
use zhiyuche.Common.{ℕ, zero, suc, ◌+◌, ◌-◌, ◌*◌, ◌/◌, ◌≤◌, ◌<◌, max, false, eqb, ◌≡◌, refl, arith}
use zhiyuche.Pagination.{page_count, first_row, last_row}

predecessor_times : (a c : ℕ) → 1 ≤ a → a * c ≡ (a - 1) * c + c
predecessor_times zero c h = omega arith
predecessor_times (suc a) c h = let less : suc a - 1 ≡ a = omega arith in rw less (suc-mul a c)

no_room : (size total : ℕ) → 0 * size ≡ 0 → 1 ≤ total → total + size - 1 < 0 * size + size → ⊥
no_room size total e some_rows above = omega arith

-- A quotient rounded up, as a product again.
rounded_up :
    (q size total : ℕ)
    → 1 ≤ size
    → 1 ≤ total
    → q * size ≤ total + size - 1
    → total + size - 1 < q * size + size
    → (1 ≤ max 1 q) × ((total ≤ max 1 q * size) × ((max 1 q - 1) * size < total))
rounded_up zero size total positive some_rows below above =
    let none_left : 0 * size ≡ 0 = zero-mul size in
    elim (no_room size total none_left some_rows above) [ ]
rounded_up (suc r) size total positive some_rows below above =
    let whole : max 1 (suc r) ≡ suc r = omega arith in
    let split = predecessor_times (suc r) size (omega arith) in rw whole (omega arith)

-- The number of pages is the least that has room for all rows.
page_count_bounds :
    (page_size total : ℕ)
    → 1 ≤ page_size
    → 1 ≤ total
    → (1 ≤ page_count page_size total)
      × ((total ≤ page_count page_size total * page_size)
          × ((page_count page_size total - 1) * page_size < total))
unfolding page_count
page_count_bounds page_size total positive some_rows =
    let size : max 1 page_size ≡ page_size = omega arith in
    rw size (
      rounded_up ((total + page_size - 1) / page_size) page_size total positive some_rows
        (div-mul-le_self (total + page_size - 1) page_size)
        (lt-div-mul-add {a = total + page_size - 1} {b = page_size} positive))

times_mono : (a b c : ℕ) → a ≤ b → a * c ≤ b * c
times_mono a b c h = mul-le-mul h (omega arith)

-- For a list that has rows, and a page size: on every page that exists the rows announced are a range
-- within the list of at most the page size; the first page begins with the first row, the rows of a
-- page follow directly on those of the page before, and the last page ends with the last row.
rows-IsPartition :
    (page_size total p : ℕ)
    → 1 ≤ page_size
    → 1 ≤ total
    → 1 ≤ p
    → p ≤ page_count page_size total
    → ((first_row page_size total p ≤ last_row page_size total p)
        × ((last_row page_size total p ≤ total)
            × (last_row page_size total p < first_row page_size total p + page_size)))
      × ((first_row page_size total 1 ≡ 1)
          × ((p < page_count page_size total
                → first_row page_size total (p + 1) ≡ last_row page_size total p + 1)
              × (last_row page_size total (page_count page_size total) ≡ total)))
unfolding first_row last_row
rows-IsPartition page_size total p positive some_rows lo hi =
    let (one, (room, least)) = page_count_bounds page_size total positive some_rows in
    let before = times_mono (p - 1) (page_count page_size total - 1) page_size (omega arith) in
    let next : p * page_size ≡ (p - 1) * page_size + page_size = predecessor_times p page_size lo in
    let not_empty : eqb total 0 ≡ false = ground arith in
    let after : p + 1 - 1 ≡ p = omega arith in
    let later : p < page_count page_size total
        → p * page_size ≤ (page_count page_size total - 1) * page_size =
      λ h. times_mono p (page_count page_size total - 1) page_size (omega arith) in
    rw not_empty (
      (omega arith, (omega arith, omega arith)),
      (rw (zero-mul page_size) refl, (λ h. rw after (let l = later h in omega arith), omega arith)),
    )
