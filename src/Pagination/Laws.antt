-- ===== src/Pagination/Laws.antt =====
-- The page numbers leave nothing out without saying so.
use mathlib.Core.Path.{subst}
use zhiyuche.Common.{
  ℕ, zero, suc, ◌+◌, ◌-◌, ◌≤◌, ◌<◌, min, max, Bool, true, false, List, [], ◌∷◌, ◌++◌, any, length,
  ltb, leb, eqb, ◌≡◌, refl, ◌∙◌, ap, arith, Bool-cases, inl, inr, ◌⊎◌, length-append, append-nil,
}
use zhiyuche.Pagination.{PageItem, page, gap, pages_from, gap_if, folded, page_items}

-- What follows a page: the next one, or a gap and then a later page than the next; the last is `last`.
abbrev mutual
  pub IsTrail : ℕ → ℕ → List PageItem → Type 0
  IsTrail p last [] = p ≡ last
  IsTrail p last (page q ∷ rest) = (q ≡ p + 1) × IsTrail q last rest
  IsTrail p last (gap ∷ rest) = IsTrailAfterGap p last rest

  pub IsTrailAfterGap : ℕ → ℕ → List PageItem → Type 0
  IsTrailAfterGap p last (page q ∷ rest) = (p + 1 < q) × IsTrail q last rest
  IsTrailAfterGap p last _ = ⊥

abbrev pub is_page : ℕ → PageItem → Bool
is_page n (page m) = eqb m n
is_page n gap = false

IsTrail-pages_from :
    (p n last : ℕ) (rest : List PageItem)
    → IsTrail (p + n) last rest
    → IsTrail p last (pages_from (suc p) n ++ rest)
unfolding pages_from
IsTrail-pages_from p zero last rest h = subst (λ k. IsTrail k last rest) (omega arith) h
IsTrail-pages_from p (suc n) last rest h = (
  omega arith,
  IsTrail-pages_from (suc p) n last rest (subst (λ k. IsTrail k last rest) (omega arith) h),
)

impossible : (k start : ℕ) → start ≤ k → k < start + 0 → ⊥
impossible k start lo hi = omega arith

has-pages_from :
    (k start n : ℕ) (rest : List PageItem)
    → start ≤ k
    → k < start + n
    → any (is_page k) (pages_from start n ++ rest) ≡ true
unfolding pages_from
has-pages_from k start zero rest lo hi = elim (impossible k start lo hi) [ ]
has-pages_from k start (suc n) rest lo hi = ground (arith, has-pages_from k (suc start) n rest)

length-pages_from : (start n : ℕ) → length (pages_from start n) ≡ n
unfolding pages_from
length-pages_from start zero = refl
length-pages_from start (suc n) = ap suc (length-pages_from (suc start) n)

IsTrail-first_run :
    (start m last : ℕ) (rest : List PageItem)
    → 2 ≤ start
    → IsTrail (start + m) last rest
    → IsTrail 1 last (gap_if (ltb 2 start) ++ (pages_from start (suc m) ++ rest))
unfolding gap_if pages_from
IsTrail-first_run start m last rest lo h = elim (Bool-cases (ltb 2 start)) [
  | inl far ↦ rw far (ground arith, IsTrail-pages_from start m last rest h)
  | inr near ↦ rw near (ground arith, IsTrail-pages_from start m last rest h)
]

IsTrail-last :
    (end pages : ℕ)
    → end < pages
    → IsTrail end pages (gap_if (ltb end (pages - 1)) ++ page pages ∷ [])
unfolding gap_if
IsTrail-last end pages h = elim (Bool-cases (ltb end (pages - 1))) [
  | inl far ↦ rw far (ground arith, refl)
  | inr near ↦ rw near (ground arith, refl)
]

-- The items after the first page, where the middle runs from `start` to `end`.
IsTrail-middle :
    (start end n pages : ℕ)
    → 2 ≤ start
    → start ≤ end
    → n ≡ suc (end - start)
    → end < pages
    → IsTrail 1 pages (
        gap_if (ltb 2 start)
        ++ (pages_from start n ++ (gap_if (ltb end (pages - 1)) ++ page pages ∷ [])))
IsTrail-middle start end n pages lo le count hi =
    let ends : IsTrail (start + (end - start)) pages
        (gap_if (ltb end (pages - 1)) ++ page pages ∷ []) =
      subst (λ k. IsTrail k pages (gap_if (ltb end (pages - 1)) ++ page pages ∷ [])) (omega arith)
        (IsTrail-last end pages hi) in
    rw count (IsTrail-first_run start (end - start) pages _ lo ends)

IsTrail-folded :
    (current pages : ℕ)
    → 1 ≤ current
    → current ≤ pages
    → 7 < pages
    → IsTrail 0 pages (folded current pages)
unfolding folded
IsTrail-folded current pages lo hi many = (
  refl,
  IsTrail-middle (max 2 (current - 1)) (min (pages - 1) (current + 1)) _ pages (omega arith)
      (omega arith) (omega arith) (omega arith),
)

has-gap_if :
    (k : ℕ) (skipped : Bool) (rest : List PageItem)
    → any (is_page k) (gap_if skipped ++ rest) ≡ any (is_page k) rest
unfolding gap_if
has-gap_if k true rest = refl
has-gap_if k false rest = refl

has_after :
    (k : ℕ) (items rest : List PageItem)
    → any (is_page k) rest ≡ true
    → any (is_page k) (items ++ rest) ≡ true
has_after k [] rest h = h
has_after k (item ∷ items) rest h = ground (arith, has_after k items rest h)

middle_or_last :
    (current pages : ℕ)
    → 2 ≤ current
    → current ≤ pages
    → 7 < pages
    → (current < max 2 (current - 1) + (min (pages - 1) (current + 1) + 1 - max 2 (current - 1)))
      ⊎ (current ≡ pages)
middle_or_last current pages two hi many = omega arith

-- The middle has the page, or it is the last one.
has-middle :
    (k start n pages : ℕ) (before after : Bool)
    → start ≤ k
    → (k < start + n) ⊎ (k ≡ pages)
    → any (is_page k) (gap_if before ++ (pages_from start n ++ (gap_if after ++ page pages ∷ [])))
      ≡ true
has-middle k start n pages before after lo (inl hi) =
    has-gap_if k before _ ∙ has-pages_from k start n _ lo hi
has-middle k start n pages before after lo (inr last) =
    has-gap_if k before _
    ∙ has_after k (pages_from start n) _ (has-gap_if k after _ ∙ ground (arith, last))

has-folded :
    (current pages : ℕ)
    → 1 ≤ current
    → current ≤ pages
    → 7 < pages
    → any (is_page current) (folded current pages) ≡ true
unfolding folded
has-folded current pages lo hi many = elim (Bool-cases (eqb 1 current)) [
  | inl first ↦ rw first refl
  | inr later ↦
      let two : 2 ≤ current = ground arith in
      rw later (
        has-middle current (max 2 (current - 1)) _ pages _ _ (omega arith)
          (middle_or_last current pages two hi many))
]

length-gap_if : (skipped : Bool) → length (gap_if skipped) ≤ 1
unfolding gap_if
length-gap_if true = omega arith
length-gap_if false = omega arith

length-middle :
    (before after : Bool) (start n : ℕ) (last : PageItem)
    → length (gap_if before ++ (pages_from start n ++ (gap_if after ++ last ∷ []))) ≤ n + 3
length-middle before after start n last =
    let outer = length-append (gap_if before) (pages_from start n ++ (gap_if after ++ last ∷ [])) in
    let inner = length-append (pages_from start n) (gap_if after ++ last ∷ []) in
    let tail = length-append (gap_if after) (last ∷ []) in
    let run = length-pages_from start n in
    let one = length-gap_if before in
    let two = length-gap_if after in rw outer (rw inner (rw tail (rw run (omega arith))))

length-folded : (current pages : ℕ) → length (folded current pages) ≤ 7
unfolding folded
length-folded current pages =
    let rounds : min (pages - 1) (current + 1) + 1 - max 2 (current - 1) ≤ 3 = omega arith in
    let middle =
      length-middle (ltb 2 (max 2 (current - 1))) (ltb (min (pages - 1) (current + 1)) (pages - 1))
        (max 2 (current - 1)) (min (pages - 1) (current + 1) + 1 - max 2 (current - 1))
        (page pages) in
    omega arith

unfolded :
    (current pages : ℕ)
    → 1 ≤ current
    → current ≤ pages
    → pages ≤ 7
    → IsTrail 0 pages (pages_from 1 pages)
      × ((any (is_page current) (pages_from 1 pages) ≡ true) × (length (pages_from 1 pages) ≤ 7))
unfolded current pages lo hi few =
    let whole : pages_from 1 pages ++ [] ≡ pages_from 1 pages = append-nil (pages_from 1 pages) in
    let trail = IsTrail-pages_from 0 pages pages [] (omega arith) in
    let found = has-pages_from current 1 pages [] lo (omega arith) in
    let count = length-pages_from 1 pages in
    (
      subst (λ l. IsTrail 0 pages l) whole trail,
      (subst (λ l. any (is_page current) l ≡ true) whole found, rw count few),
    )

-- The page numbers shown for a page that exists: from the first page every item leads to the next
-- page, or over a gap to one further on, up to the last page; the page itself is among them; and there
-- are at most seven.
pub page_items-IsTrail :
    (current pages : ℕ)
    → 1 ≤ current
    → current ≤ pages
    → IsTrail 0 pages (page_items current pages)
      × ((any (is_page current) (page_items current pages) ≡ true)
          × (length (page_items current pages) ≤ 7))
unfolding page_items
page_items-IsTrail current pages lo hi = elim (Bool-cases (leb pages 7)) [
  | inl few ↦ rw few (unfolded current pages lo hi (ground arith))
  | inr many ↦ rw many (
    IsTrail-folded current pages lo hi (ground arith),
    (has-folded current pages lo hi (ground arith), length-folded current pages),
  )
]
