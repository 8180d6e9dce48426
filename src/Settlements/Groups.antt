-- ===== src/Settlements/Groups.antt =====
-- The groups of a settlement: all of its lines, by kind and in the order of time.
use zhiyuche.Common.{
  ℕ, ◌+◌, String, Bool, true, false, ◌&&◌, List, [], ◌∷◌, map, filter, all, All, ◌≡◌, refl, ◌∙◌,
  inl, inr, arith, Bool-cases, if◌then◌else◌,
}
use zhiyuche.Common.Number.{Number}
use zhiyuche.Settlements.{
  LineKind, trip, charge, penalty, same_kind, kind_order, Line, Group, insert, sort, group_of,
  has_lines, group_lines,
}

module _ (number : Number) where
  -- How many lines pass a test, in a list and in groups.
  abbrev pub count : (Line number → Bool) → List (Line number) → ℕ
  count p [] = 0
  count p (l ∷ ls) = (if p l then 1 else 0) + count p ls

  abbrev pub count_grouped : (Line number → Bool) → List (Group number) → ℕ
  count_grouped p [] = 0
  count_grouped p (g ∷ gs) = count p g.lines + count_grouped p gs

  abbrev of_kind : LineKind → List (Line number) → List (Line number)
  of_kind k ls = filter (λ l. same_kind l.kind k) ls

  module _ (leq : String → String → Bool) where
    abbrev pub is_first : Line number → List (Line number) → Bool
    is_first l [] = true
    is_first l (m ∷ ls) = leq l.occurred_at m.occurred_at

    abbrev pub is_ordered : List (Line number) → Bool
    is_ordered [] = true
    is_ordered (l ∷ ls) = is_first l ls && is_ordered ls

    -- A group: at least one line, all of its kind, in the order of time.
    abbrev pub IsGroup : Group number → Type 0
    IsGroup g =
        (has_lines number g ≡ true)
        × ((all (λ l. same_kind l.kind g.kind) g.lines ≡ true) × (is_ordered g.lines ≡ true))

    count-insert :
        (p : Line number → Bool) (l : Line number) (ls : List (Line number))
        → count p (insert number leq l ls) ≡ (if p l then 1 else 0) + count p ls
    unfolding insert
    count-insert p l [] = refl
    count-insert p l (m ∷ ls) = elim (Bool-cases (leq l.occurred_at m.occurred_at)) [
      | inl first ↦ rw first refl
      | inr later ↦ rw later (omega (arith, count-insert p l ls))
    ]

    count-sort :
        (p : Line number → Bool) (ls : List (Line number))
        → count p (sort number leq ls) ≡ count p ls
    unfolding sort
    count-sort p [] = refl
    count-sort p (l ∷ ls) = omega (arith, count-insert p l (sort number leq ls), count-sort p ls)

    all-insert :
        (p : Line number → Bool) (l : Line number) (ls : List (Line number))
        → p l ≡ true
        → all p ls ≡ true
        → all p (insert number leq l ls) ≡ true
    unfolding insert
    all-insert p l [] h k = ground (arith, h)
    all-insert p l (m ∷ ls) h k = elim (Bool-cases (leq l.occurred_at m.occurred_at)) [
      | inl first ↦ rw first (ground (arith, h, k))
      | inr later ↦ rw later (ground (arith, k, all-insert p l ls h))
    ]

    all-sort :
        (p : Line number → Bool) (ls : List (Line number))
        → all p ls ≡ true
        → all p (sort number leq ls) ≡ true
    unfolding sort
    all-sort p [] h = refl
    all-sort p (l ∷ ls) h =
        all-insert p l (sort number leq ls) (ground (arith, h)) (all-sort p ls (ground (arith, h)))

    module _ (total : (a b : String) → leq a b ≡ false → leq b a ≡ true) where
      is_first-insert :
          (m l : Line number) (ls : List (Line number))
          → leq m.occurred_at l.occurred_at ≡ true
          → is_first m ls ≡ true
          → is_first m (insert number leq l ls) ≡ true
      unfolding insert
      is_first-insert m l [] h k = h
      is_first-insert m l (n ∷ ls) h k = elim (Bool-cases (leq l.occurred_at n.occurred_at)) [
        | inl first ↦ rw first h
        | inr later ↦ rw later k
      ]

      is_ordered-insert :
          (l : Line number) (ls : List (Line number))
          → is_ordered ls ≡ true
          → is_ordered (insert number leq l ls) ≡ true
      unfolding insert
      is_ordered-insert l [] h = refl
      is_ordered-insert l (m ∷ ls) h = elim (Bool-cases (leq l.occurred_at m.occurred_at)) [
        | inl first ↦ rw first (ground (arith, first, h))
        | inr later ↦ rw later (
            ground (
              arith,
              is_first-insert m l ls (total l.occurred_at m.occurred_at later) (ground (arith, h)),
              is_ordered-insert l ls (ground (arith, h)),
            ))
      ]

      is_ordered-sort : (ls : List (Line number)) → is_ordered (sort number leq ls) ≡ true
      unfolding sort
      is_ordered-sort [] = refl
      is_ordered-sort (l ∷ ls) = is_ordered-insert l (sort number leq ls) (is_ordered-sort ls)

    -- Each line is of one of the kinds.
    one_kind :
        (k : LineKind) (n : ℕ)
        → (if same_kind k trip then n else 0)
            + ((if same_kind k charge then n else 0) + (if same_kind k penalty then n else 0))
          ≡ n
    one_kind trip n = omega arith
    one_kind charge n = omega arith
    one_kind penalty n = omega arith

    count-of_kind :
        (p : Line number → Bool) (k : LineKind) (l : Line number) (ls : List (Line number))
        → count p (of_kind k (l ∷ ls))
          ≡ (if same_kind l.kind k then (if p l then 1 else 0) else 0) + count p (of_kind k ls)
    count-of_kind p k l ls = elim (Bool-cases (same_kind l.kind k)) [
      | inl same ↦ rw same refl
      | inr other ↦ rw other (omega arith)
    ]

    count-kinds :
        (p : Line number → Bool) (ls : List (Line number))
        → count p (of_kind trip ls) + (count p (of_kind charge ls) + count p (of_kind penalty ls))
          ≡ count p ls
    count-kinds p [] = refl
    count-kinds p (l ∷ ls) = omega (
      arith,
      count-of_kind p trip l ls,
      count-of_kind p charge l ls,
      count-of_kind p penalty l ls,
      one_kind l.kind (if p l then 1 else 0),
      count-kinds p ls,
    )

    nothing_in :
        (k : LineKind) (n : number.Carrier) (p : Line number → Bool) (ls : List (Line number))
        → has_lines number (record { kind = k; lines = ls; subtotal = n }) ≡ false
        → count p ls ≡ 0
    nothing_in k n p [] h = refl
    nothing_in k n p (l ∷ ls) h = cc h

    count_grouped-filter :
        (p : Line number → Bool) (gs : List (Group number))
        → count_grouped p (filter (has_lines number) gs) ≡ count_grouped p gs
    count_grouped-filter p [] = refl
    count_grouped-filter p (g ∷ gs) = elim (Bool-cases (has_lines number g)) [
      | inl some_lines ↦ rw some_lines (omega (arith, count_grouped-filter p gs))
      | inr no_lines ↦ rw no_lines (
          omega (arith, count_grouped-filter p gs, nothing_in g.kind g.subtotal p g.lines no_lines))
    ]

    all-of_kind :
        (k : LineKind) (ls : List (Line number))
        → all (λ l. same_kind l.kind k) (of_kind k ls) ≡ true
    all-of_kind k [] = refl
    all-of_kind k (l ∷ ls) = elim (Bool-cases (same_kind l.kind k)) [
      | inl same ↦ rw same (rw same (all-of_kind k ls))
      | inr other ↦ rw other (all-of_kind k ls)
    ]

    module _ (total : (a b : String) → leq a b ≡ false → leq b a ≡ true) where
      group_of-IsGroup :
          (k : LineKind) (ls : List (Line number))
          → has_lines number (group_of number leq ls k) ≡ true
          → IsGroup (group_of number leq ls k)
      unfolding group_of
      group_of-IsGroup k ls h = (
        h,
        (
          all-sort (λ l. same_kind l.kind k) (of_kind k ls) (all-of_kind k ls),
          is_ordered-sort total (of_kind k ls),
        ),
      )

      groups-All :
          (ks : List LineKind) (ls : List (Line number))
          → All IsGroup (filter (has_lines number) (map (group_of number leq ls) ks))
      groups-All [] ls = tt
      groups-All (k ∷ ks) ls = elim (Bool-cases (has_lines number (group_of number leq ls k))) [
        | inl some_lines ↦ rw some_lines (group_of-IsGroup k ls some_lines, groups-All ks ls)
        | inr no_lines ↦ rw no_lines (groups-All ks ls)
      ]

      -- The groups that are printed: each has lines, all of its kind and in the order of time, and every line of
      -- the settlement stands in them as often as it was given, for an order that compares any two times.
      pub group_lines-IsGrouping :
          (p : Line number → Bool) (ls : List (Line number))
          → All IsGroup (group_lines number leq ls)
            × (count_grouped p (group_lines number leq ls) ≡ count p ls)
      unfolding group_lines group_of
      group_lines-IsGrouping p ls = (
        groups-All kind_order ls,
        count_grouped-filter p (map (group_of number leq ls) kind_order)
            ∙ omega (
              arith,
              count-sort p (of_kind trip ls),
              count-sort p (of_kind charge ls),
              count-sort p (of_kind penalty ls),
              count-kinds p ls,
            ),
      )
