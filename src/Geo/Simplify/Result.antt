-- ===== src/Geo/Simplify/Result.antt =====
-- The thinned line: enough fuel, and what lies between the points that are kept.
use mathlib.Core.Path.{subst}
use zhiyuche.Common.{
  ℕ, zero, suc, ◌+◌, ◌-◌, ◌*◌, ◌≤◌, ◌<◌, true, false, some, List, [], ◌∷◌, filter, ◌≡◌, ◌≢◌, refl,
  sym, inl, inr, arith, eqb, leb, Bool-cases, Option-cases,
}
use zhiyuche.Common.Number.{Number}
use zhiyuche.Geo.Simplify.{
  range, Flags, raise, Distance, split_at, round, thin, ends_of, kept, simplify,
}
use zhiyuche.Geo.Simplify.Flat.{IsOrdered, IsFlat, split_at-none, split_at-some}

-- No index between the two is kept.
abbrev pub IsGap : Flags → ℕ → ℕ → Type 0
IsGap keep s e = (i : ℕ) → s < i → i < e → keep i ≡ false

-- The spans of the stack run down from `top` to 0, each between kept neighbours.
abbrev IsChain : Flags → ℕ → List (ℕ × ℕ) → Type 0
IsChain keep top [] = top ≡ 0
IsChain keep top ((s, e) ∷ stack) =
    (e ≡ top) × ((s < e) × ((keep s ≡ true) × (IsGap keep s e × IsChain keep s stack)))

-- What the spans of the stack can still cost.
abbrev cost : List (ℕ × ℕ) → ℕ
cost [] = 0
cost ((s, e) ∷ stack) = (2 * (e - s) - 1) + cost stack

raise_kept : (i j : ℕ) (keep : Flags) → keep j ≡ true → raise i keep j ≡ true
unfolding raise
raise_kept i j keep h = ground (arith, h)

raise_self : (i : ℕ) (keep : Flags) → raise i keep i ≡ true
unfolding raise
raise_self i keep = ground arith

raise_free : (i j : ℕ) (keep : Flags) → i ≢ j → keep j ≡ false → raise i keep j ≡ false
unfolding raise
raise_free i j keep h k = ground (arith, h, k)

was_kept : (i j : ℕ) (keep : Flags) → i < j → raise i keep j ≡ true → keep j ≡ true
unfolding raise
was_kept i j keep h k = ground (arith, h, k)

was_free : (i j : ℕ) (keep : Flags) → raise i keep j ≡ false → keep j ≡ false
unfolding raise
was_free i j keep h = ground (arith, h)

past_end : (n a b i : ℕ) → 2 < n → n - 1 ≤ a → b ≡ n - 1 → a < b → ⊥
past_end n a b i h lo e lt = omega arith

too_many : (n : ℕ) → suc (suc (suc n)) ≤ 2 → ⊥
too_many n h = omega arith

no_points : 2 < 0 → ⊥
no_points h = omega arith

no_fuel : (s e c : ℕ) → s < e → (2 * (e - s) - 1) + c ≤ 0 → ⊥
no_fuel s e c lt h = omega arith

none_between : (i j : ℕ) → i < j → j < suc i → ⊥
none_between i j lo hi = omega arith

free_next :
    (keep : Flags) (p i : ℕ)
    → ((j : ℕ) → p < j → j < i → keep j ≡ false)
    → keep i ≡ false
    → (j : ℕ) → p < j
    → j < suc i
    → keep j ≡ false
free_next keep p i free not_i j lo hi = elim (Bool-cases (eqb j i)) [
  | inl same ↦ let here : j ≡ i = ground arith in rw here not_i
  | inr before ↦ free j lo (ground arith)
]

ends_kept : (n j : ℕ) → ends_of n j ≡ true → 0 < j → j ≡ n - 1
ends_kept n j h lt = ground arith

module _ (number : Number) where
  open number use {Carrier, of_ℕ, ltn}

  module _ (ordered : IsOrdered number) (d : Distance number) (tolerance : Carrier)
      (positive : ltn tolerance (of_ℕ 0) ≡ false) where
    -- Neighbours among the kept indices from `top` on have a flat span.
    abbrev IsDone : Flags → ℕ → Type 0
    IsDone keep top =
        (s e : ℕ)
        → top ≤ s
        → s < e
        → keep s ≡ true
        → keep e ≡ true
        → IsGap keep s e
        → IsFlat number d tolerance s e

    record IsThinning (n top : ℕ) (keep : Flags) (stack : List (ℕ × ℕ)) : Type 0 where
      chain : IsChain keep top stack
      at_top : keep top ≡ true
      done : IsDone keep top
      bottom : keep 0 ≡ true
      last : keep (n - 1) ≡ true

    -- The neighbours that begin below the top of the popped span are that span.
    span_done :
        (keep : Flags) (s e a b : ℕ)
        → IsGap keep s e
        → s < e
        → keep e ≡ true
        → s ≤ a
        → a < e
        → a < b
        → keep a ≡ true
        → keep b ≡ true
        → IsGap keep a b
        → IsFlat number d tolerance s e
        → IsFlat number d tolerance a b
    span_done keep s e a b free lt ke lo hi ab ka kb gap flat =
        let first : a ≡ s = ground (arith, free a, ka) in
        let second : b ≡ e = ground (arith, free b, gap e, kb, ke) in
        subst (λ x. IsFlat number d tolerance x b) (sym first)
          (subst (λ y. IsFlat number d tolerance s y) (sym second) flat)

    IsChain-raise :
        (i top : ℕ) (keep : Flags) (stack : List (ℕ × ℕ))
        → top < i
        → IsChain keep top stack
        → IsChain (raise i keep) top stack
    unfolding raise
    IsChain-raise i top keep [] lt h = h
    IsChain-raise i top keep ((s, e) ∷ stack) lt (at, (below, (kept_s, (free, rest)))) = (
      at,
      (
        below,
        (
          ground (arith, kept_s),
          (
            λ j low high. ground (arith, free j low high),
            IsChain-raise i s keep stack (omega arith) rest,
          ),
        ),
      ),
    )

    -- A round that splits: its span is replaced by two.
    split_round :
        (n s e i : ℕ) (keep : Flags) (stack : List (ℕ × ℕ))
        → s < i
        → i < e
        → IsThinning n e keep ((s, e) ∷ stack)
        → IsThinning n e (raise i keep) ((i, e) ∷ (s, i) ∷ stack)
    split_round n s e i keep stack low high h =
        let (_, (_, (kept_s, (free, rest)))) = h.chain in
        record {
          chain = (
            refl,
            (
              high,
              (
                raise_self i keep,
                (
                  (λ j lo hi. raise_free i j keep (omega arith) (free j (omega arith) hi)),
                  (
                    refl,
                    (
                      low,
                      (
                        raise_kept i s keep kept_s,
                        (
                          (λ j lo hi. raise_free i j keep (omega arith) (free j lo (omega arith))),
                          IsChain-raise i s keep stack low rest,
                        ),
                      ),
                    ),
                  ),
                ),
              ),
            ),
          );
          at_top = raise_kept i e keep h.at_top;
          done = λ a b lo lt ka kb gap.
              h.done a b lo lt (was_kept i a keep (omega arith) ka)
                (was_kept i b keep (omega arith) kb) (λ j l r. was_free i j keep (gap j l r));
          bottom = raise_kept i 0 keep h.bottom;
          last = raise_kept i (n - 1) keep h.last;
        }

    -- A round that does not: its span is flat.
    flat_round :
        (n s e : ℕ) (keep : Flags) (stack : List (ℕ × ℕ))
        → IsFlat number d tolerance s e
        → IsThinning n e keep ((s, e) ∷ stack)
        → IsThinning n s keep stack
    flat_round n s e keep stack flat h =
        let (_, (lt, (kept_s, (free, rest)))) = h.chain in
        record {
          chain = rest;
          at_top = kept_s;
          done = λ a b lo ab ka kb gap. elim (Bool-cases (leb e a)) [
            | inl above ↦ h.done a b (ground arith) ab ka kb gap
            | inr below ↦
                span_done keep s e a b free lt h.at_top lo (ground arith) ab ka kb gap flat
          ];
          bottom = h.bottom;
          last = h.last;
        }

    IsThinning-thin :
        (n fuel top : ℕ) (keep : Flags) (stack : List (ℕ × ℕ))
        → cost stack ≤ fuel
        → IsThinning n top keep stack
        → (result : Flags) × ((thin number d tolerance fuel keep stack ≡ some result)
            × IsThinning n 0 result [])
    unfolding thin round
    IsThinning-thin n zero top keep [] enough h =
        (keep, (refl, subst (λ t. IsThinning n t keep []) h.chain h))
    IsThinning-thin n (suc fuel) top keep [] enough h =
        (keep, (refl, subst (λ t. IsThinning n t keep []) h.chain h))
    IsThinning-thin n zero top keep ((s, e) ∷ stack) enough h =
        elim (no_fuel s e (cost stack) h.chain.1.0 enough) [ ]
    IsThinning-thin n (suc fuel) top keep ((s, e) ∷ stack) enough h =
        let (at, (lt, _)) = h.chain in
        let h' : IsThinning n e keep ((s, e) ∷ stack) =
          subst (λ t. IsThinning n t keep ((s, e) ∷ stack)) (sym at) h in
        elim (Option-cases (split_at number d tolerance s e)) [
          | inl whole ↦ rw whole (
              IsThinning-thin n fuel s keep stack (omega arith) (
                flat_round n s e keep stack
                  (split_at-none number ordered d tolerance positive s e lt whole) h'))
          | inr (i, split) ↦
              let (low, high) = split_at-some number ordered d tolerance positive s e i lt split in
              rw split (
                IsThinning-thin n fuel e (raise i keep) ((i, e) ∷ (s, i) ∷ stack) (omega arith)
                  (split_round n s e i keep stack low high h'))
        ]

    -- From a kept index each next one is further on, over a flat span, up to the last.
    abbrev pub IsThinnedFrom : ℕ → ℕ → List ℕ → Type 0
    IsThinnedFrom n p [] = p ≡ n - 1
    IsThinnedFrom n p (q ∷ rest) =
        (p < q) × (IsFlat number d tolerance p q × IsThinnedFrom n q rest)

    abbrev pub IsThinned : ℕ → List ℕ → Type 0
    IsThinned n [] = n ≡ 0
    IsThinned n (p ∷ rest) = (p ≡ 0) × IsThinnedFrom n p rest

    kept_steps :
        (n p i m : ℕ) (keep : Flags)
        → IsThinning n 0 keep []
        → i + m ≡ n
        → p < i
        → keep p ≡ true
        → ((j : ℕ) → p < j → j < i → keep j ≡ false)
        → IsThinnedFrom n p (filter keep (range i m))
    unfolding range
    kept_steps n p i zero keep h sum lt kp free = ground (arith, free (n - 1), h.last)
    kept_steps n p i (suc m) keep h sum lt kp free = elim (Bool-cases (keep i)) [
      | inl ki ↦ rw ki (
        lt,
        (
          h.done p i (omega arith) lt kp ki free,
          kept_steps n i (suc i) m keep h (omega arith) (omega arith) ki
              (λ j lo hi. elim (none_between i j lo hi) [ ]),
        ),
      )
      | inr not_i ↦ rw not_i (
          kept_steps n p (suc i) m keep h (omega arith) (omega arith) kp
            (free_next keep p i free not_i))
    ]

    start_IsThinning : (n : ℕ) → 2 < n → IsThinning n (n - 1) (ends_of n) ((0, n - 1) ∷ [])
    start_IsThinning n h = record {
      chain = (refl, (omega arith, (refl, ((λ j lo hi. ground arith), refl))));
      at_top = ground arith;
      done = λ a b lo lt ka kb gap i low high.
          elim (past_end n a b i h lo (ends_kept n b kb (omega arith)) lt) [ ];
      bottom = refl;
      last = ground arith;
    }

    few_points : (n : ℕ) → n ≤ 2 → IsThinned n (range 0 n)
    unfolding range
    few_points zero h = refl
    few_points (suc zero) h = (refl, refl)
    few_points (suc (suc zero)) h =
        (refl, (omega arith, ((λ i lo hi. elim (none_between 0 i lo hi) [ ]), omega arith)))
    few_points (suc (suc (suc n))) h = elim (too_many n h) [ ]

    all_kept :
        (n : ℕ) (keep : Flags)
        → 2 < n
        → IsThinning n 0 keep []
        → IsThinned n (filter keep (range 0 n))
    unfolding range
    all_kept zero keep lt h = elim (no_points lt) [ ]
    all_kept (suc m) keep lt h = rw h.bottom (
      refl,
      kept_steps (suc m) 0 1 m keep h (omega arith) (omega arith) h.bottom
          (λ j lo hi. elim (none_between 0 j lo hi) [ ]),
    )

    -- The thinning of a line of any number of points ends, with fuel for two rounds a point: the indices
    -- that it keeps ascend from the first to the last point, and every point that is left out lies
    -- within the tolerance of the line through the kept points before and after it. For numbers that are
    -- ordered as floats are, and a tolerance not below 0.
    pub simplify-IsThinned :
        (n : ℕ)
        → (indices : List ℕ) × ((simplify number d tolerance n ≡ some indices)
            × IsThinned n indices)
    unfolding simplify kept
    simplify-IsThinned n = elim (Bool-cases (leb n 2)) [
      | inl few ↦ (range 0 n, (rw few refl, few_points n (ground arith)))
      | inr many ↦
          let lt : 2 < n = ground arith in
          let (keep, (ends, h)) =
            IsThinning-thin n (2 * n) (n - 1) (ends_of n) ((0, n - 1) ∷ []) (omega arith)
              (start_IsThinning n lt) in
          (filter keep (range 0 n), (rw many (rw ends refl), all_kept n keep lt h))
    ]
