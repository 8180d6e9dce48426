-- ===== src/Geo/Simplify/Flat.antt =====
-- Where a span is split, and what holds where it is not.
use mathlib.Core.Path.{subst}
use zhiyuche.Common.{
  ℕ, zero, suc, ◌+◌, ◌-◌, ◌<◌, true, false, Option, none, some, ◌≡◌, refl, ◌⊎◌, inl, inr, arith,
  eqb, sym, Bool-cases,
}
use zhiyuche.Common.Number.{Number}
use zhiyuche.Geo.Simplify.{Distance, furthest, split_of, split_at}

module _ (number : Number) where
  open number use {Carrier, of_ℕ, ltn, eqn}

  -- What is documented of `<` on floats: only numbers that are not NaN, which equal themselves, compare,
  -- and any such number lies above the smaller or below the larger of two.
  pub record IsOrdered : Type 0 where
    pub right_numeric : (a b : Carrier) → ltn a b ≡ true → eqn b b ≡ true
    pub asymmetric : (a b : Carrier) → ltn a b ≡ true → ltn b a ≡ false
    pub zero_numeric : eqn (of_ℕ 0) (of_ℕ 0) ≡ true
    pub between :
        (a b c : Carrier) → ltn a b ≡ true → eqn c c ≡ true → (ltn a c ≡ true) ⊎ (ltn c b ≡ true)

  -- No point between the two lies further from their line than the tolerance.
  abbrev pub IsFlat : Distance number → Carrier → ℕ → ℕ → Type 0
  IsFlat d tolerance s e = (i : ℕ) → s < i → i < e → ltn tolerance (d i s e) ≡ false

  -- The largest of the distances so far: none exceeds it, and it is a number.
  record IsLargest (d : Distance number) (s e i : ℕ) (max_d : Carrier) (idx : Option ℕ)
      : Type 0 where
    numeric : eqn max_d max_d ≡ true
    above : (j : ℕ) → s < j → j < i → ltn max_d (d j s e) ≡ false
    inside : (j : ℕ) → idx ≡ some j → (s < j) × (j < i)
    at_start : idx ≡ none → max_d ≡ of_ℕ 0

  between_none : (s j : ℕ) → s < j → j < suc s → ⊥
  between_none s j low high = omega arith

  module _ (ordered : IsOrdered) (d : Distance number) where
    not_above :
        (a b c : Carrier) → eqn a a ≡ true → ltn a b ≡ true → ltn a c ≡ false → ltn b c ≡ false
    not_above a b c aa ab ac = elim (Bool-cases (ltn b c)) [
      | inl bc ↦ ground (arith, ordered.between b c a bc aa, ordered.asymmetric a b ab, ac)
      | inr below ↦ below
    ]

    not_above_self : (a : Carrier) → ltn a a ≡ false
    not_above_self a = elim (Bool-cases (ltn a a)) [
      | inl aa ↦ ordered.asymmetric a a aa
      | inr below ↦ below
    ]

    IsLargest-next :
        (s e i : ℕ) (max_d : Carrier) (idx : Option ℕ)
        → s < i
        → IsLargest d s e i max_d idx
        → ltn max_d (d i s e) ≡ true
        → IsLargest d s e (suc i) (d i s e) (some i)
    IsLargest-next s e i max_d idx lo h larger = record {
      numeric = ordered.right_numeric max_d (d i s e) larger;
      above = λ j low high. elim (Bool-cases (eqb j i)) [
        | inl same ↦
            let here : j ≡ i = ground arith in
            subst (λ k. ltn (d i s e) (d k s e) ≡ false) (sym here) (not_above_self (d i s e))
        | inr before ↦
            not_above max_d (d i s e) (d j s e) h.numeric larger (h.above j low (ground arith))
      ];
      inside = λ j same. ground arith;
      at_start = λ none_left. cc;
    }

    IsLargest-same :
        (s e i : ℕ) (max_d : Carrier) (idx : Option ℕ)
        → s < i
        → IsLargest d s e i max_d idx
        → ltn max_d (d i s e) ≡ false
        → IsLargest d s e (suc i) max_d idx
    IsLargest-same s e i max_d idx lo h kept = record {
      numeric = h.numeric;
      above = λ j low high. elim (Bool-cases (eqb j i)) [
        | inl same ↦
            let here : j ≡ i = ground arith in
            subst (λ k. ltn max_d (d k s e) ≡ false) (sym here) kept
        | inr before ↦ h.above j low (ground arith)
      ];
      inside = λ j found. let (a, b) = h.inside j found in (a, omega arith);
      at_start = h.at_start;
    }

    IsLargest-furthest :
        (s e i n j : ℕ) (max_d : Carrier) (idx : Option ℕ)
        → s < i
        → i + n ≡ j
        → IsLargest d s e i max_d idx
        → IsLargest d s e j
            (furthest number d s e i n max_d idx).0
            (furthest number d s e i n max_d idx).1
    unfolding furthest
    IsLargest-furthest s e i zero j max_d idx lo sum h =
        let reached : i ≡ j = omega arith in subst (λ k. IsLargest d s e k max_d idx) reached h
    IsLargest-furthest s e i (suc n) j max_d idx lo sum h =
        elim (Bool-cases (ltn max_d (d i s e))) [
          | inl larger ↦ rw larger (
              IsLargest-furthest s e (suc i) n j (d i s e) (some i) (omega arith) (omega arith)
                (IsLargest-next s e i max_d idx lo h larger))
          | inr kept ↦ rw kept (
              IsLargest-furthest s e (suc i) n j max_d idx (omega arith) (omega arith)
                (IsLargest-same s e i max_d idx lo h kept))
        ]

    furthest-IsLargest :
        (s e : ℕ)
        → s < e
        → IsLargest d s e e
            (furthest number d s e (suc s) (e - suc s) (of_ℕ 0) none).0
            (furthest number d s e (suc s) (e - suc s) (of_ℕ 0) none).1
    furthest-IsLargest s e h =
        IsLargest-furthest s e (suc s) (e - suc s) e (of_ℕ 0) none (omega arith) (omega arith)
          (record {
            numeric = ordered.zero_numeric;
            above = λ j low high. elim (between_none s j low high) [ ];
            inside = λ j found. cc;
            at_start = λ e. refl;
          })

    module _ (tolerance : Carrier) (positive : ltn tolerance (of_ℕ 0) ≡ false) where
      low_largest :
          (max_d : Carrier) (idx : Option ℕ)
          → (idx ≡ none → max_d ≡ of_ℕ 0)
          → split_of number tolerance (max_d, idx) ≡ none
          → ltn tolerance max_d ≡ false
      unfolding split_of
      low_largest max_d none h k = rw (h refl) positive
      low_largest max_d (some i) h k = elim (Bool-cases (ltn tolerance max_d)) [
        | inl above ↦ ground (arith, above)
        | inr below ↦ below
      ]

      split_of-some :
          (max_d : Carrier) (idx : Option ℕ) (i : ℕ)
          → split_of number tolerance (max_d, idx) ≡ some i
          → idx ≡ some i
      unfolding split_of
      split_of-some max_d none i h = cc
      split_of-some max_d (some j) i h = ground arith

      within_largest :
          (s e : ℕ) (max_d : Carrier) (idx : Option ℕ)
          → IsLargest d s e e max_d idx
          → split_of number tolerance (max_d, idx) ≡ none
          → IsFlat d tolerance s e
      unfolding split_of
      within_largest s e max_d idx h no_split i low high =
          elim (Bool-cases (ltn tolerance (d i s e))) [
            | inl far ↦ ground (
              arith,
              low_largest max_d idx h.at_start no_split,
              ordered.between tolerance (d i s e) max_d far h.numeric,
              h.above i low high,
            )
            | inr near ↦ near
          ]

      -- A span that is not split is flat.
      pub split_at-none :
          (s e : ℕ) → s < e → split_at number d tolerance s e ≡ none → IsFlat d tolerance s e
      unfolding split_at
      split_at-none s e lt h = within_largest s e _ _ (furthest-IsLargest s e lt) h

      -- A span is split within it.
      pub split_at-some :
          (s e i : ℕ) → s < e → split_at number d tolerance s e ≡ some i → (s < i) × (i < e)
      unfolding split_at split_of
      split_at-some s e i lt h = (furthest-IsLargest s e lt).inside i (split_of-some _ _ i h)
