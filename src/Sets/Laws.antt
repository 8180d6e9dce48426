-- ===== src/Sets/Laws.antt =====
-- Lists without repetitions that are as long, one within the other, hold the same texts.
use mathlib.Core.Path.{subst}
use zhiyuche.Common.{
  ℕ, suc, ◌≤◌, String, true, false, not, List, [], ◌∷◌, length, all, filter_of_all, ◌==◌, ◌≡◌, refl,
  ap, ◌↔◌, inl, inr, arith, eq_iff, Bool-cases,
}
use zhiyuche.Common.StringSet.{
  has, of_list, delete, Nodup, Nodup-delete, Nodup-of_list, has-delete, has-of_list, all_of_has,
  has_of_all,
}
use zhiyuche.Sets.{same_string_set, same_id_set}

abbrev pub SameMembers : List String → List String → Type 0
SameMembers a b = (k : String) → has a k ≡ has b k

without_absent : (ys : List String) (x : String) → has ys x ≡ false → delete ys x ≡ ys
unfolding delete
without_absent ys x h =
    filter_of_all (λ y. not (y == x)) ys
      (all_of_has (λ y. not (y == x)) ys (λ k e. ground (arith, eq_iff k x, h, e)))

length-delete :
    (ys : List String) (x : String)
    → Nodup ys
    → has ys x ≡ true
    → suc (length (delete ys x)) ≡ length ys
unfolding delete has
length-delete [] x nodup h = cc h
length-delete (y ∷ ys) x (new, nodup) h = elim (Bool-cases (y == x)) [
  | inl same ↦
      let absent : has ys x ≡ false = subst (λ j. has ys j ≡ false) ((eq_iff y x).0 same) new in
      rw same (ap (λ l. suc (length l)) (without_absent ys x absent))
  | inr other ↦ rw other (ap suc (length-delete ys x nodup (ground (arith, h, other))))
]

-- What is left of a list that holds others, when one of them is taken away from both.
within-delete :
    (x : String) (xs ys : List String)
    → has xs x ≡ false
    → all (has ys) xs ≡ true
    → all (has (delete ys x)) xs ≡ true
within-delete x xs ys new h =
    all_of_has (has (delete ys x)) xs
      (λ k e. ground (arith, has-delete ys x k, has_of_all (has ys) xs k h e, eq_iff k x, new, e))

length-within :
    (xs ys : List String) → Nodup xs → Nodup ys → all (has ys) xs ≡ true → length xs ≤ length ys
length-within [] ys hx hy h = omega arith
length-within (x ∷ xs) ys (new, hx) hy h =
    let shorter = length-delete ys x hy (ground (arith, h)) in
    let rest =
      length-within xs (delete ys x) hx (Nodup-delete ys x hy)
        (within-delete x xs ys new (ground (arith, h))) in
    omega (arith, shorter, rest)

covered :
    (xs ys : List String) (k : String)
    → Nodup xs
    → Nodup ys
    → all (has ys) xs ≡ true
    → length ys ≤ length xs
    → has ys k ≡ true
    → has xs k ≡ true
unfolding has
covered [] [] k hx hy h le e = e
covered [] (y ∷ ys) k hx hy h le e = elim (too_long (length ys) le) [ ]
  where
    too_long : (n : ℕ) → suc n ≤ 0 → ⊥
    too_long n l = omega arith
covered (x ∷ xs) ys k (new, hx) hy h le e = elim (Bool-cases (x == k)) [
  | inl same ↦ rw same refl
  | inr other ↦
      let shorter = length-delete ys x hy (ground (arith, h)) in
      rw other (
        covered xs (delete ys x) k hx (Nodup-delete ys x hy)
          (within-delete x xs ys new (ground (arith, h))) (omega (arith, shorter, le))
          (ground (arith, has-delete ys x k, eq_iff k x, eq_iff x k, e, other)))
]

both_within :
    (a b : List String)
    → Nodup a
    → Nodup b
    → length a ≡ length b
    → all (has b) a ≡ true
    → SameMembers a b
both_within a b ha hb e h k = elim (Bool-cases (has a k)) [
  | inl in_a ↦ rw (in_a, has_of_all (has b) a k h in_a) refl
  | inr not_a ↦ elim (Bool-cases (has b k)) [
    | inl in_b ↦ cc (not_a, covered a b k ha hb h (omega (arith, e)) in_b)
    | inr not_b ↦ rw (not_a, not_b) refl
  ]
]

lengths_agree : (a b : List String) → Nodup a → Nodup b → SameMembers a b → length a ≡ length b
lengths_agree a b ha hb h =
    let there = length-within a b ha hb (all_of_has (has b) a (λ k e. ground (arith, h k, e))) in
    let back = length-within b a hb ha (all_of_has (has a) b (λ k e. ground (arith, h k, e))) in
    omega (arith, there, back)

-- The comparison of two lists as sets: it holds exactly where they hold the same texts, whatever their
-- order and their repetitions.
same_string_set_iff : (a b : List String) → (same_string_set a b ≡ true) ↔ SameMembers a b
unfolding same_string_set
same_string_set_iff a b = (
  (λ h k. ground (
    arith,
    both_within (of_list a) (of_list b) (Nodup-of_list a) (Nodup-of_list b) (ground (arith, h))
        (ground (arith, h)) k,
    has-of_list a k,
    has-of_list b k,
  )),
  (λ h.
      let same : SameMembers (of_list a) (of_list b) =
        λ k. ground (arith, h k, has-of_list a k, has-of_list b k) in
      ground (
        arith,
        lengths_agree (of_list a) (of_list b) (Nodup-of_list a) (Nodup-of_list b) same,
        all_of_has (has (of_list b)) (of_list a) (λ k e. ground (arith, same k, e)),
      )),
)

within_set : (a b : List String) → all (has (of_list a)) b ≡ true → all (has a) b ≡ true
within_set a b h =
    all_of_has (has a) b
      (λ k e. ground (arith, has_of_all (has (of_list a)) b k h e, has-of_list a k))

-- The comparison of two lists of identifiers, none of them with a repetition, holds exactly where they hold
-- the same identifiers.
pub same_id_set_iff :
    (a b : List String) → Nodup a → Nodup b → (same_id_set a b ≡ true) ↔ SameMembers a b
unfolding same_id_set
same_id_set_iff a b ha hb = (
  (λ h k.
      ground
        (arith, both_within b a hb ha (ground (arith, h)) (within_set a b (ground (arith, h))) k)),
  (λ h. ground (
    arith,
    lengths_agree a b ha hb h,
    all_of_has (has (of_list a)) b (λ k e. ground (arith, h k, has-of_list a k, e)),
  )),
)
