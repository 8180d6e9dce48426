-- ===== src/Common/StringSet.antt =====
-- `Set<string>`: its items in the order of insertion, none twice.
use Prim.Native.String.{String}
use mathlib.Core.Path.{◌≡◌, refl, subst}
use mathlib.Core.Bool.{Bool, true, false, not, ◌&&◌, ◌||◌}
use mathlib.Core.List.{List, [], ◌∷◌, ◌++◌}
use native.Mathlib.Omega.{arith}
use text.Mathlib.Text.{◌==◌}
use text.Mathlib.TextEquality.{eq_iff}
use mathlib.Core.Logic.{inl, inr}
use zhiyuche.Common.Tests.{if◌then◌else◌, Bool-cases}
use zhiyuche.Common.Lists.{filter, all, any}

-- Whether a list of texts holds one: `set.has(k)`, and `includes` of an array.
unfoldable pub has : List String → String → Bool
has [] k = false
has (x ∷ xs) k = x == k || has xs k

unfoldable pub add : List String → String → List String
add s k = if has s k then s else s ++ k ∷ []

unfoldable pub delete : List String → String → List String
delete s k = filter (λ x. not (x == k)) s

unfoldable pub add_all : List String → List String → List String
add_all s [] = s
add_all s (k ∷ ks) = add_all (add s k) ks

unfoldable pub delete_all : List String → List String → List String
delete_all s [] = s
delete_all s (k ∷ ks) = delete_all (delete s k) ks

-- `new Set(list)`
unfoldable pub of_list : List String → List String
unfolding add_all
of_list = add_all []

abbrev pub Nodup : List String → Type 0
Nodup [] = Unit
Nodup (x ∷ xs) = (has xs x ≡ false) × Nodup xs

pub has-append : (xs ys : List String) (k : String) → has (xs ++ ys) k ≡ (has xs k || has ys k)
unfolding has
has-append [] ys k = refl
has-append (x ∷ xs) ys k = ground (arith, has-append xs ys k)

pub has-filter :
    (p : String → Bool) (xs : List String) (k : String) → has (filter p xs) k ≡ (p k && has xs k)
unfolding has
has-filter p [] k = ground arith
has-filter p (x ∷ xs) k = ground (arith, has-filter p xs k, eq_iff x k)

pub has-add : (s : List String) (k j : String) → has (add s k) j ≡ (k == j || has s j)
unfolding add has
has-add s k j = ground (arith, has-append s (k ∷ []) j, eq_iff k j)

pub has-delete : (s : List String) (k j : String) → has (delete s k) j ≡ (not (j == k) && has s j)
unfolding delete
has-delete s k j = has-filter (λ x. not (x == k)) s j

pub has-add_all : (s ks : List String) (j : String) → has (add_all s ks) j ≡ (has ks j || has s j)
unfolding add_all has
has-add_all s [] j = refl
has-add_all s (k ∷ ks) j = ground (arith, has-add_all (add s k) ks j, has-add s k j)

pub has-delete_all :
    (s ks : List String) (j : String) → has (delete_all s ks) j ≡ (not (has ks j) && has s j)
unfolding delete_all has
has-delete_all s [] j = refl
has-delete_all s (k ∷ ks) j =
    ground (arith, has-delete_all (delete s k) ks j, has-delete s k j, eq_iff j k, eq_iff k j)

pub has-of_list : (ks : List String) (j : String) → has (of_list ks) j ≡ has ks j
unfolding of_list has
has-of_list ks j = ground (arith, has-add_all [] ks j)

-- To show a test of every item, show it of every text that the list holds.
pub all_of_has :
    (p : String → Bool) (xs : List String)
    → ((k : String) → has xs k ≡ true → p k ≡ true)
    → all p xs ≡ true
unfolding has
all_of_has p [] h = refl
all_of_has p (x ∷ xs) h =
    ground (arith, h x, eq_iff x x, all_of_has p xs (λ k e. h k (ground arith)))

pub Nodup-filter : (p : String → Bool) (xs : List String) → Nodup xs → Nodup (filter p xs)
Nodup-filter p [] h = tt
Nodup-filter p (x ∷ xs) h = ground (arith, has-filter p xs x, Nodup-filter p xs)

pub Nodup-append :
    (xs ys : List String)
    → Nodup xs
    → Nodup ys
    → all (λ x. not (has ys x)) xs ≡ true
    → Nodup (xs ++ ys)
Nodup-append [] ys h k e = k
Nodup-append (x ∷ xs) ys h k e = ground (arith, has-append xs ys x, Nodup-append xs ys)

Nodup-snoc : (xs : List String) (k : String) → Nodup xs → has xs k ≡ false → Nodup (xs ++ k ∷ [])
unfolding has
Nodup-snoc [] k h e = (refl, tt)
Nodup-snoc (x ∷ xs) k h e =
    ground (arith, has-append xs (k ∷ []) x, eq_iff k x, eq_iff x k, Nodup-snoc xs k)

pub Nodup-add : (s : List String) (k : String) → Nodup s → Nodup (add s k)
unfolding add
Nodup-add s k h = ground (arith, Nodup-snoc s k)

pub Nodup-delete : (s : List String) (k : String) → Nodup s → Nodup (delete s k)
unfolding delete
Nodup-delete s k h = Nodup-filter (λ x. not (x == k)) s h

pub Nodup-add_all : (s ks : List String) → Nodup s → Nodup (add_all s ks)
unfolding add_all
Nodup-add_all s [] h = h
Nodup-add_all s (k ∷ ks) h = Nodup-add_all (add s k) ks (Nodup-add s k h)

pub Nodup-delete_all : (s ks : List String) → Nodup s → Nodup (delete_all s ks)
unfolding delete_all
Nodup-delete_all s [] h = h
Nodup-delete_all s (k ∷ ks) h = Nodup-delete_all (delete s k) ks (Nodup-delete s k h)

pub Nodup-of_list : (ks : List String) → Nodup (of_list ks)
unfolding of_list
Nodup-of_list ks = Nodup-add_all [] ks tt

pub has_of_all :
    (p : String → Bool) (xs : List String) (k : String)
    → all p xs ≡ true
    → has xs k ≡ true
    → p k ≡ true
unfolding has
has_of_all p [] k h e = cc
has_of_all p (x ∷ xs) k h e = elim (Bool-cases (x == k)) [
  | inl same ↦ subst (λ j. p j ≡ true) ((eq_iff x k).0 same) (ground arith)
  | inr other ↦ has_of_all p xs k (ground arith) (ground arith)
]

pub any_of_has :
    (p : String → Bool) (xs : List String) (k : String)
    → has xs k ≡ true
    → p k ≡ true
    → any p xs ≡ true
unfolding has
any_of_has p [] k e h = cc
any_of_has p (x ∷ xs) k e h = ground (arith, eq_iff x k, any_of_has p xs k)

pub has_of_any :
    (p : String → Bool) (xs : List String)
    → any p xs ≡ true
    → (k : String) × (has xs k ≡ true) × (p k ≡ true)
unfolding has
has_of_any p [] h = cc
has_of_any p (x ∷ xs) h = elim (Bool-cases (p x)) [
  | inl here ↦ (x, ground (arith, eq_iff x x), here)
  | inr later ↦ let (k, e, q) = has_of_any p xs (ground arith) in (k, ground arith, q)
]
