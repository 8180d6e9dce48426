-- ===== src/CheckTree/Laws.antt =====
-- What a click in a tree of check boxes does.
use mathlib.Core.Path.{ap₂, fun_ext, subst}
use zhiyuche.Common.{
  ◌≤◌, String, true, not, some, some-injective, List, [], ◌∷◌, ◌++◌, ◌≡◌, refl, ◌∙◌, sym, ap,
  append-nil, length, filter, filter-append, filter_of_all, filter_of_none, all, arith,
  if◌then◌else◌, Bool-cases, inl, inr,
}
use zhiyuche.Common.StringSet.{
  has, Nodup, all_of_has, of_list, has-append, has-filter, has-add_all, has-delete_all, has-of_list,
  Nodup-filter, Nodup-append, Nodup-add_all, Nodup-delete_all, Nodup-of_list,
}
use zhiyuche.Tree.{TreeNode, Forest, collect_leaf_keys, all_leaf_keys}
use zhiyuche.CheckTree.{
  CheckState, checked, unchecked, count_in, state_among, state_at, state_of, switch, in_order,
  toggle_leaves, toggle_check,
}

count_in-le : (set ks : List String) → count_in set ks ≤ length ks
unfolding count_in
count_in-le set [] = omega arith
count_in-le set (k ∷ ks) = ground (arith, count_in-le set ks)

count_in_of_all : (set ks : List String) → all (has set) ks ≡ true → count_in set ks ≡ length ks
unfolding count_in
count_in_of_all set [] h = refl
count_in_of_all set (k ∷ ks) h = ground (arith, count_in_of_all set ks)

all_of_count_in : (set ks : List String) → count_in set ks ≡ length ks → all (has set) ks ≡ true
unfolding count_in
all_of_count_in set [] h = refl
all_of_count_in set (k ∷ ks) h = ground (arith, all_of_count_in set ks, count_in-le set ks)

count_in_of_none :
    (set ks : List String) → all (λ k. not (has set k)) ks ≡ true → count_in set ks ≡ 0
unfolding count_in
count_in_of_none set [] h = refl
count_in_of_none set (k ∷ ks) h = ground (arith, count_in_of_none set ks)

has-in_order : (order next : List String) (k : String) → has (in_order order next) k ≡ has next k
unfolding in_order
has-in_order order next k = ground (
  arith,
  has-append (filter (has next) order) (filter (λ j. not (has (of_list order) j)) next) k,
  has-filter (has next) order k,
  has-filter (λ j. not (has (of_list order) j)) next k,
  has-of_list order k,
)

filter-in_order :
    (order next : List String)
    → filter (has order) (in_order order next) ≡ filter (has (in_order order next)) order
filter-in_order order next = rw (fun_ext (has-in_order order next)) (
    unfold in_order in
    filter-append (has order) (filter (has next) order) _
    ∙ ap₂ ◌++◌
        (filter_of_all (has order) (filter (has next) order) (
          all_of_has (has order) (filter (has next) order)
            λ k e. ground (arith, has-filter (has next) order k)))
        (filter_of_none (has order) (filter (λ k. not (has (of_list order) k)) next) (
          all_of_has (λ k. not (has order k)) (filter (λ k. not (has (of_list order) k)) next)
            λ k e.
              ground
                (arith, has-filter (λ k. not (has (of_list order) k)) next k, has-of_list order k)))
    ∙ append-nil (filter (has next) order))

in_order-Nodup : (order next : List String) → Nodup order → Nodup next → Nodup (in_order order next)
unfolding in_order
in_order-Nodup order next d e =
    Nodup-append _ _ (Nodup-filter (has next) order d)
      (Nodup-filter (λ k. not (has (of_list order) k)) next e)
      (all_of_has (λ x. not (has (filter (λ k. not (has (of_list order) k)) next) x))
        (filter (has next) order)
        λ k h. ground (
          arith,
          has-filter (λ k. not (has (of_list order) k)) next k,
          has-filter (has next) order k,
          has-of_list order k,
        ))

switch-Nodup : (leaves set : List String) → Nodup set → Nodup (switch leaves set)
unfolding switch
switch-Nodup leaves set h =
    ground (arith, Nodup-delete_all set leaves h, Nodup-add_all set leaves h)

has-switch :
    (leaves set : List String) (k : String)
    → has (switch leaves set) k ≡ (if has leaves k then not (all (has set) leaves) else has set k)
unfolding switch
has-switch leaves set k = ground (arith, has-delete_all set leaves k, has-add_all set leaves k)

state_among_of_all :
    (set : List String) (k : String) (ks : List String)
    → all (has set) (k ∷ ks) ≡ true
    → state_among set (k ∷ ks) ≡ checked
unfolding state_among
state_among_of_all set k ks h = ground (arith, count_in_of_all set (k ∷ ks) h)

state_among_of_none :
    (set : List String) (k : String) (ks : List String)
    → all (λ j. not (has set j)) (k ∷ ks) ≡ true
    → state_among set (k ∷ ks) ≡ unchecked
unfolding state_among
state_among_of_none set k ks h = ground (arith, count_in_of_none set (k ∷ ks) h)

all_of_state_among :
    (set : List String) (k : String) (ks : List String)
    → state_among set (k ∷ ks) ≡ checked
    → all (has set) (k ∷ ks) ≡ true
all_of_state_among set k ks h = all_of_count_in set (k ∷ ks) (unfold state_among in ground arith)

pub flip : CheckState → CheckState
flip checked = unchecked
flip _ = checked

flip-state_among :
    (set : List String) (k : String) (ks : List String)
    → flip (state_among set (k ∷ ks)) ≡ (if all (has set) (k ∷ ks) then unchecked else checked)
unfolding flip state_among
flip-state_among set k ks =
    ground (arith, count_in_of_all set (k ∷ ks), all_of_count_in set (k ∷ ks))

-- The set that is left after a click on a node with these leaves.
module _ (order set : List String) (k : String) (ks : List String) where
  abbrev clicked : List String
  clicked = in_order order (switch (k ∷ ks) set)

  has-clicked :
      (j : String)
      → has clicked j ≡ (if has (k ∷ ks) j then not (all (has set) (k ∷ ks)) else has set j)
  has-clicked j = has-in_order order (switch (k ∷ ks) set) j ∙ has-switch (k ∷ ks) set j

  state_among-clicked : state_among (of_list clicked) (k ∷ ks) ≡ flip (state_among set (k ∷ ks))
  state_among-clicked = elim (Bool-cases (all (has set) (k ∷ ks))) [
    | inl on ↦
        state_among_of_none (of_list clicked) k ks (
          all_of_has (λ j. not (has (of_list clicked) j)) (k ∷ ks)
            λ j e. ground (arith, has-of_list clicked j, has-clicked j))
        ∙ sym (flip-state_among set k ks ∙ rw on)
    | inr off ↦
        state_among_of_all (of_list clicked) k ks (
          all_of_has (has (of_list clicked)) (k ∷ ks)
            λ j e. ground (arith, has-of_list clicked j, has-clicked j))
        ∙ sym (flip-state_among set k ks ∙ rw off)
  ]

module _ (nodes : Forest) (value : List String) (n : TreeNode) where
  toggle_leaves-eq-some :
      (leaves out : List String)
      → toggle_leaves (all_leaf_keys nodes) (of_list value) leaves ≡ some out
      → out ≡ in_order (all_leaf_keys nodes) (switch leaves (of_list value))
  unfolding toggle_leaves
  toggle_leaves-eq-some [] out h = cc
  toggle_leaves-eq-some (k ∷ ks) out h = sym (some-injective _ _ h)

  -- A click on a checked node clears it, and a click on any other node checks it: where `onChange`
  -- is called with a value, the node's state under that value is unchecked if it was checked, and
  -- checked if it was not.
  pub state_of-toggle_check :
      (out : List String)
      → toggle_check nodes value n ≡ some out
      → state_of n (of_list out) ≡ flip (state_of n (of_list value))
  unfolding toggle_check state_of
  state_of-toggle_check out = go (collect_leaf_keys n [])
    where
      go :
          (leaves : List String)
          → toggle_leaves (all_leaf_keys nodes) (of_list value) leaves ≡ some out
          → state_at n (of_list out) leaves ≡ flip (state_at n (of_list value) leaves)
      go [] h = cc
      go (k ∷ ks) h =
          subst
            (λ o. state_among (of_list o) (k ∷ ks) ≡ flip (state_among (of_list value) (k ∷ ks)))
            (some-injective _ _ h) (state_among-clicked (all_leaf_keys nodes) (of_list value) k ks)

  -- The leaves of the node are all put in, or all taken out if they were all in; of every other key,
  -- one outside the tree too, the value holds what it held.
  pub has-toggle_check :
      (out : List String) (j : String)
      → toggle_check nodes value n ≡ some out
      → has out j ≡ (
          if has (collect_leaf_keys n []) j
          then not (all (has value) (collect_leaf_keys n []))
          else has value j)
  unfolding toggle_check
  has-toggle_check out j h = ground (
    arith,
    toggle_leaves-eq-some (collect_leaf_keys n []) out h,
    has-in_order (all_leaf_keys nodes) (switch (collect_leaf_keys n []) (of_list value)) j,
    has-switch (collect_leaf_keys n []) (of_list value) j,
    has-of_list value j,
    ap (λ p. all p (collect_leaf_keys n [])) (fun_ext (has-of_list value)),
  )

  -- The keys of the tree come in the tree's order.
  filter-toggle_check :
      (out : List String)
      → toggle_check nodes value n ≡ some out
      → filter (has (all_leaf_keys nodes)) out ≡ filter (has out) (all_leaf_keys nodes)
  unfolding toggle_check
  filter-toggle_check out h =
      rw (toggle_leaves-eq-some (collect_leaf_keys n []) out h)
        (filter-in_order (all_leaf_keys nodes) (switch (collect_leaf_keys n []) (of_list value)))

  -- No key comes twice, if the tree's leaf keys are distinct.
  toggle_check-Nodup :
      (out : List String)
      → Nodup (all_leaf_keys nodes)
      → toggle_check nodes value n ≡ some out
      → Nodup out
  unfolding toggle_check
  toggle_check-Nodup out d h = rw (toggle_leaves-eq-some (collect_leaf_keys n []) out h) (
      in_order-Nodup (all_leaf_keys nodes) _ d
        (switch-Nodup (collect_leaf_keys n []) (of_list value) (Nodup-of_list value)))
