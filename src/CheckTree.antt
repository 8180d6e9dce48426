-- ===== src/CheckTree.antt =====
-- components/ui/CheckTree.tsx: a tree of check boxes whose value is the keys of the checked leaves.
-- What a row looks like is not modelled.
pub mod Laws
use zhiyuche.Common.{
  ℕ, zero, suc, String, Bool, true, false, not, ◌||◌, Option, none, some, List, [], ◌∷◌, ◌++◌,
  length, filter, all, eqb, if◌then◌else◌,
}
use zhiyuche.Common.StringSet.{has, add, delete, add_all, delete_all, of_list}
use zhiyuche.Tree.{TreeNode, Forest, key, disabled, collect_leaf_keys, all_leaf_keys}

-- `unchecked` is the source's 'none'.
pub data CheckState : Type 0 where
  checked indeterminate unchecked : CheckState

-- The loop of `stateOf`: how many of the keys are checked.
unfoldable pub count_in : List String → List String → ℕ
count_in set [] = 0
count_in set (k ∷ ks) = let n = count_in set ks in if has set k then suc n else n

-- The result of `stateOf` for the leaf keys of a node that has some.
state_among : List String → List String → CheckState
unfolding count_in
state_among set leaves =
    let n = count_in set leaves in
    if eqb n 0 then unchecked else (if eqb n (length leaves) then checked else indeterminate)

state_at : TreeNode → List String → List String → CheckState
unfolding state_among
state_at n set [] = if has set (key n) then checked else unchecked
state_at n set (k ∷ ks) = state_among set (k ∷ ks)

-- `stateOf`
unfoldable pub state_of : TreeNode → List String → CheckState
unfolding state_at
state_of n set = state_at n set (collect_leaf_keys n [])

-- The loop of `toggleCheck`, over a copy of the checked set.
switch : List String → List String → List String
switch leaves set = if all (has set) leaves then delete_all set leaves else add_all set leaves

-- What is handed to `onChange`: the tree's keys in its order, then the keys outside it.
in_order : List String → List String → List String
in_order order next = filter (has next) order ++ filter (λ k. not (has (of_list order) k)) next

toggle_leaves : List String → List String → List String → Option (List String)
unfolding switch in_order
toggle_leaves order set [] = none
toggle_leaves order set (k ∷ ks) = some (in_order order (switch (k ∷ ks) set))

-- `toggleCheck`: the call of `onChange`, if there is one.
unfoldable pub toggle_check : Forest → List String → TreeNode → Option (List String)
unfolding toggle_leaves
toggle_check nodes value n =
    toggle_leaves (all_leaf_keys nodes) (of_list value) (collect_leaf_keys n [])

-- The click on a row, in a tree that is disabled or not: nothing where the tree or the node is.
unfoldable pub check_item : Bool → Forest → List String → TreeNode → Option (List String)
unfolding toggle_check
check_item is_disabled nodes value n =
    if is_disabled || disabled n then none else toggle_check nodes value n

-- `expanded` and `toggleExpand`: the set holds the keys that were switched.
unfoldable pub expanded : Bool → List String → String → Bool
expanded default_expand_all toggled k =
    if default_expand_all then not (has toggled k) else has toggled k

unfoldable pub toggle_expand : List String → String → List String
toggle_expand toggled k = if has toggled k then delete toggled k else add toggled k
