-- ===== src/Tests/Trees.antt =====
-- A small tree of permissions: filtering, searching and checking its boxes.
use zhiyuche.Common.{
  String, true, false, not, none, some, List, [], ◌∷◌, ◌≡◌, refl, all, if◌then◌else◌,
}
use zhiyuche.Common.StringSet.{has, add, delete, add_all, delete_all, of_list, Nodup}
use zhiyuche.Common.Text.{trim, includes}
use zhiyuche.Tree.{
  TreeNode, node, Forest, nil, cons, collect_leaf_keys, all_leaf_keys, flatten_tree, find_tree_node,
  walk, filter_tree, matches,
}
use zhiyuche.CheckTree.{toggle_check, check_item, state_of}
use zhiyuche.CheckTree.Laws.{flip, state_of-toggle_check, has-toggle_check}
use zhiyuche.TreeSelect.{Props, Event, press, enter, click_row, toggle_row, mounted, run}
use zhiyuche.TreeSelect.Laws.{IsSound, run-IsSound}

trees : Unit {0}
unfolding toggle_check collect_leaf_keys all_leaf_keys of_list add add_all delete delete_all has
    find_tree_node flatten_tree walk matches filter_tree includes trim
trees = tt

abbrev users : TreeNode
users =
    node "users" "Users"
      (cons (node "user:list" "List" nil false)
        (cons (node "user:edit" "Edit" nil false) (cons (node "user:old" "Old" nil true) nil)))
      false

abbrev cars : TreeNode
cars = node "cars" "Cars" (cons (node "car:list" "List" nil false) nil) false

abbrev menu : Forest
menu = cons users (cons cars nil)

abbrev chosen : List String
chosen = "other" ∷ "car:list" ∷ "user:edit" ∷ []

-- A click on a half checked node checks its leaves, but for the disabled one.
clicked :
    toggle_check menu chosen users ≡ some ("user:list" ∷ "user:edit" ∷ "car:list" ∷ "other" ∷ [])
unfolding trees
clicked = refl

abbrev after : List String
after = "user:list" ∷ "user:edit" ∷ "car:list" ∷ "other" ∷ []

not_clicked : toggle_check menu chosen (node "user:old" "Old" nil true) ≡ none
unfolding trees
not_clicked = refl

-- A disabled branch does not pass its click on, though it has a leaf that could be checked.
branch_disabled :
    check_item false menu [] (node "cars" "Cars" (cons (node "car:list" "List" nil false) nil) true)
    ≡ none
unfolding check_item
branch_disabled = refl

filtered :
    filter_tree (λ s. s) menu " Edit "
    ≡ cons (node "users" "Users" (cons (node "user:edit" "Edit" nil false) nil) false) nil
unfolding trees
filtered = refl

state_of-toggle_check_example :
    state_of users (of_list after) ≡ flip (state_of users (of_list chosen))
state_of-toggle_check_example = state_of-toggle_check menu chosen users after clicked

has-toggle_check_example : has after "other" ≡ (
    if has (collect_leaf_keys users []) "other"
    then not (all (has chosen) (collect_leaf_keys users []))
    else has chosen "other")
has-toggle_check_example = has-toggle_check menu chosen users after "other" clicked

distinct : Nodup (all_leaf_keys menu)
unfolding trees
distinct = (refl, (refl, (refl, tt)))

-- The old one is disabled in the menu, the list of cars by the select.
abbrev select_props : Props
select_props = record {
  nodes = menu;
  value = none;
  disabled = false;
  disabled_keys = "car:list" ∷ [];
  allow_clear = true;
  loading = false;
  searchable = true;
}

abbrev visit : List Event
visit = press ∷ click_row 3 ∷ toggle_row 0 ∷ click_row 2 ∷ enter "list" ∷ click_row 1 ∷ []

run-IsSound_example : IsSound (λ s. s) (run (λ s. s) visit (mounted select_props))
run-IsSound_example = run-IsSound (λ s. s) visit select_props

picked_one :
    (run (λ s. s) (press ∷ click_row 3 ∷ click_row 2 ∷ []) (mounted select_props)).changes
    ≡ (select_props, some "user:edit") ∷ []
unfolding run mounted trim has
picked_one = refl
