-- ===== src/TreeSelect.antt =====
-- components/ui/Tree.tsx and TreeSelect.tsx: the rows of a tree that opens and closes, and the select that
-- picks one of them. A click names a row by its place. The props come from the parent and may be others at
-- every render; `toLowerCase` is a parameter.
pub mod Laws
use zhiyuche.Common.{
  ℕ, zero, suc, String, Bool, true, false, not, ◌&&◌, ◌||◌, Option, none, some, List, [], ◌∷◌, ◌++◌,
  ◌==◌, if◌then◌else◌,
}
use zhiyuche.Common.StringSet.{has, add, delete}
use zhiyuche.Session.{truthy}
use zhiyuche.Tree.{
  TreeNode, node, Forest, nil, cons, key, label, children, disabled, is_nil, find_tree_node,
  filter_tree,
}

-- `expanded` and `toggle` of Tree: the set holds the keys that were switched.
unfoldable pub row_expanded : Bool → List String → String → Bool
row_expanded default_expand_all toggled k =
    if default_expand_all then not (has toggled k) else has toggled k

unfoldable pub row_toggle : List String → String → List String
row_toggle toggled k = if has toggled k then delete toggled k else add toggled k

-- The rows that are drawn, from the top: below a node those of its children, where it is open.
unfoldable mutual
  pub rows : (String → Bool) → Forest → List TreeNode
  rows is_open nil = []
  rows is_open (cons n ns) = rows_of is_open n ++ rows is_open ns

  pub rows_of : (String → Bool) → TreeNode → List TreeNode
  rows_of is_open (node k l c d) =
      let below = rows is_open c in node k l c d ∷ (if is_open k then below else [])

unfoldable pub row_at : ℕ → List TreeNode → Option TreeNode
row_at i [] = none
row_at zero (n ∷ ns) = some n
row_at (suc i) (n ∷ ns) = row_at i ns

-- `onClick` of a row: the key that is selected, if the row can be.
unfoldable pub selected_key : List String → TreeNode → Option String
selected_key disabled_keys n =
    if disabled n || has disabled_keys (key n) then none else some (key n)

pub record Props : Type 0 where
  pub nodes : Forest
  pub value : Option String
  pub disabled : Bool
  pub disabled_keys : List String
  pub allow_clear : Bool
  pub loading : Bool
  pub searchable : Bool

-- What the select keeps, with `toggled` of the tree below it, and each call of `onChange`, the last one
-- first, with the props that it was called under.
pub record Select : Type 0 where
  pub props : Props
  pub is_open : Bool
  pub keyword : String
  pub toggled : List String
  pub changes : List (Props × Option String)

pub data Event : Type 0 where
  render : Props → Event
  -- the button
  press : Event
  -- a click outside, or the escape key
  leave : Event
  enter : String → Event
  -- the arrow of a row, and the row
  toggle_row : ℕ → Event
  click_row : ℕ → Event
  clear_value : Event

unfoldable pub mounted : Props → Select
mounted props = record { props = props; is_open = false; keyword = ""; toggled = []; changes = [] }

unfoldable pub close : Select → Select
close s = record s { is_open = false; keyword = "" }

unfoldable pub on_change : Option String → Select → Select
on_change k s = record s { changes = (s.props, k) ∷ s.changes }

-- The text of the button.
unfoldable pub caption : String → Props → String
caption placeholder p = elim (truthy p.value) [
  | none ↦ placeholder
  | some k ↦ elim (find_tree_node p.nodes k) [
    | none ↦ if p.loading then placeholder else "（未知节点）"
    | some n ↦ label n
  ]
]

abbrev pub is_given : Option String → Bool
is_given value = elim (truthy value) [ none ↦ false | some k ↦ true ]

-- A row that was found, or none.
unfoldable pub toggle_found : Option TreeNode → Select → Select
unfolding row_toggle
toggle_found none s = s
toggle_found (some n) s =
    if is_nil (children n) then s else record s { toggled = row_toggle s.toggled (key n) }

unfoldable pub select_found : Option String → Select → Select
unfolding close on_change
select_found none s = s
select_found (some k) s = close (on_change (some k) s)

unfoldable pub click_found : Option TreeNode → Select → Select
unfolding selected_key select_found
click_found none s = s
click_found (some n) s = select_found (selected_key s.props.disabled_keys n) s

module _ (lower : String → String) where
  unfoldable pub visible : Select → Forest
  unfolding filter_tree
  visible s = filter_tree lower s.props.nodes s.keyword

  -- Whether the tree is there, with its state.
  unfoldable pub tree_shown : Select → Bool
  unfolding visible
  tree_shown s = s.is_open && (not s.props.loading && not (is_nil (visible s)))

  unfoldable pub found_row : ℕ → Select → Option TreeNode
  unfolding tree_shown row_at rows row_expanded visible
  found_row i s =
      if tree_shown s then row_at i (rows (row_expanded true s.toggled) (visible s)) else none

  unfoldable pub act : Event → Select → Select
  unfolding close toggle_found click_found found_row on_change
  act (render props) s = record s { props = props }
  act press s =
      if s.props.disabled then s else (if s.is_open then close s else record s { is_open = true })
  act leave s = if s.is_open then close s else s
  act (enter keyword) s =
      if s.is_open && s.props.searchable then record s { keyword = keyword } else s
  act (toggle_row i) s = toggle_found (found_row i s) s
  act (click_row i) s = click_found (found_row i s) s
  act clear_value s =
      if s.props.allow_clear && (is_given s.props.value && not s.props.disabled)
      then on_change none s
      else s

  -- A tree that is taken away forgets what was switched.
  unfoldable pub settled : Select → Select
  unfolding tree_shown
  settled s = if tree_shown s then s else record s { toggled = [] }

  unfoldable pub step : Event → Select → Select
  unfolding act settled
  step e s = settled (act e s)

  unfoldable pub run : List Event → Select → Select
  unfolding step
  run [] s = s
  run (e ∷ es) s = run es (step e s)
