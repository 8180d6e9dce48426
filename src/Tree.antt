-- ===== src/Tree.antt =====
-- components/ui/tree-utils.ts. A node's `title`, `extra` and `icon` are for display and no function
-- reads them; a `children` that is absent and one that is empty, which every function reads alike,
-- are both `nil`. `toLowerCase` is the parameter `lower` of the functions that call it.
pub mod Order
pub mod Filter
use zhiyuche.Common.{
  String, Bool, true, false, Option, none, some, List, [], ◌∷◌, ◌++◌, ◌==◌, if◌then◌else◌,
}
use zhiyuche.Common.StringSet.{add}
use zhiyuche.Common.Text.{trim, includes}

mutual
  pub data TreeNode : Type 0 where
    node : String → String → Forest → Bool → TreeNode

  pub data Forest : Type 0 where
    nil : Forest
    cons : TreeNode → Forest → Forest

abbrev pub key : TreeNode → String
key (node k _ _ _) = k

abbrev pub label : TreeNode → String
label (node _ l _ _) = l

abbrev pub children : TreeNode → Forest
children (node _ _ c _) = c

abbrev pub disabled : TreeNode → Bool
disabled (node _ _ _ d) = d

abbrev pub is_nil : Forest → Bool
is_nil nil = true
is_nil (cons _ _) = false

abbrev pub concat : Forest → Forest → Forest
concat nil gs = gs
concat (cons n fs) gs = cons n (concat fs gs)

abbrev pub nodes_of : Forest → List TreeNode
nodes_of nil = []
nodes_of (cons n fs) = n ∷ nodes_of fs

abbrev or_else : Option TreeNode → Option TreeNode → Option TreeNode
or_else none y = y
or_else (some n) y = some n

-- `findTreeNode`: the loop over the nodes, and its body.
unfoldable mutual
  pub find_tree_node : Forest → String → Option TreeNode
  find_tree_node nil k = none
  find_tree_node (cons n ns) k = or_else (find_in_node n k) (find_tree_node ns k)

  pub find_in_node : TreeNode → String → Option TreeNode
  find_in_node (node j l c d) k =
      let hit = find_tree_node c k in if j == k then some (node j l c d) else hit

-- `collectTreeKeys`, into a `Set`
unfoldable mutual
  pub collect_tree_keys : TreeNode → List String → List String
  collect_tree_keys (node k _ c _) into = collect_keys_of c (add into k)

  pub collect_keys_of : Forest → List String → List String
  collect_keys_of nil into = into
  collect_keys_of (cons n ns) into = collect_keys_of ns (collect_tree_keys n into)

-- `collectLeafKeys`: a leaf is pushed unless it is disabled.
unfoldable mutual
  pub collect_leaf_keys : TreeNode → List String → List String
  collect_leaf_keys (node k _ c d) into =
      let below = collect_leaves c into in
      if is_nil c then (if d then into else into ++ k ∷ []) else below

  pub collect_leaves : Forest → List String → List String
  collect_leaves nil into = into
  collect_leaves (cons n ns) into = collect_leaves ns (collect_leaf_keys n into)

unfoldable pub all_leaf_keys : Forest → List String
unfolding collect_leaves
all_leaf_keys nodes = collect_leaves nodes []

-- `flattenTree`, depth first
unfoldable mutual
  pub flatten_tree : Forest → List TreeNode → List TreeNode
  flatten_tree nil into = into
  flatten_tree (cons n ns) into = flatten_tree ns (flatten_node n into)

  pub flatten_node : TreeNode → List TreeNode → List TreeNode
  flatten_node (node k l c d) into = flatten_tree c (into ++ node k l c d ∷ [])

-- The inner `walk` of `filterTree`, with `hit` for its test of a label. A node that is hit keeps
-- its whole branch; another is kept with the children that are left, if any are.
unfoldable mutual
  pub walk : (String → Bool) → Forest → Forest
  walk hit nil = nil
  walk hit (cons n ns) = concat (walk_node hit n) (walk hit ns)

  pub walk_node : (String → Bool) → TreeNode → Forest
  walk_node hit (node k l c d) =
      let rest = walk hit c in
      if hit l
      then cons (node k l c d) nil
      else (if is_nil rest then nil else cons (node k l rest d) nil)

module _ (lower : String → String) where
  unfoldable pub matches : String → String → Bool
  matches kw l = includes (lower l) kw

  unfoldable pub filter_tree : Forest → String → Forest
  unfolding walk matches
  filter_tree nodes keyword =
      let kw = lower (trim keyword) in if kw == "" then nodes else walk (matches kw) nodes
