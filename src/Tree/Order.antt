-- ===== src/Tree/Order.antt =====
-- The traversals of components/ui/tree-utils.ts against the depth-first order of the nodes.
use zhiyuche.Common.{
  String, Bool, true, false, not, ◌&&◌, List, [], ◌∷◌, ◌++◌, ◌==◌, ◌≡◌, refl, ◌∙◌, sym, ap,
  append_assoc, append-nil, map, filter, find?, arith,
}
use zhiyuche.Tree.{
  TreeNode, node, Forest, nil, cons, key, children, disabled, is_nil, or_else, find_tree_node,
  find_in_node, collect_leaf_keys, collect_leaves, all_leaf_keys, flatten_tree, flatten_node,
}

-- Depth-first order, without an accumulator.
abbrev mutual
  pub preorder : Forest → List TreeNode
  preorder nil = []
  preorder (cons n ns) = preorder_node n ++ preorder ns

  pub preorder_node : TreeNode → List TreeNode
  preorder_node (node k l c d) = node k l c d ∷ preorder c

mutual
  unfolding flatten_tree

  flatten_tree-append :
      (f : Forest) (into : List TreeNode) → flatten_tree f into ≡ into ++ preorder f
  flatten_tree-append nil into = sym (append-nil into)
  flatten_tree-append (cons n ns) into =
      flatten_tree-append ns (flatten_node n into)
      ∙ ap (λ l. l ++ preorder ns) (flatten_node-append n into)
      ∙ append_assoc into (preorder_node n) (preorder ns)

  flatten_node-append :
      (n : TreeNode) (into : List TreeNode) → flatten_node n into ≡ into ++ preorder_node n
  flatten_node-append (node k l c d) into =
      flatten_tree-append c (into ++ node k l c d ∷ [])
      ∙ append_assoc into (node k l c d ∷ []) (preorder c)

pub flatten_tree-eq-preorder : (f : Forest) → flatten_tree f [] ≡ preorder f
flatten_tree-eq-preorder f = flatten_tree-append f []

abbrev pub is_open_leaf : TreeNode → Bool
is_open_leaf n = is_nil (children n) && not (disabled n)

-- The keys of the leaves that are not disabled, in depth-first order.
abbrev pub leaf_keys : List TreeNode → List String
leaf_keys l = map key (filter is_open_leaf l)

leaf_keys-append : (a b : List TreeNode) → leaf_keys (a ++ b) ≡ leaf_keys a ++ leaf_keys b
leaf_keys-append [] b = refl
leaf_keys-append (n ∷ a) b = ground (arith, leaf_keys-append a b)

mutual
  unfolding collect_leaf_keys

  pub collect_leaves-append :
      (f : Forest) (into : List String) → collect_leaves f into ≡ into ++ leaf_keys (preorder f)
  collect_leaves-append nil into = sym (append-nil into)
  collect_leaves-append (cons n ns) into =
      collect_leaves-append ns (collect_leaf_keys n into)
      ∙ ap (λ l. l ++ leaf_keys (preorder ns)) (collect_leaf_keys-append n into)
      ∙ append_assoc into (leaf_keys (preorder_node n)) (leaf_keys (preorder ns))
      ∙ ap (λ l. into ++ l) (sym (leaf_keys-append (preorder_node n) (preorder ns)))

  pub collect_leaf_keys-append :
      (n : TreeNode) (into : List String)
      → collect_leaf_keys n into ≡ into ++ leaf_keys (preorder_node n)
  collect_leaf_keys-append (node k l nil true) into = sym (append-nil into)
  collect_leaf_keys-append (node k l nil false) into = refl
  collect_leaf_keys-append (node k l (cons m ms) d) into = collect_leaves-append (cons m ms) into

-- `allLeafKeys` is the keys of the leaves of `flattenTree` that are not disabled, in its order.
all_leaf_keys-flatten_tree : (f : Forest) → all_leaf_keys f ≡ leaf_keys (flatten_tree f [])
unfolding all_leaf_keys
all_leaf_keys-flatten_tree f = rw (flatten_tree-eq-preorder f) (collect_leaves-append f [])

find?-append :
    (p : TreeNode → Bool) (a b : List TreeNode) → find? p (a ++ b) ≡ or_else (find? p a) (find? p b)
find?-append p [] b = refl
find?-append p (n ∷ a) b = ground (arith, find?-append p a b)

mutual
  unfolding find_tree_node

  find_tree_node-eq-find? :
      (f : Forest) (k : String) → find_tree_node f k ≡ find? (λ n. key n == k) (preorder f)
  find_tree_node-eq-find? nil k = refl
  find_tree_node-eq-find? (cons n ns) k =
      rw (find?-append (λ m. key m == k) (preorder_node n) (preorder ns)) (
        ap (λ o. or_else o (find_tree_node ns k)) (find_in_node-eq-find? n k)
        ∙ ap (or_else (find? (λ m. key m == k) (preorder_node n))) (find_tree_node-eq-find? ns k))

  find_in_node-eq-find? :
      (n : TreeNode) (k : String) → find_in_node n k ≡ find? (λ m. key m == k) (preorder_node n)
  find_in_node-eq-find? (node j l c d) k = rw (find_tree_node-eq-find? c k)

-- `findTreeNode` returns the first node of `flattenTree` that has the key.
find_tree_node-flatten_tree :
    (f : Forest) (k : String) → find_tree_node f k ≡ find? (λ n. key n == k) (flatten_tree f [])
find_tree_node-flatten_tree f k = rw (flatten_tree-eq-preorder f) (find_tree_node-eq-find? f k)
