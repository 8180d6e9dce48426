-- ===== src/Tree/Filter.antt =====
-- What `filterTree` keeps.
use zhiyuche.Common.{
  ◌==◌, String, Bool, true, false, List, [], ◌∷◌, ◌++◌, ◌≡◌, refl, sym, ◌∙◌, ap, map, filter, ◌⊎◌,
  inl, inr, append_assoc, append-nil, arith, Bool-cases,
}
use zhiyuche.Tree.{
  TreeNode, node, Forest, nil, cons, key, label, is_nil, concat, walk, walk_node, filter_tree,
  matches,
}
use zhiyuche.Common.Text.{trim}
use zhiyuche.Tree.Order.{preorder, preorder_node}

module _ (hit : String → Bool) where
  -- The keys of the nodes whose label is hit, in depth-first order.
  abbrev pub hits : List TreeNode → List String
  hits l = map key (filter (λ n. hit (label n)) l)

  hits-append : (a b : List TreeNode) → hits (a ++ b) ≡ hits a ++ hits b
  hits-append [] b = refl
  hits-append (n ∷ a) b = ground (arith, hits-append a b)

  hits-concat :
      (f g : Forest) → hits (preorder (concat f g)) ≡ hits (preorder f) ++ hits (preorder g)
  hits-concat nil g = refl
  hits-concat (cons n ns) g =
      hits-append (preorder_node n) (preorder (concat ns g))
      ∙ ap (λ l. hits (preorder_node n) ++ l) (hits-concat ns g)
      ∙ sym (append_assoc (hits (preorder_node n)) (hits (preorder ns)) (hits (preorder g)))
      ∙ ap (λ l. l ++ hits (preorder g)) (sym (hits-append (preorder_node n) (preorder ns)))

  hits_of_is_nil : (f : Forest) → is_nil f ≡ true → hits (preorder f) ≡ []
  hits_of_is_nil nil h = refl
  hits_of_is_nil (cons n ns) h = cc

  module _ (k l : String) (c : Forest) (d : Bool) where
    walk_node_hit : hit l ≡ true → walk_node hit (node k l c d) ≡ cons (node k l c d) nil
    unfolding walk
    walk_node_hit h = rw h

    walk_node_drop : hit l ≡ false → is_nil (walk hit c) ≡ true → walk_node hit (node k l c d) ≡ nil
    unfolding walk
    walk_node_drop h e = rw (h, e)

    walk_node_keep :
        hit l ≡ false
        → is_nil (walk hit c) ≡ false
        → walk_node hit (node k l c d) ≡ cons (node k l (walk hit c) d) nil
    unfolding walk
    walk_node_keep h e = rw (h, e)

    hits_skip : (r : List TreeNode) → hit l ≡ false → hits (node k l c d ∷ r) ≡ hits r
    hits_skip r h = ground arith

  mutual
    unfolding walk

    hits-walk : (f : Forest) → hits (preorder (walk hit f)) ≡ hits (preorder f)
    hits-walk nil = refl
    hits-walk (cons n ns) =
        hits-concat (walk_node hit n) (walk hit ns)
        ∙ ap (λ l. l ++ hits (preorder (walk hit ns))) (hits-walk_node n)
        ∙ ap (λ l. hits (preorder_node n) ++ l) (hits-walk ns)
        ∙ sym (hits-append (preorder_node n) (preorder ns))

    hits-walk_node : (n : TreeNode) → hits (preorder (walk_node hit n)) ≡ hits (preorder_node n)
    hits-walk_node (node k l c d) = elim (Bool-cases (hit l)) [
      | inl h ↦
          rw (walk_node_hit k l c d h) (ap (λ r. hits (node k l c d ∷ r)) (append-nil (preorder c)))
      | inr h ↦ elim (Bool-cases (is_nil (walk hit c))) [
        | inl e ↦
            rw (walk_node_drop k l c d h e)
              (sym (hits_of_is_nil (walk hit c) e) ∙ hits-walk c ∙ sym (hits_skip k l c d _ h))
        | inr e ↦ rw (walk_node_keep k l c d h e) (
            hits_skip k l (walk hit c) d _ h
            ∙ ap hits (append-nil (preorder (walk hit c)))
            ∙ hits-walk c
            ∙ sym (hits_skip k l c d _ h))
      ]
    ]

  -- Each node is hit, or some node below it is, and then so for its children.
  abbrev mutual
    pub IsPruned : Forest → Type 0
    IsPruned nil = Unit
    IsPruned (cons n ns) = IsPrunedNode n × IsPruned ns

    pub IsPrunedNode : TreeNode → Type 0
    IsPrunedNode (node k l c d) = (hit l ≡ true) ⊎ ((is_nil c ≡ false) × IsPruned c)

  IsPruned-concat : (f g : Forest) → IsPruned f → IsPruned g → IsPruned (concat f g)
  IsPruned-concat nil g h k = k
  IsPruned-concat (cons n ns) g (p, h) k = (p, IsPruned-concat ns g h k)

  mutual
    unfolding walk

    walk-IsPruned : (f : Forest) → IsPruned (walk hit f)
    walk-IsPruned nil = tt
    walk-IsPruned (cons n ns) =
        IsPruned-concat (walk_node hit n) (walk hit ns) (walk_node-IsPruned n) (walk-IsPruned ns)

    walk_node-IsPruned : (n : TreeNode) → IsPruned (walk_node hit n)
    walk_node-IsPruned (node k l c d) = ground (arith, walk-IsPruned c)

  mutual
    unfolding walk

    walk_of_IsPruned : (f : Forest) → IsPruned f → walk hit f ≡ f
    walk_of_IsPruned nil h = refl
    walk_of_IsPruned (cons n ns) (p, h) =
        rw (walk_node_of_IsPruned n p) (ap (cons n) (walk_of_IsPruned ns h))

    walk_node_of_IsPruned : (n : TreeNode) → IsPrunedNode n → walk_node hit n ≡ cons n nil
    walk_node_of_IsPruned (node k l c d) (inl h) = rw h
    walk_node_of_IsPruned (node k l c d) (inr (e, h)) = rw (walk_of_IsPruned c h, e) (ground arith)

  mutual
    IsPruned-of_all : (all_hit : (l : String) → hit l ≡ true) (f : Forest) → IsPruned f
    IsPruned-of_all all_hit nil = tt
    IsPruned-of_all all_hit (cons n ns) =
        (IsPrunedNode-of_all all_hit n, IsPruned-of_all all_hit ns)

    IsPrunedNode-of_all : (all_hit : (l : String) → hit l ≡ true) (n : TreeNode) → IsPrunedNode n
    IsPrunedNode-of_all all_hit (node k l c d) = inl (all_hit l)

module _ (lower : String → String) where
  -- The keyword as `filterTree` compares it.
  abbrev pub folded : String → String
  folded keyword = lower (trim keyword)

  pub filter_tree_all :
      (nodes : Forest) (keyword : String)
      → (folded keyword == "") ≡ true
      → filter_tree lower nodes keyword ≡ nodes
  unfolding filter_tree
  filter_tree_all nodes keyword e = rw e

  pub filter_tree-walk :
      (nodes : Forest) (keyword : String)
      → (folded keyword == "") ≡ false
      → filter_tree lower nodes keyword ≡ walk (matches lower (folded keyword)) nodes
  unfolding filter_tree
  filter_tree-walk nodes keyword e = rw e

  -- Filtering a second time by the same keyword changes nothing.
  filter_tree_idem :
      (nodes : Forest) (keyword : String)
      → filter_tree lower (filter_tree lower nodes keyword) keyword
        ≡ filter_tree lower nodes keyword
  unfolding filter_tree
  filter_tree_idem nodes keyword = elim (Bool-cases (folded keyword == "")) [
    | inl e ↦ rw e
    | inr e ↦ rw e (walk_of_IsPruned _ _ (walk-IsPruned _ nodes))
  ]
