-- ===== src/TreeSelect/Laws.antt =====
-- What a select passes on: only what the props of that moment allow.
use mathlib.Core.Path.{subst}
use zhiyuche.Common.{
  ℕ, zero, suc, String, Bool, true, false, not, ◌&&◌, ◌||◌, Option, none, some, List, [], ◌∷◌, ◌++◌,
  ◌==◌, eq_refl, ◌≡◌, ◌⊎◌, refl, inl, inr, arith, Bool-cases, some-injective, if◌then◌else◌,
}
use zhiyuche.Common.StringSet.{has}
use zhiyuche.Tree.{
  TreeNode, node, Forest, nil, cons, key, disabled, is_nil, concat, walk, walk_node, matches,
  filter_tree,
}
use zhiyuche.Tree.Filter.{folded, filter_tree_all, filter_tree-walk}
use zhiyuche.TreeSelect.{
  is_given, row_at, rows, rows_of, row_expanded, selected_key, Props, Select, Event, render, press,
  leave, enter, toggle_row, click_row, clear_value, mounted, close, on_change, toggle_found,
  select_found, click_found, visible, tree_shown, found_row, act, settled, step, run,
}

-- Somewhere in the trees there is a node with this key that is not disabled.
abbrev mutual
  pub offers : Forest → String → Bool
  offers nil k = false
  offers (cons n ns) k = node_offers n k || offers ns k

  pub node_offers : TreeNode → String → Bool
  node_offers (node j l c d) k = (j == k && not d) || offers c k

offers-concat : (f g : Forest) (k : String) → offers (concat f g) k ≡ (offers f k || offers g k)
offers-concat nil g k = refl
offers-concat (cons n ns) g k = ground (arith, offers-concat ns g k)

-- What filtering leaves of a node, with what it leaves below.
node_left :
    (b e : Bool) (j l k : String) (c rest : Forest) (d : Bool)
    → (offers rest k ≡ true → offers c k ≡ true)
    → offers
        (if b then cons (node j l c d) nil else (if e then nil else cons (node j l rest d) nil))
        k
      ≡ true
    → node_offers (node j l c d) k ≡ true
node_left true e j l k c rest d h offered = ground (arith, offered)
node_left false true j l k c rest d h offered = cc offered
node_left false false j l k c rest d h offered = ground (arith, h, offered)

module _ (hit : String → Bool) (k : String) where
  mutual
    unfolding walk

    offers-walk : (f : Forest) → offers (walk hit f) k ≡ true → offers f k ≡ true
    offers-walk nil h = h
    offers-walk (cons n ns) h = ground (
      arith,
      offers-concat (walk_node hit n) (walk hit ns) k,
      offers-walk_node n,
      offers-walk ns,
      h,
    )

    offers-walk_node : (n : TreeNode) → offers (walk_node hit n) k ≡ true → node_offers n k ≡ true
    offers-walk_node (node j l c d) h =
        node_left (hit l) (is_nil (walk hit c)) j l k c (walk hit c) d (offers-walk c) h

offers-filter_tree :
    (lower : String → String) (nodes : Forest) (keyword k : String)
    → offers (filter_tree lower nodes keyword) k ≡ true
    → offers nodes k ≡ true
offers-filter_tree lower nodes keyword k h = elim (Bool-cases (folded lower keyword == "")) [
  | inl blank ↦ subst (λ f. offers f k ≡ true) (filter_tree_all lower nodes keyword blank) h
  | inr some_word ↦
      offers-walk (matches lower (folded lower keyword)) k nodes
        (subst (λ f. offers f k ≡ true) (filter_tree-walk lower nodes keyword some_word) h)
]

-- The same for the rows of a list.
abbrev row_offers : List TreeNode → String → Bool
row_offers [] k = false
row_offers (n ∷ ns) k = (key n == k && not (disabled n)) || row_offers ns k

row_offers-append :
    (a b : List TreeNode) (k : String) → row_offers (a ++ b) k ≡ (row_offers a k || row_offers b k)
row_offers-append [] b k = refl
row_offers-append (n ∷ a) b k = ground (arith, row_offers-append a b k)

row_offers-row_at :
    (i : ℕ) (ns : List TreeNode) (n : TreeNode)
    → row_at i ns ≡ some n
    → disabled n ≡ false
    → row_offers ns (key n) ≡ true
unfolding row_at
row_offers-row_at i [] n h e = cc h
row_offers-row_at zero (m ∷ ns) n h e = rw (some-injective m n h, eq_refl (key n), e) refl
row_offers-row_at (suc i) (m ∷ ns) n h e = ground (arith, row_offers-row_at i ns n h e)

below_open :
    (b : Bool) (j k : String) (d : Bool) (n : TreeNode) (below : List TreeNode)
    → row_offers (n ∷ (if b then below else [])) k ≡ true
    → (row_offers (n ∷ below) k ≡ true)
below_open true j k d n below h = h
below_open false j k d n below h = ground (arith, h)

module _ (is_open : String → Bool) (k : String) where
  mutual
    unfolding rows

    offers_of_rows : (f : Forest) → row_offers (rows is_open f) k ≡ true → offers f k ≡ true
    offers_of_rows nil h = h
    offers_of_rows (cons n ns) h = ground (
      arith,
      row_offers-append (rows_of is_open n) (rows is_open ns) k,
      offers_of_row n,
      offers_of_rows ns,
      h,
    )

    offers_of_row :
        (n : TreeNode) → row_offers (rows_of is_open n) k ≡ true → node_offers n k ≡ true
    offers_of_row (node j l c d) h =
        ground
          (arith, below_open (is_open j) j k d (node j l c d) (rows is_open c) h, offers_of_rows c)

-- What may be passed on: nothing only where the select can be cleared, and a key only of a node that is
-- in the tree and not disabled, there or by the select.
abbrev pub IsAllowed : Props × Option String → Type 0
IsAllowed (p, none) = (p.allow_clear ≡ true) × (p.disabled ≡ false)
IsAllowed (p, some k) = (offers p.nodes k ≡ true) × (has p.disabled_keys k ≡ false)

abbrev pub AllAllowed : List (Props × Option String) → Type 0
AllAllowed [] = Unit
AllAllowed (c ∷ cs) = IsAllowed c × AllAllowed cs

module _ (lower : String → String) where
  found_row-offers :
      (i : ℕ) (s : Select) (n : TreeNode)
      → found_row lower i s ≡ some n
      → disabled n ≡ false
      → offers s.props.nodes (key n) ≡ true
  unfolding found_row visible
  found_row-offers i s n h e = elim (Bool-cases (tree_shown lower s)) [
    | inl shown ↦ offers-filter_tree lower s.props.nodes s.keyword (key n) (
        offers_of_rows (row_expanded true s.toggled) (key n)
          (filter_tree lower s.props.nodes s.keyword)
          (row_offers-row_at i
            (rows (row_expanded true s.toggled) (filter_tree lower s.props.nodes s.keyword)) n
            (ground (arith, h, shown)) e))
    | inr hidden ↦ cc (h, hidden)
  ]

  -- The state of a select: every change that was passed on is allowed, and one that is closed has nothing of a
  -- search or of its tree.
  abbrev pub IsSound : Select → Type 0
  IsSound s = AllAllowed s.changes × ((s.is_open ≡ true) ⊎ ((s.keyword ≡ "") × (s.toggled ≡ [])))

  -- Before the tree is taken away where it is.
  abbrev IsNearly : Select → Type 0
  IsNearly s = AllAllowed s.changes × ((s.is_open ≡ true) ⊎ (s.keyword ≡ ""))

  nearly : (s : Select) → IsSound s → IsNearly s
  nearly s (h, inl opened) = (h, inl opened)
  nearly s (h, inr (blank, none_switched)) = (h, inr blank)

  either : (b : Bool) (s t : Select) → IsNearly s → IsNearly t → IsNearly (if b then s else t)
  either true s t h k = h
  either false s t h k = k

  is_open_where_shown : (s : Select) → tree_shown lower s ≡ true → s.is_open ≡ true
  unfolding tree_shown
  is_open_where_shown s h = ground (arith, h)

  settled-IsSound : (s : Select) → IsNearly s → IsSound (settled lower s)
  unfolding settled
  settled-IsSound s (h, k) = elim (Bool-cases (tree_shown lower s)) [
    | inl shown ↦ rw shown (h, inl (is_open_where_shown s shown))
    | inr hidden ↦ rw hidden (h, elim k [ inl opened ↦ inl opened | inr blank ↦ inr (blank, refl) ])
  ]

  click_found-IsNearly :
      (o : Option TreeNode) (s : Select)
      → ((n : TreeNode) → o ≡ some n → disabled n ≡ false → offers s.props.nodes (key n) ≡ true)
      → IsNearly s
      → IsNearly (click_found o s)
  unfolding click_found selected_key select_found close on_change
  click_found-IsNearly none s h k = k
  click_found-IsNearly (some n) s h (k, l) =
      elim (Bool-cases (disabled n || has s.props.disabled_keys (key n))) [
        | inl off ↦ rw off (k, l)
        | inr on ↦ rw on (((h n refl (ground (arith, on)), ground (arith, on)), k), inr refl)
      ]

  toggle_found-IsNearly :
      (o : Option TreeNode) (s : Select) → IsNearly s → IsNearly (toggle_found o s)
  unfolding toggle_found
  toggle_found-IsNearly none s h = h
  toggle_found-IsNearly (some (node j l nil d)) s h = h
  toggle_found-IsNearly (some (node j l (cons n ns) d)) s h = h

  act-IsNearly : (e : Event) (s : Select) → IsSound s → IsNearly (act lower e s)
  unfolding act close on_change
  act-IsNearly (render props) s h = nearly s h
  act-IsNearly press s h =
      either s.props.disabled s (if s.is_open then close s else record s { is_open = true })
        (nearly s h)
        (either s.is_open (close s) (record s { is_open = true }) (h.0, inr refl) (h.0, inl refl))
  act-IsNearly leave s h = either s.is_open (close s) s (h.0, inr refl) (nearly s h)
  act-IsNearly (enter keyword) s h = elim (Bool-cases (s.is_open && s.props.searchable)) [
    | inl typed ↦ rw typed (h.0, inl (ground (arith, typed)))
    | inr ignored ↦ rw ignored (nearly s h)
  ]
  act-IsNearly (toggle_row i) s h = toggle_found-IsNearly (found_row lower i s) s (nearly s h)
  act-IsNearly (click_row i) s h =
      click_found-IsNearly (found_row lower i s) s (found_row-offers i s) (nearly s h)
  act-IsNearly clear_value s h =
      elim (Bool-cases (s.props.allow_clear && (is_given s.props.value && not s.props.disabled))) [
        | inl cleared ↦
            rw cleared (((ground (arith, cleared), ground (arith, cleared)), h.0), (nearly s h).1)
        | inr ignored ↦ rw ignored (nearly s h)
      ]

  run_from : (es : List Event) (s : Select) → IsSound s → IsSound (run lower es s)
  unfolding run step
  run_from [] s h = h
  run_from (e ∷ es) s h =
      run_from es (step lower e s) (settled-IsSound (act lower e s) (act-IsNearly e s h))

  -- In every history of a select, whatever its props become: a key that it passes on is the key of a node of
  -- the props of that moment that is disabled neither there nor by the select, nothing is passed on only
  -- where it can be cleared, and when it is closed nothing is left of the search or of the opened branches.
  pub run-IsSound : (es : List Event) (props : Props) → IsSound (run lower es (mounted props))
  unfolding mounted
  run-IsSound es props = run_from es (mounted props) (tt, inr (refl, refl))
