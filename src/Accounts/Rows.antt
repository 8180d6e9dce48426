-- ===== src/Accounts/Rows.antt =====
-- pages/billing/accounts/AccountTree.tsx: the rows that are shown, and how a branch that is collapsed hides.
use zhiyuche.Common.{
  ℕ, suc, ◌≤◌, ◌<◌, String, Bool, true, false, not, ◌&&◌, Option, none, some, List, [], ◌∷◌, ◌++◌,
  ltb, lt→ltb, Bool-cases, inl, inr, refl, ap, sym, ◌∙◌, ◌≡◌, arith, if◌then◌else◌, append_assoc,
  append-nil,
}
use zhiyuche.Common.StringSet.{has}
use zhiyuche.Accounts.{Account, AccountNode, node, Nodes, nil, cons, node_key}

pub record Row : Type 0 where
  pub account : Account
  pub parent : Option Account
  pub depth : ℕ
  pub key : String
  pub has_children : Bool

abbrev pub is_cons : Nodes → Bool
is_cons nil = false
is_cons (cons n ns) = true

abbrev pub row_of : Account → Nodes → Option Account → ℕ → Row
row_of a children parent depth = record {
  account = a;
  parent = parent;
  depth = depth;
  key = node_key a;
  has_children = is_cons children;
}

unfoldable mutual
  unfolding node_key

  -- `walk(node, parent, depth)`: the rows that it pushes.
  pub walk : List String → AccountNode → Option Account → ℕ → List Row
  walk collapsed (node a children) parent depth =
      let below = walk_all collapsed children a (suc depth) in
      row_of a children parent depth
      ∷ (if is_cons children && not (has collapsed (node_key a)) then below else [])

  pub walk_all : List String → Nodes → Account → ℕ → List Row
  walk_all collapsed nil parent depth = []
  walk_all collapsed (cons n ns) parent depth =
      walk collapsed n (some parent) depth ++ walk_all collapsed ns parent depth

-- `flatten`
unfoldable pub flatten : AccountNode → List String → List Row
unfolding walk
flatten root collapsed = walk collapsed root none 0

-- The rows that are left of the rows of the whole tree, in one pass: a row whose key is collapsed hides the
-- rows after it that lie deeper.
abbrev pub hides : List String → Row → Option ℕ
hides collapsed r = if r.has_children && has collapsed r.key then some r.depth else none

unfoldable pub hide : List String → Option ℕ → List Row → List Row
hide collapsed below [] = []
hide collapsed none (r ∷ rs) = r ∷ hide collapsed (hides collapsed r) rs
hide collapsed (some d) (r ∷ rs) =
    let hidden = hide collapsed (some d) rs in
    let shown = hide collapsed (hides collapsed r) rs in if ltb d r.depth then hidden else r ∷ shown

walk-none :
    (a : Account) (children : Nodes) (parent : Option Account) (depth : ℕ)
    → walk [] (node a children) parent depth
      ≡ row_of a children parent depth ∷ walk_all [] children a (suc depth)
unfolding walk has
walk-none a nil parent depth = refl
walk-none a (cons n ns) parent depth = refl

walk_nil :
    (c : List String) (a : Account) (parent : Option Account) (d : ℕ)
    → walk c (node a nil) parent d ≡ row_of a nil parent d ∷ []
unfolding walk
walk_nil c a parent d = refl

walk-cons :
    (c : List String) (a : Account) (n : AccountNode) (ns : Nodes) (parent : Option Account) (d : ℕ)
    → walk c (node a (cons n ns)) parent d
      ≡ row_of a (cons n ns) parent d
        ∷ (if not (has c (node_key a)) then walk_all c (cons n ns) a (suc d) else [])
unfolding walk
walk-cons c a n ns parent d = refl

walk_all_nil : (c : List String) (parent : Account) (d : ℕ) → walk_all c nil parent d ≡ []
unfolding walk_all
walk_all_nil c parent d = refl

walk_all-cons :
    (c : List String) (n : AccountNode) (ns : Nodes) (parent : Account) (d : ℕ)
    → walk_all c (cons n ns) parent d ≡ walk c n (some parent) d ++ walk_all c ns parent d
unfolding walk_all
walk_all-cons c n ns parent d = refl

mutual
  unfolding hide

  skipped :
      (c : List String) (n : AccountNode) (parent : Option Account) (d depth : ℕ) (rest : List Row)
      → d < depth
      → hide c (some d) (walk [] n parent depth ++ rest) ≡ hide c (some d) rest
  skipped c (node a children) parent d depth rest lt =
      rw (walk-none a children parent depth)
        (rw (lt→ltb d depth lt) (skipped_all c children a d (suc depth) rest (omega (arith, lt))))

  skipped_all :
      (c : List String) (ns : Nodes) (parent : Account) (d depth : ℕ) (rest : List Row)
      → d < depth
      → hide c (some d) (walk_all [] ns parent depth ++ rest) ≡ hide c (some d) rest
  skipped_all c nil parent d depth rest lt = rw (walk_all_nil [] parent depth) refl
  skipped_all c (cons n ns) parent d depth rest lt = rw (walk_all-cons [] n ns parent depth) (
      ap (hide c (some d))
        (append_assoc (walk [] n (some parent) depth) (walk_all [] ns parent depth) rest)
      ∙ (skipped c n (some parent) d depth (walk_all [] ns parent depth ++ rest) lt
          ∙ skipped_all c ns parent d depth rest lt))

-- A row that lies no deeper begins what follows, or nothing follows.
abbrev AtMost : ℕ → List Row → Type 0
AtMost d [] = Unit
AtMost d (r ∷ rs) = r.depth ≤ d

shown_again :
    (c : List String) (d : ℕ) (rest : List Row)
    → AtMost d rest
    → hide c (some d) rest ≡ hide c none rest
unfolding hide
shown_again c d [] h = refl
shown_again c d (r ∷ rs) h = ground (arith, h)

AtMost-walk_all :
    (ns : Nodes) (parent : Account) (d : ℕ) (rest : List Row)
    → AtMost d rest
    → AtMost d (walk_all [] ns parent d ++ rest)
unfolding walk_all
AtMost-walk_all nil parent d rest h = h
AtMost-walk_all (cons (node a children) ns) parent d rest h = omega arith

AtMost-suc : (d : ℕ) (rest : List Row) → AtMost d rest → AtMost (suc d) rest
AtMost-suc d [] h = tt
AtMost-suc d (r ∷ rs) h = omega (arith, h)

mutual
  unfolding hide

  hide-walk :
      (c : List String) (n : AccountNode) (parent : Option Account) (d : ℕ) (rest : List Row)
      → AtMost d rest
      → hide c none (walk [] n parent d ++ rest) ≡ walk c n parent d ++ hide c none rest
  hide-walk c (node a nil) parent d rest h = rw (walk_nil [] a parent d, walk_nil c a parent d) refl
  hide-walk c (node a (cons n ns)) parent d rest h = elim (Bool-cases (has c (node_key a))) [
    | inl folded ↦
        rw (walk-none a (cons n ns) parent d, walk-cons c a n ns parent d)
          (rw folded (
            ap (λ l. row_of a (cons n ns) parent d ∷ l)
              (skipped_all c (cons n ns) a d (suc d) rest (omega arith) ∙ shown_again c d rest h)))
    | inr open_ ↦
        rw (walk-none a (cons n ns) parent d, walk-cons c a n ns parent d)
          (rw open_ (
            ap (λ l. row_of a (cons n ns) parent d ∷ l)
              (hide-walk_all c (cons n ns) a (suc d) rest (AtMost-suc d rest h))))
  ]

  hide-walk_all :
      (c : List String) (ns : Nodes) (parent : Account) (d : ℕ) (rest : List Row)
      → AtMost d rest
      → hide c none (walk_all [] ns parent d ++ rest) ≡ walk_all c ns parent d ++ hide c none rest
  hide-walk_all c nil parent d rest h = rw (walk_all_nil [] parent d, walk_all_nil c parent d) refl
  hide-walk_all c (cons n ns) parent d rest h =
      rw (walk_all-cons [] n ns parent d, walk_all-cons c n ns parent d)
        (ap (hide c none) (append_assoc (walk [] n (some parent) d) (walk_all [] ns parent d) rest)
          ∙ (hide-walk c n (some parent) d (walk_all [] ns parent d ++ rest)
                (AtMost-walk_all ns parent d rest h)
              ∙ (ap (λ l. walk c n (some parent) d ++ l) (hide-walk_all c ns parent d rest h)
                  ∙ sym (
                      append_assoc (walk c n (some parent) d) (walk_all c ns parent d)
                        (hide c none rest)))))

-- The rows that are shown are those of the whole tree, in depth-first order, without the ones that lie below a
-- row with a collapsed key; a key without children, or outside the tree, hides nothing.
pub hide-flatten :
    (root : AccountNode) (collapsed : List String)
    → flatten root collapsed ≡ hide collapsed none (flatten root [])
unfolding flatten
hide-flatten root collapsed = sym (
    ap (hide collapsed none) (sym (append-nil (walk [] root none 0)))
    ∙ (hide-walk collapsed root none 0 [] tt
        ∙ (unfold hide in append-nil (walk collapsed root none 0))))
