-- ===== src/Accounts/Laws.antt =====
-- Where an allocation goes, and how much it moves.
use mathlib.Core.Path.{subst}
use zhiyuche.Common.{
  String, true, false, eq_iff, ◌⊎◌, Option, none, some, some-injective, ◌==◌, ◌≡◌, refl, inl, inr,
  arith, Bool-cases, Option-cases,
}
use zhiyuche.Common.Number.{Number}
use zhiyuche.Session.{truthy}
use zhiyuche.Billing.{AccountLevel, enterprise, department, employee}
use zhiyuche.Accounts.{
  child_level, Account, AccountNode, Nodes, nil, cons, account_of, children_of, node_exists,
  node_key, TargetMode, Target, to_account, to_owner, find_child, from_node, Choice, chosen, child,
  pick, found, owner, picked, resolve_target, MoneyForm, is_money_form, is_positive_money,
  AllocateBody, body_to, submit_allocate,
}

-- The account lies one level below the one of the source.
abbrev pub IsBelow : Account → Account → Type 0
IsBelow source a = child_level source.level ≡ some a.level

abbrev pub AllBelow : Account → Nodes → Type 0
AllBelow source nil = Unit
AllBelow source (cons n ns) = IsBelow source (account_of n) × AllBelow source ns

abbrev pub SomeBelow : Account → Option Account → Type 0
SomeBelow source none = Unit
SomeBelow source (some a) = IsBelow source a

abbrev pub IsChild : Account → Nodes → Type 0
IsChild a nil = ⊥
IsChild a (cons n ns) = (account_of n ≡ a) ⊎ IsChild a ns

-- The account of the choice: the one given from outside, or the child of the source with the chosen key.
abbrev pub IsChosen : AccountNode → Option Account → TargetMode → Choice → Account → Type 0
IsChosen source (some t) mode choice a = t ≡ a
IsChosen source none child choice a =
    IsChild a (children_of source) × (node_key a ≡ choice.child_key)
IsChosen source none pick choice a = ⊥

-- The owner of the choice: a department below the enterprise, and a user below a department.
abbrev pub IsPicked : AccountLevel → Choice → String → Type 0
IsPicked enterprise choice id = truthy choice.dept_id ≡ some id
IsPicked department choice id = choice.user ≡ some id
IsPicked employee choice id = ⊥

abbrev pub IsOwner : AccountNode → Option Account → TargetMode → Choice → String → Type 0
IsOwner source none pick choice id = IsPicked (account_of source).level choice id
IsOwner source none child choice id = ⊥
IsOwner source (some t) mode choice id = ⊥

-- The target is the chosen account, if that is there, and else the owner of the chosen account or the
-- chosen owner; and it is one level below the source.
abbrev pub IsOneDown : AccountNode → Option Account → TargetMode → Choice → Target → Type 0
IsOneDown source target mode choice (to_account id) =
    (a : Account) × (IsChosen source target mode choice a
      × ((a.id ≡ id) × ((node_exists a ≡ true) × IsBelow (account_of source) a)))
IsOneDown source target mode choice (to_owner level id) =
    (child_level (account_of source).level ≡ some level)
    × (((a : Account) × (IsChosen source target mode choice a
            × ((a.level ≡ level) × ((a.owner_id ≡ id) × (node_exists a ≡ false)))))
        ⊎ IsOwner source target mode choice id)

abbrev SomeDown : AccountNode → Option Account → TargetMode → Choice → Option Target → Type 0
SomeDown source target mode choice none = Unit
SomeDown source target mode choice (some t) = IsOneDown source target mode choice t

from_node-IsOneDown :
    (source : AccountNode) (target : Option Account) (mode : TargetMode) (choice : Choice)
    (a : Account)
    → IsChosen source target mode choice a
    → IsBelow (account_of source) a
    → IsOneDown source target mode choice (from_node a)
unfolding from_node
from_node-IsOneDown source target mode choice a is below = elim (Bool-cases (node_exists a)) [
  | inl there ↦ rw there (a, (is, (refl, (there, below))))
  | inr absent ↦ rw absent (below, inl (a, (is, (refl, (refl, absent)))))
]

-- What a search for a child gives: a child with the key, below the source.
abbrev SomeChild : Account → String → Nodes → Option Account → Type 0
SomeChild source key ns none = Unit
SomeChild source key ns (some a) = IsBelow source a × (IsChild a ns × (node_key a ≡ key))

child_among_more :
    (source : Account) (key : String) (n : AccountNode) (ns : Nodes) (o : Option Account)
    → SomeChild source key ns o
    → SomeChild source key (cons n ns) o
child_among_more source key n ns none h = tt
child_among_more source key n ns (some a) (below, (among, is)) = (below, (inr among, is))

find_child-SomeChild :
    (source : Account) (key : String) (ns : Nodes)
    → AllBelow source ns
    → SomeChild source key ns (find_child key ns)
unfolding find_child
find_child-SomeChild source key nil h = tt
find_child-SomeChild source key (cons n ns) (here, there) =
    elim (Bool-cases (node_key (account_of n) == key)) [
      | inl is ↦ rw is (here, (inl refl, (eq_iff (node_key (account_of n)) key).0 is))
      | inr other ↦ rw other (
          child_among_more source key n ns (find_child key ns)
            (find_child-SomeChild source key ns there))
    ]

found-SomeDown :
    (source : AccountNode) (choice : Choice) (o : Option Account)
    → SomeChild (account_of source) choice.child_key (children_of source) o
    → SomeDown source none child choice (found o)
unfolding found
found-SomeDown source choice none h = tt
found-SomeDown source choice (some a) (below, is) =
    from_node-IsOneDown source none child choice a is below

owner-SomeDown :
    (source : AccountNode) (choice : Choice) (level : AccountLevel) (o : Option String)
    → child_level (account_of source).level ≡ some level
    → ((id : String) → o ≡ some id → IsPicked (account_of source).level choice id)
    → SomeDown source none pick choice (owner level o)
unfolding owner
owner-SomeDown source choice level none h is = tt
owner-SomeDown source choice level (some id) h is = (h, inr (is id refl))

picked-SomeDown :
    (source : AccountNode) (choice : Choice) (level below : AccountLevel)
    → (account_of source).level ≡ level
    → child_level (account_of source).level ≡ some below
    → SomeDown source none pick choice (picked level choice.dept_id choice.user)
unfolding picked child_level
picked-SomeDown source choice enterprise below e h =
    owner-SomeDown source choice department (truthy choice.dept_id)
      (unfold child_level in rw e refl) (λ id is. rw e is)
picked-SomeDown source choice department below e h =
    owner-SomeDown source choice employee choice.user (unfold child_level in rw e refl)
      (λ id is. rw e is)
picked-SomeDown source choice employee below e h = cc (h, e)

chosen-SomeDown :
    (source : AccountNode) (target : Option Account) (mode : TargetMode) (choice : Choice)
    (below : AccountLevel)
    → child_level (account_of source).level ≡ some below
    → AllBelow (account_of source) (children_of source)
    → SomeBelow (account_of source) target
    → SomeDown source target mode choice (chosen source target mode choice)
unfolding chosen
chosen-SomeDown source (some a) mode choice below e h k =
    from_node-IsOneDown source (some a) mode choice a refl k
chosen-SomeDown source none child choice below e h k =
    found-SomeDown source choice (find_child choice.child_key (children_of source))
      (find_child-SomeChild (account_of source) choice.child_key (children_of source) h)
chosen-SomeDown source none pick choice below e h k =
    picked-SomeDown source choice (account_of source).level below refl e

resolve_target-SomeDown :
    (source : AccountNode) (choice : Choice)
    → AllBelow (account_of source) (children_of source)
    → SomeBelow (account_of source) choice.target
    → SomeDown source choice.target choice.mode choice (resolve_target source choice)
unfolding resolve_target
resolve_target-SomeDown source choice h k =
    elim (Option-cases (child_level (account_of source).level)) [
      | inl lowest ↦ rw (lowest, SomeDown) tt
      | inr (below, e) ↦
          rw (e, SomeDown) (chosen-SomeDown source choice.target choice.mode choice below e h k)
    ]

module _ (number : Number) where
  open number use {Carrier, of_ℕ, is_finite, parse, ltn}

  pub record IsSoundTransfer (source : AccountNode) (choice : Choice) (b : AllocateBody number)
      : Type 0 where
    pub target : IsOneDown source choice.target choice.mode choice b.target
    pub finite : is_finite b.amount ≡ true
    pub positive : ltn (of_ℕ 0) b.amount ≡ true

  body_to-IsSoundTransfer :
      (source : AccountNode) (choice : Choice) (v : MoneyForm number) (o : Option Target)
      (b : AllocateBody number)
      → is_money_form number v ≡ true
      → SomeDown source choice.target choice.mode choice o
      → body_to number v o ≡ some b
      → IsSoundTransfer source choice b
  unfolding body_to is_money_form is_positive_money
  body_to-IsSoundTransfer source choice v none b valid h e = cc e
  body_to-IsSoundTransfer source choice v (some t) b valid h e =
      subst (IsSoundTransfer source choice) (some-injective _ b e)
        (record { target = h; finite = ground (arith, valid); positive = ground (arith, valid) })

  -- A money form that passes its checks, submitted for any choice of a target, in a tree whose children lie
  -- one level below the source, and with a target from outside, if any, that does: the body goes to the
  -- account that was chosen, that is the target from outside or else a child of the source with the chosen
  -- key, if it is there, and to its owner if it is not; or to the department or the user that was picked for
  -- a new account. The level of each is the one below the source, and the amount is finite and above 0.
  pub submit_allocate-IsSoundTransfer :
      (source : AccountNode) (choice : Choice) (v : MoneyForm number) (b : AllocateBody number)
      → AllBelow (account_of source) (children_of source)
      → SomeBelow (account_of source) choice.target
      → is_money_form number v ≡ true
      → submit_allocate number source choice v ≡ some b
      → IsSoundTransfer source choice b
  unfolding submit_allocate
  submit_allocate-IsSoundTransfer source choice v b h k valid e =
      body_to-IsSoundTransfer source choice v (resolve_target source choice) b valid
        (resolve_target-SomeDown source choice h k) e
