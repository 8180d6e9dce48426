-- ===== src/Accounts.antt =====
-- pages/billing/accounts: the tree of accounts as rows (AccountTree.tsx, utils.ts), and the forms that move
-- money (AccountModals.tsx), with the levels, links and budgets of pages/billing/style.ts.
pub mod Laws
pub mod Edits
pub mod Rows
use zhiyuche.Common.{
  ℕ, suc, String, ◌<>◌, Bool, true, false, not, ◌&&◌, ◌||◌, Option, none, some, List, [], ◌∷◌, ◌++◌,
  ◌==◌, if◌then◌else◌,
}
use zhiyuche.Common.Number.{Number}
use zhiyuche.Common.StringSet.{has, add, delete}
use zhiyuche.Common.Text.{trim, is_text}
use zhiyuche.Session.{truthy}
use zhiyuche.Geo.{max_of}
use zhiyuche.Billing.{AccountLevel, enterprise, department, employee}

-- `childLevel`
unfoldable pub child_level : AccountLevel → Option AccountLevel
child_level enterprise = some department
child_level department = some employee
child_level employee = none

abbrev pub level_text : AccountLevel → String
level_text enterprise = "enterprise"
level_text department = "department"
level_text employee = "employee"

-- An account of the tree; `exists` is `undefined` where the interface leaves it out.
pub record Account : Type 0 where
  pub id : String
  pub exists : Option Bool
  pub level : AccountLevel
  pub owner_id : String

mutual
  pub data AccountNode : Type 0 where
    node : Account → Nodes → AccountNode

  pub data Nodes : Type 0 where
    nil : Nodes
    cons : AccountNode → Nodes → Nodes

abbrev pub account_of : AccountNode → Account
account_of (node a children) = a

abbrev pub children_of : AccountNode → Nodes
children_of (node a children) = children

abbrev is_false : Option Bool → Bool
is_false none = false
is_false (some b) = not b

-- `nodeExists` and `nodeKey`
unfoldable pub node_exists : Account → Bool
node_exists a = not (is_false a.exists) && not (a.id == "")

unfoldable pub node_key : Account → String
unfolding node_exists
node_key a = if node_exists a then a.id else level_text a.level <> (":" <> a.owner_id)

-- `setCollapsed` of a click.
unfoldable pub toggle : List String → String → List String
toggle collapsed key = if has collapsed key then delete collapsed key else add collapsed key

-- `refLink`, with `encode` for `encodeURIComponent`.
unfoldable pub ref_link : (String → String) → Option String → Option String → Option String
ref_link encode ref_type ref_id = elim (truthy ref_type) [
  | none ↦ none
  | some type ↦ elim (truthy ref_id) [
    | none ↦ none
    | some id ↦
        if type == "trip"
        then some ("/trips?id=" <> encode id)
        else if type == "charge_transaction" || type == "charge"
        then some ("/charging?tx=" <> encode id)
        else none
  ]
]

-- How the target of an allocation is chosen.
pub data TargetMode : Type 0 where
  child : TargetMode
  pick : TargetMode

-- Part of the body of an allocation: an account, or an owner for whom one is created.
pub data Target : Type 0 where
  to_account : String → Target
  to_owner : AccountLevel → String → Target

unfoldable pub find_child : String → Nodes → Option Account
unfolding node_key
find_child key nil = none
find_child key (cons n ns) =
    let rest = find_child key ns in
    if node_key (account_of n) == key then some (account_of n) else rest

unfoldable pub from_node : Account → Target
unfolding node_exists
from_node a = if node_exists a then to_account a.id else to_owner a.level a.owner_id

found : Option Account → Option Target
unfolding from_node
found none = none
found (some a) = some (from_node a)

owner : AccountLevel → Option String → Option Target
owner level none = none
owner level (some id) = some (to_owner level id)

-- What was chosen: a child by its key, a department, or a user by their identifier.
picked : AccountLevel → Option String → Option String → Option Target
unfolding owner
picked enterprise dept_id user = owner department (truthy dept_id)
picked department dept_id user = owner employee user
picked employee dept_id user = owner employee user

pub record Choice : Type 0 where
  pub target : Option Account
  pub mode : TargetMode
  pub child_key : String
  pub dept_id : Option String
  pub user : Option String

chosen : AccountNode → Option Account → TargetMode → Choice → Option Target
unfolding found find_child picked from_node
chosen source (some a) mode choice = some (from_node a)
chosen source none child choice = found (find_child choice.child_key (children_of source))
chosen source none pick choice = picked (account_of source).level choice.dept_id choice.user

-- `resolveTarget`
unfoldable pub resolve_target : AccountNode → Choice → Option Target
unfolding child_level chosen
resolve_target source choice = elim (child_level (account_of source).level) [
  | none ↦ none
  | some level ↦ chosen source choice.target choice.mode choice
]

module _ (number : Number) where
  open number use {Carrier, of_ℕ, is_finite, parse, ltn, eqn, times, over}

  -- `positiveMoney` and `nonNegativeMoney`
  unfoldable pub is_positive_money : String → Bool
  is_positive_money v =
      not (trim v == "") && (is_finite (parse (trim v)) && ltn (of_ℕ 0) (parse (trim v)))

  unfoldable pub is_non_negative_money : String → Bool
  is_non_negative_money v =
      not (trim v == "") && (is_finite (parse (trim v)) && not (ltn (parse (trim v)) (of_ℕ 0)))

  pub record MoneyForm : Type 0 where
    pub amount : String
    pub remark : String

  -- `rechargeSchema` and `allocateSchema`, which agree.
  unfoldable pub is_money_form : MoneyForm → Bool
  unfolding is_positive_money is_text
  is_money_form v = is_positive_money v.amount && is_text 0 200 v.remark

  pub record AllocateBody : Type 0 where
    pub target : Target
    pub amount : Carrier
    pub remark : Option String

  body_to : MoneyForm → Option Target → Option AllocateBody
  body_to v none = none
  body_to v (some target) = some (record {
    target = target;
    amount = parse (trim v.amount);
    remark = truthy (some (trim v.remark));
  })

  -- `submit` of the allocation: `none` is the message that no target was chosen.
  unfoldable pub submit_allocate : AccountNode → Choice → MoneyForm → Option AllocateBody
  unfolding resolve_target body_to
  submit_allocate source choice v = body_to v (resolve_target source choice)

  -- `budgetUsage`; a budget of NaN is falsy.
  unfoldable pub budget_usage : Option Carrier → Option Carrier → Option Carrier
  budget_usage spent none = none
  budget_usage spent (some budget) =
      if eqn budget (of_ℕ 0) || (not (eqn budget budget) || ltn budget (of_ℕ 0))
      then none
      else some (max_of number (of_ℕ 0) (times (over (spent_of spent) budget) (of_ℕ 100)))
    where
      spent_of : Option Carrier → Carrier
      spent_of none = of_ℕ 0
      spent_of (some s) = s
