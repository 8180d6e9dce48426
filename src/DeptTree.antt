-- ===== src/DeptTree.antt =====
-- hooks/useDeptTree.ts: departments as nodes of a tree. A department's children that are absent or
-- empty, which every function reads alike, are `no_depts`; its head count is only shown.
pub mod Laws
use zhiyuche.Common.{
  String, Bool, true, false, Option, none, some, List, [], ◌∷◌, ◌==◌, if◌then◌else◌,
}
use zhiyuche.Common.StringSet.{add}
use zhiyuche.Tree.{TreeNode, node, Forest, nil, cons}

mutual
  pub data DeptNode : Type 0 where
    dept : String → String → Depts → DeptNode

  pub data Depts : Type 0 where
    no_depts : Depts
    and_dept : DeptNode → Depts → Depts

-- `deptsToTreeNodes`
unfoldable mutual
  pub depts_to_tree_nodes : Depts → Forest
  depts_to_tree_nodes no_depts = nil
  depts_to_tree_nodes (and_dept d ds) = cons (dept_to_tree_node d) (depts_to_tree_nodes ds)

  pub dept_to_tree_node : DeptNode → TreeNode
  dept_to_tree_node (dept id name ds) = node id name (depts_to_tree_nodes ds) false

abbrev pub or_dept : Option DeptNode → Option DeptNode → Option DeptNode
or_dept none y = y
or_dept (some d) y = some d

-- `findDept`: the loop over the departments, and its body.
unfoldable mutual
  pub find_dept : Depts → String → Option DeptNode
  find_dept no_depts id = none
  find_dept (and_dept d ds) id = or_dept (find_in_dept d id) (find_dept ds id)

  pub find_in_dept : DeptNode → String → Option DeptNode
  find_in_dept (dept i name ds) id =
      let hit = find_dept ds id in if i == id then some (dept i name ds) else hit

-- `collectDeptIds`, into a `Set`
unfoldable mutual
  pub collect_dept_ids : DeptNode → List String → List String
  collect_dept_ids (dept id name ds) into = collect_ids_of ds (add into id)

  pub collect_ids_of : Depts → List String → List String
  collect_ids_of no_depts into = into
  collect_ids_of (and_dept d ds) into = collect_ids_of ds (collect_dept_ids d into)
