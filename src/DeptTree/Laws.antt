-- ===== src/DeptTree/Laws.antt =====
-- The functions on departments are those on the nodes that show them.
use mathlib.Core.Option
use zhiyuche.Common.{String, List, [], ◌≡◌, refl, ◌∙◌, ap, arith}
use zhiyuche.Tree.{find_tree_node, find_in_node, collect_tree_keys, collect_keys_of}
use zhiyuche.DeptTree.{
  DeptNode, dept, Depts, no_depts, and_dept, depts_to_tree_nodes, dept_to_tree_node, find_dept,
  find_in_dept, collect_dept_ids, collect_ids_of,
}

mutual
  unfolding find_dept find_tree_node depts_to_tree_nodes

  finds_alike :
      (ds : Depts) (id : String)
      → find_tree_node (depts_to_tree_nodes ds) id ≡ Option.map dept_to_tree_node (find_dept ds id)
  finds_alike no_depts id = refl
  finds_alike (and_dept d ds) id = ground (arith, finds_alike ds id, finds_in_alike d id)

  finds_in_alike :
      (d : DeptNode) (id : String)
      → find_in_node (dept_to_tree_node d) id ≡ Option.map dept_to_tree_node (find_in_dept d id)
  finds_in_alike (dept i name ds) id = ground (arith, finds_alike ds id)

mutual
  unfolding collect_dept_ids collect_tree_keys depts_to_tree_nodes

  collects_alike :
      (d : DeptNode) (into : List String)
      → collect_tree_keys (dept_to_tree_node d) into ≡ collect_dept_ids d into
  collects_alike (dept id name ds) into = collects_all_alike ds _

  collects_all_alike :
      (ds : Depts) (into : List String)
      → collect_keys_of (depts_to_tree_nodes ds) into ≡ collect_ids_of ds into
  collects_all_alike no_depts into = refl
  collects_all_alike (and_dept d ds) into =
      collects_all_alike ds _ ∙ ap (collect_ids_of ds) (collects_alike d into)

-- A department and the node that shows it agree: the search for a key among the nodes finds the node of
-- the department that the search for the identifier finds, or both find nothing; and the keys below
-- the node are the identifiers below the department, in the same order.
depts_to_tree_nodes_lem :
    (ds : Depts) (d : DeptNode) (id : String)
    → (find_tree_node (depts_to_tree_nodes ds) id ≡ Option.map dept_to_tree_node (find_dept ds id))
      × (collect_tree_keys (dept_to_tree_node d) [] ≡ collect_dept_ids d [])
depts_to_tree_nodes_lem ds d id = (finds_alike ds id, collects_alike d [])
