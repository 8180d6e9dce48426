-- ===== src/PermissionTree.antt =====
-- hooks/usePermissionTree.tsx: the registered permissions as nodes of a tree. Children that are absent
-- or empty are `no_permissions`; icons and the code shown beside a name are left out.
pub mod Laws
use zhiyuche.Common.{String, Bool, true, false, not, ◌&&◌, List, [], ◌∷◌, ◌++◌, if◌then◌else◌}
use zhiyuche.Tree.{TreeNode, node, Forest, nil, cons, is_nil}

pub data PermissionType : Type 0 where
  menu action : PermissionType

mutual
  pub data PermissionNode : Type 0 where
    permission : PermissionType → String → String → Permissions → PermissionNode

  pub data Permissions : Type 0 where
    no_permissions : Permissions
    and_permission : PermissionNode → Permissions → Permissions

abbrev pub is_menu : PermissionType → Bool
is_menu menu = true
is_menu action = false

-- `permissionsToTreeNodes`
unfoldable mutual
  pub permissions_to_tree_nodes : Permissions → Forest
  permissions_to_tree_nodes no_permissions = nil
  permissions_to_tree_nodes (and_permission p ps) =
      cons (permission_to_tree_node p) (permissions_to_tree_nodes ps)

  pub permission_to_tree_node : PermissionNode → TreeNode
  permission_to_tree_node (permission type code name ps) =
      let children = permissions_to_tree_nodes ps in
      node code name children (is_menu type && is_nil children)

abbrev pushed : PermissionType → String → List String → List String
pushed menu code into = into
pushed action code into = into ++ code ∷ []

-- `collectActionCodes`: the loop over the nodes, and its body.
unfoldable mutual
  pub collect_action_codes : Permissions → List String → List String
  collect_action_codes no_permissions into = into
  collect_action_codes (and_permission p ps) into =
      collect_action_codes ps (collect_codes_of p into)

  pub collect_codes_of : PermissionNode → List String → List String
  collect_codes_of (permission type code name ps) into =
      collect_action_codes ps (pushed type code into)
