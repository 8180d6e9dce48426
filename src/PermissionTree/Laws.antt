-- ===== src/PermissionTree/Laws.antt =====
-- What can be checked in the tree of permissions is what a role can hold.
use zhiyuche.Common.{String, List, [], ◌≡◌, refl, ◌∙◌, ap}
use zhiyuche.Tree.{collect_leaf_keys, collect_leaves, all_leaf_keys}
use zhiyuche.PermissionTree.{
  menu, action, PermissionNode, permission, Permissions, no_permissions, and_permission,
  permissions_to_tree_nodes, permission_to_tree_node, collect_action_codes, collect_codes_of,
}

-- Nothing hangs below an action.
abbrev mutual
  pub IsRegistry : Permissions → Type 0
  IsRegistry no_permissions = Unit
  IsRegistry (and_permission p ps) = IsEntry p × IsRegistry ps

  pub IsEntry : PermissionNode → Type 0
  IsEntry (permission menu code name ps) = IsRegistry ps
  IsEntry (permission action code name no_permissions) = Unit
  IsEntry (permission action code name (and_permission p ps)) = ⊥

mutual
  unfolding collect_leaves permissions_to_tree_nodes collect_action_codes

  leaves_are_actions :
      (ps : Permissions) (into : List String)
      → IsRegistry ps
      → collect_leaves (permissions_to_tree_nodes ps) into ≡ collect_action_codes ps into
  leaves_are_actions no_permissions into h = refl
  leaves_are_actions (and_permission p ps) into (h, hs) =
      leaves_are_actions ps _ hs ∙ ap (collect_action_codes ps) (leaves_of_entry p into h)

  leaves_of_entry :
      (p : PermissionNode) (into : List String)
      → IsEntry p
      → collect_leaf_keys (permission_to_tree_node p) into ≡ collect_codes_of p into
  leaves_of_entry (permission menu code name no_permissions) into h = refl
  leaves_of_entry (permission menu code name (and_permission p ps)) into h =
      leaves_are_actions (and_permission p ps) into h
  leaves_of_entry (permission action code name no_permissions) into h = refl
  leaves_of_entry (permission action code name (and_permission p ps)) into h = elim h [ ]

-- Where nothing hangs below an action, the keys that the tree lets one check, in its order, are the
-- codes of all actions: a menu without children cannot be checked, and nothing else is left out.
all_leaf_keys-permissions_to_tree_nodes :
    (ps : Permissions)
    → IsRegistry ps
    → all_leaf_keys (permissions_to_tree_nodes ps) ≡ collect_action_codes ps []
unfolding all_leaf_keys
all_leaf_keys-permissions_to_tree_nodes ps h = leaves_are_actions ps [] h
