-- ===== src/Tests/Hooks.antt =====
-- A department with one below it, and a menu with two actions and an empty menu.
use zhiyuche.Common.{[], ◌∷◌, ◌≡◌, refl}
use zhiyuche.Common.StringSet.{add, has}
use zhiyuche.DeptTree.{DeptNode, dept, no_depts, and_dept, collect_dept_ids}
use zhiyuche.PermissionTree.{
  menu, action, permission, Permissions, no_permissions, and_permission, collect_action_codes,
}

abbrev sales : DeptNode
sales = dept "d1" "Sales" (and_dept (dept "d2" "North" no_depts) no_depts)

below : collect_dept_ids sales [] ≡ "d1" ∷ "d2" ∷ []
unfolding collect_dept_ids add has
below = refl

abbrev registry : Permissions
registry =
    and_permission
      (permission menu "user" "Users" (
        and_permission (permission action "user:list" "List" no_permissions)
          (and_permission (permission action "user:edit" "Edit" no_permissions) no_permissions)))
      (and_permission (permission menu "map" "Map" no_permissions) no_permissions)

codes : collect_action_codes registry [] ≡ "user:list" ∷ "user:edit" ∷ []
unfolding collect_action_codes
codes = refl
