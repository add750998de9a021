-- ===== src/Rbac/Manager.antt =====
-- The methods that change roles, assignments and permissions, and the check for a role. Each gives
-- the error, or the write that it passes on to the repository.
use net_llm.Prelude.{
  ℕ, zero, suc, String, Bool, true, false, ◌||◌, Option, none, some, List, [], ◌∷◌, if◌then◌else◌,
  str_eq,
}
use net_llm.Prelude.Int.{pos}
use net_llm.Rbac.State.{
  Permission, Role, RbacConfig, RbacManager, Repository, Write, create_role, update_role,
  delete_role, assign_role, revoke_role, create_permission, role_not_found, role_exists,
  invalid_role, invalid_permission, system_role, no_permission, Result, ok, err, and_then, contains,
}
use net_llm.Rbac.Inheritance.{validate_inheritance}
use net_llm.Rbac.Permissions.{invalidate_cache, get_user_roles}

-- The first permission that does not exist.
abbrev pub check_permissions : (String → Option Permission) → List String → Result (Unit {0})
check_permissions get_permission [] = ok tt
check_permissions get_permission (p ∷ ps) =
    let rest = check_permissions get_permission ps in
    elim (get_permission p) [ none ↦ err (no_permission p) | some _ ↦ rest ]

unfoldable pub create : Repository → RbacConfig → Role → ℕ → Result Write
unfolding validate_inheritance
create repo config role now =
    if str_eq role.name "" then err invalid_role else elim (repo.get_role_by_name role.name) [
      | some _ ↦ err role_exists
      | none ↦ and_then (check_permissions repo.get_permission role.permissions) λ _.
          and_then (validate_inheritance repo config role)
            λ _. ok (create_role (record role { created_at = now; updated_at = now }))
    ]

unfoldable pub update_found : Repository → RbacConfig → Role → ℕ → Option Role → Result Write
unfolding validate_inheritance
update_found repo config role now none = err role_not_found
update_found repo config role now (some existing) =
    if existing.is_system
    then err system_role
    else and_then (check_permissions repo.get_permission role.permissions) λ _.
      and_then (validate_inheritance repo config role)
        λ _. ok (update_role (record role { created_at = existing.created_at; updated_at = now }))

unfoldable pub update : Repository → RbacConfig → Role → ℕ → Result Write
unfolding update_found
update repo config role now = update_found repo config role now (repo.get_role role.id)

unfoldable pub remove : Repository → String → Result Write
remove repo id = elim (repo.get_role id) [
  | none ↦ err role_not_found
  | some role ↦ if role.is_system then err system_role else ok (delete_role id)
]

-- `AssignRole`, with the ID that it draws.
unfoldable pub assign :
    Repository
    → RbacManager
    → String
    → String
    → String
    → Option ℕ
    → String
    → ℕ
    → RbacManager × Result Write
unfolding invalidate_cache
assign repo m user_id role_id granted_by expires_at id now = elim (repo.get_role role_id) [
  | none ↦ (m, err role_not_found)
  | some _ ↦ (
    invalidate_cache m user_id,
    ok (
        assign_role (record {
          id = id;
          user_id = user_id;
          role_id = role_id;
          granted_by = granted_by;
          granted_at = now;
          expires_at = expires_at;
        })),
  )
]

unfoldable pub revoke : RbacManager → String → String → RbacManager × Result Write
unfolding invalidate_cache
revoke m user_id role_id = (invalidate_cache m user_id, ok (revoke_role user_id role_id))

unfoldable pub add_permission : Permission → ℕ → Result Write
add_permission p now =
    if str_eq p.name "" || (str_eq p.resource "" || str_eq p.action "")
    then err invalid_permission
    else ok (create_permission (record p { created_at = now }))

abbrev pub Visit : Type 0
Visit = Bool × List String

-- The loop of `hasRoleInherited` over the parents of a role, with the visited roles, which it gives
-- back, and what is done to each parent.
abbrev pub any_parent :
    (String → Option Role)
    → (Role → List String → Option Visit)
    → String
    → List String
    → List String
    → Option Visit
any_parent get_role visit target [] visited = some (false, visited)
any_parent get_role visit target (p ∷ ps) visited =
    let rest = λ (v : List String). any_parent get_role visit target ps v in
    elim (get_role p) [
      | none ↦ rest visited
      | some parent ↦
          if str_eq parent.name target then some (true, visited) else elim (visit parent visited) [
            | none ↦ none
            | some (true, visited') ↦ some (true, visited')
            | some (false, visited') ↦ rest visited'
          ]
    ]

-- The source has no bound; `none` is the end of the fuel (see `HasRole`).
unfoldable pub has_role_inherited :
    (String → Option Role) → String → ℕ → Role → List String → Option Visit
has_role_inherited get_role target zero role visited = none
has_role_inherited get_role target (suc fuel) role visited =
    if contains role.id visited
    then some (false, visited)
    else any_parent get_role (has_role_inherited get_role target fuel) target role.parents
        (role.id ∷ visited)

unfoldable pub any_has_role : (String → Option Role) → String → ℕ → List Role → Option Bool
unfolding has_role_inherited
any_has_role get_role target fuel [] = some false
any_has_role get_role target fuel (role ∷ roles) =
    let rest = any_has_role get_role target fuel roles in
    if str_eq role.name target
    then some true
    else elim (has_role_inherited get_role target fuel role []) [
      | none ↦ none
      | some (true, visited) ↦ some true
      | some (false, visited) ↦ rest
    ]

abbrev pub has_role_by : Repository → String → ℕ → Result (List Role) → Option (Result Bool)
has_role_by repo target fuel (err e) = some (err e)
has_role_by repo target fuel (ok roles) = elim (any_has_role repo.get_role target fuel roles) [
  | none ↦ none
  | some b ↦ some (ok b)
]

unfoldable pub has_role : Repository → String → String → ℕ → ℕ → Option (Result Bool)
unfolding any_has_role get_user_roles
has_role repo user_id target now fuel =
    has_role_by repo target fuel (get_user_roles repo user_id now)

abbrev system_role_of : String → String → List String → List String → Bool → ℕ → ℕ → Role
system_role_of id name permissions parents default priority now = record {
  id = id;
  name = name;
  permissions = permissions;
  parents = parents;
  is_system = true;
  is_default = default;
  priority = pos priority;
  created_at = now;
  updated_at = now;
}

unfoldable pub default_roles : ℕ → List Role
default_roles now =
    system_role_of "role-admin" "admin" ("perm-admin-all" ∷ []) [] false 100 now
    ∷ system_role_of "role-user" "user" ("perm-inference-read" ∷ "perm-models-read" ∷ []) [] true 1
        now
    ∷ system_role_of "role-developer" "developer" ("perm-inference-all" ∷ "perm-models-all" ∷ [])
        ("role-user" ∷ []) false 50 now
    ∷ system_role_of "role-viewer" "viewer"
        ("perm-inference-read" ∷ "perm-models-read" ∷ "perm-audit-read" ∷ []) [] false 10 now
    ∷ []

abbrev permission : String → String → String → String → String → ℕ → Permission
permission id name resource action scope now = record {
  id = id;
  name = name;
  resource = resource;
  action = action;
  scope = scope;
  created_at = now;
}

unfoldable pub default_permissions : ℕ → List Permission
default_permissions now =
    permission "perm-admin-all" "admin.all" "*" "*" "global" now
    ∷ permission "perm-inference-read" "inference.read" "inference" "read" "own" now
    ∷ permission "perm-inference-write" "inference.write" "inference" "write" "own" now
    ∷ permission "perm-inference-all" "inference.all" "inference" "*" "team" now
    ∷ permission "perm-models-read" "models.read" "models" "read" "own" now
    ∷ permission "perm-models-write" "models.write" "models" "write" "own" now
    ∷ permission "perm-models-all" "models.all" "models" "*" "team" now
    ∷ permission "perm-users-read" "users.read" "users" "read" "team" now
    ∷ permission "perm-users-write" "users.write" "users" "write" "team" now
    ∷ permission "perm-users-all" "users.all" "users" "*" "organization" now
    ∷ permission "perm-audit-read" "audit.read" "audit" "read" "team" now
    ∷ permission "perm-apikeys-read" "apikeys.read" "apikeys" "read" "own" now
    ∷ permission "perm-apikeys-write" "apikeys.write" "apikeys" "write" "own" now
    ∷ permission "perm-billing-read" "billing.read" "billing" "read" "own" now
    ∷ permission "perm-billing-write" "billing.write" "billing" "write" "own" now
    ∷ []
