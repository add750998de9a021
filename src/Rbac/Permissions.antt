-- ===== src/Rbac/Permissions.antt =====
-- The permissions of a user: collected from roles and their parents, cached, and decided upon.
use net_llm.Prelude.{
  ℕ, zero, suc, ◌+◌, String, Bool, true, false, ◌&&◌, ◌||◌, Option, none, some, List, [], ◌∷◌, ◌++◌,
  if◌then◌else◌, ltb, leb, str_eq,
}
use net_llm.Prelude.Dict.{lookup, insert, delete}
use net_llm.Rbac.State.{
  Permission, Role, RoleAssignment, is_expired, RbacConfig, RbacManager, CachedPermissions,
  Repository, Result, ok, err, repository_failed, contains, levels,
}

-- A map used as a set: writing a key twice leaves it as it is.
abbrev pub add : String → List String → List String
add x xs = if contains x xs then xs else xs ++ (x ∷ [])

abbrev pub add_all : List String → List String → List String
add_all [] ids = ids
add_all (p ∷ ps) ids = add_all ps (add p ids)

abbrev pub add_parent : (Role → List String → List String) → Option Role → List String → List String
add_parent visit none ids = ids
add_parent visit (some parent) ids = visit parent ids

-- The loop over the parents, with what is done to each.
abbrev pub add_parents :
    (String → Option Role)
    → (Role → List String → List String)
    → List String
    → List String
    → List String
add_parents get_role visit [] ids = ids
add_parents get_role visit (p ∷ ps) ids =
    add_parents get_role visit ps (add_parent visit (get_role p) ids)

-- With the levels left.
unfoldable pub collect_permission_ids :
    (String → Option Role) → ℕ → Role → List String → List String
collect_permission_ids get_role zero role ids = ids
collect_permission_ids get_role (suc left) role ids =
    add_parents get_role (collect_permission_ids get_role left) role.parents
      (add_all role.permissions ids)

unfoldable pub current_roles : Repository → ℕ → List RoleAssignment → List Role
current_roles repo now [] = []
current_roles repo now (a ∷ as_left) =
    let rest = current_roles repo now as_left in
    if is_expired a now
    then rest
    else elim (repo.get_role a.role_id) [ none ↦ rest | some role ↦ role ∷ rest ]

unfoldable pub get_user_roles : Repository → String → ℕ → Result (List Role)
unfolding current_roles
get_user_roles repo user_id now = elim (repo.get_user_roles user_id) [
  | none ↦ err repository_failed
  | some assignments ↦ ok (current_roles repo now assignments)
]

abbrev pub collect_all : (String → Option Role) → ℕ → List Role → List String → List String
collect_all get_role left [] ids = ids
collect_all get_role left (role ∷ roles) ids =
    collect_all get_role left roles (collect_permission_ids get_role left role ids)

abbrev pub with_fetched : Option Permission → List Permission → List Permission
with_fetched none ps = ps
with_fetched (some p) ps = p ∷ ps

abbrev pub fetch : (String → Option Permission) → List String → List Permission
fetch get_permission [] = []
fetch get_permission (id ∷ ids) = with_fetched (get_permission id) (fetch get_permission ids)

-- The part of `GetAllUserPermissions` after the look into the cache.
unfoldable pub permissions_of : Repository → RbacConfig → List Role → List Permission
unfolding collect_permission_ids
permissions_of repo config roles =
    fetch repo.get_permission
      (collect_all repo.get_role (levels config.max_role_inheritance_depth) roles [])

unfoldable pub from_cached :
    RbacManager → String → ℕ → Option CachedPermissions → RbacManager × Option (List Permission)
from_cached m user_id now none = (m, none)
from_cached m user_id now (some cached) =
    if ltb cached.expires_at now
    then (record m { permission_cache = delete user_id m.permission_cache }, none)
    else (m, some cached.permissions)

unfoldable pub get_from_cache : RbacManager → String → ℕ → RbacManager × Option (List Permission)
unfolding from_cached
get_from_cache m user_id now = from_cached m user_id now (lookup user_id m.permission_cache)

unfoldable pub add_to_cache : RbacManager → String → List Permission → ℕ → RbacManager
add_to_cache m user_id permissions now = record m {
  permission_cache =
      insert user_id (record { permissions = permissions; expires_at = now + m.config.cache_ttl })
        m.permission_cache;
}

unfoldable pub invalidate_cache : RbacManager → String → RbacManager
invalidate_cache m user_id = record m { permission_cache = delete user_id m.permission_cache }

-- What follows a look into the cache that found nothing.
unfoldable pub load_permissions :
    Repository
    → RbacManager
    → String
    → ℕ
    → Result (List Role)
    → RbacManager × Result (List Permission)
unfolding permissions_of add_to_cache
load_permissions repo m user_id now (err e) = (m, err e)
load_permissions repo m user_id now (ok roles) =
    let permissions = permissions_of repo m.config roles in
    (if m.config.enable_caching then add_to_cache m user_id permissions now else m, ok permissions)

abbrev pub or_load :
    Repository
    → String
    → ℕ
    → RbacManager × Option (List Permission)
    → RbacManager × Result (List Permission)
or_load repo user_id now (m, some cached) = (m, ok cached)
or_load repo user_id now (m, none) =
    load_permissions repo m user_id now (get_user_roles repo user_id now)

unfoldable pub get_all_user_permissions :
    Repository → RbacManager → String → ℕ → RbacManager × Result (List Permission)
unfolding get_from_cache load_permissions get_user_roles
get_all_user_permissions repo m user_id now =
    or_load repo user_id now
      (if m.config.enable_caching then get_from_cache m user_id now else (m, none))

-- The level of a scope, 0 where it has none.
unfoldable pub scope_level : String → ℕ
scope_level s =
    if str_eq s "global"
    then 4
    else if str_eq s "organization"
    then 3
    else if str_eq s "team"
    then 2
    else if str_eq s "own"
    then 1
    else 0

unfoldable pub scope_matches : String → String → Bool
scope_matches given required =
    if leb (scope_level given) 0 || leb (scope_level required) 0
    then str_eq given required
    else leb (scope_level required) (scope_level given)

-- The three tests of the loop in `HasPermission`.
unfoldable pub allows : Permission → String → String → String → Bool
unfolding scope_matches
allows p resource action scope =
    (str_eq p.resource resource && (str_eq p.action action && scope_matches p.scope scope))
    || ((str_eq p.resource resource && str_eq p.action "admin")
        || (str_eq p.resource resource && (str_eq p.action action && str_eq p.scope "global")))

unfoldable pub any_allows : List Permission → String → String → String → Bool
any_allows [] resource action scope = false
any_allows (p ∷ ps) resource action scope =
    let rest = any_allows ps resource action scope in
    if allows p resource action scope then true else rest

unfoldable pub decide_by : Result (List Permission) → String → String → String → Result Bool
decide_by (err e) resource action scope = err e
decide_by (ok permissions) resource action scope = ok (any_allows permissions resource action scope)

unfoldable pub has_permission :
    Repository → RbacManager → String → String → String → String → ℕ → RbacManager × Result Bool
unfolding get_all_user_permissions decide_by
has_permission repo m user_id resource action scope now =
    let (m', permissions) = get_all_user_permissions repo m user_id now in
    (m', decide_by permissions resource action scope)

-- `PermissionCheck`.
pub record PermissionCheck : Type 0 where
  pub resource : String
  pub action : String
  pub scope : String

abbrev next_any :
    (RbacManager → RbacManager × Result Bool)
    → RbacManager × Result Bool
    → RbacManager × Result Bool
next_any rest (m, err e) = (m, err e)
next_any rest (m, ok true) = (m, ok true)
next_any rest (m, ok false) = rest m

abbrev next_all :
    (RbacManager → RbacManager × Result Bool)
    → RbacManager × Result Bool
    → RbacManager × Result Bool
next_all rest (m, err e) = (m, err e)
next_all rest (m, ok true) = rest m
next_all rest (m, ok false) = (m, ok false)

unfoldable pub has_any_permission :
    Repository → RbacManager → String → List PermissionCheck → ℕ → RbacManager × Result Bool
unfolding has_permission
has_any_permission repo m user_id [] now = (m, ok false)
has_any_permission repo m user_id (c ∷ cs) now =
    next_any (λ m'. has_any_permission repo m' user_id cs now)
      (has_permission repo m user_id c.resource c.action c.scope now)

unfoldable pub has_all_permissions :
    Repository → RbacManager → String → List PermissionCheck → ℕ → RbacManager × Result Bool
unfolding has_permission
has_all_permissions repo m user_id [] now = (m, ok true)
has_all_permissions repo m user_id (c ∷ cs) now =
    next_all (λ m'. has_all_permissions repo m' user_id cs now)
      (has_permission repo m user_id c.resource c.action c.scope now)
