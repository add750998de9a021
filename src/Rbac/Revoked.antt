-- ===== src/Rbac/Revoked.antt =====
-- Decisions after a role was revoked. RevokeRole drops the cached permissions of the user first, and then
-- has the repository write; no lock keeps a check from coming between the two.
use net_llm.Prelude.{
  ℕ, ◌+◌, String, Bool, true, not, ◌&&◌, Option, none, some, List, ◌≡◌, ◌↔◌, if◌then◌else◌, select,
  str_eq, leb,
}
use net_llm.Prelude.Dict.{delete}
use net_llm.Rbac.State.{
  Permission, Role, RoleAssignment, RbacManager, RbacConfig, Repository, Result, ok,
}
use net_llm.Rbac.Permissions.{permissions_of, has_permission, add_to_cache}
use net_llm.Rbac.Decision.{Granted}

-- The assignments that are not of a role.
abbrev pub others : String → List RoleAssignment → List RoleAssignment
others role_id assignments = select (λ a. not (str_eq a.role_id role_id)) assignments

-- A check answers exactly by what the roles grant.
abbrev pub AnswersBy :
    Repository → RbacConfig → List Role → String → String → String → Result Bool → Type 0
AnswersBy repo config roles resource action scope r =
    (b : Bool) × (r ≡ ok b) × ((b ≡ true) ↔ Granted repo config roles resource action scope)

-- Whether what a check cached at a time is still used at a later one.
abbrev pub is_kept : RbacConfig → ℕ → ℕ → Bool
is_kept config now later = config.enable_caching && leb later (now + config.cache_ttl)

-- A later check, which finds in the cache what an earlier one put there.
module _ (repo' : Repository) (m : RbacManager) (user_id : String) (now later : ℕ)
    (permissions : List Permission) where
  abbrev cached : RbacManager
  cached = add_to_cache m user_id permissions now

  abbrev found : Bool → RbacManager × Option (List Permission)
  found over =
      if over
      then (record cached { permission_cache = delete user_id cached.permission_cache }, none)
      else (cached, some permissions)

module _ (repo repo' : Repository) (m : RbacManager) (user_id resource action scope : String)
    (now later : ℕ) (roles roles' : List Role) where
  abbrev Later : Bool → Bool → Type 0
  Later on early =
      AnswersBy (if on && early then repo else repo') m.config
        (if on && early then roles else roles') resource action scope
        (has_permission repo'
          (if on then add_to_cache m user_id (permissions_of repo m.config roles) now else m)
          user_id resource action scope later).1
