-- ===== src/Rbac/Answers.antt =====
-- What `has_permission` answers, and what a cached answer may miss.
use net_llm.Prelude.{
  ℕ, String, Bool, true, false, none, some, List, ◌≡◌, sym, ap, ◌∙◌, ◌↔◌, ◌≢◌, if◌then◌else◌,
  Bool-cases, inl, inr, ◌⊎◌,
}
use net_llm.Prelude.Dict.{lookup}
use net_llm.Rbac.State.{Permission, Role, RbacManager, Repository, ok, levels}
use net_llm.Rbac.Permissions.{
  permissions_of, from_cached, get_from_cache, load_permissions, or_load, get_all_user_permissions,
  get_user_roles, any_allows, decide_by, has_permission,
}
use net_llm.Rbac.Decision.{Granted, permissions_of_iff}
use net_llm.Rbac.Collected.{Inherits, Any}

-- No permissions of the user are cached, or the cache is not used.
abbrev pub Uncached : RbacManager → String → Type 0
Uncached m user_id = (m.config.enable_caching ≡ false) ⊎ (lookup user_id m.permission_cache ≡ none)

pub from_cache_none :
    (m : RbacManager) (user_id : String) (now : ℕ)
    → Uncached m user_id
    → (if m.config.enable_caching then get_from_cache m user_id now else (m, none)) ≡ (m, none)
unfolding get_from_cache
from_cache_none m user_id now (inl off) =
    ap (λ b. if b then get_from_cache m user_id now else (m, none)) off
from_cache_none m user_id now (inr missing) = elim (Bool-cases m.config.enable_caching) [
  | inl on ↦
      ap (λ b. if b then get_from_cache m user_id now else (m, none)) on
      ∙ ap (from_cached m user_id now) missing
  | inr off ↦ ap (λ b. if b then get_from_cache m user_id now else (m, none)) off
]

-- Where nothing is cached for the user, and the user's current roles are known: HasPermission succeeds
-- and says yes exactly when one of the roles inherits, over the levels that the configuration leaves,
-- a permission that exists, is for the resource, and is either an admin permission or for the action
-- and covers the scope.
pub has_permission-iff-Granted :
    (repo : Repository) (m : RbacManager) (user_id resource action scope : String) (now : ℕ)
    (roles : List Role)
    → Uncached m user_id
    → get_user_roles repo user_id now ≡ ok roles
    → (b : Bool) × ((has_permission repo m user_id resource action scope now).1 ≡ ok b)
      × ((b ≡ true) ↔ Granted repo m.config roles resource action scope)
unfolding has_permission load_permissions
has_permission-iff-Granted repo m user_id resource action scope now roles uncached known =
    let loaded : get_all_user_permissions repo m user_id now
        ≡ load_permissions repo m user_id now (ok roles) =
      ap (or_load repo user_id now) (from_cache_none m user_id now uncached)
      ∙ ap (load_permissions repo m user_id now) known in
    (
      any_allows (permissions_of repo m.config roles) resource action scope,
      ap (λ r. decide_by r.1 resource action scope) loaded,
      permissions_of_iff repo m.config roles resource action scope,
    )

-- The permission of the default administrator is for the resource and the action "*", which no test
-- reads as all: where nothing is cached for a user, the user's current roles are known, and all
-- permissions that these roles inherit, over the levels that the configuration leaves, are for "*", then
-- HasPermission refuses any other resource.
pub wildcard_grants_nothing :
    (repo : Repository) (m : RbacManager) (user_id resource action scope : String) (now : ℕ)
    (roles : List Role)
    → Uncached m user_id
    → get_user_roles repo user_id now ≡ ok roles
    → ((id : String) (p : Permission)
        → Any (λ r. Inherits repo.get_role (levels m.config.max_role_inheritance_depth) r id) roles
        → repo.get_permission id ≡ some p
        → p.resource ≡ "*")
    → resource ≢ "*"
    → (has_permission repo m user_id resource action scope now).1 ≡ ok false
wildcard_grants_nothing repo m user_id resource action scope now roles uncached known wild other =
    let (b, is, iff) =
      has_permission-iff-Granted repo m user_id resource action scope now roles uncached known in
    elim (Bool-cases b) [
      | inr no_grant ↦ is ∙ ap ok no_grant
      | inl granted ↦
          let (id, p, a, at, al) = iff.0 granted in absurd (other (sym al.0 ∙ wild id p a at))
    ]
