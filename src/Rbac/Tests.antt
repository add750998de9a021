-- ===== src/Rbac/Tests.antt =====
-- A repository with the default roles and permissions, and the theorems at it.
use net_llm.Prelude.{
  ℕ, String, Bool, true, false, ◌↔◌, Option, none, some, List, [], ◌∷◌, ◌≡◌, refl, inr,
  if◌then◌else◌, str_eq, eq_iff, Bool-cases, inl, map, ap, sym, subst, ◌∙◌, arith,
}
use net_llm.Prelude.Int.{pos}
use net_llm.Rbac.State.{
  Permission, Role, RoleAssignment, RbacManager, Repository, create_role, ok, err,
  default_rbac_config, is_expired, circular_inheritance,
}
use net_llm.Rbac.Inheritance.{check_circular_inheritance, validate_inheritance}
use net_llm.Rbac.Permissions.{
  has_permission, get_user_roles, current_roles, scope_level, get_all_user_permissions,
  collect_permission_ids, permissions_of, any_allows, allows,
}
use net_llm.Rbac.Manager.{create, default_roles, default_permissions}
use net_llm.Rbac.Acyclic.{In, Reaches, some_inj}
use net_llm.Rbac.Writes.{IsAcyclic, written, created, Accepted-IsAcyclic}
use net_llm.Rbac.Decision.{Granted}
use net_llm.Rbac.Manager.{has_role_inherited, any_has_role, has_role}
use net_llm.Rbac.HasRole.{Held, has_role-iff-Held}
use net_llm.Rbac.Answers.{has_permission-iff-Granted, wildcard_grants_nothing}
use net_llm.Rbac.Collected.{Inherits}

abbrev role_with : String → List Role → Option Role
role_with id [] = none
role_with id (r ∷ rs) = let rest = role_with id rs in if str_eq r.id id then some r else rest

abbrev permission_with : String → List Permission → Option Permission
permission_with id [] = none
permission_with id (p ∷ ps) =
    let rest = permission_with id ps in if str_eq p.id id then some p else rest

abbrev holds : String → RoleAssignment
holds role_id = record {
  id = "1";
  user_id = "u";
  role_id = role_id;
  granted_by = "root";
  granted_at = 0;
  expires_at = none;
}

-- The one user has one role.
abbrev repository : String → Repository
repository role_id = record {
  get_role = λ id. role_with id (default_roles 0);
  get_role_by_name = λ name. none;
  get_user_roles = λ user_id. some (holds role_id ∷ []);
  get_permission = λ id. permission_with id (default_permissions 0);
}

abbrev manager : RbacManager
unfolding default_rbac_config
manager = record { config = default_rbac_config; permission_cache = [] }

abbrev admin : Role
admin = record {
  id = "role-admin";
  name = "admin";
  permissions = "perm-admin-all" ∷ [];
  parents = [];
  is_system = true;
  is_default = false;
  priority = pos 100;
  created_at = 0;
  updated_at = 0;
}

abbrev user : Role
user = record {
  id = "role-user";
  name = "user";
  permissions = "perm-inference-read" ∷ "perm-models-read" ∷ [];
  parents = [];
  is_system = true;
  is_default = true;
  priority = pos 1;
  created_at = 0;
  updated_at = 0;
}

has_user_role : get_user_roles (repository "role-user") "u" 5 ≡ ok (user ∷ [])
unfolding get_user_roles current_roles default_roles is_expired
has_user_role = refl

has_admin_role : get_user_roles (repository "role-admin") "u" 5 ≡ ok (admin ∷ [])
unfolding get_user_roles current_roles default_roles is_expired
has_admin_role = refl

-- A user may read models.
reads_models :
    (has_permission (repository "role-user") manager "u" "models" "read" "own" 5).1 ≡ ok true
unfolding manager has_permission get_all_user_permissions get_user_roles current_roles default_roles
    is_expired default_permissions collect_permission_ids permissions_of default_rbac_config
    scope_level any_allows allows
reads_models = refl

has_permission-iff-Granted_example :
    (b : Bool) × ((has_permission (repository "role-user") manager "u" "models" "read" "own" 5).1
      ≡ ok b)
    × ((b ≡ true)
        ↔ Granted (repository "role-user") manager.config (user ∷ []) "models" "read" "own")
unfolding manager
has_permission-iff-Granted_example =
    has_permission-iff-Granted (repository "role-user") manager "u" "models" "read" "own" 5
      (user ∷ []) (inr refl) has_user_role

-- The repository before and after the one role of the user is revoked.
abbrev left : Repository
left = record (repository "role-user") { get_user_roles = λ user_id. some [] }

abbrev resource_of : Option Permission → String
resource_of none = ""
resource_of (some p) = p.resource

admin_has_wildcards :
    (id : String) (p : Permission)
    → In id admin.permissions
    → (repository "role-admin").get_permission id ≡ some p
    → p.resource ≡ "*"
unfolding default_permissions
admin_has_wildcards id p i at =
    let e : "perm-admin-all" ≡ id = (eq_iff "perm-admin-all" id).0 (ground (arith, i)) in
    sym (ap resource_of (ap (repository "role-admin").get_permission e ∙ at))

Inherits-alone :
    {get_role : String → Option Role} {n : ℕ} (role : Role) (p : String)
    → Inherits get_role n role p
    → role.parents ≡ []
    → In p role.permissions
Inherits-alone role p (Inherits.own i) alone = i
Inherits-alone role p (Inherits.from_parent q parent j at s) alone =
    absurd (ground (arith, subst (In q) alone j))

wildcard_grants_nothing_example :
    (has_permission (repository "role-admin") manager "u" "models" "read" "own" 5).1 ≡ ok false
unfolding manager
wildcard_grants_nothing_example =
    wildcard_grants_nothing (repository "role-admin") manager "u" "models" "read" "own" 5
      (admin ∷ []) (inr refl) has_admin_role
      (λ id p a at. elim a [
        | inl i ↦ admin_has_wildcards id p (Inherits-alone admin id i refl) at
        | inr nothing ↦ absurd nothing
      ])
      (λ e. absurd (ground (arith, ap (λ s. str_eq s "*") e)))

abbrev lone : Role → Repository
lone role = record {
  get_role = λ id. if str_eq role.id id then some role else none;
  get_role_by_name = λ name. none;
  get_user_roles = λ user_id. none;
  get_permission = λ id. none;
}

abbrev team : Role
team = record {
  id = "role-team";
  name = "team";
  permissions = [];
  parents = "role-user" ∷ [];
  is_system = false;
  is_default = false;
  priority = pos 1;
  created_at = 7;
  updated_at = 7;
}

abbrev base : Role
base = record user { permissions = [] }

abbrev parents_of : Option Role → List String
parents_of none = []
parents_of (some role) = role.parents

no_parents : (b : Bool) → parents_of (if b then some base else none) ≡ []
no_parents true = refl
no_parents false = refl

-- A role that has no parents stands alone.
lone-IsAcyclic : IsAcyclic (lone base).get_role
lone-IsAcyclic x role at way = orphan way
  where
    alone : (y : String) (r : Role) → (lone base).get_role y ≡ some r → r.parents ≡ []
    alone y r e = sym (ap parents_of e) ∙ no_parents (str_eq "role-user" y)

    orphan : {y : String} → Reaches (lone base).get_role role.parents y → ⊥
    orphan {y = y} (Reaches.direct i) = absurd (ground (arith, subst (In y) (alone x role at) i))
    orphan (Reaches.up r w e i) = orphan w

-- A role cannot become its own parent.
own_parent_refused :
    validate_inheritance
      (lone base)
      default_rbac_config
      (record base { parents = "role-user" ∷ [] })
    ≡ err circular_inheritance
unfolding validate_inheritance check_circular_inheritance default_rbac_config
own_parent_refused = refl

Accepted-IsAcyclic_example : IsAcyclic (written (create_role team) (lone base).get_role)
unfolding create validate_inheritance check_circular_inheritance default_rbac_config
Accepted-IsAcyclic_example =
    Accepted-IsAcyclic (lone base) default_rbac_config (create_role team) (created team 7 refl)
      lone-IsAcyclic

-- Two roles that are each other's parents.
abbrev with_parent : String → String → Role
with_parent id parent = record {
  id = id;
  name = id;
  permissions = [];
  parents = parent ∷ [];
  is_system = false;
  is_default = false;
  priority = pos 1;
  created_at = 0;
  updated_at = 0;
}

abbrev circle : List Role
circle = with_parent "a" "b" ∷ with_parent "b" "a" ∷ []

role_with-id : (x : String) (roles : List Role) (r : Role) → role_with x roles ≡ some r → r.id ≡ x
role_with-id x [] r h = absurd (ground (arith, h))
role_with-id x (q ∷ roles) r h = elim (Bool-cases (str_eq q.id x)) [
  | inl e ↦
      let step : role_with x (q ∷ roles) ≡ some q = rw e in
      subst (λ y. y.id ≡ x) (some_inj (sym step ∙ h)) ((eq_iff q.id x).0 e)
  | inr n ↦
      let step : role_with x (q ∷ roles) ≡ role_with x roles = rw n in
      role_with-id x roles r (sym step ∙ h)
]

role_with-In :
    (x : String) (roles : List Role) (r : Role)
    → role_with x roles ≡ some r
    → In x (map (λ q. q.id) roles)
role_with-In x [] r h = absurd (ground (arith, h))
role_with-In x (q ∷ roles) r h = elim (Bool-cases (str_eq q.id x)) [
  | inl e ↦ rw e refl
  | inr n ↦
      let step : role_with x (q ∷ roles) ≡ role_with x roles = rw n in
      rw n (role_with-In x roles r (sym step ∙ h))
]

abbrev in_circle : Repository
in_circle = record {
  get_role = λ id. role_with id circle;
  get_role_by_name = λ name. none;
  get_user_roles = λ user_id. some (holds "a" ∷ []);
  get_permission = λ id. none;
}

has_first_role : get_user_roles in_circle "u" 5 ≡ ok (with_parent "a" "b" ∷ [])
unfolding get_user_roles current_roles is_expired
has_first_role = refl

-- The search in a circle ends with no.
no_third_role : has_role in_circle "u" "c" 5 3 ≡ some (ok false)
unfolding has_role any_has_role has_role_inherited get_user_roles current_roles is_expired
no_third_role = refl

has_role-iff-Held_example :
    (b : Bool) × (has_role in_circle "u" "b" 5 3 ≡ some (ok b))
    × ((b ≡ true) ↔ Held in_circle.get_role "b" (with_parent "a" "b" ∷ []))
has_role-iff-Held_example =
    has_role-iff-Held in_circle (λ x r at. role_with-id x circle r at) ("a" ∷ "b" ∷ [])
      (λ x r at. role_with-In x circle r at) 3 (omega arith) "u" "b" 5 (with_parent "a" "b" ∷ [])
      has_first_role
