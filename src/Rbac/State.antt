-- ===== src/Rbac/State.antt =====
-- The structs of role-based access control. The repositories are interfaces that the source does not
-- implement: their reads are the functions of a `Repository`, as they answer during one call, and a
-- write is the call that a method passes on.
use net_llm.Prelude.{
  ℕ, suc, String, Bool, true, false, Option, none, some, List, [], ◌∷◌, if◌then◌else◌, ltb, str_eq,
}
use net_llm.Prelude.Int.{ℤ, pos, negsuc}
use net_llm.Prelude.Dict.{Dict}

pub record Permission : Type 0 where
  pub id : String
  pub name : String
  pub resource : String
  pub action : String
  pub scope : String
  pub created_at : ℕ

pub record Role : Type 0 where
  pub id : String
  pub name : String
  pub permissions : List String
  pub parents : List String
  pub is_system : Bool
  pub is_default : Bool
  pub priority : ℤ
  pub created_at : ℕ
  pub updated_at : ℕ

pub record RoleAssignment : Type 0 where
  pub id : String
  pub user_id : String
  pub role_id : String
  pub granted_by : String
  pub granted_at : ℕ
  pub expires_at : Option ℕ

unfoldable pub is_expired : RoleAssignment → ℕ → Bool
is_expired ra now = elim ra.expires_at [ none ↦ false | some t ↦ ltb t now ]

pub record RbacConfig : Type 0 where
  pub enable_caching : Bool
  pub cache_ttl : ℕ
  pub max_role_inheritance_depth : ℤ

unfoldable pub default_rbac_config : RbacConfig
default_rbac_config = record {
  enable_caching = true;
  cache_ttl = 300_000_000_000;
  max_role_inheritance_depth = pos 10;
}

-- `none` is an error of the repository. A repository that answers nil with no error is not modelled.
pub record Repository : Type 0 where
  pub get_role : String → Option Role
  pub get_role_by_name : String → Option Role
  pub get_user_roles : String → Option (List RoleAssignment)
  pub get_permission : String → Option Permission

-- A write that a method passes on to a repository, whose answer is then the method's.
pub data Write : Type 0 where
  create_role update_role : Role → Write
  delete_role : String → Write
  assign_role : RoleAssignment → Write
  revoke_role : String → String → Write
  create_permission : Permission → Write
  delete_permission : String → Write

pub data Error : Type 0 where
  role_not_found role_exists invalid_role invalid_permission : Error
  circular_inheritance depth_exceeded system_role repository_failed : Error
  no_permission no_parent : String → Error

pub data Result {ℓ} (A : Type ℓ) : Type ℓ where
  ok : A → Result A
  err : Error → Result A

-- The early return at an error.
abbrev pub and_then : {A B : Type 0} → Result A → (A → Result B) → Result B
and_then (ok a) next = next a
and_then (err e) next = err e

pub record CachedPermissions : Type 0 where
  pub permissions : List Permission
  pub expires_at : ℕ

-- The manager's own state: user IDs to their cached permissions.
pub record RbacManager : Type 0 where
  pub config : RbacConfig
  pub permission_cache : Dict CachedPermissions

abbrev pub contains : String → List String → Bool
contains x [] = false
contains x (y ∷ ys) = let rest = contains x ys in if str_eq y x then true else rest

-- How many levels are left at the first level, where a level above the maximum is refused.
abbrev pub levels : ℤ → ℕ
levels (pos n) = suc n
levels (negsuc n) = 0
