-- ===== src/Acl/State.antt =====
-- The structs of the access lists, and the store that keeps them in memory.
use Prim.Native.String.{◌++◌ as str_append}
use net_llm.Prelude.{ℕ, String, Bool, Option, List}
use net_llm.Prelude.Int.{ℤ}
use net_llm.Prelude.Dict.{Dict}

pub data AccessType : Type 0 where
  allow deny : AccessType
  other : String → AccessType

-- An entry. The fields of the source that are only shown are left out.
pub record Ace : Type 0 where
  pub id : String
  pub principal : String
  pub principal_type : String
  pub permissions : List String
  pub access : AccessType
  pub priority : ℤ
  pub inherited : Bool
  pub expires_at : Option ℕ

pub record Acl : Type 0 where
  pub resource_id : String
  pub resource_type : String
  pub entries : List Ace
  pub inherit_from : String
  pub updated_at : ℕ

-- `store_failed` stands for what another store may return.
pub data Error : Type 0 where
  acl_already_exists acl_not_found ace_already_exists ace_not_found store_failed : Error

pub data Result {ℓ} (A : Type ℓ) : Type ℓ where
  ok : A → Result A
  err : Error → Result A

pub record MemoryAclStore : Type 0 where
  pub acls : Dict Acl
  pub by_principal : Dict (List String)

-- `fmt.Sprintf` of "%s:%s".
abbrev pub joined : String → String → String
joined a b = str_append a (str_append ":" b)

unfoldable pub acl_key : String → String → String
acl_key resource_id resource_type = joined resource_type resource_id

pub record GrantAccessRequest : Type 0 where
  pub resource_id : String
  pub resource_type : String
  pub principal : String
  pub principal_type : String
  pub permissions : List String
  pub priority : ℤ
  pub expires_at : Option ℕ

pub record CheckAccessRequest : Type 0 where
  pub resource_id : String
  pub resource_type : String
  pub principal : String
  pub principal_type : String
  pub permission : String
  pub roles : List String

pub data Reason : Type 0 where
  no_acl no_match explicit_deny explicit_allow : Reason

pub record AccessDecision : Type 0 where
  pub allowed : Bool
  pub reason : Reason
  pub matched_ace : Option Ace
