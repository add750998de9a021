-- ===== src/Acl/Methods.antt =====
-- The methods of the store in memory, and those of the service that change it. A list that the store
-- returns is the one it keeps, so that a write to it is a write to the store.
use net_llm.Prelude.{
  ℕ, String, Bool, true, false, Option, none, some, List, [], ◌∷◌, ◌++◌, if◌then◌else◌, str_eq,
}
use net_llm.Prelude.Dict.{Dict, lookup, insert, delete}
use net_llm.Acl.State.{
  AccessType, allow, deny, Ace, Acl, Error, acl_already_exists, acl_not_found, ace_already_exists,
  ace_not_found, Result, ok, err, MemoryAclStore, joined, acl_key, GrantAccessRequest,
}

unfoldable pub new : MemoryAclStore
new = record { acls = []; by_principal = [] }

unfoldable pub create_acl : MemoryAclStore → Acl → ℕ → MemoryAclStore × Option Error
create_acl s acl now =
    let key = acl_key acl.resource_id acl.resource_type in
    elim (lookup key s.acls) [
      | some _ ↦ (s, some acl_already_exists)
      | none ↦ (record s { acls = insert key (record acl { updated_at = now }) s.acls }, none)
    ]

unfoldable pub get_acl : MemoryAclStore → String → String → Result Acl
get_acl s resource_id resource_type = elim (lookup (acl_key resource_id resource_type) s.acls) [
  | none ↦ err acl_not_found
  | some acl ↦ ok acl
]

unfoldable pub update_acl : MemoryAclStore → Acl → ℕ → MemoryAclStore × Option Error
update_acl s acl now =
    let key = acl_key acl.resource_id acl.resource_type in
    elim (lookup key s.acls) [
      | none ↦ (s, some acl_not_found)
      | some _ ↦ (record s { acls = insert key (record acl { updated_at = now }) s.acls }, none)
    ]

unfoldable pub delete_acl : MemoryAclStore → String → String → MemoryAclStore
delete_acl s resource_id resource_type = record s {
  acls = delete (acl_key resource_id resource_type) s.acls;
}

abbrev pub has_ace : String → List Ace → Bool
has_ace id [] = false
has_ace id (a ∷ aces) = let rest = has_ace id aces in if str_eq a.id id then true else rest

-- The first entry with the ID is replaced.
abbrev pub replace_ace : Ace → List Ace → List Ace
replace_ace ace [] = []
replace_ace ace (a ∷ aces) =
    let rest = replace_ace ace aces in if str_eq a.id ace.id then ace ∷ aces else a ∷ rest

abbrev pub drop_ace : String → List Ace → List Ace
drop_ace id [] = []
drop_ace id (a ∷ aces) = let rest = drop_ace id aces in if str_eq a.id id then aces else a ∷ rest

-- A set of keys.
abbrev pub with_key : String → List String → List String
with_key k [] = k ∷ []
with_key k (j ∷ ks) = let rest = with_key k ks in if str_eq j k then j ∷ ks else j ∷ rest

unfoldable pub index_ace : Dict (List String) → Ace → String → Dict (List String)
index_ace index ace key =
    let principal_key = joined ace.principal_type ace.principal in
    elim (lookup principal_key index) [
      | none ↦ insert principal_key (key ∷ []) index
      | some keys ↦ insert principal_key (with_key key keys) index
    ]

abbrev pub with_entries : Acl → List Ace → ℕ → Acl
with_entries acl entries now = record acl { entries = entries; updated_at = now }

unfoldable pub add_ace : MemoryAclStore → String → String → Ace → ℕ → MemoryAclStore × Option Error
unfolding index_ace
add_ace s resource_id resource_type ace now =
    let key = acl_key resource_id resource_type in
    elim (lookup key s.acls) [
      | none ↦ (s, some acl_not_found)
      | some acl ↦ if has_ace ace.id acl.entries then (s, some ace_already_exists) else (
        record {
          acls = insert key (with_entries acl (acl.entries ++ (ace ∷ [])) now) s.acls;
          by_principal = index_ace s.by_principal ace key;
        },
        none,
      )
    ]

unfoldable pub update_ace :
    MemoryAclStore → String → String → Ace → ℕ → MemoryAclStore × Option Error
update_ace s resource_id resource_type ace now =
    let key = acl_key resource_id resource_type in
    elim (lookup key s.acls) [
      | none ↦ (s, some acl_not_found)
      | some acl ↦
          if has_ace ace.id acl.entries
          then (
            record s {
              acls = insert key (with_entries acl (replace_ace ace acl.entries) now) s.acls;
            },
            none,
          )
          else (s, some ace_not_found)
    ]

unfoldable pub remove_ace :
    MemoryAclStore → String → String → String → ℕ → MemoryAclStore × Option Error
remove_ace s resource_id resource_type ace_id now =
    let key = acl_key resource_id resource_type in
    elim (lookup key s.acls) [
      | none ↦ (s, some acl_not_found)
      | some acl ↦
          if has_ace ace_id acl.entries
          then (
            record s {
              acls = insert key (with_entries acl (drop_ace ace_id acl.entries) now) s.acls;
            },
            none,
          )
          else (s, some ace_not_found)
    ]

abbrev pub empty_acl : String → String → String → Acl
empty_acl resource_id resource_type inherit_from = record {
  resource_id = resource_id;
  resource_type = resource_type;
  entries = [];
  inherit_from = inherit_from;
  updated_at = 0;
}

abbrev pub requested : GrantAccessRequest → AccessType → String → Ace
requested req access id = record {
  id = id;
  principal = req.principal;
  principal_type = req.principal_type;
  permissions = req.permissions;
  access = access;
  priority = req.priority;
  inherited = false;
  expires_at = req.expires_at;
}

abbrev pub answer : Ace → MemoryAclStore × Option Error → MemoryAclStore × Result Ace
answer ace (s, none) = (s, ok ace)
answer ace (s, some e) = (s, err e)

-- The body that `GrantAccess` and `DenyAccess` share. `id` is what `generateACEID` gives.
unfoldable pub put_access :
    AccessType → MemoryAclStore → GrantAccessRequest → String → ℕ → MemoryAclStore × Result Ace
unfolding add_ace create_acl
put_access access s req id now =
    let ace = requested req access id in
    elim (lookup (acl_key req.resource_id req.resource_type) s.acls) [
      | some acl ↦ answer ace (add_ace s acl.resource_id acl.resource_type ace now)
      | none ↦
          let created = create_acl s (empty_acl req.resource_id req.resource_type "") now in
          answer ace (add_ace created.0 req.resource_id req.resource_type ace now)
    ]

unfoldable pub grant_access :
    MemoryAclStore → GrantAccessRequest → String → ℕ → MemoryAclStore × Result Ace
grant_access = put_access allow

unfoldable pub deny_access :
    MemoryAclStore → GrantAccessRequest → String → ℕ → MemoryAclStore × Result Ace
deny_access = put_access deny

unfoldable pub set_inheritance :
    MemoryAclStore → String → String → String → ℕ → MemoryAclStore × Option Error
unfolding update_acl
set_inheritance s resource_id resource_type inherit_from now =
    elim (lookup (acl_key resource_id resource_type) s.acls) [
      | none ↦ (s, some acl_not_found)
      | some acl ↦ update_acl s (record acl { inherit_from = inherit_from }) now
    ]

unfoldable pub revoke_access :
    MemoryAclStore → String → String → String → ℕ → MemoryAclStore × Option Error
unfolding remove_ace
revoke_access s resource_id resource_type ace_id now =
    remove_ace s resource_id resource_type ace_id now
