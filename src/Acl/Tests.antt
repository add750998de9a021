-- ===== src/Acl/Tests.antt =====
-- Two models, of which one inherits from the other, and the theorems at them.
use net_llm.Prelude.{String, true, false, none, some, [], ◌∷◌, ◌≡◌, refl}
use net_llm.Prelude.Int.{ℤ, pos}
use net_llm.Acl.State.{
  AccessType, allow, deny, Ace, Acl, ok, MemoryAclStore, acl_key, GrantAccessRequest,
  CheckAccessRequest, explicit_deny, AccessDecision,
}
use net_llm.Acl.Access.{
  match_wildcard, ace_matches_permission, ace_matches_principal, applies, collect_aces, exchange,
  sort_places, sort_aces_by_priority, first_applying, check_access,
}
use net_llm.Acl.Methods.{
  new, create_acl, get_acl, update_acl, index_ace, add_ace, put_access, grant_access, deny_access,
  set_inheritance,
}
use net_llm.Acl.Decision.{Counts, last, next, Decided}
use net_llm.Acl.Unique.{IsUnique}
use net_llm.Acl.Changes.{grants, denies, adds, all_changed, all_changed-new-IsUnique}
use net_llm.Acl.Answers.{check_access-Decided, check_access_endless}

abbrev wants : String → ℤ → GrantAccessRequest
wants id priority = record {
  resource_id = id;
  resource_type = "model";
  principal = "u";
  principal_type = "user";
  permissions = "read:*" ∷ [];
  priority = priority;
  expires_at = none;
}

abbrev asks : CheckAccessRequest
asks = record {
  resource_id = "m";
  resource_type = "model";
  principal = "u";
  principal_type = "user";
  permission = "read:weights";
  roles = [];
}

abbrev entry : AccessType → String → ℤ → Ace
entry access id priority = record {
  id = id;
  principal = "u";
  principal_type = "user";
  permissions = "read:*" ∷ [];
  access = access;
  priority = priority;
  inherited = false;
  expires_at = none;
}

abbrev family : Acl
family = record {
  resource_id = "family";
  resource_type = "model";
  entries = entry deny "2" (pos 9) ∷ [];
  inherit_from = "";
  updated_at = 1;
}

abbrev model : Acl
model = record {
  resource_id = "m";
  resource_type = "model";
  entries = entry allow "1" (pos 3) ∷ [];
  inherit_from = "family";
  updated_at = 1;
}

-- The store after a grant, a refusal and a change of inheritance.
abbrev resources : MemoryAclStore
resources =
    (set_inheritance
      (deny_access (grant_access new (wants "m" (pos 3)) "1" 1).0 (wants "family" (pos 9)) "2" 1).0
      "m" "model" "family" 1).0

model_stored : get_acl resources "m" "model" ≡ ok model
unfolding get_acl set_inheritance update_acl deny_access grant_access put_access add_ace index_ace
    create_acl acl_key new
model_stored = refl

family_stored : get_acl resources "family" "model" ≡ ok family
unfolding get_acl set_inheritance update_acl deny_access grant_access put_access add_ace index_ace
    create_acl acl_key new
family_stored = refl

-- The inherited refusal has the higher priority.
refused :
    check_access "role" (get_acl resources) asks 5 2
    ≡ some (
        ok (record {
          allowed = false;
          reason = explicit_deny;
          matched_ace = some (record (entry deny "2" (pos 9)) { inherited = true });
        }))
unfolding check_access collect_aces sort_aces_by_priority sort_places exchange first_applying
    applies ace_matches_principal ace_matches_permission match_wildcard get_acl set_inheritance
    update_acl deny_access grant_access put_access add_ace index_ace create_acl acl_key new
refused = refl

check_access-Decided_example :
    (d : AccessDecision) × (check_access "role" (get_acl resources) asks 5 2 ≡ some (ok d))
    × Decided "role" asks 5 (Counts (get_acl resources) model) d d.matched_ace
check_access-Decided_example =
    check_access-Decided "role" (get_acl resources) asks 5 2 model model_stored
      (next family refl family_stored (last refl))

abbrev circle : MemoryAclStore
circle = (set_inheritance resources "family" "model" "family" 2).0

abbrev own_heir : Acl
own_heir = record family { inherit_from = "family"; updated_at = 2 }

own_heir_stored : get_acl circle "family" "model" ≡ ok own_heir
unfolding get_acl set_inheritance update_acl deny_access grant_access put_access add_ace index_ace
    create_acl acl_key new
own_heir_stored = refl

check_access_endless_example :
    check_access "role" (get_acl circle) (record asks { resource_id = "family" }) 5 1000 ≡ none
check_access_endless_example =
    check_access_endless "role" (get_acl circle) (λ acl. acl ≡ own_heir)
      (λ acl is. rw is (refl, own_heir, own_heir_stored, refl))
      (record asks { resource_id = "family" }) 5 1000 own_heir own_heir_stored refl

-- Two entries of one ID: the second is not stored.
all_changed-new-IsUnique_example : IsUnique (
    all_changed new (
      (grants (wants "m" (pos 3)) "1", 1)
      ∷ (denies (wants "m" (pos 9)) "1", 1)
      ∷ (adds "m" "model" (entry deny "1" (pos 9)), 2)
      ∷ []))
all_changed-new-IsUnique_example =
    all_changed-new-IsUnique
      ((grants (wants "m" (pos 3)) "1", 1)
        ∷ (denies (wants "m" (pos 9)) "1", 1)
        ∷ (adds "m" "model" (entry deny "1" (pos 9)), 2)
        ∷ [])
      (tt, (tt, (tt, tt)))
