-- ===== src/Acl/Changes.antt =====
-- Histories of changes of the access lists.
use net_llm.Prelude.{
  ℕ, String, Option, none, some, List, [], ◌∷◌, ◌++◌, ◌≡◌, refl, sym, All, if_cases, ◌∙◌, arith,
  Bool-cases, inl, inr, str_eq,
}
use net_llm.Prelude.Dict.{lookup, delete, lookup-delete}
use net_llm.Acl.State.{
  AccessType, allow, deny, Ace, Acl, Error, MemoryAclStore, acl_key, GrantAccessRequest,
}
use net_llm.Acl.Methods.{
  new, create_acl, has_ace, replace_ace, drop_ace, add_ace, update_ace, remove_ace, delete_acl,
  update_acl, set_inheritance, put_access, grant_access, deny_access, revoke_access, with_entries,
  empty_acl, requested, answer,
}
use net_llm.Acl.Unique.{
  HasUniqueIds, IsUnique, IsUnique-insert, append-HasUniqueIds, replace_ace-HasUniqueIds,
  drop_ace-HasUniqueIds,
}

pub data Change : Type 0 where
  grants denies : GrantAccessRequest → String → Change
  revokes : String → String → String → Change
  updates : String → String → Ace → Change
  inherits : String → String → String → Change
  deletes : String → String → Change
  creates replaces : Acl → Change
  adds : String → String → Ace → Change

-- What a change leaves of the store, at a time.
unfoldable pub changed : MemoryAclStore → Change → ℕ → MemoryAclStore
unfolding grant_access deny_access revoke_access update_ace set_inheritance delete_acl create_acl
    update_acl add_ace
changed s (grants req id) now = (grant_access s req id now).0
changed s (denies req id) now = (deny_access s req id now).0
changed s (revokes resource_id resource_type id) now =
    (revoke_access s resource_id resource_type id now).0
changed s (updates resource_id resource_type ace) now =
    (update_ace s resource_id resource_type ace now).0
changed s (inherits resource_id resource_type from) now =
    (set_inheritance s resource_id resource_type from now).0
changed s (deletes resource_id resource_type) now = delete_acl s resource_id resource_type
changed s (creates acl) now = (create_acl s acl now).0
changed s (replaces acl) now = (update_acl s acl now).0
changed s (adds resource_id resource_type ace) now = (add_ace s resource_id resource_type ace now).0

-- A list that is brought from outside has no two entries of one ID.
abbrev pub BringsUnique : Change × ℕ → Type 0
BringsUnique (creates acl, now) = HasUniqueIds acl.entries
BringsUnique (replaces acl, now) = HasUniqueIds acl.entries
BringsUnique _ = Unit

unfoldable pub all_changed : MemoryAclStore → List (Change × ℕ) → MemoryAclStore
unfolding changed
all_changed s [] = s
all_changed s ((c, now) ∷ cs) = all_changed (changed s c now) cs

option_cases :
    {A R : Type 0} (P : R → Type 0) (o : Option A) (n : R) (f : A → R)
    → P n
    → ((a : A) → o ≡ some a → P (f a))
    → P (elim o [ none ↦ n | some a ↦ f a ])
option_cases P none n f none_case some_case = none_case
option_cases P (some a) n f none_case some_case = some_case a refl

abbrev Kept : {R : Type 0} → MemoryAclStore × R → Type 0
Kept (s, r) = IsUnique s

add_ace-IsUnique :
    (s : MemoryAclStore) (resource_id resource_type : String) (ace : Ace) (now : ℕ)
    → IsUnique s
    → Kept (add_ace s resource_id resource_type ace now)
unfolding add_ace
add_ace-IsUnique s resource_id resource_type ace now h =
    option_cases Kept (lookup (acl_key resource_id resource_type) s.acls) _ _ h (λ acl at.
      if_cases Kept (has_ace ace.id acl.entries) _ _ (λ _. h)
        (λ fresh.
          IsUnique-insert s (acl_key resource_id resource_type)
            (with_entries acl (acl.entries ++ (ace ∷ [])) now) s.by_principal h
            (append-HasUniqueIds ace acl.entries fresh (h _ acl at))))

update_ace-IsUnique :
    (s : MemoryAclStore) (resource_id resource_type : String) (ace : Ace) (now : ℕ)
    → IsUnique s
    → Kept (update_ace s resource_id resource_type ace now)
unfolding update_ace
update_ace-IsUnique s resource_id resource_type ace now h =
    option_cases Kept (lookup (acl_key resource_id resource_type) s.acls) _ _ h (λ acl at.
      if_cases Kept (has_ace ace.id acl.entries) _ _
        (λ _.
          IsUnique-insert s (acl_key resource_id resource_type)
            (with_entries acl (replace_ace ace acl.entries) now) s.by_principal h
            (replace_ace-HasUniqueIds ace acl.entries (h _ acl at)))
        (λ _. h))

remove_ace-IsUnique :
    (s : MemoryAclStore) (resource_id resource_type id : String) (now : ℕ)
    → IsUnique s
    → Kept (remove_ace s resource_id resource_type id now)
unfolding remove_ace
remove_ace-IsUnique s resource_id resource_type id now h =
    option_cases Kept (lookup (acl_key resource_id resource_type) s.acls) _ _ h (λ acl at.
      if_cases Kept (has_ace id acl.entries) _ _
        (λ _.
          IsUnique-insert s (acl_key resource_id resource_type)
            (with_entries acl (drop_ace id acl.entries) now) s.by_principal h
            (drop_ace-HasUniqueIds id acl.entries (h _ acl at)))
        (λ _. h))

create_acl-IsUnique :
    (s : MemoryAclStore) (acl : Acl) (now : ℕ)
    → HasUniqueIds acl.entries
    → IsUnique s
    → Kept (create_acl s acl now)
unfolding create_acl
create_acl-IsUnique s acl now entries h =
    option_cases Kept (lookup (acl_key acl.resource_id acl.resource_type) s.acls) _ _
      (IsUnique-insert s _ (record acl { updated_at = now }) s.by_principal h entries) (λ _ _. h)

update_acl-IsUnique :
    (s : MemoryAclStore) (acl : Acl) (now : ℕ)
    → HasUniqueIds acl.entries
    → IsUnique s
    → Kept (update_acl s acl now)
unfolding update_acl
update_acl-IsUnique s acl now entries h =
    option_cases Kept (lookup (acl_key acl.resource_id acl.resource_type) s.acls) _ _ h
      (λ _ _. IsUnique-insert s _ (record acl { updated_at = now }) s.by_principal h entries)

set_inheritance-IsUnique :
    (s : MemoryAclStore) (resource_id resource_type from : String) (now : ℕ)
    → IsUnique s
    → Kept (set_inheritance s resource_id resource_type from now)
unfolding set_inheritance update_acl
set_inheritance-IsUnique s resource_id resource_type from now h =
    option_cases Kept (lookup (acl_key resource_id resource_type) s.acls) _ _ h (λ acl at.
      option_cases Kept (lookup (acl_key acl.resource_id acl.resource_type) s.acls) _ _ h (λ _ _.
        IsUnique-insert s _ (record acl { inherit_from = from; updated_at = now }) s.by_principal h
          (h _ acl at)))

answer-Kept : (ace : Ace) (p : MemoryAclStore × Option Error) → Kept p → Kept (answer ace p)
answer-Kept ace (s, none) h = h
answer-Kept ace (s, some e) h = h

put_access-IsUnique :
    (access : AccessType) (s : MemoryAclStore) (req : GrantAccessRequest) (id : String) (now : ℕ)
    → IsUnique s
    → Kept (put_access access s req id now)
unfolding put_access
put_access-IsUnique access s req id now h =
    option_cases Kept (lookup (acl_key req.resource_id req.resource_type) s.acls) _ _
      (answer-Kept _ _ (
        add_ace-IsUnique _ req.resource_id req.resource_type (requested req access id) now
          (create_acl-IsUnique s (empty_acl req.resource_id req.resource_type "") now tt h)))
      (λ acl _.
        answer-Kept _ _
          (add_ace-IsUnique s acl.resource_id acl.resource_type (requested req access id) now h))

changed-IsUnique :
    (s : MemoryAclStore) (c : Change) (now : ℕ)
    → BringsUnique (c, now)
    → IsUnique s
    → IsUnique (changed s c now)
unfolding changed grant_access deny_access revoke_access delete_acl
changed-IsUnique s (grants req id) now ok h = put_access-IsUnique allow s req id now h
changed-IsUnique s (denies req id) now ok h = put_access-IsUnique deny s req id now h
changed-IsUnique s (revokes resource_id resource_type id) now ok h =
    remove_ace-IsUnique s resource_id resource_type id now h
changed-IsUnique s (updates resource_id resource_type ace) now ok h =
    update_ace-IsUnique s resource_id resource_type ace now h
changed-IsUnique s (inherits resource_id resource_type from) now ok h =
    set_inheritance-IsUnique s resource_id resource_type from now h
changed-IsUnique s (deletes resource_id resource_type) now ok h = λ key acl at.
    let gone = acl_key resource_id resource_type in
    let step = lookup-delete gone key s.acls in
    elim (Bool-cases (str_eq gone key)) [
      | inl e ↦
          let clash : none ≡ some acl = sym (step ∙ rw e refl) ∙ at in
          absurd (ground (arith, clash))
      | inr n ↦
          let same : lookup key (delete gone s.acls) ≡ lookup key s.acls = step ∙ rw n refl in
          h key acl (sym same ∙ at)
    ]
changed-IsUnique s (creates acl) now ok h = create_acl-IsUnique s acl now ok h
changed-IsUnique s (replaces acl) now ok h = update_acl-IsUnique s acl now ok h
changed-IsUnique s (adds resource_id resource_type ace) now ok h =
    add_ace-IsUnique s resource_id resource_type ace now h

all_changed-IsUnique :
    (cs : List (Change × ℕ)) (s : MemoryAclStore)
    → All BringsUnique cs
    → IsUnique s
    → IsUnique (all_changed s cs)
unfolding all_changed
all_changed-IsUnique [] s ok h = h
all_changed-IsUnique ((c, now) ∷ cs) s ok h =
    all_changed-IsUnique cs (changed s c now) ok.1 (changed-IsUnique s c now ok.0 h)

-- After any changes on a new store, of lists (created, replaced and deleted), of entries (added, granted,
-- refused, changed and revoked, whatever their IDs) and of inheritance: where no list that is created or
-- replaced brings two entries of one ID, in no list of the store do two entries have the same ID.
pub all_changed-new-IsUnique :
    (cs : List (Change × ℕ)) → All BringsUnique cs → IsUnique (all_changed new cs)
unfolding new
all_changed-new-IsUnique cs ok =
    all_changed-IsUnique cs new ok (λ key acl at. absurd (ground (arith, at)))
