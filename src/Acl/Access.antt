-- ===== src/Acl/Access.antt =====
-- CheckAccess: the entries that count for a resource, their order, and the one that decides.
use Prim.Native.String.{len, slice}
use text.Mathlib.Text.{starts_with}
use net_llm.Prelude.{
  ℕ, zero, suc, ◌-◌, String, Bool, true, false, not, ◌&&◌, ◌||◌, Option, none, some, List, [], ◌∷◌,
  ◌++◌, if◌then◌else◌, ltb, str_eq, length, map,
}
use net_llm.Prelude.Int.{ltb_ℤ}
use net_llm.Acl.State.{
  AccessType, deny, Ace, Acl, acl_not_found, Result, ok, err, CheckAccessRequest, no_acl, no_match,
  explicit_deny, explicit_allow, AccessDecision,
}

unfoldable pub match_wildcard : String → String → Bool
match_wildcard pattern permission =
    str_eq pattern "*"
    || (str_eq (slice pattern (len pattern - 1) (len pattern)) "*"
        && starts_with permission (slice pattern 0 (len pattern - 1)))

unfoldable pub ace_matches_permission : List String → String → Bool
unfolding match_wildcard
ace_matches_permission [] permission = false
ace_matches_permission (p ∷ ps) permission =
    let rest = ace_matches_permission ps permission in
    if str_eq p "*" || str_eq p permission
    then true
    else if match_wildcard p permission
    then true
    else rest

abbrev pub any_role : String → List String → Bool
any_role principal [] = false
any_role principal (role ∷ roles) =
    let rest = any_role principal roles in if str_eq principal role then true else rest

-- `role_type` is the constant PrincipalTypeRole, which no file of the package declares.
unfoldable pub ace_matches_principal : String → Ace → CheckAccessRequest → Bool
ace_matches_principal role_type ace req =
    (str_eq ace.principal req.principal && str_eq ace.principal_type req.principal_type)
    || (str_eq ace.principal_type role_type && any_role ace.principal req.roles)

abbrev pub is_expired : Ace → ℕ → Bool
is_expired ace now = elim ace.expires_at [ none ↦ false | some t ↦ ltb t now ]

-- The three tests in the loop of `CheckAccess`.
unfoldable pub applies : String → CheckAccessRequest → ℕ → Ace → Bool
applies role_type req now ace =
    not (is_expired ace now)
    && (ace_matches_principal role_type ace req
        && ace_matches_permission ace.permissions req.permission)

abbrev pub as_inherited : Ace → Ace
as_inherited ace = record ace { inherited = true }

-- The source has no bound; `none` is the end of the fuel.
unfoldable pub collect_aces : (String → String → Result Acl) → ℕ → Acl → Option (List Ace)
collect_aces get_acl zero acl = none
collect_aces get_acl (suc fuel) acl =
    if str_eq acl.inherit_from ""
    then some acl.entries
    else elim (get_acl acl.inherit_from acl.resource_type) [
      | err e ↦ some acl.entries
      | ok parent ↦ elim (collect_aces get_acl fuel parent) [
        | none ↦ none
        | some aces ↦ some (acl.entries ++ map as_inherited aces)
      ]
    ]

-- The inner loop of the sort: what stands at place i in the end, and what stands after it.
unfoldable pub exchange : Ace → List Ace → Ace × List Ace
exchange first [] = (first, [])
exchange first (a ∷ aces) =
    let swapped = exchange a aces in
    let kept = exchange first aces in
    if ltb_ℤ first.priority a.priority then (swapped.0, first ∷ swapped.1) else (kept.0, a ∷ kept.1)

-- The outer loop, for so many places.
unfoldable pub sort_places : ℕ → List Ace → List Ace
unfolding exchange
sort_places zero aces = aces
sort_places (suc n) [] = []
sort_places (suc n) (a ∷ aces) = let placed = exchange a aces in placed.0 ∷ sort_places n placed.1

unfoldable pub sort_aces_by_priority : List Ace → List Ace
unfolding sort_places
sort_aces_by_priority aces = sort_places (length aces) aces

-- Every access but `deny` allows.
abbrev pub decision : AccessType → Ace → AccessDecision
decision deny ace = record { allowed = false; reason = explicit_deny; matched_ace = some ace }
decision _ ace = record { allowed = true; reason = explicit_allow; matched_ace = some ace }

-- The loop of `CheckAccess` over the sorted entries.
unfoldable pub first_applying : String → CheckAccessRequest → ℕ → List Ace → AccessDecision
first_applying role_type req now [] = record {
  allowed = false;
  reason = no_match;
  matched_ace = none;
}
first_applying role_type req now (a ∷ aces) =
    let rest = first_applying role_type req now aces in
    if applies role_type req now a then decision a.access a else rest

unfoldable pub check_access :
    String
    → (String → String → Result Acl)
    → CheckAccessRequest
    → ℕ
    → ℕ
    → Option (Result AccessDecision)
unfolding collect_aces first_applying sort_aces_by_priority
check_access role_type get_acl req now fuel = elim (get_acl req.resource_id req.resource_type) [
  | err acl_not_found ↦ some (ok (record { allowed = false; reason = no_acl; matched_ace = none }))
  | err e ↦ some (err e)
  | ok acl ↦ elim (collect_aces get_acl fuel acl) [
    | none ↦ none
    | some aces ↦ some (ok (first_applying role_type req now (sort_aces_by_priority aces)))
  ]
]
