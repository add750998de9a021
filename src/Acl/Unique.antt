-- ===== src/Acl/Unique.antt =====
-- The IDs of the entries of a list, over the changes that the service makes.
use net_llm.Prelude.{
  String, true, false, some, List, [], ◌∷◌, ◌++◌, ◌≡◌, refl, sym, ap, subst, if_cases, ◌∙◌, arith,
  Bool-cases, inl, inr, if◌then◌else◌, str_eq, eq_iff,
}
use net_llm.Prelude.Dict.{Dict, lookup, insert, lookup-insert}
use net_llm.Acl.State.{Ace, Acl, MemoryAclStore}
use net_llm.Acl.Methods.{has_ace, replace_ace, drop_ace}

abbrev pub HasUniqueIds : List Ace → Type 0
HasUniqueIds [] = Unit
HasUniqueIds (a ∷ aces) = (has_ace a.id aces ≡ false) × HasUniqueIds aces

has_ace-append :
    (id : String) (a : Ace) (aces : List Ace)
    → has_ace id (aces ++ (a ∷ [])) ≡ (if str_eq a.id id then true else has_ace id aces)
has_ace-append id a [] = refl
has_ace-append id a (b ∷ aces) = ground (arith, has_ace-append id a aces)

pub append-HasUniqueIds :
    (a : Ace) (aces : List Ace)
    → has_ace a.id aces ≡ false
    → HasUniqueIds aces
    → HasUniqueIds (aces ++ (a ∷ []))
append-HasUniqueIds a [] fresh h = (refl, tt)
append-HasUniqueIds a (b ∷ aces) fresh (alone, h) = (
  ground (arith, has_ace-append b.id a aces, eq_iff a.id b.id, eq_iff b.id a.id),
  append-HasUniqueIds a aces (ground (arith, fresh)) h,
)

has_ace-replace_ace :
    (id : String) (a : Ace) (aces : List Ace) → has_ace id (replace_ace a aces) ≡ has_ace id aces
has_ace-replace_ace id a [] = refl
has_ace-replace_ace id a (b ∷ aces) = elim (Bool-cases (str_eq b.id a.id)) [
  | inl e ↦
      let same = (eq_iff b.id a.id).0 e in
      rw e (ap (λ i. if str_eq i id then true else has_ace id aces) (sym same))
  | inr n ↦ rw n (ap (λ r. if str_eq b.id id then true else r) (has_ace-replace_ace id a aces))
]

pub replace_ace-HasUniqueIds :
    (a : Ace) (aces : List Ace) → HasUniqueIds aces → HasUniqueIds (replace_ace a aces)
replace_ace-HasUniqueIds a [] h = tt
replace_ace-HasUniqueIds a (b ∷ aces) (alone, h) =
    if_cases HasUniqueIds (str_eq b.id a.id) (a ∷ aces) (b ∷ replace_ace a aces)
      (λ e. (subst (λ i. has_ace i aces ≡ false) ((eq_iff b.id a.id).0 e) alone, h))
      (λ n. (has_ace-replace_ace b.id a aces ∙ alone, replace_ace-HasUniqueIds a aces h))

has_ace-drop_ace :
    (id gone : String) (aces : List Ace)
    → has_ace id aces ≡ false
    → has_ace id (drop_ace gone aces) ≡ false
has_ace-drop_ace id gone [] h = refl
has_ace-drop_ace id gone (b ∷ aces) h = ground (arith, has_ace-drop_ace id gone aces)

pub drop_ace-HasUniqueIds :
    (gone : String) (aces : List Ace) → HasUniqueIds aces → HasUniqueIds (drop_ace gone aces)
drop_ace-HasUniqueIds gone [] h = tt
drop_ace-HasUniqueIds gone (b ∷ aces) (alone, h) =
    if_cases HasUniqueIds (str_eq b.id gone) aces (b ∷ drop_ace gone aces) (λ _. h)
      (λ _. (has_ace-drop_ace b.id gone aces alone, drop_ace-HasUniqueIds gone aces h))

-- In every list of the store no two entries have the same ID.
abbrev pub IsUnique : MemoryAclStore → Type 0
IsUnique s = (key : String) (acl : Acl) → lookup key s.acls ≡ some acl → HasUniqueIds acl.entries

some_inj : {A : Type 0} {a b : A} → some a ≡ some b → a ≡ b
some_inj h = cc

pub IsUnique-insert :
    (s : MemoryAclStore) (key : String) (acl : Acl) (index : Dict (List String))
    → IsUnique s
    → HasUniqueIds acl.entries
    → IsUnique (record { acls = insert key acl s.acls; by_principal = index })
IsUnique-insert s key acl index h entries j found at = elim (Bool-cases (str_eq key j)) [
  | inl e ↦
      let step : lookup j (insert key acl s.acls) ≡ some acl =
        lookup-insert key j acl s.acls ∙ rw e refl in
      subst (λ b. HasUniqueIds b.entries) (some_inj (sym step ∙ at)) entries
  | inr n ↦
      let step : lookup j (insert key acl s.acls) ≡ lookup j s.acls =
        lookup-insert key j acl s.acls ∙ rw n refl in
      h j found (sym step ∙ at)
]
