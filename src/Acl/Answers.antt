-- ===== src/Acl/Answers.antt =====
-- What CheckAccess answers, and where it gives no answer.
use net_llm.Prelude.{
  ℕ, zero, suc, String, true, false, Option, none, some, List, [], ◌∷◌, ◌≡◌, refl, sym, subst,
  if_cases, ◌∙◌, ◌≢◌, arith, inl, inr, ◌↔◌, str_eq,
}
use net_llm.Prelude.Int.{◌≤ℤ◌}
use net_llm.Acl.State.{
  AccessType, allow, deny, other, Ace, Acl, Result, ok, CheckAccessRequest, AccessDecision,
}
use net_llm.Acl.Access.{
  applies, collect_aces, decision, first_applying, check_access, sort_aces_by_priority,
}
use net_llm.Acl.Order.{Among, IsSorted, le_refl_ℤ, sort_aces_by_priority-IsSorted}
use net_llm.Acl.Decision.{Counts, Chain, Decided, collect_aces-Collected}

decision-matched : (t : AccessType) (a : Ace) → (decision t a).matched_ace ≡ some a
decision-matched deny a = refl
decision-matched allow a = refl
decision-matched (other s) a = refl

decision_allowed : (t : AccessType) (a : Ace) → ((decision t a).allowed ≡ true) ↔ (t ≢ deny)
decision_allowed deny a = (λ h. absurd (ground (arith, h)), λ h. absurd (h refl))
decision_allowed allow a = (λ _ e. absurd (ground (arith, e)), λ _. refl)
decision_allowed (other s) a = (λ _ e. absurd (ground (arith, e)), λ _. refl)

module _ (role_type : String) (req : CheckAccessRequest) (now : ℕ) where
  Decided-iff :
      (P Q : Ace → Type 0) (d : AccessDecision) (o : Option Ace)
      → ((a : Ace) → P a ↔ Q a)
      → Decided role_type req now P d o
      → Decided role_type req now Q d o
  Decided-iff P Q d none iff (refused, all) = (refused, λ a q. all a ((iff a).1 q))
  Decided-iff P Q d (some a) iff (from, counts, allowed, first) =
      ((iff a).0 from, counts, allowed, λ b q counts_b. first b ((iff b).1 q) counts_b)

  -- An entry that does not apply changes nothing.
  Decided-skip :
      (x : Ace) (xs : List Ace) (d : AccessDecision) (o : Option Ace)
      → applies role_type req now x ≡ false
      → Decided role_type req now (λ a. Among a xs) d o
      → Decided role_type req now (λ a. Among a (x ∷ xs)) d o
  Decided-skip x xs d none off (refused, all) = (
    refused,
    λ a i. elim i [
      | inl e ↦ subst (λ b. applies role_type req now b ≡ false) (sym e) off
      | inr j ↦ all a j
    ],
  )
  Decided-skip x xs d (some a) off (from, counts, allowed, first) = (
    inr from,
    counts,
    allowed,
    λ b i counts_b. elim i [
      | inl e ↦
          let counts_x = subst (λ c. applies role_type req now c ≡ true) e counts_b in
          let clash : false ≡ true = sym off ∙ counts_x in absurd (ground (arith, clash))
      | inr j ↦ first b j counts_b
    ],
  )

  first_applying-Decided :
      (xs : List Ace)
      → IsSorted xs
      → let d = first_applying role_type req now xs in
        Decided role_type req now (λ a. Among a xs) d d.matched_ace
  unfolding first_applying
  first_applying-Decided [] sorted = (refl, λ a i. absurd i)
  first_applying-Decided (x ∷ xs) (leads, sorted) =
      let rest = first_applying role_type req now xs in
      if_cases (λ d. Decided role_type req now (λ a. Among a (x ∷ xs)) d d.matched_ace)
        (applies role_type req now x) (decision x.access x) rest
        (λ counts.
          subst (Decided role_type req now (λ a. Among a (x ∷ xs)) (decision x.access x))
            (sym (decision-matched x.access x))
            (
              inl refl,
              counts,
              decision_allowed x.access x,
              λ b i counts_b. elim i [
                | inl e ↦ subst (λ c. c.priority ≤ℤ x.priority) (sym e) (le_refl_ℤ x.priority)
                | inr j ↦ leads b j
              ],
            ))
        (λ off. Decided-skip x xs rest rest.matched_ace off (first_applying-Decided xs sorted))

-- For a resource whose list inherits over a chain of lists that ends within the fuel, CheckAccess
-- decides: by an entry that applies to the request and counts for the resource, with a yes exactly
-- where the access of that entry is anything but deny, and no entry that also does has a higher
-- priority; and with a no and no entry only where no entry that counts applies.
pub check_access-Decided :
    (role_type : String) (get_acl : String → String → Result Acl) (req : CheckAccessRequest)
    (now fuel : ℕ) (acl : Acl)
    → get_acl req.resource_id req.resource_type ≡ ok acl
    → Chain get_acl fuel acl
    → (d : AccessDecision) × (check_access role_type get_acl req now fuel ≡ some (ok d))
      × Decided role_type req now (Counts get_acl acl) d d.matched_ace
unfolding check_access
check_access-Decided role_type get_acl req now fuel acl at chain =
    let (aces, is, counts) = collect_aces-Collected get_acl fuel acl chain in
    let (kept, sorted) = sort_aces_by_priority-IsSorted aces in
    let d = first_applying role_type req now (sort_aces_by_priority aces) in
    (
      d,
      rw (check_access, at, is) refl,
      Decided-iff role_type req now _ _ d d.matched_ace
          (λ a. (λ i. (counts a).0 ((kept a).1 i), λ c. (kept a).0 ((counts a).1 c)))
          (first_applying-Decided role_type req now (sort_aces_by_priority aces) sorted),
    )

collect_aces_endless :
    (get_acl : String → String → Result Acl) (InCircle : Acl → Type 0)
    → ((acl : Acl)
        → InCircle acl
        → (str_eq acl.inherit_from "" ≡ false)
          × (parent : Acl) × (get_acl acl.inherit_from acl.resource_type ≡ ok parent)
          × InCircle parent)
    → (fuel : ℕ) (acl : Acl) → InCircle acl
    → collect_aces get_acl fuel acl ≡ none
unfolding collect_aces
collect_aces_endless get_acl InCircle goes_on zero acl i = refl
collect_aces_endless get_acl InCircle goes_on (suc fuel) acl i =
    let (given, parent, at, j) = goes_on acl i in
    let rest = collect_aces_endless get_acl InCircle goes_on fuel parent j in
    rw (given, at, rest) refl

-- Where the list of a resource belongs to lists of which each inherits from one of them, as in a
-- circle, no fuel is enough: CheckAccess gives no answer.
pub check_access_endless :
    (role_type : String) (get_acl : String → String → Result Acl) (InCircle : Acl → Type 0)
    → ((acl : Acl)
        → InCircle acl
        → (str_eq acl.inherit_from "" ≡ false)
          × (parent : Acl) × (get_acl acl.inherit_from acl.resource_type ≡ ok parent)
          × InCircle parent)
    → (req : CheckAccessRequest) (now fuel : ℕ) (acl : Acl)
    → get_acl req.resource_id req.resource_type ≡ ok acl
    → InCircle acl
    → check_access role_type get_acl req now fuel ≡ none
unfolding check_access
check_access_endless role_type get_acl InCircle goes_on req now fuel acl at i =
    let none_left = collect_aces_endless get_acl InCircle goes_on fuel acl i in
    rw (check_access, at, none_left) refl
