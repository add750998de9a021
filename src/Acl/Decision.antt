-- ===== src/Acl/Decision.antt =====
-- Which entries count for a resource, and which of them decides.
use net_llm.Prelude.{
  ℕ, zero, suc, String, true, false, Option, none, some, List, [], ◌∷◌, ◌++◌, ◌≡◌, refl, sym, ap,
  subst, ◌∙◌, arith, inl, inr, ◌⊎◌, ◌↔◌, ◌≢◌, map, str_eq,
}
use net_llm.Prelude.Int.{◌≤ℤ◌}
use net_llm.Acl.State.{deny, Ace, Acl, Error, Result, ok, err, CheckAccessRequest, AccessDecision}
use net_llm.Acl.Access.{applies, as_inherited, collect_aces}
use net_llm.Acl.Order.{Among}

ok_inj : {A : Type 0} {a b : A} → ok a ≡ ok b → a ≡ b
ok_inj h = cc

module _ (get_acl : String → String → Result Acl) where
  -- The entries of a list and, as inherited ones, those of the list that it inherits from.
  pub data Counts : Acl → Ace → Type 0 where
    own : {acl : Acl} {a : Ace} → Among a acl.entries → Counts acl a
    from_parent :
        {acl : Acl} {a : Ace} (parent : Acl)
        → str_eq acl.inherit_from "" ≡ false
        → get_acl acl.inherit_from acl.resource_type ≡ ok parent
        → Counts parent a
        → Counts acl (as_inherited a)

  -- The lists that a list inherits from, one after the other, come to an end.
  pub data Chain : ℕ → Acl → Type 0 where
    last : {n : ℕ} {acl : Acl} → str_eq acl.inherit_from "" ≡ true → Chain (suc n) acl
    missing :
        {n : ℕ} {acl : Acl} (e : Error)
        → str_eq acl.inherit_from "" ≡ false
        → get_acl acl.inherit_from acl.resource_type ≡ err e
        → Chain (suc n) acl
    next :
        {n : ℕ} {acl : Acl} (parent : Acl)
        → str_eq acl.inherit_from "" ≡ false
        → get_acl acl.inherit_from acl.resource_type ≡ ok parent
        → Chain n parent
        → Chain (suc n) acl

  abbrev pub Collected : ℕ → Acl → Type 0
  Collected fuel acl =
      (aces : List Ace) × (collect_aces get_acl fuel acl ≡ some aces)
      × ((a : Ace) → Among a aces ↔ Counts acl a)

  Among-append : (a : Ace) (xs ys : List Ace) → Among a (xs ++ ys) ↔ (Among a xs ⊎ Among a ys)
  Among-append a [] ys = (λ i. inr i, λ i. elim i [ inl j ↦ absurd j | inr j ↦ j ])
  Among-append a (x ∷ xs) ys =
      let (there, back) = Among-append a xs ys in
      (
        λ i. elim i [
          | inl e ↦ inl (inl e)
          | inr j ↦ elim (there j) [ inl k ↦ inl (inr k) | inr k ↦ inr k ]
        ],
        λ i. elim i [
          | inl (inl e) ↦ inl e
          | inl (inr j) ↦ inr (back (inl j))
          | inr j ↦ inr (back (inr j))
        ],
      )

  Among-map :
      (a : Ace) (xs : List Ace)
      → Among a (map as_inherited xs) ↔ ((b : Ace) × (a ≡ as_inherited b) × Among b xs)
  Among-map a [] = (λ i. absurd i, λ (b, e, i). absurd i)
  Among-map a (x ∷ xs) =
      let (there, back) = Among-map a xs in
      (
        λ i. elim i [ inl e ↦ (x, e, inl refl) | inr j ↦ let (b, e, k) = there j in (b, e, inr k) ],
        λ (b, e, i). elim i [
          | inl same ↦ inl (e ∙ ap as_inherited same)
          | inr j ↦ inr (back (b, e, j))
        ],
      )

  Counts-split :
      (acl : Acl) (a : Ace)
      → Counts acl a
      → Among a acl.entries
        ⊎ ((parent : Acl) × (b : Ace) × (a ≡ as_inherited b)
            × (str_eq acl.inherit_from "" ≡ false)
            × (get_acl acl.inherit_from acl.resource_type ≡ ok parent)
            × Counts parent b)
  Counts-split acl a (own i) = inl i
  Counts-split acl a (from_parent {a = b} parent given at c) = inr (parent, b, refl, given, at, c)

  -- A list with no parent has its own entries.
  Counts-alone :
      (acl : Acl)
      → ((parent : Acl)
          → str_eq acl.inherit_from "" ≡ false
          → get_acl acl.inherit_from acl.resource_type ≢ ok parent)
      → (a : Ace) → Among a acl.entries ↔ Counts acl a
  Counts-alone acl alone a = (
    λ i. own i,
    λ c. elim (Counts-split acl a c) [
      | inl i ↦ i
      | inr (parent, b, e, given, at, cb) ↦ absurd (alone parent given at)
    ],
  )

  pub collect_aces-Collected : (fuel : ℕ) (acl : Acl) → Chain fuel acl → Collected fuel acl
  unfolding collect_aces
  collect_aces-Collected zero acl chain = elim chain [ ]
  collect_aces-Collected (suc n) acl (last none_given) = (
    acl.entries,
    rw none_given refl,
    Counts-alone acl (λ parent given at. absurd (ground (arith, none_given, given))),
  )
  collect_aces-Collected (suc n) acl (missing e given at) = (
    acl.entries,
    rw (given, at) refl,
    Counts-alone acl (λ parent _ at'.
        let clash : err e ≡ ok parent = sym at ∙ at' in absurd (ground (arith, clash))),
  )
  collect_aces-Collected (suc n) acl (next parent given at chain) =
      let (aces, is, iff) = collect_aces-Collected n parent chain in
      (
        acl.entries ++ map as_inherited aces,
        rw (given, at, is) refl,
        λ a. (
          λ i. elim ((Among-append a acl.entries (map as_inherited aces)).0 i) [
            | inl j ↦ own j
            | inr j ↦
                let (b, e, k) = (Among-map a aces).0 j in
                subst (Counts acl) (sym e) (from_parent parent given at ((iff b).0 k))
          ],
          λ c. (Among-append a acl.entries (map as_inherited aces)).1 (elim (Counts-split acl a c) [
            | inl j ↦ inl j
            | inr (parent', b, e, _, at', cb) ↦
                let same : parent' ≡ parent = ok_inj (sym at' ∙ at) in
                inr ((Among-map a aces).1 (b, e, (iff b).1 (subst (λ p. Counts p b) same cb)))
          ]),
        ),
      )

module _ (role_type : String) (req : CheckAccessRequest) (now : ℕ) where
  -- A decision from some entries: with none that applies it is no, and else one of the highest priority
  -- among those that apply decides.
  abbrev pub Decided : (Ace → Type 0) → AccessDecision → Option Ace → Type 0
  Decided From d none =
      (d.allowed ≡ false) × ((a : Ace) → From a → applies role_type req now a ≡ false)
  Decided From d (some a) =
      From a
      × (applies role_type req now a ≡ true)
      × ((d.allowed ≡ true) ↔ (a.access ≢ deny))
      × ((b : Ace) → From b → applies role_type req now b ≡ true → b.priority ≤ℤ a.priority)
