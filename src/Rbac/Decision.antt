-- ===== src/Rbac/Decision.antt =====
-- When a user has a permission.
use text.Mathlib.TextPositions.{eq_refl}
use net_llm.Prelude.{
  ◌≤◌, ◌<◌, String, true, ◌||◌, some, List, [], ◌∷◌, ◌≡◌, ap, subst, ◌∙◌, ◌↔◌, arith, Bool-cases,
  Option-cases, inl, inr, ◌⊎◌, str_eq, eq_iff,
}
use net_llm.Rbac.State.{Permission, Role, RbacConfig, Repository, levels}
use net_llm.Rbac.Permissions.{
  collect_all, fetch, permissions_of, scope_level, scope_matches, allows, any_allows, with_fetched,
}
use net_llm.Rbac.Acyclic.{In}
use net_llm.Rbac.Collected.{Inherits, Any, collect_all-Sound, collect_all-Complete}

-- A permission covers a scope: the same one, one at a higher level, or all.
abbrev pub Covers : String → String → Type 0
Covers given required =
    (given ≡ required)
    ⊎ (((0 < scope_level required) × (scope_level required ≤ scope_level given))
        ⊎ (given ≡ "global"))

-- What a permission allows.
abbrev pub Allows : Permission → String → String → String → Type 0
Allows p resource action scope =
    (p.resource ≡ resource) × ((p.action ≡ "admin") ⊎ ((p.action ≡ action) × Covers p.scope scope))

scope_matches-Covers :
    (given required : String) → scope_matches given required ≡ true → Covers given required
unfolding scope_matches
scope_matches-Covers given required h = elim (Bool-cases (str_eq given required)) [
  | inl e ↦ inl ((eq_iff given required).0 e)
  | inr n ↦ inr (inl ground (arith, h))
]

Covers-matches :
    (given required : String)
    → Covers given required
    → (scope_matches given required || str_eq given "global") ≡ true
unfolding scope_matches
Covers-matches given required (inl e) =
    let same = (eq_iff given required).1 e in ground (arith, same, ap scope_level e)
Covers-matches given required (inr (inl level)) = ground (arith, level)
Covers-matches given required (inr (inr all)) =
    let global = (eq_iff given "global").1 all in ground (arith, global)

eq_test : (a b : String) → a ≡ b → str_eq a b ≡ true
eq_test a b = (eq_iff a b).1

Covers-iff :
    (given required : String)
    → ((scope_matches given required || str_eq given "global") ≡ true) ↔ Covers given required
Covers-iff given required = (
  λ h. elim (Bool-cases (scope_matches given required)) [
    | inl m ↦ scope_matches-Covers given required m
    | inr n ↦ inr (inr ((eq_iff given "global").0 (ground (arith, h, n))))
  ],
  Covers-matches given required,
)

allows_iff :
    (p : Permission) (resource action scope : String)
    → (allows p resource action scope ≡ true) ↔ Allows p resource action scope
unfolding allows
allows_iff p resource action scope =
    let r = eq_iff p.resource resource in
    let a = eq_iff p.action action in
    let admin = eq_iff p.action "admin" in
    let c = Covers-iff p.scope scope in
    (
      λ h.
          let same : str_eq p.resource resource ≡ true = ground (arith, h) in
          (
            r.0 same,
            elim (Bool-cases (str_eq p.action "admin")) [
              | inl e ↦ inl (admin.0 e)
              | inr n ↦
                  let acts : str_eq p.action action ≡ true = ground (arith, h, n) in
                  inr (a.0 acts, c.0 (ground (arith, h, n)))
            ],
          ),
      λ (same, how).
          let same' = r.1 same in
          elim how [
            | inl e ↦ let e' = admin.1 e in ground (arith, same', e')
            | inr (acts, covers) ↦
                let acts' = a.1 acts in
                let covers' = c.1 covers in ground (arith, same', acts', covers')
          ],
    )

-- Some permission among the fetched ones allows it.
abbrev Finds : Repository → List String → String → String → String → Type 0
Finds repo ids resource action scope =
    (id : String) × (p : Permission) × In id ids
    × (repo.get_permission id ≡ some p)
    × Allows p resource action scope

Finds-cons :
    (repo : Repository) (j : String) (ids : List String) (resource action scope : String)
    → Finds repo ids resource action scope
    → Finds repo (j ∷ ids) resource action scope
Finds-cons repo j ids resource action scope (id, p, i, at, al) = (id, p, ground (arith, i), at, al)

any_allows-Sound :
    (repo : Repository) (ids : List String) (resource action scope : String)
    → any_allows (fetch repo.get_permission ids) resource action scope ≡ true
    → Finds repo ids resource action scope
unfolding any_allows
any_allows-Sound repo [] resource action scope h = absurd (ground (arith, h))
any_allows-Sound repo (id ∷ ids) resource action scope h =
    let rest = fetch repo.get_permission ids in
    let test = λ (ps : List Permission). any_allows ps resource action scope in
    elim (Option-cases (repo.get_permission id)) [
      | inl missing ↦ Finds-cons repo id ids resource action scope (
          any_allows-Sound repo ids resource action scope
            (subst (λ o. test (with_fetched o rest) ≡ true) missing h))
      | inr (p, at) ↦
          let h' : test (p ∷ rest) ≡ true = subst (λ o. test (with_fetched o rest) ≡ true) at h in
          elim (Bool-cases (allows p resource action scope)) [
            | inl y ↦
                (id, p, ground (arith, eq_refl id), at, (allows_iff p resource action scope).0 y)
            | inr n ↦
                Finds-cons repo id ids resource action scope
                  (any_allows-Sound repo ids resource action scope (ground (arith, h', n)))
          ]
    ]

any_allows-Complete :
    (repo : Repository) (ids : List String) (resource action scope id : String) (p : Permission)
    → In id ids
    → repo.get_permission id ≡ some p
    → Allows p resource action scope
    → any_allows (fetch repo.get_permission ids) resource action scope ≡ true
unfolding any_allows
any_allows-Complete repo [] resource action scope id p i at al = absurd (ground (arith, i))
any_allows-Complete repo (j ∷ ids) resource action scope id p i at al =
    let rest = λ (k : In id ids). any_allows-Complete repo ids resource action scope id p k at al in
    let yes_here = (allows_iff p resource action scope).1 al in
    elim (Bool-cases (str_eq j id)) [
      | inl e ↦
          let at' : repo.get_permission j ≡ some p =
            ap repo.get_permission ((eq_iff j id).0 e) ∙ at in
          rw (at', yes_here)
      | inr n ↦
          let later = rest (ground (arith, i, n)) in
          elim (Option-cases (repo.get_permission j)) [
            | inl missing ↦ rw missing later
            | inr (q, at') ↦ elim (Bool-cases (allows q resource action scope)) [
              | inl y ↦ rw (at', y)
              | inr m ↦ rw (at', m) later
            ]
          ]
    ]

-- A user with these roles is granted it: one of the roles inherits, over the levels that the
-- configuration leaves, a permission that exists and allows it.
abbrev pub Granted : Repository → RbacConfig → List Role → String → String → String → Type 0
Granted repo config roles resource action scope =
    (id : String) × (p : Permission) × Any
      (λ r. Inherits repo.get_role (levels config.max_role_inheritance_depth) r id) roles
    × (repo.get_permission id ≡ some p)
    × Allows p resource action scope

pub permissions_of_iff :
    (repo : Repository) (config : RbacConfig) (roles : List Role) (resource action scope : String)
    → (any_allows (permissions_of repo config roles) resource action scope ≡ true)
      ↔ Granted repo config roles resource action scope
unfolding permissions_of
permissions_of_iff repo config roles resource action scope =
    let n = levels config.max_role_inheritance_depth in
    let ids = collect_all repo.get_role n roles [] in
    (
      λ h.
          let (id, p, i, at, al) = any_allows-Sound repo ids resource action scope h in
          elim (collect_all-Sound repo.get_role n roles [] id i) [
            | inl nothing ↦ absurd (ground (arith, nothing))
            | inr a ↦ (id, p, a, at, al)
          ],
      λ (id, p, a, at, al).
          any_allows-Complete repo ids resource action scope id p
            (collect_all-Complete repo.get_role n roles [] id (inr a)) at al,
    )
