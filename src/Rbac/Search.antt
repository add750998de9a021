-- ===== src/Rbac/Search.antt =====
-- The search among the ancestors of a role visits each role once, and so it ends.
use text.Mathlib.TextPositions.{eq_refl}
use net_llm.Prelude.{
  ℕ, zero, suc, ◌<◌, String, true, false, Option, none, some, List, [], ◌∷◌, ◌≡◌, sym, ap, subst,
  ◌∙◌, arith, Bool-cases, Option-cases, inl, inr, str_eq, eq_iff,
}
use net_llm.Rbac.State.{Role, contains}
use net_llm.Rbac.Manager.{Visit, any_parent, has_role_inherited}
use net_llm.Rbac.Acyclic.{In, direct, some_inj}
use net_llm.Rbac.Ancestors.{
  unvisited, unvisited-Within, unvisited-visit, Within-add, Clear, RoleVisit, ParentsVisit,
  ParentsVisit-missing, after_visit,
}

module _ (get_role : String → Option Role) (target : String) where
  module _ (ids : (x : String) (r : Role) → get_role x ≡ some r → r.id ≡ x) (us : List String) where
    any_parent-Visit :
        (bound : ℕ) (visit : Role → List String → Option Visit)
        → ((role : Role) (v : List String)
            → get_role role.id ≡ some role
            → unvisited us v < bound
            → RoleVisit get_role target role v (visit role v))
        → (ps v : List String) → unvisited us v < bound
        → ParentsVisit get_role target ps v (any_parent get_role visit target ps v)
    any_parent-Visit bound visit each [] v few =
        (λ x i. i, λ q i. absurd (ground (arith, i)), λ x i. inl i)
    any_parent-Visit bound visit each (p ∷ ps) v few = elim (Option-cases (get_role p)) [
      | inl missing ↦
          let step : any_parent get_role visit target (p ∷ ps) v
              ≡ any_parent get_role visit target ps v =
            rw (any_parent, missing) in
          subst (ParentsVisit get_role target (p ∷ ps) v) (sym step) (
            ParentsVisit-missing get_role target p ps v _ missing
              (any_parent-Visit bound visit each ps v few))
      | inr (parent, at) ↦ elim (Bool-cases (str_eq parent.name target)) [
        | inl named ↦
            let step : any_parent get_role visit target (p ∷ ps) v ≡ some (true, v) =
              rw (any_parent, at, named) in
            subst (ParentsVisit get_role target (p ∷ ps) v) (sym step)
              (p, parent, direct (ground (arith, eq_refl p)), at, named)
        | inr other ↦
            let id = ids p parent at in
            let own = subst (λ y. get_role y ≡ some parent) (sym id) at in
            let step : any_parent get_role visit target (p ∷ ps) v ≡ elim (visit parent v) [
              | none ↦ none
              | some (true, v') ↦ some (true, v')
              | some (false, v') ↦ any_parent get_role visit target ps v'
            ] =
              rw (any_parent, at, other) in
            subst (ParentsVisit get_role target (p ∷ ps) v) (sym step) (
              after_visit get_role target p ps v parent
                (λ v1. any_parent get_role visit target ps v1) other id at
                (λ v1 grows.
                  any_parent-Visit bound visit each ps v1
                    (let less = unvisited-Within us v v1 grows in omega arith))
                (visit parent v) (each parent v own few))
      ]
    ]

    -- The parents of a role are done, and so the role is.
    RoleVisit-ParentsVisit :
        (role : Role) (v : List String) (o : Option Visit)
        → get_role role.id ≡ some role
        → ParentsVisit get_role target role.parents (role.id ∷ v) o
        → RoleVisit get_role target role v o
    RoleVisit-ParentsVisit role v none at h = h
    RoleVisit-ParentsVisit role v (some (true, v')) at h = h
    RoleVisit-ParentsVisit role v (some (false, v')) at (grows, clear, settled) = (
      λ x i. grows x (Within-add role.id v x i),
      grows role.id (ground (arith, eq_refl role.id)),
      λ x i. elim (settled x i) [
        | inr done ↦ inr done
        | inl i1 ↦ elim (Bool-cases (str_eq role.id x)) [
          | inl e ↦ inr (λ r at'.
              subst (λ q. Clear get_role target q.parents v')
                (some_inj (sym at ∙ ap get_role ((eq_iff role.id x).0 e) ∙ at')) clear)
          | inr n ↦ inl (ground (arith, i1))
        ]
      ],
    )

    module _ (known : (x : String) (r : Role) → get_role x ≡ some r → In x us) where
      pub has_role_inherited-Visit :
          (fuel : ℕ) (role : Role) (v : List String)
          → get_role role.id ≡ some role
          → unvisited us v < fuel
          → RoleVisit get_role target role v (has_role_inherited get_role target fuel role v)
      unfolding has_role_inherited
      has_role_inherited-Visit zero role v at few = absurd (omega arith)
      has_role_inherited-Visit (suc fuel) role v at few = elim (Bool-cases (contains role.id v)) [
        | inl seen ↦ rw seen (λ x i. i, seen, λ x i. inl i)
        | inr new ↦
            let less = unvisited-visit us v role.id (known role.id role at) new in
            rw new (
              RoleVisit-ParentsVisit role v _ at (
                any_parent-Visit fuel (has_role_inherited get_role target fuel)
                  (has_role_inherited-Visit fuel) role.parents (role.id ∷ v) (omega arith)))
      ]
