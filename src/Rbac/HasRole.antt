-- ===== src/Rbac/HasRole.antt =====
-- HasRole: the search among the ancestors ends, and finds a role of the name exactly where there is one.
use net_llm.Prelude.{
  ℕ, ◌<◌, String, Bool, true, false, Option, none, some, List, [], ◌∷◌, ◌≡◌, refl, sym, ap, subst,
  ◌∙◌, arith, Bool-cases, Option-cases, inl, inr, ◌⊎◌, ◌↔◌, str_eq, length, All,
}
use net_llm.Rbac.State.{Role, RoleAssignment, Repository, ok, err, repository_failed, is_expired}
use net_llm.Rbac.Permissions.{current_roles, get_user_roles}
use net_llm.Rbac.Manager.{Visit, has_role_inherited, any_has_role, has_role_by, has_role}
use net_llm.Rbac.Acyclic.{In, Reaches, direct, up, ok_inj}
use net_llm.Rbac.Search.{has_role_inherited-Visit}
use net_llm.Rbac.Collected.{Any}
use net_llm.Rbac.Ancestors.{unvisited-length, Named, RoleVisit}

module _ (get_role : String → Option Role) (target : String) where
  -- What is reached from a role whose visit found nothing is visited, and has another name.
  Named-visited :
      (role : Role) (v : List String)
      → get_role role.id ≡ some role
      → RoleVisit get_role target role [] (some (false, v))
      → {y : String} → Reaches get_role role.parents y
      → (r : Role) → get_role y ≡ some r
      → (str_eq r.name target ≡ false) × In y v
  Named-visited role v at (grows, seen, settled) (direct {x = y} i) r at_y =
      elim (settled role.id seen) [
        | inl old ↦ absurd (ground (arith, old))
        | inr done ↦ done role at y i r at_y
      ]
  Named-visited role v at (grows, seen, settled) (up {x} {y} from reach at_x i) r at_y =
      let (other, in_v) = Named-visited role v at (grows, seen, settled) reach from at_x in
      elim (settled x in_v) [
        | inl old ↦ absurd (ground (arith, old))
        | inr done ↦ done from at_x y i r at_y
      ]

  -- A role of the name is among the roles, or among the ancestors of one of them.
  abbrev pub Held : List Role → Type 0
  Held roles =
      Any (λ role. (str_eq role.name target ≡ true) ⊎ Named get_role target role.parents) roles

  abbrev Answer : List Role → Option Bool → Type 0
  Answer roles o = (b : Bool) × (o ≡ some b) × ((b ≡ true) ↔ Held roles)

  after_search :
      (role : Role) (roles : List Role) (rest : Option Bool)
      → str_eq role.name target ≡ false
      → get_role role.id ≡ some role
      → Answer roles rest
      → (o : Option Visit) → RoleVisit get_role target role [] o
      → Answer
          (role ∷ roles)
          (elim o [ none ↦ none | some (true, visited) ↦ some true | some (false, visited) ↦ rest ])
  after_search role roles rest other at answer none h = absurd h
  after_search role roles rest other at answer (some (true, v)) h =
      (true, refl, (λ _. inl (inr h), λ _. refl))
  after_search role roles rest other at (b, is, iff) (some (false, v)) h = (
    b,
    is,
    (
      λ yes_b. inr (iff.0 yes_b),
      λ held. elim held [
        | inr later ↦ iff.1 later
        | inl (inl named) ↦ absurd (ground (arith, other, named))
        | inl (inr (y, r, reach, at_y, named)) ↦
            let (apart, _) = Named-visited role v at h reach r at_y in
            absurd (ground (arith, apart, named))
      ],
    ),
  )

  module _ (ids : (x : String) (r : Role) → get_role x ≡ some r → r.id ≡ x) (us : List String)
      (known : (x : String) (r : Role) → get_role x ≡ some r → In x us) where
    any_has_role-Answer :
        (fuel : ℕ)
        → length us < fuel
        → (roles : List Role) → All (λ role. get_role role.id ≡ some role) roles
        → Answer roles (any_has_role get_role target fuel roles)
    unfolding any_has_role
    any_has_role-Answer fuel enough [] stored =
        (false, refl, (λ no. absurd (ground (arith, no)), λ held. absurd held))
    any_has_role-Answer fuel enough (role ∷ roles) (at, stored) =
        elim (Bool-cases (str_eq role.name target)) [
          | inl named ↦
              let step : any_has_role get_role target fuel (role ∷ roles) ≡ some true = rw named in
              (true, step, (λ _. inl (inl named), λ _. refl))
          | inr other ↦
              let few = unvisited-length us [] in
              let step : any_has_role get_role target fuel (role ∷ roles)
                  ≡ elim (has_role_inherited get_role target fuel role []) [
                    | none ↦ none
                    | some (true, visited) ↦ some true
                    | some (false, visited) ↦ any_has_role get_role target fuel roles
                  ] =
                rw other in
              subst (Answer (role ∷ roles)) (sym step) (
                after_search role roles _ other at (any_has_role-Answer fuel enough roles stored)
                  (has_role_inherited get_role target fuel role [])
                  (has_role_inherited-Visit get_role target ids us known fuel role [] at
                    (omega arith)))
        ]

-- What a repository returns for an ID has that ID.
current_roles-stored :
    (repo : Repository) (now : ℕ)
    → ((x : String) (r : Role) → repo.get_role x ≡ some r → r.id ≡ x)
    → (given : List RoleAssignment)
    → All (λ role. repo.get_role role.id ≡ some role) (current_roles repo now given)
unfolding current_roles
current_roles-stored repo now ids [] = tt
current_roles-stored repo now ids (a ∷ others) =
    let rest = current_roles-stored repo now ids others in
    elim (Bool-cases (is_expired a now)) [
      | inl over ↦ rw over rest
      | inr valid ↦ elim (Option-cases (repo.get_role a.role_id)) [
        | inl missing ↦ rw (valid, missing) rest
        | inr (role, at) ↦
            rw (valid, at)
              (subst (λ y. repo.get_role y ≡ some role) (sym (ids a.role_id role at)) at, rest)
      ]
    ]

get_user_roles-stored :
    (repo : Repository) (user_id : String) (now : ℕ) (roles : List Role)
    → ((x : String) (r : Role) → repo.get_role x ≡ some r → r.id ≡ x)
    → get_user_roles repo user_id now ≡ ok roles
    → All (λ role. repo.get_role role.id ≡ some role) roles
unfolding get_user_roles
get_user_roles-stored repo user_id now roles ids got =
    elim (Option-cases (repo.get_user_roles user_id)) [
      | inl failed ↦
          let step : get_user_roles repo user_id now ≡ err repository_failed =
            rw (get_user_roles, failed) in
          absurd (ground (arith, sym step ∙ got))
      | inr (given, is) ↦
          let step : get_user_roles repo user_id now ≡ ok (current_roles repo now given) =
            rw (get_user_roles, is) in
          subst (All (λ role. repo.get_role role.id ≡ some role)) (ok_inj (sym step ∙ got))
            (current_roles-stored repo now ids given)
    ]

-- With a repository of finitely many roles, each found by its own ID, and fuel for one visit more than
-- there are roles, HasRole ends for every user whose roles can be read, whatever cycles the roles have:
-- it says yes exactly where one of the current roles of the user, or one of the ancestors of these, has
-- the name.
pub has_role-iff-Held :
    (repo : Repository)
    → ((x : String) (r : Role) → repo.get_role x ≡ some r → r.id ≡ x)
    → (us : List String) → ((x : String) (r : Role) → repo.get_role x ≡ some r → In x us)
    → (fuel : ℕ) → length us < fuel
    → (user_id target : String) (now : ℕ) (roles : List Role)
    → get_user_roles repo user_id now ≡ ok roles
    → (b : Bool) × (has_role repo user_id target now fuel ≡ some (ok b))
      × ((b ≡ true) ↔ Held repo.get_role target roles)
unfolding has_role
has_role-iff-Held repo ids us known fuel enough user_id target now roles got =
    let (b, is, iff) =
      any_has_role-Answer repo.get_role target ids us known fuel enough roles
        (get_user_roles-stored repo user_id now roles ids got) in
    (
      b,
      ap (has_role_by repo target fuel) got
          ∙ ap (λ o. elim o [ none ↦ none | some b' ↦ some (ok b') ]) is,
      iff,
    )
