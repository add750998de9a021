-- ===== src/Rbac/Ancestors.antt =====
-- The search for a role among the ancestors of a role: it ends, and finds the role exactly where it is.
use text.Mathlib.TextPositions.{eq_refl}
use net_llm.Prelude.{
  ℕ, ◌+◌, ◌≤◌, ◌<◌, String, true, false, Option, none, some, List, [], ◌∷◌, ◌≡◌, sym, ap, subst,
  ◌∙◌, arith, Bool-cases, inl, inr, ◌⊎◌, str_eq, eq_iff, length, if◌then◌else◌,
}
use net_llm.Rbac.State.{Role, contains}
use net_llm.Rbac.Manager.{Visit}
use net_llm.Rbac.Acyclic.{In, Reaches, direct, up, Within, some_inj}

-- How many IDs of a list are not visited.
abbrev pub unvisited : List String → List String → ℕ
unvisited [] v = 0
unvisited (u ∷ us) v = (if contains u v then 0 else 1) + unvisited us v

pub unvisited-length : (us v : List String) → unvisited us v ≤ length us
unvisited-length [] v = omega arith
unvisited-length (u ∷ us) v = ground (arith, unvisited-length us v)

pub unvisited-Within : (us v w : List String) → Within v w → unvisited us w ≤ unvisited us v
unvisited-Within [] v w h = omega arith
unvisited-Within (u ∷ us) v w h = ground (arith, h u, unvisited-Within us v w h)

pub Within-add : (x : String) (v : List String) → Within v (x ∷ v)
Within-add x v y i = ground (arith, i)

pub unvisited-visit :
    (us v : List String) (x : String)
    → In x us
    → contains x v ≡ false
    → unvisited us (x ∷ v) < unvisited us v
unvisited-visit [] v x i new = absurd (ground (arith, i))
unvisited-visit (u ∷ us) v x i new = elim (Bool-cases (str_eq u x)) [
  | inl e ↦
      let same = (eq_iff u x).0 e in
      let back : str_eq x u ≡ true = (eq_iff x u).1 (sym same) in
      let fresh : contains u v ≡ false = subst (λ y. contains y v ≡ false) (sym same) new in
      ground (arith, unvisited-Within us v (x ∷ v) (Within-add x v))
  | inr n ↦
      let later : In x us = ground (arith, i) in ground (arith, unvisited-visit us v x later new)
]

module _ (get_role : String → Option Role) where
  Reaches-Within :
      {from to : List String} {y : String}
      → Within from to
      → Reaches get_role from y
      → Reaches get_role to y
  Reaches-Within h (direct i) = direct (h _ i)
  Reaches-Within h (up role r at i) = up role (Reaches-Within h r) at i

  Reaches-parent :
      (parent : Role) {from : List String} {p y : String}
      → In p from
      → get_role p ≡ some parent
      → Reaches get_role parent.parents y
      → Reaches get_role from y
  Reaches-parent parent i at (direct j) = up parent (direct i) at j
  Reaches-parent parent i at (up role r at' j) = up role (Reaches-parent parent i at r) at' j

  module _ (target : String) where
    -- A role of that name is reached from some parents.
    abbrev pub Named : List String → Type 0
    Named from =
        (y : String) × (r : Role) × Reaches get_role from y
        × (get_role y ≡ some r)
        × (str_eq r.name target ≡ true)

    -- No parent of a list has the name, and all that exist are visited.
    abbrev pub Clear : List String → List String → Type 0
    Clear ps v =
        (p : String)
        → In p ps
        → (parent : Role) → get_role p ≡ some parent
        → (str_eq parent.name target ≡ false) × In p v

    abbrev pub Settled : List String → List String → Type 0
    Settled v v' =
        (x : String) → In x v' → In x v ⊎ ((r : Role) → get_role x ≡ some r → Clear r.parents v')

    -- What a visit of a role may give, and what the loop over some parents.
    abbrev pub RoleVisit : Role → List String → Option Visit → Type 0
    RoleVisit role v none = ⊥
    RoleVisit role v (some (true, v')) = Named role.parents
    RoleVisit role v (some (false, v')) = Within v v' × In role.id v' × Settled v v'

    abbrev pub ParentsVisit : List String → List String → Option Visit → Type 0
    ParentsVisit ps v none = ⊥
    ParentsVisit ps v (some (true, v')) = Named ps
    ParentsVisit ps v (some (false, v')) = Within v v' × Clear ps v' × Settled v v'

    -- A parent that does not exist is passed over.
    pub ParentsVisit-missing :
        (p : String) (ps v : List String) (o : Option Visit)
        → get_role p ≡ none
        → ParentsVisit ps v o
        → ParentsVisit (p ∷ ps) v o
    ParentsVisit-missing p ps v none gone h = h
    ParentsVisit-missing p ps v (some (true, v')) gone (y, r, reach, at_y, named) =
        (y, r, Reaches-Within (Within-add p ps) reach, at_y, named)
    ParentsVisit-missing p ps v (some (false, v')) gone (grows, clear, settled) = (
      grows,
      λ q i parent at. elim (Bool-cases (str_eq p q)) [
        | inl e ↦
            let same = (eq_iff p q).0 e in
            let clash : none ≡ some parent = sym gone ∙ ap get_role same ∙ at in
            absurd (ground (arith, clash))
        | inr n ↦ clear q (ground (arith, i)) parent at
      ],
      settled,
    )

    -- A parent of another name is visited, and then the others.
    ParentsVisit-next :
        (p : String) (ps v v1 : List String) (parent : Role) (o : Option Visit)
        → str_eq parent.name target ≡ false
        → parent.id ≡ p
        → get_role p ≡ some parent
        → RoleVisit parent v (some (false, v1))
        → ParentsVisit ps v1 o
        → ParentsVisit (p ∷ ps) v o
    ParentsVisit-next p ps v v1 parent none other id at h rest = rest
    ParentsVisit-next p ps v v1 parent (some (true, v')) other id at h (y, r, reach, at_y, named) =
        (y, r, Reaches-Within (Within-add p ps) reach, at_y, named)
    ParentsVisit-next p ps v v1 parent (some (false, v')) other id at (grows1, seen, settled1)
          (grows, clear, settled) =
        (
          λ x i. grows x (grows1 x i),
          λ q i other_parent at'. elim (Bool-cases (str_eq p q)) [
            | inl e ↦
                let same = (eq_iff p q).0 e in
                let is : parent ≡ other_parent = some_inj (sym at ∙ ap get_role same ∙ at') in
                (
                  subst (λ r. str_eq r.name target ≡ false) is other,
                  grows q (subst (λ y. In y v1) (id ∙ same) seen),
                )
            | inr n ↦ clear q (ground (arith, i)) other_parent at'
          ],
          λ x i. elim (settled x i) [
            | inr done ↦ inr done
            | inl i1 ↦ elim (settled1 x i1) [
              | inl i2 ↦ inl i2
              | inr done ↦ inr (λ r at' q j parent' at''.
                  let (n, i3) = done r at' q j parent' at'' in (n, grows q i3))
            ]
          ],
        )

    -- What the loop does with the visit of a parent.
    pub after_visit :
        (p : String) (ps v : List String) (parent : Role)
        → (rest : List String → Option Visit) → str_eq parent.name target ≡ false
        → parent.id ≡ p
        → get_role p ≡ some parent
        → ((v1 : List String) → Within v v1 → ParentsVisit ps v1 (rest v1))
        → (o : Option Visit) → RoleVisit parent v o
        → ParentsVisit (p ∷ ps) v (elim o [
          | none ↦ none
          | some (true, v') ↦ some (true, v')
          | some (false, v') ↦ rest v'
        ])
    after_visit p ps v parent rest other id at next none h = h
    after_visit p ps v parent rest other id at next (some (true, v')) (y, r, reach, at_y, named) =
        (y, r, Reaches-parent parent (ground (arith, eq_refl p)) at reach, at_y, named)
    after_visit p ps v parent rest other id at next (some (false, v1)) h =
        ParentsVisit-next p ps v v1 parent (rest v1) other id at h (next v1 h.0)
