-- ===== src/Rbac/Acyclic.antt =====
-- A role that passes the check of its parents is not its own ancestor.
use text.Mathlib.TextPositions.{eq_refl}
use net_llm.Prelude.{
  ℕ, zero, suc, String, true, false, Option, some, List, [], ◌∷◌, ◌≡◌, refl, sym, subst, ◌∙◌, arith,
  Bool-cases, Option-cases, inl, inr, ◌⊎◌, str_eq, eq_iff,
}
use net_llm.Rbac.State.{
  Role, RbacConfig, Repository, Result, ok, err, and_then, circular_inheritance, no_parent,
  contains, levels,
}
use net_llm.Rbac.Inheritance.{check_circular_inheritance, check_parents}

abbrev pub In : String → List String → Type 0
In x xs = contains x xs ≡ true

-- The roles that can be reached from some parents, by going up.
pub data Reaches (get_role : String → Option Role) (from : List String) : String → Type 0 where
  direct : {x : String} → In x from → Reaches get_role from x
  up :
      {x y : String} (role : Role)
      → Reaches get_role from x
      → get_role x ≡ some role
      → In y role.parents
      → Reaches get_role from y

abbrev pub Within : List String → List String → Type 0
Within xs ys = (x : String) → In x xs → In x ys

pub ok_inj : {A : Type 0} {a b : A} → ok a ≡ ok b → a ≡ b
ok_inj h = cc

-- A chain succeeds only where both of its parts do.
pub and_then_ok :
    {A B : Type 0} (first : Result A) (next : A → Result B) {b : B}
    → and_then first next ≡ ok b
    → (a : A) × (first ≡ ok a) × (next a ≡ ok b)
and_then_ok (ok a) next done = (a, refl, done)
and_then_ok (err e) next done = absurd (ground (arith, done))

pub some_inj : {A : Type 0} {a b : A} → some a ≡ some b → a ≡ b
some_inj h = cc

module _ (get_role : String → Option Role) (id : String) where
  -- A role that was visited to the end, among the visited ones.
  abbrev pub Visited : List String → String → Type 0
  Visited v x =
      (str_eq x id ≡ false) × (role : Role) × (get_role x ≡ some role) × Within role.parents v

  -- What a successful check of some parents leaves of the visited roles `v`.
  abbrev Explored : List String → List String → List String → Type 0
  Explored ps v v' =
      Within v v'
      × Within ps v'
      × ((x : String) → In x ps → str_eq x id ≡ false)
      × ((x : String) → In x v' → In x v ⊎ Visited v' x)

  Visited-Within : (v w : List String) (x : String) → Within v w → Visited v x → Visited w x
  Visited-Within v w x h (other, role, at, parents) = (other, role, at, λ y i. h y (parents y i))

  -- A parent that is visited already is passed over.
  Explored-skip :
      (p : String) (ps v v' : List String)
      → str_eq p id ≡ false
      → In p v
      → Explored ps v v'
      → Explored (p ∷ ps) v v'
  Explored-skip p ps v v' other seen (grows, all, apart, done) = (
    grows,
    λ x i. elim (Bool-cases (str_eq p x)) [
      | inl e ↦ subst (λ y. In y v') ((eq_iff p x).0 e) (grows p seen)
      | inr n ↦ all x (ground (arith, i))
    ],
    λ x i. elim (Bool-cases (str_eq p x)) [
      | inl e ↦ subst (λ y. str_eq y id ≡ false) ((eq_iff p x).0 e) other
      | inr n ↦ apart x (ground (arith, i))
    ],
    done,
  )

  -- A parent is visited, and then the others.
  Explored-visit :
      (p : String) (ps v v1 v' : List String) (role : Role)
      → str_eq p id ≡ false
      → get_role p ≡ some role
      → Explored role.parents (p ∷ v) v1
      → Explored ps v1 v'
      → Explored (p ∷ ps) v v'
  Explored-visit p ps v v1 v' role other at (grows1, all1, apart1, done1)
        (grows, all, apart, done) =
      let seen : In p v' = grows p (grows1 p (ground (arith, eq_refl p))) in
      let own : Visited v' p = (other, role, at, λ y i. grows y (all1 y i)) in
      let rest =
        Explored-skip p ps v1 v' other (grows1 p (ground (arith, eq_refl p)))
          (grows, all, apart, done) in
      (
        λ x i. grows x (grows1 x (ground (arith, i))),
        rest.1,
        rest.2,
        λ x i. elim (done x i) [
          | inr d ↦ inr d
          | inl i1 ↦ elim (done1 x i1) [
            | inr d ↦ inr (Visited-Within v1 v' x grows d)
            | inl i2 ↦ elim (Bool-cases (str_eq p x)) [
              | inl e ↦ inr (subst (Visited v') ((eq_iff p x).0 e) own)
              | inr n ↦ inl (ground (arith, i2))
            ]
          ]
        ],
      )

  pub check_circular_inheritance-Explored :
      (left : ℕ) (ps v v' : List String)
      → check_circular_inheritance get_role id left ps v ≡ ok v'
      → Explored ps v v'
  unfolding check_circular_inheritance
  check_circular_inheritance-Explored zero ps v v' h = absurd (ground (arith, h))
  check_circular_inheritance-Explored (suc left) [] v v' h =
      let same : v ≡ v' = ok_inj h in
      (
        λ x i. subst (In x) same i,
        λ x i. absurd (ground (arith, i)),
        λ x i. absurd (ground (arith, i)),
        λ x i. inl (subst (In x) (sym same) i),
      )
  check_circular_inheritance-Explored (suc left) (p ∷ ps) v v' h = elim (Bool-cases (str_eq p id)) [
    | inl same ↦
        let step : check_circular_inheritance get_role id (suc left) (p ∷ ps) v
            ≡ err circular_inheritance =
          rw same in
        absurd (ground (arith, sym step ∙ h))
    | inr other ↦ elim (Bool-cases (contains p v)) [
      | inl seen ↦
          let step : check_circular_inheritance get_role id (suc left) (p ∷ ps) v
              ≡ check_circular_inheritance get_role id (suc left) ps v =
            rw (other, seen) in
          Explored-skip p ps v v' other seen
            (check_circular_inheritance-Explored (suc left) ps v v' (sym step ∙ h))
      | inr new ↦ elim (Option-cases (get_role p)) [
        | inl missing ↦
            let step : check_circular_inheritance get_role id (suc left) (p ∷ ps) v
                ≡ err (no_parent p) =
              rw (other, new, missing) in
            absurd (ground (arith, sym step ∙ h))
        | inr (role, at) ↦
            let step : check_circular_inheritance get_role id (suc left) (p ∷ ps) v ≡ (
                and_then (check_circular_inheritance get_role id left role.parents (p ∷ v))
                  (λ w. check_circular_inheritance get_role id (suc left) ps w)) =
              rw (other, new, at) in
            let (w, first, second) =
              and_then_ok (check_circular_inheritance get_role id left role.parents (p ∷ v))
                (λ w. check_circular_inheritance get_role id (suc left) ps w) (sym step ∙ h) in
            Explored-visit p ps v w v' role other at
              (check_circular_inheritance-Explored left role.parents (p ∷ v) w first)
              (check_circular_inheritance-Explored (suc left) ps w v' second)
      ]
    ]
  ]

  -- A set of roles that holds the parents of each of its members, and not the role itself.
  abbrev pub Closed : List String → Type 0
  Closed v = (x : String) → In x v → Visited v x

  Explored-Closed : (ps v : List String) → Explored ps [] v → Closed v
  Explored-Closed ps v (grows, all, apart, done) x i = elim (done x i) [
    | inl none_before ↦ absurd (ground (arith, none_before))
    | inr d ↦ d
  ]

  pub Reaches-In :
      (ps v : List String) {x : String} → Closed v → Within ps v → Reaches get_role ps x → In x v
  Reaches-In ps v c w (Reaches.direct i) = w _ i
  Reaches-In ps v {x = x} c w (Reaches.up {x = y} role r at i) =
      let (other, role', at', parents) = c y (Reaches-In ps v c w r) in
      let same : role ≡ role' = some_inj (sym at ∙ at') in
      parents x (subst (λ t. In x t.parents) same i)

pub check_parents-Closed :
    (repo : Repository) (config : RbacConfig) (id : String) (ps v : List String)
    → check_parents repo config id ps ≡ ok v
    → Closed repo.get_role id v × Within ps v
unfolding check_parents
check_parents-Closed repo config id [] v e = (
  λ x i. absurd (ground (arith, subst (In x) (sym (ok_inj e)) i)),
  λ x i. absurd (ground (arith, i)),
)
check_parents-Closed repo config id (p ∷ ps) v e =
    let x =
      check_circular_inheritance-Explored repo.get_role id
        (levels config.max_role_inheritance_depth) (p ∷ ps) [] v e in
    (Explored-Closed repo.get_role id (p ∷ ps) v x, x.1)
