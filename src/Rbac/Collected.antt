-- ===== src/Rbac/Collected.antt =====
-- What is collected from a role: the permissions that it inherits over a bounded number of levels.
use net_llm.Prelude.{
  ℕ, zero, suc, String, true, Option, none, some, List, [], ◌∷◌, ◌++◌, ◌≡◌, refl, sym, ap, subst,
  ◌∙◌, if◌then◌else◌, arith, Bool-cases, Option-cases, inl, inr, ◌⊎◌, str_eq, eq_iff,
}
use net_llm.Rbac.State.{Role, contains}
use net_llm.Rbac.Permissions.{
  add, add_all, add_parent, add_parents, collect_permission_ids, collect_all,
}
use net_llm.Rbac.Acyclic.{In}

contains-append :
    (x : String) (xs ys : List String)
    → contains x (xs ++ ys) ≡ (if contains x xs then true else contains x ys)
contains-append x [] ys = refl
contains-append x (y ∷ xs) ys = ground (arith, contains-append x xs ys)

contains-add :
    (x p : String) (xs : List String)
    → contains x (add p xs) ≡ (if str_eq p x then true else contains x xs)
contains-add x p xs = ground (arith, eq_iff p x, contains-append x xs (p ∷ []))

contains-add_all :
    (x : String) (ps ids : List String)
    → contains x (add_all ps ids) ≡ (if contains x ps then true else contains x ids)
contains-add_all x [] ids = refl
contains-add_all x (p ∷ ps) ids =
    ground (arith, contains-add_all x ps (add p ids), contains-add x p ids)

abbrev pub Any {ℓ} : {A : Type ℓ} → (A → Type 0) → List A → Type 0
Any P [] = ⊥
Any P (x ∷ xs) = P x ⊎ Any P xs

-- A role has a permission, itself or by its parents, over so many levels.
pub data Inherits (get_role : String → Option Role) : ℕ → Role → String → Type 0 where
  own :
      {n : ℕ} {role : Role} {p : String} → In p role.permissions → Inherits get_role (suc n) role p
  from_parent :
      {n : ℕ} {role : Role} {p : String} (q : String) (parent : Role)
      → In q role.parents
      → get_role q ≡ some parent
      → Inherits get_role n parent p
      → Inherits get_role (suc n) role p

module _ (get_role : String → Option Role) where
  -- What a visit may add to the permissions, and what it adds.
  abbrev Sound : (Role → String → Type 0) → (Role → List String → List String) → Type 0
  Sound S visit =
      (role : Role) (ids : List String) (x : String) → In x (visit role ids) → In x ids ⊎ S role x

  abbrev Complete : (Role → String → Type 0) → (Role → List String → List String) → Type 0
  Complete S visit =
      (role : Role) (ids : List String) (x : String) → In x ids ⊎ S role x → In x (visit role ids)

  abbrev pub ByParent : (Role → String → Type 0) → List String → String → Type 0
  ByParent S ps x =
      (q : String) × (parent : Role) × In q ps × (get_role q ≡ some parent) × S parent x

  module _ (S : Role → String → Type 0) (visit : Role → List String → List String) where
    later : (p : String) (ps : List String) (x : String) → ByParent S ps x → ByParent S (p ∷ ps) x
    later p ps x (q, parent, i, at, s) = (q, parent, ground (arith, i), at, s)

    add_parents-Sound :
        Sound S visit
        → (ps ids : List String) (x : String) → In x (add_parents get_role visit ps ids)
        → In x ids ⊎ ByParent S ps x
    add_parents-Sound sound [] ids x i = inl i
    add_parents-Sound sound (p ∷ ps) ids x i =
        elim (add_parents-Sound sound ps (add_parent visit (get_role p) ids) x i) [
          | inr b ↦ inr (later p ps x b)
          | inl first ↦ elim (Option-cases (get_role p)) [
            | inl missing ↦ inl (subst (λ o. In x (add_parent visit o ids)) missing first)
            | inr (parent, at) ↦
                elim (sound parent ids x (subst (λ o. In x (add_parent visit o ids)) at first)) [
                  | inl old ↦ inl old
                  | inr s ↦ inr (p, parent, ground (arith, eq_iff p p), at, s)
                ]
          ]
        ]

    add_parent-Complete :
        Complete S visit
        → (o : Option Role) (ids : List String) (x : String) → In x ids
        → In x (add_parent visit o ids)
    add_parent-Complete complete none ids x i = i
    add_parent-Complete complete (some parent) ids x i = complete parent ids x (inl i)

    add_parents-Complete :
        Complete S visit
        → (ps ids : List String) (x : String) → In x ids ⊎ ByParent S ps x
        → In x (add_parents get_role visit ps ids)
    add_parents-Complete complete [] ids x (inl i) = i
    add_parents-Complete complete [] ids x (inr (q, parent, i, at, s)) = absurd (ground (arith, i))
    add_parents-Complete complete (p ∷ ps) ids x (inl i) =
        add_parents-Complete complete ps (add_parent visit (get_role p) ids) x
          (inl (add_parent-Complete complete (get_role p) ids x i))
    add_parents-Complete complete (p ∷ ps) ids x (inr (q, parent, i, at, s)) =
        let next = add_parents-Complete complete ps (add_parent visit (get_role p) ids) x in
        elim (Bool-cases (str_eq p q)) [
          | inl e ↦
              let here : get_role p ≡ some parent = ap get_role ((eq_iff p q).0 e) ∙ at in
              next (
                inl (
                  subst (λ o. In x (add_parent visit o ids)) (sym here)
                    (complete parent ids x (inr s))))
          | inr n ↦ next (inr (q, parent, ground (arith, i), at, s))
        ]

  collect_permission_ids-Sound :
      (n : ℕ) → Sound (Inherits get_role n) (collect_permission_ids get_role n)
  unfolding collect_permission_ids
  collect_permission_ids-Sound zero role ids x i = inl i
  collect_permission_ids-Sound (suc n) role ids x i =
      elim (add_parents-Sound (Inherits get_role n) (collect_permission_ids get_role n)
        (collect_permission_ids-Sound n) role.parents (add_all role.permissions ids) x i) [
          | inr (q, parent, j, at, s) ↦ inr (Inherits.from_parent q parent j at s)
          | inl first ↦ elim (Bool-cases (contains x role.permissions)) [
            | inl mine ↦ inr (Inherits.own mine)
            | inr other ↦
                inl (ground (arith, contains-add_all x role.permissions ids, first, other))
          ]
        ]

  collect_permission_ids-Complete :
      (n : ℕ) → Complete (Inherits get_role n) (collect_permission_ids get_role n)
  unfolding collect_permission_ids
  collect_permission_ids-Complete zero role ids x (inl i) = i
  collect_permission_ids-Complete zero role ids x (inr none_left) = elim none_left [ ]
  collect_permission_ids-Complete (suc n) role ids x (inl i) =
      add_parents-Complete (Inherits get_role n) (collect_permission_ids get_role n)
        (collect_permission_ids-Complete n) role.parents (add_all role.permissions ids) x
        (inl (ground (arith, contains-add_all x role.permissions ids)))
  collect_permission_ids-Complete (suc n) role ids x (inr (Inherits.own i)) =
      add_parents-Complete (Inherits get_role n) (collect_permission_ids get_role n)
        (collect_permission_ids-Complete n) role.parents (add_all role.permissions ids) x
        (inl (ground (arith, i, contains-add_all x role.permissions ids)))
  collect_permission_ids-Complete (suc n) role ids x (inr (Inherits.from_parent q parent j at s)) =
      add_parents-Complete (Inherits get_role n) (collect_permission_ids get_role n)
        (collect_permission_ids-Complete n) role.parents (add_all role.permissions ids) x
        (inr (q, parent, j, at, s))

  -- Over all roles of a user.
  pub collect_all-Sound :
      (n : ℕ) (roles : List Role) (ids : List String) (x : String)
      → In x (collect_all get_role n roles ids)
      → In x ids ⊎ Any (λ r. Inherits get_role n r x) roles
  collect_all-Sound n [] ids x i = inl i
  collect_all-Sound n (role ∷ roles) ids x i =
      elim (collect_all-Sound n roles (collect_permission_ids get_role n role ids) x i) [
        | inr a ↦ inr (inr a)
        | inl first ↦ elim (collect_permission_ids-Sound n role ids x first) [
          | inl old ↦ inl old
          | inr h ↦ inr (inl h)
        ]
      ]

  pub collect_all-Complete :
      (n : ℕ) (roles : List Role) (ids : List String) (x : String)
      → In x ids ⊎ Any (λ r. Inherits get_role n r x) roles
      → In x (collect_all get_role n roles ids)
  collect_all-Complete n [] ids x (inl i) = i
  collect_all-Complete n [] ids x (inr a) = elim a [ ]
  collect_all-Complete n (role ∷ roles) ids x (inl i) =
      collect_all-Complete n roles _ x (inl (collect_permission_ids-Complete n role ids x (inl i)))
  collect_all-Complete n (role ∷ roles) ids x (inr (inl h)) =
      collect_all-Complete n roles _ x (inl (collect_permission_ids-Complete n role ids x (inr h)))
  collect_all-Complete n (role ∷ roles) ids x (inr (inr a)) =
      collect_all-Complete n roles _ x (inr a)
