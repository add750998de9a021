-- ===== src/Rbac/Writes.antt =====
-- Accepted changes of roles keep the roles free of cycles.
use text.Mathlib.TextPositions.{eq_refl}
use net_llm.Prelude.{
  ℕ, String, false, Option, none, some, List, ◌≡◌, refl, sym, ap, subst, ◌∙◌, if◌then◌else◌, arith,
  Bool-cases, Option-cases, inl, inr, ◌⊎◌, str_eq, eq_iff,
}
use mathlib.Core.Path.{fun_ext}
use net_llm.Rbac.State.{
  Role, RbacConfig, Repository, Write, create_role, update_role, delete_role, assign_role,
  revoke_role, create_permission, delete_permission, system_role, Result, ok, err, and_then,
}
use net_llm.Rbac.Inheritance.{check_parents, validate_inheritance}
use net_llm.Rbac.Manager.{check_permissions, create, update, update_found, remove}
use net_llm.Rbac.Acyclic.{
  In, Reaches, Within, Closed, Reaches-In, check_parents-Closed, some_inj, ok_inj, and_then_ok,
}

-- No role is its own ancestor.
abbrev pub IsAcyclic : (String → Option Role) → Type 0
IsAcyclic get_role =
    (x : String) (role : Role) → get_role x ≡ some role → Reaches get_role role.parents x → ⊥

-- The roles after a write, as a repository that does as it is told gives them.
abbrev pub written : Write → (String → Option Role) → String → Option Role
written (create_role role) get_role x = if str_eq role.id x then some role else get_role x
written (update_role role) get_role x = if str_eq role.id x then some role else get_role x
written (delete_role id) get_role x = if str_eq id x then none else get_role x
written (assign_role a) get_role x = get_role x
written (revoke_role user_id role_id) get_role x = get_role x
written (create_permission p) get_role x = get_role x
written (delete_permission id) get_role x = get_role x

module _ (g : String → Option Role) (role : Role) where
  abbrev put_role : String → Option Role
  put_role x = if str_eq role.id x then some role else g x

  put_other : (x : String) → str_eq x role.id ≡ false → put_role x ≡ g x
  put_other x n = ground (arith, eq_iff role.id x, eq_iff x role.id)

  put_self : put_role role.id ≡ some role
  put_self = ground (arith, eq_refl role.id)

  Closed-put : (v : List String) → Closed g role.id v → Closed put_role role.id v
  Closed-put v c x i =
      let (other, r, at, parents) = c x i in (other, r, put_other x other ∙ at, parents)

  not_above : (v : List String) → Closed g role.id v → In role.id v → ⊥
  not_above v c i = absurd (ground (arith, (c role.id i).0, eq_refl role.id))

  -- A way up after the write is one from before it, or it passes through the role.
  Reaches-put :
      (ps : List String) {x : String}
      → Reaches put_role ps x
      → Reaches g ps x ⊎ (Reaches put_role ps role.id × Reaches put_role role.parents x)
  Reaches-put ps (Reaches.direct i) = inl (Reaches.direct i)
  Reaches-put ps {x = x} (Reaches.up {x = y} r way at i) = elim (Bool-cases (str_eq y role.id)) [
    | inl here ↦
        let e : y ≡ role.id = (eq_iff y role.id).0 here in
        let same : r ≡ role = some_inj (sym at ∙ ap put_role e ∙ put_self) in
        inr (subst (Reaches put_role ps) e way, Reaches.direct (subst (λ t. In x t.parents) same i))
    | inr there ↦ elim (Reaches-put ps way) [
      | inl old ↦ inl (Reaches.up r old (sym (put_other y there) ∙ at) i)
      | inr (to, from) ↦ inr (to, Reaches.up r from at i)
    ]
  ]

  put-IsAcyclic :
      (v : List String)
      → Closed g role.id v
      → Within role.parents v
      → IsAcyclic g
      → IsAcyclic put_role
  put-IsAcyclic v c w a x r at way = elim (Bool-cases (str_eq x role.id)) [
    | inl here ↦
        let e : x ≡ role.id = (eq_iff x role.id).0 here in
        let same : r ≡ role = some_inj (sym at ∙ ap put_role e ∙ put_self) in
        let cycle : Reaches put_role role.parents role.id =
          subst (λ t. Reaches put_role t.parents role.id) same
            (subst (Reaches put_role r.parents) e way) in
        not_above v c (Reaches-In put_role role.id role.parents v (Closed-put v c) w cycle)
    | inr there ↦ elim (Reaches-put r.parents way) [
      | inl old ↦ a x r (sym (put_other x there) ∙ at) old
      | inr (to, from) ↦
          let (other, r', at', parents) =
            Closed-put v c x (Reaches-In put_role role.id role.parents v (Closed-put v c) w from) in
          let same : r' ≡ r = some_inj (sym at' ∙ at) in
          not_above v c (
            Reaches-In put_role role.id r.parents v (Closed-put v c)
              (subst (λ t. Within t.parents v) same parents) to)
    ]
  ]

delete-IsAcyclic :
    (g : String → Option Role) (id : String)
    → IsAcyclic g
    → IsAcyclic (λ x. if str_eq id x then none else g x)
delete-IsAcyclic g id a x r at way = a x r (kept x r at) (before way)
  where
    kept : (y : String) (t : Role) → (if str_eq id y then none else g y) ≡ some t → g y ≡ some t
    kept y t e = ground (arith, e)

    before :
        {y : String}
        → Reaches (λ z. if str_eq id z then none else g z) r.parents y
        → Reaches g r.parents y
    before (Reaches.direct i) = Reaches.direct i
    before (Reaches.up {x = y} t w e i) = Reaches.up t (before w) (kept y t e) i

-- A change of roles that the manager passes on.
pub data Accepted (repo : Repository) (config : RbacConfig) (w : Write) : Type 0 where
  created : (role : Role) (now : ℕ) → create repo config role now ≡ ok w → Accepted repo config w
  updated : (role : Role) (now : ℕ) → update repo config role now ≡ ok w → Accepted repo config w
  removed : (id : String) → remove repo id ≡ ok w → Accepted repo config w

-- The checks that both `create` and `update` make before they write.
abbrev Checked : Repository → RbacConfig → List String → String → List String → Write → Result Write
Checked repo config permissions id parents w =
    and_then (check_permissions repo.get_permission permissions)
      λ _. and_then (check_parents repo config id parents) λ _. ok w

Checked-Closed :
    (repo : Repository) (config : RbacConfig) (permissions : List String) (id : String)
    (parents : List String) (w w' : Write)
    → Checked repo config permissions id parents w ≡ ok w'
    → (w ≡ w') × (v : List String) × Closed repo.get_role id v × Within parents v
Checked-Closed repo config permissions id parents w w' h =
    let (u, passed, next) = and_then_ok (check_permissions repo.get_permission permissions) _ h in
    let (v, valid, last) = and_then_ok (check_parents repo config id parents) (λ _. ok w) next in
    let (c, within) = check_parents-Closed repo config id parents v valid in
    (ok_inj last, v, c, within)

stored-IsAcyclic :
    (repo : Repository) (config : RbacConfig) (stored : Role) (w w' : Write)
    → ((x : String) → written w repo.get_role x ≡ put_role repo.get_role stored x)
    → Checked repo config stored.permissions stored.id stored.parents w ≡ ok w'
    → IsAcyclic repo.get_role
    → IsAcyclic (written w' repo.get_role)
stored-IsAcyclic repo config stored w w' same h a =
    let (e, v, c, within) =
      Checked-Closed repo config stored.permissions stored.id stored.parents w w' h in
    subst (λ t. IsAcyclic (written t repo.get_role)) e
      (subst IsAcyclic (sym (fun_ext same)) (put-IsAcyclic repo.get_role stored v c within a))

created-IsAcyclic :
    (repo : Repository) (config : RbacConfig) (role : Role) (now : ℕ) (w : Write)
    → create repo config role now ≡ ok w
    → IsAcyclic repo.get_role
    → IsAcyclic (written w repo.get_role)
unfolding create validate_inheritance
created-IsAcyclic repo config role now w h a =
    let stored = record role { created_at = now; updated_at = now } in
    let go = stored-IsAcyclic repo config stored (create_role stored) w (λ x. refl) in
    elim (Bool-cases (str_eq role.name "")) [
      | inl e ↦ absurd (ground (arith, h, e))
      | inr e ↦ elim (Option-cases (repo.get_role_by_name role.name)) [
        | inr (r, at) ↦ absurd (ground (arith, h, e, at))
        | inl at ↦
            let step : create repo config role now
                ≡ Checked repo config role.permissions role.id role.parents (create_role stored) =
              rw (e, at) in
            go (sym step ∙ h) a
      ]
    ]

updated-IsAcyclic :
    (repo : Repository) (config : RbacConfig) (role : Role) (now : ℕ) (w : Write)
    (found : Option Role)
    → update_found repo config role now found ≡ ok w
    → IsAcyclic repo.get_role
    → IsAcyclic (written w repo.get_role)
unfolding update_found validate_inheritance
updated-IsAcyclic repo config role now w none h a = absurd (ground (arith, h))
updated-IsAcyclic repo config role now w (some existing) h a =
    let stored = record role { created_at = existing.created_at; updated_at = now } in
    elim (Bool-cases existing.is_system) [
      | inl e ↦ absurd (ground (arith, h, e))
      | inr e ↦
          let checked =
            Checked repo config role.permissions role.id role.parents (update_role stored) in
          let step : update_found repo config role now (some existing) ≡ checked =
            ap (λ b. if b then err system_role else checked) e in
          stored-IsAcyclic repo config stored (update_role stored) w (λ x. refl) (sym step ∙ h) a
    ]

removed-IsAcyclic :
    (repo : Repository) (id : String) (w : Write)
    → remove repo id ≡ ok w
    → IsAcyclic repo.get_role
    → IsAcyclic (written w repo.get_role)
unfolding remove
removed-IsAcyclic repo id w h a =
    let e : delete_role id ≡ w = ground (arith, h) in
    subst (λ t. IsAcyclic (written t repo.get_role)) e (delete-IsAcyclic repo.get_role id a)

-- Where no role is its own ancestor, and the manager lets a role be created, updated or deleted, and
-- the repository does as it is told, no role is its own ancestor afterwards.
pub Accepted-IsAcyclic :
    (repo : Repository) (config : RbacConfig) (w : Write)
    → Accepted repo config w
    → IsAcyclic repo.get_role
    → IsAcyclic (written w repo.get_role)
unfolding update
Accepted-IsAcyclic repo config w (created role now h) a =
    created-IsAcyclic repo config role now w h a
Accepted-IsAcyclic repo config w (updated role now h) a =
    updated-IsAcyclic repo config role now w (repo.get_role role.id) h a
Accepted-IsAcyclic repo config w (removed id h) a = removed-IsAcyclic repo id w h a
