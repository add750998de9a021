-- ===== src/Version/Active.antt =====
-- SetActiveVersion, and what GetActiveVersion gives after it.
use net_llm.Prelude.{
  ℕ, String, Bool, true, false, ◌&&◌, not, none, some, List, [], ◌∷◌, ◌≡◌, refl, sym, ap, subst,
  ◌∙◌, if_cases, select, map, length, All, str_eq, ◌==◌, Bool-cases, inl, inr, arith,
}
use net_llm.Version.Semantic.{Bytes, eqb_bytes}
use net_llm.Version.Manager.{
  ModelVersion, free, writing, Statement, begin_transaction, deactivate, activate, rows_affected,
  commit_transaction, version_not_found, blocks, returns, found, VersionManager, Written, first_row,
  is_row, get_active_version, deactivated, changed, affected, on_success, unlocked,
  set_active_version,
}

abbrev activated : ℕ → ModelVersion → ModelVersion
activated later row = record row { is_active = true; updated_at = later }

abbrev pub is_active_row : String → ModelVersion → Bool
is_active_row model_id row = str_eq row.model_id model_id && row.is_active

abbrev pub is_other : String → ModelVersion → Bool
is_other model_id row = not (str_eq row.model_id model_id)

module _ (model_id : String) (version : Bytes) (now later : ℕ) where
  abbrev written : List ModelVersion → List ModelVersion
  written db = changed model_id version (activated later) (deactivated model_id now db)

  -- The active rows of the model are the ones of the version, activated.
  select-written :
      (db : List ModelVersion)
      → select (is_active_row model_id) (written db)
        ≡ map (activated later) (select (is_row model_id version) (deactivated model_id now db))
  select-written [] = refl
  select-written (row ∷ db) = elim (Bool-cases (str_eq row.model_id model_id)) [
    | inr other ↦ rw other (rw other (rw other (select-written db)))
    | inl of_model ↦ elim (Bool-cases (eqb_bytes row.version version)) [
      | inl this ↦ rw of_model (
          rw (of_model, this)
            (rw of_model (
              ap (λ l. activated later (record row { is_active = false; updated_at = now }) ∷ l)
                (select-written db))))
      | inr old ↦ rw of_model (rw (of_model, old) (rw of_model (select-written db)))
    ]
  ]

  select-other :
      (db : List ModelVersion)
      → select (is_other model_id) (written db) ≡ select (is_other model_id) db
  select-other [] = refl
  select-other (row ∷ db) = elim (Bool-cases (str_eq row.model_id model_id)) [
    | inr other ↦ rw other (rw other (rw other (ap (λ l. row ∷ l) (select-other db))))
    | inl of_model ↦ elim (Bool-cases (eqb_bytes row.version version)) [
      | inl this ↦ rw of_model (rw (of_model, this) (rw of_model (select-other db)))
      | inr old ↦ rw of_model (rw (of_model, old) (rw of_model (select-other db)))
    ]
  ]

  All-is_row :
      (rows : List ModelVersion)
      → All (λ r. is_row model_id version r ≡ true) (select (is_row model_id version) rows)
  All-is_row [] = tt
  All-is_row (row ∷ rows) =
      if_cases (All (λ r. is_row model_id version r ≡ true)) (is_row model_id version row)
        (row ∷ select (is_row model_id version) rows) (select (is_row model_id version) rows)
        (λ h. (h, All-is_row rows)) (λ _. All-is_row rows)

  All-activated :
      (rows : List ModelVersion)
      → All (λ r. is_row model_id version r ≡ true) rows
      → All (λ r. is_row model_id version r ≡ true) (map (activated later) rows)
  All-activated [] h = tt
  All-activated (row ∷ rows) (here, h) = (here, All-activated rows h)

  -- How a call of `SetActiveVersion` may end.
  abbrev pub Activated : VersionManager → Written → Type 0
  Activated vm blocks = ⊥
  Activated vm (returns (vm', some e)) = vm' ≡ vm
  Activated vm (returns (vm', none)) =
      (vm'.mu ≡ free)
      × (select (is_other model_id) vm'.db ≡ select (is_other model_id) vm.db)
      × All (λ r. is_row model_id version r ≡ true) (select (is_active_row model_id) vm'.db)
      × (row : ModelVersion) × (get_active_version (λ s. false) vm' model_id ≡ returns (found row))
      × (is_row model_id version row ≡ true)

  some_row :
      (rows : List ModelVersion)
      → (length rows == 0) ≡ false
      → All (λ r. is_row model_id version r ≡ true) rows
      → (row : ModelVersion) × (first_row (map (activated later) rows) ≡ found row)
        × (is_row model_id version row ≡ true)
  some_row [] h each = absurd (ground (arith, h))
  some_row (row ∷ rows) h (here, each) = (activated later row, refl, here)

  Activated-written :
      (db : List ModelVersion)
      → (affected model_id version (deactivated model_id now db) == 0) ≡ false
      → Activated
          (record { db = db; mu = free })
          (returns (record { db = written db; mu = free }, none))
  unfolding get_active_version
  Activated-written db some_affected =
      let rows = select (is_row model_id version) (deactivated model_id now db) in
      let each = All-is_row (deactivated model_id now db) in
      let (row, is, of_version) = some_row rows some_affected each in
      (
        refl,
        select-other db,
        subst (All (λ r. is_row model_id version r ≡ true)) (sym (select-written db))
            (All-activated rows each),
        row,
        ap (λ l. returns (first_row l)) (select-written db) ∙ ap returns is,
        of_version,
      )

  -- A statement that fails leaves everything, and else the rest is done.
  Activated-on_success :
      (fault : Statement → Bool) (db : List ModelVersion) (s : Statement) (rest : Written)
      → Activated (record { db = db; mu = free }) (unlocked free rest)
      → Activated
          (record { db = db; mu = free })
          (unlocked free (on_success fault (record { db = db; mu = writing }) s rest))
  Activated-on_success fault db s rest h =
      if_cases (λ w. Activated (record { db = db; mu = free }) (unlocked free w)) (fault s) _ rest
        (λ _. refl) (λ _. h)

  -- With the mutex free: SetActiveVersion ends. Where it fails, nothing is changed. Where it succeeds,
  -- the mutex is free, the rows of other models are as they were, every active row of the model is of
  -- the version, and GetActiveVersion, if its statement works, gives a row of the version.
  pub set_active_version-Activated :
      (fault : Statement → Bool) (vm : VersionManager)
      → vm.mu ≡ free
      → Activated vm (set_active_version fault vm model_id version now later)
  unfolding set_active_version
  set_active_version-Activated fault vm is_free =
      let each = Activated-on_success fault vm.db in
      let held : VersionManager = record { db = vm.db; mu = writing } in
      let none_left : Written = returns (held, some version_not_found) in
      let committed : Written =
        on_success fault held commit_transaction
          (returns (record { db = written vm.db; mu = writing }, none)) in
      subst
        (λ mu.
          Activated (record vm { mu = mu })
            (set_active_version fault (record vm { mu = mu }) model_id version now later))
        (sym is_free)
        (each begin_transaction _ (
          each deactivate _ (
            each activate _ (
              each rows_affected _ (
                if_cases (λ w. Activated (record { db = vm.db; mu = free }) (unlocked free w))
                  (affected model_id version (deactivated model_id now vm.db) == 0) none_left
                  committed (λ _. refl)
                  (λ some_affected.
                    each commit_transaction _ (Activated-written vm.db some_affected)))))))
