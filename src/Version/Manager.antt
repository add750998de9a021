-- ===== src/Version/Manager.antt =====
-- VersionManager: the table of versions, and the mutex. A call is alone, but for a writer that may come to
-- wait: the mutex blocks it where the call itself holds it, and a reader behind a writer that waits, as
-- sync.RWMutex documents. What the database answers to a statement is an argument, `fault` for an error.
use net_llm.Prelude.{
  ℕ, suc, String, Bool, true, false, ◌&&◌, ◌||◌, not, Option, none, some, List, [], ◌∷◌, ◌++◌,
  if◌then◌else◌, select, length, str_eq, ◌==◌,
}
use net_llm.Version.Semantic.{Bytes, SemanticVersion, eqb_bytes, is_greater_than, is_equal}
use net_llm.Version.Parse.{parse_version, Result, ok, err}

pub record ModelVersion : Type 0 where
  pub id : String
  pub model_id : String
  pub version : Bytes
  pub source_url : String
  pub source_checksum : String
  pub changelog : String
  pub status : String
  pub is_active : Bool
  pub is_deprecated : Bool
  pub created_at : ℕ
  pub updated_at : ℕ
  pub created_by : String

-- `reading n waits` is held by n + 1 readers, and `waits` says whether a writer waits for it.
pub data RwMutex : Type 0 where
  free : RwMutex
  reading : ℕ → Bool → RwMutex
  writing : RwMutex

abbrev pub lock : RwMutex → Option RwMutex
lock free = some writing
lock (reading n waits) = none
lock writing = none

abbrev pub r_lock : RwMutex → Option RwMutex
r_lock free = some (reading 0 false)
r_lock (reading n false) = some (reading (suc n) false)
r_lock (reading n true) = none
r_lock writing = none

-- A writer comes, or none, while a reader holds the mutex.
abbrev pub joined_by : Bool → RwMutex → RwMutex
joined_by waits free = free
joined_by waits (reading n w) = reading n (waits || w)
joined_by waits writing = writing

pub data Statement : Type 0 where
  select_version select_active select_all scan_row count_all insert_row begin_transaction :
      Statement
  deactivate activate rows_affected commit_transaction mark_deprecated delete_row : Statement

pub data VersionError : Type 0 where
  invalid_version version_already_exists model_not_found : VersionError
  version_not_found version_conflict : VersionError
  database_failed : Statement → VersionError

pub data Outcome {ℓ} (A : Type ℓ) : Type ℓ where
  blocks : Outcome A
  returns : A → Outcome A

pub data Answer {ℓ} (A : Type ℓ) : Type ℓ where
  found : A → Answer A
  failed : VersionError → Answer A

pub record VersionManager : Type 0 where
  pub db : List ModelVersion
  pub mu : RwMutex

abbrev pub Written : Type 0
Written = Outcome (VersionManager × Option VersionError)

-- A method that reads, between RLock and RUnlock.
abbrev pub with_r_lock : {A : Type 0} → VersionManager → (VersionManager → Outcome A) → Outcome A
with_r_lock vm body = elim (r_lock vm.mu) [ none ↦ blocks | some mu ↦ body (record vm { mu = mu }) ]

abbrev pub unlocked : RwMutex → Written → Written
unlocked mu blocks = blocks
unlocked mu (returns (vm, e)) = returns (record vm { mu = mu }, e)

-- A method that writes, between Lock and Unlock.
abbrev pub with_lock : VersionManager → (VersionManager → Written) → Written
with_lock vm body = elim (lock vm.mu) [
  | none ↦ blocks
  | some mu ↦ unlocked vm.mu (body (record vm { mu = mu }))
]

-- The rest of a method after a call that may fail.
abbrev pub on_found : {A : Type 0} → VersionManager → Outcome (Answer A) → (A → Written) → Written
on_found vm blocks rest = blocks
on_found vm (returns (failed e)) rest = returns (vm, some e)
on_found vm (returns (found a)) rest = rest a

abbrev pub first_row : List ModelVersion → Answer ModelVersion
first_row [] = failed version_not_found
first_row (row ∷ rows) = found row

abbrev pub is_row : String → Bytes → ModelVersion → Bool
is_row model_id version row = str_eq row.model_id model_id && eqb_bytes row.version version

abbrev pub deactivated : String → ℕ → List ModelVersion → List ModelVersion
deactivated model_id now [] = []
deactivated model_id now (row ∷ rows) =
    (if str_eq row.model_id model_id
      then record row { is_active = false; updated_at = now }
      else row)
    ∷ deactivated model_id now rows

abbrev pub changed :
    String → Bytes → (ModelVersion → ModelVersion) → List ModelVersion → List ModelVersion
changed model_id version change [] = []
changed model_id version change (row ∷ rows) =
    (if is_row model_id version row then change row else row) ∷ changed model_id version change rows

abbrev pub affected : String → Bytes → List ModelVersion → ℕ
affected model_id version rows = length (select (is_row model_id version) rows)

module _ (fault : Statement → Bool) where
  unfoldable pub get_version : VersionManager → String → Bytes → Outcome (Answer ModelVersion)
  get_version vm model_id version = with_r_lock vm (λ held. returns (
      if fault select_version
      then failed (database_failed select_version)
      else first_row (select (is_row model_id version) held.db)))

  unfoldable pub get_active_version : VersionManager → String → Outcome (Answer ModelVersion)
  get_active_version vm model_id = with_r_lock vm (λ held. returns (
      if fault select_active
      then failed (database_failed select_active)
      else first_row (select (λ row. str_eq row.model_id model_id && row.is_active) held.db)))

  abbrev pub get_version_count : VersionManager → String → Answer ℕ
  get_version_count vm model_id =
      if fault count_all
      then failed (database_failed count_all)
      else found (length (select (λ row. str_eq row.model_id model_id) vm.db))

  -- The end of `CreateVersion`, once the model is known to exist.
  abbrev pub insert_version : VersionManager → String → ModelVersion → ℕ → Written
  insert_version vm model_id version now =
      on_found vm (returns (get_version_count vm model_id)) (λ count.
        let row = record version {
          model_id = model_id;
          is_active = (if count == 0 then true else version.is_active);
          created_at = now;
          updated_at = now;
        } in
        if fault insert_row
        then returns (vm, some (database_failed insert_row))
        else returns (record vm { db = vm.db ++ (row ∷ []) }, none))

  -- The part after the lock. `known` is whether the registry has the model.
  abbrev pub create_parsed :
      VersionManager
      → (String → Bool)
      → String
      → ModelVersion
      → ℕ
      → Result SemanticVersion
      → Written
  create_parsed vm known model_id version now (err e) = returns (vm, some invalid_version)
  create_parsed vm known model_id version now (ok parsed) =
      elim (get_version vm model_id version.version) [
        | blocks ↦ blocks
        | returns (found existing) ↦ returns (vm, some version_already_exists)
        | returns (failed e) ↦
            if known model_id
            then insert_version vm model_id version now
            else returns (vm, some model_not_found)
      ]

  unfoldable pub create_version :
      VersionManager → (String → Bool) → String → ModelVersion → ℕ → Written
  unfolding get_version
  create_version vm known model_id version now =
      with_lock vm
        (λ held. create_parsed held known model_id version now (parse_version version.version))

  abbrev pub on_success : VersionManager → Statement → Written → Written
  on_success vm s rest = if fault s then returns (vm, some (database_failed s)) else rest

  -- `now` and `later` are the times of the two updates.
  unfoldable pub set_active_version : VersionManager → String → Bytes → ℕ → ℕ → Written
  set_active_version vm model_id version now later = with_lock vm (λ held.
      let rows = deactivated model_id now held.db in
      on_success held begin_transaction (
        on_success held deactivate (
          on_success held activate (
            on_success held rows_affected (
              if affected model_id version rows == 0
              then returns (held, some version_not_found)
              else on_success held commit_transaction (
                  returns (
                    record held {
                      db =
                          changed model_id version
                            (λ row. record row { is_active = true; updated_at = later }) rows;
                    },
                    none,
                  )))))))

  -- The end of the methods that change one row that is not active.
  abbrev pub change_row :
      VersionManager → String → Bytes → Statement → List ModelVersion → ModelVersion → Written
  change_row vm model_id version s rows row =
      if row.is_active
      then returns (vm, some version_conflict)
      else on_success vm s (
          on_success vm rows_affected (
            if affected model_id version vm.db == 0
            then returns (vm, some version_not_found)
            else returns (record vm { db = rows }, none)))

  unfoldable pub deprecate_version : VersionManager → String → Bytes → ℕ → Written
  unfolding get_version
  deprecate_version vm model_id version now = with_lock vm (λ held.
      on_found held (get_version held model_id version) (
        change_row held model_id version mark_deprecated (
          changed model_id version (λ row. record row { is_deprecated = true; updated_at = now })
            held.db)))

  unfoldable pub delete_version : VersionManager → String → Bytes → Written
  unfolding get_version
  delete_version vm model_id version = with_lock vm (λ held.
      on_found held (get_version held model_id version) (
        change_row held model_id version delete_row
          (select (λ row. not (is_row model_id version row)) held.db)))

  -- The end of `RollbackVersion`, with the parsed versions.
  abbrev pub roll_back_to :
      VersionManager → String → Bytes → ℕ → ℕ → SemanticVersion → SemanticVersion → Written
  roll_back_to vm model_id version now later current target =
      if is_greater_than target current || is_equal target current
      then returns (vm, some version_conflict)
      else on_found vm (get_version vm model_id version)
          (λ _. set_active_version vm model_id version now later)

  -- The part of `RollbackVersion` after the active version.
  abbrev pub roll_back_from : VersionManager → String → Bytes → ℕ → ℕ → ModelVersion → Written
  roll_back_from vm model_id version now later active = elim (parse_version active.version) [
    | err e ↦ returns (vm, some invalid_version)
    | ok current ↦ elim (parse_version version) [
      | err e ↦ returns (vm, some invalid_version)
      | ok target ↦ roll_back_to vm model_id version now later current target
    ]
  ]

  unfoldable pub rollback_version : VersionManager → String → Bytes → ℕ → ℕ → Written
  unfolding get_active_version get_version set_active_version is_greater_than is_equal
  rollback_version vm model_id version now later = with_lock vm (λ held.
      on_found held (get_active_version held model_id)
        (roll_back_from held model_id version now later))
