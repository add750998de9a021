-- ===== src/Version/Blocked.antt =====
-- The methods of VersionManager that take a read lock while they hold the write lock.
use net_llm.Prelude.{ℕ, String, Bool, true, not, select, ◌≡◌, refl, ap}
use net_llm.Version.Semantic.{Bytes, SemanticVersion}
use net_llm.Version.Parse.{parse_version, ok}
use net_llm.Version.Manager.{
  ModelVersion, RwMutex, free, reading, writing, Statement, blocks, VersionManager, Written,
  with_lock, get_version, get_active_version, create_parsed, on_found, change_row, mark_deprecated,
  delete_row, changed, is_row, roll_back_from, create_version, deprecate_version, delete_version,
  rollback_version,
}

-- A body that blocks under the write lock makes a method that blocks, whoever else holds the mutex.
with_lock_blocks :
    (vm : VersionManager) (body : VersionManager → Written)
    → body (record vm { mu = writing }) ≡ blocks
    → with_lock vm body ≡ blocks
with_lock_blocks vm body h = by_mutex vm.mu
  where
    by_mutex : (mu : RwMutex) → with_lock (record vm { mu = mu }) body ≡ blocks
    by_mutex free = rw h refl
    by_mutex (reading n waits) = refl
    by_mutex writing = refl

-- CreateVersion with a version that parses, DeprecateVersion, DeleteVersion and RollbackVersion block,
-- whatever is stored and whatever the database answers.
pub changes_block :
    (fault : Statement → Bool) (vm : VersionManager) (known : String → Bool) (model_id : String)
    (row : ModelVersion) (version : Bytes) (now later : ℕ) (v : SemanticVersion)
    → parse_version row.version ≡ ok v
    → (create_version fault vm known model_id row now ≡ blocks)
      × (deprecate_version fault vm model_id version now ≡ blocks)
      × (delete_version fault vm model_id version ≡ blocks)
      × (rollback_version fault vm model_id version now later ≡ blocks)
unfolding get_version get_active_version create_version deprecate_version delete_version
    rollback_version
changes_block fault vm known model_id row version now later v parses = (
  with_lock_blocks vm
      (λ held. create_parsed fault held known model_id row now (parse_version row.version))
      (ap (create_parsed fault (record vm { mu = writing }) known model_id row now) parses),
  with_lock_blocks vm
      (λ held. on_found held (get_version fault held model_id version) (
        change_row fault held model_id version mark_deprecated (
          changed model_id version (λ r. record r { is_deprecated = true; updated_at = now })
            held.db)))
      refl,
  with_lock_blocks vm
      (λ held. on_found held (get_version fault held model_id version) (
        change_row fault held model_id version delete_row
          (select (λ r. not (is_row model_id version r)) held.db)))
      refl,
  with_lock_blocks vm
      (λ held.
        on_found held (get_active_version fault held model_id)
          (roll_back_from fault held model_id version now later))
      refl,
)
