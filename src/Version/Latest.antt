-- ===== src/Version/Latest.antt =====
-- GetLatestVersion and SuggestNextVersion.
use net_llm.Prelude.{
  String, Bool, true, Option, none, some, List, [], ◌∷◌, if◌then◌else◌, select, str_eq,
}
use net_llm.Version.Semantic.{SemanticVersion, is_greater_than}
use net_llm.Version.Parse.{parse_version, ok, err}
use net_llm.Version.Manager.{
  ModelVersion, Statement, select_all, scan_row, joined_by, version_not_found, database_failed,
  Outcome, blocks, returns, Answer, found, failed, VersionManager, with_r_lock,
}

-- The rows that are read; a row that cannot be scanned is an error.
abbrev pub scanned : (Statement → Bool) → List ModelVersion → Answer (List ModelVersion)
scanned fault [] = found []
scanned fault (row ∷ rows) =
    if fault scan_row then failed (database_failed scan_row) else found (row ∷ rows)

-- `read` is what the walk over the result gives of the rows: in some order, and not all of them where it
-- breaks off, since the error of the walk is not asked for.
unfoldable pub list_versions :
    (Statement → Bool)
    → (List ModelVersion → List ModelVersion)
    → VersionManager
    → String
    → Outcome (Answer (List ModelVersion))
list_versions fault read vm model_id = with_r_lock vm (λ held. returns (
    if fault select_all
    then failed (database_failed select_all)
    else scanned fault (read (select (λ row. str_eq row.model_id model_id) held.db))))

-- Whether a version takes the place of the latest one so far.
abbrev pub is_later : SemanticVersion → Option (ModelVersion × SemanticVersion) → Bool
is_later v none = true
is_later v (some (row, latest)) = is_greater_than v latest

-- The loop of `GetLatestVersion`; a version that does not parse is passed over.
unfoldable pub latest_from :
    Option (ModelVersion × SemanticVersion)
    → List ModelVersion
    → Option (ModelVersion × SemanticVersion)
latest_from latest [] = latest
latest_from latest (row ∷ rows) = elim (parse_version row.version) [
  | err e ↦ latest_from latest rows
  | ok v ↦ latest_from (if is_later v latest then some (row, v) else latest) rows
]

abbrev pub row_of : Option (ModelVersion × SemanticVersion) → Option ModelVersion
row_of none = none
row_of (some (row, v)) = some row

abbrev pub latest_of : List ModelVersion → Answer (Option ModelVersion)
latest_of [] = failed version_not_found
latest_of (row ∷ rows) = found (row_of (latest_from none (row ∷ rows)))

abbrev pub latest_answer :
    Outcome (Answer (List ModelVersion)) → Outcome (Answer (Option ModelVersion))
latest_answer blocks = blocks
latest_answer (returns (failed e)) = returns (failed e)
latest_answer (returns (found rows)) = returns (latest_of rows)

-- The row is nil where there are versions and none of them parses. `waits` says whether a writer comes
-- to wait for the mutex between its two locks for reading.
unfoldable pub get_latest_version :
    (Statement → Bool)
    → (List ModelVersion → List ModelVersion)
    → Bool
    → VersionManager
    → String
    → Outcome (Answer (Option ModelVersion))
unfolding latest_from list_versions
get_latest_version fault read waits vm model_id = with_r_lock vm (λ held.
    latest_answer
      (list_versions fault read (record held { mu = joined_by waits held.mu }) model_id))
