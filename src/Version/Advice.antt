-- ===== src/Version/Advice.antt =====
-- SuggestNextVersion and ValidateUpgradePath.
use net_llm.Prelude.{
  String, Bool, ◌||◌, not, Option, none, some, List, [], ◌∷◌, if◌then◌else◌, str_eq,
}
use net_llm.Version.Semantic.{
  Bytes, SemanticVersion, is_greater_than, increment_major, increment_minor, increment_patch,
  to_string,
}
use net_llm.Version.Parse.{parse_version, Result, ok, err}
use net_llm.Version.Manager.{
  ModelVersion, Statement, VersionError, invalid_version, version_conflict, Outcome, blocks,
  returns, Answer, found, failed, VersionManager, get_version,
}
use net_llm.Version.Latest.{get_latest_version}

abbrev pub incremented : String → SemanticVersion → SemanticVersion
incremented change_type v =
    if str_eq change_type "major"
    then increment_major v
    else if str_eq change_type "minor"
    then increment_minor v
    else increment_patch v

abbrev pub suggested : String → Result SemanticVersion → Answer Bytes
suggested change_type (err e) = failed invalid_version
suggested change_type (ok v) = found (to_string (incremented change_type v))

-- "1.0.0".
abbrev pub first_version : Bytes
first_version = b'1' ∷ (b'.' ∷ (b'0' ∷ (b'.' ∷ (b'0' ∷ []))))

-- `none` is a panic: the latest version is nil where no version parses.
abbrev pub suggested_from :
    String → Outcome (Answer (Option ModelVersion)) → Outcome (Option (Answer Bytes))
suggested_from change_type blocks = blocks
suggested_from change_type (returns (failed e)) = returns (some (found first_version))
suggested_from change_type (returns (found none)) = returns none
suggested_from change_type (returns (found (some row))) =
    returns (some (suggested change_type (parse_version row.version)))

unfoldable pub suggest_next_version :
    (Statement → Bool)
    → (List ModelVersion → List ModelVersion)
    → Bool
    → VersionManager
    → String
    → String
    → Outcome (Option (Answer Bytes))
unfolding get_latest_version increment_major increment_minor increment_patch to_string
suggest_next_version fault read waits vm model_id change_type =
    suggested_from change_type (get_latest_version fault read waits vm model_id)

-- The part of `ValidateUpgradePath` after both versions are read; `none` is no error.
abbrev pub validated :
    ModelVersion
    → ModelVersion
    → Result SemanticVersion
    → Result SemanticVersion
    → Option VersionError
validated from to (err e) parsed = some invalid_version
validated from to (ok v) (err e) = some invalid_version
validated from to (ok v) (ok w) =
    if not (is_greater_than w v)
    then some version_conflict
    else if from.is_deprecated || to.is_deprecated
    then some version_conflict
    else none

abbrev pub validated_answers :
    Outcome (Answer ModelVersion) → Outcome (Answer ModelVersion) → Outcome (Option VersionError)
validated_answers blocks second = blocks
validated_answers (returns (failed e)) second = returns (some e)
validated_answers (returns (found from)) blocks = blocks
validated_answers (returns (found from)) (returns (failed e)) = returns (some e)
validated_answers (returns (found from)) (returns (found to)) =
    returns (validated from to (parse_version from.version) (parse_version to.version))

unfoldable pub validate_upgrade_path :
    (Statement → Bool) → VersionManager → String → Bytes → Bytes → Outcome (Option VersionError)
unfolding get_version is_greater_than
validate_upgrade_path fault vm model_id from to =
    validated_answers (get_version fault vm model_id from) (get_version fault vm model_id to)
