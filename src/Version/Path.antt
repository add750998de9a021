-- ===== src/Version/Path.antt =====
-- The upgrade path between two versions.
use net_llm.Prelude.{
  ℕ, zero, suc, true, false, ◌||◌, Option, none, some, List, [], ◌∷◌, if◌then◌else◌,
}
use net_llm.Prelude.Int.{pos, ltb_ℤ}
use net_llm.Version.Semantic.{
  Bytes, SemanticVersion, is_less_than, is_equal, increment_major, increment_minor, increment_patch,
  to_string,
}

-- The body of the loop of `generateUpgradePath`.
abbrev pub next_version : SemanticVersion → SemanticVersion → SemanticVersion
next_version current to =
    if ltb_ℤ current.major to.major
    then increment_major current
    else if ltb_ℤ current.minor to.minor
    then increment_minor current
    else increment_patch current

-- The loop, on fuel for its rounds; `none` is the end of the fuel.
unfoldable pub path_from : ℕ → SemanticVersion → SemanticVersion → Option (List Bytes)
unfolding increment_major increment_minor increment_patch is_less_than is_equal to_string
path_from zero current to = none
path_from (suc fuel) current to = elim (is_less_than current to) [
  | false ↦ some []
  | true ↦ elim (path_from fuel (next_version current to) to) [
    | none ↦ none
    | some path ↦ some (
        if is_less_than (next_version current to) to || is_equal (next_version current to) to
        then to_string (next_version current to) ∷ path
        else path)
  ]
]

unfoldable pub generate_upgrade_path : ℕ → SemanticVersion → SemanticVersion → Option (List Bytes)
unfolding path_from
generate_upgrade_path fuel from to = path_from fuel from to

abbrev pub version : ℕ → ℕ → ℕ → Bytes → Bytes → Bytes → SemanticVersion
version a b c pre build raw = record {
  major = pos a;
  minor = pos b;
  patch = pos c;
  pre_release = pre;
  build = build;
  raw = raw;
}
