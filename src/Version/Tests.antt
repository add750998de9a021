-- ===== src/Version/Tests.antt =====
-- A model with three versions, and the theorems at it.
use net_llm.Prelude.{take, String, Bool, true, false, some, List, [], ◌∷◌, ◌≡◌, inl, refl, arith}
use net_llm.Version.Semantic.{
  Bytes, SemanticVersion, compare, compare_pre_release, is_greater_than, is_less_than, is_equal,
  next_int, increment_major, increment_minor, increment_patch, digits, decimal, to_string,
}
use net_llm.Version.Parse.{ok, atoi, match_version, parse_version}
use net_llm.Version.RoundTrip.{IsVersion, parse_version-to_string}
use net_llm.Version.Manager.{
  reading, ModelVersion, free, Statement, blocks, returns, found, VersionManager, create_version,
  deprecate_version, delete_version, rollback_version, set_active_version,
}
use net_llm.Version.Latest.{list_versions, latest_from, get_latest_version}
use net_llm.Version.Greatest.{LatestAnswer, of_model, get_latest_version-LatestAnswer}
use net_llm.Version.Blocked.{changes_block}
use net_llm.Version.Active.{Activated, set_active_version-Activated}
use net_llm.Version.Path.{path_from, generate_upgrade_path, version}
use net_llm.Version.Rounds.{last}
use net_llm.Version.Upgrade.{generate_upgrade_path-last}

-- 1.2.0-rc1+b
abbrev printed : Bytes
printed = b'1' ∷ b'.' ∷ b'2' ∷ b'.' ∷ b'0' ∷ b'-' ∷ b'r' ∷ b'c' ∷ b'1' ∷ b'+' ∷ b'b' ∷ []

abbrev candidate : SemanticVersion
candidate = version 1 2 0 (b'r' ∷ b'c' ∷ b'1' ∷ []) (b'b' ∷ []) []

prints : to_string candidate ≡ printed
unfolding to_string decimal digits
prints = refl

parses : parse_version (b'v' ∷ printed) ≡ ok (record candidate { raw = printed })
unfolding parse_version match_version atoi
parses = refl

candidate-IsVersion : IsVersion candidate
candidate-IsVersion = record {
  major = (1, refl, omega arith);
  minor = (2, refl, omega arith);
  patch = (0, refl, omega arith);
  pre_release = (refl, (refl, (refl, tt)));
  build = (refl, tt);
}

parse_version-to_string_example :
    parse_version (to_string candidate) ≡ ok (record candidate { raw = to_string candidate })
parse_version-to_string_example = parse_version-to_string candidate candidate-IsVersion

abbrev row : String → Bytes → Bool → ModelVersion
row id v active = record {
  id = id;
  model_id = "m";
  version = v;
  source_url = "";
  source_checksum = "";
  changelog = "";
  status = "";
  is_active = active;
  is_deprecated = false;
  created_at = 0;
  updated_at = 0;
  created_by = "";
}

-- 1.0.0 and 2.0.0
abbrev one : Bytes
one = b'1' ∷ b'.' ∷ b'0' ∷ b'.' ∷ b'0' ∷ []

abbrev two : Bytes
two = b'2' ∷ b'.' ∷ b'0' ∷ b'.' ∷ b'0' ∷ []

abbrev manager : VersionManager
manager = record {
  db = row "1" one true ∷ row "2" printed false ∷ row "3" two false ∷ [];
  mu = free;
}

abbrev works : Statement → Bool
works s = false

latest_test :
    get_latest_version works (λ rows. rows) false manager "m"
    ≡ returns (found (some (row "3" two false)))
unfolding get_latest_version list_versions latest_from parse_version match_version atoi
    is_greater_than compare
latest_test = refl

-- The walk breaks off after the first row, and no error says so.
partial_test :
    get_latest_version works (λ rows. take 1 rows) false manager "m"
    ≡ returns (found (some (row "1" one true)))
unfolding get_latest_version list_versions latest_from parse_version match_version atoi
    is_greater_than compare
partial_test = refl

get_latest_version-LatestAnswer_example :
    LatestAnswer works false
      (of_model "m" manager.db)
      (get_latest_version works (λ rows. rows) false manager "m")
get_latest_version-LatestAnswer_example =
    get_latest_version-LatestAnswer works (λ rows. rows) false manager "m" (of_model "m" manager.db)
      (λ r. (λ i. i, λ i. i)) (reading 0 false, refl)

one_parses : parse_version one ≡ ok (version 1 0 0 [] [] one)
unfolding parse_version match_version atoi
one_parses = refl

changes_block_example :
    (create_version works manager (λ id. true) "m" (row "4" one false) 5 ≡ blocks)
    × (deprecate_version works manager "m" one 5 ≡ blocks)
    × (delete_version works manager "m" one ≡ blocks)
    × (rollback_version works manager "m" one 5 6 ≡ blocks)
changes_block_example =
    changes_block works manager (λ id. true) "m" (row "4" one false) one 5 6
      (version 1 0 0 [] [] one) one_parses

set_active_version-Activated_example :
    Activated "m" two 5 6 manager (set_active_version works manager "m" two 5 6)
set_active_version-Activated_example = set_active_version-Activated "m" two 5 6 works manager refl

-- 0.0.9-rc1 to 1.0.1
path_test :
    generate_upgrade_path 4 (version 0 0 9 (b'r' ∷ []) [] []) (version 1 0 1 [] [] [])
    ≡ some (one ∷ (b'1' ∷ b'.' ∷ b'0' ∷ b'.' ∷ b'1' ∷ []) ∷ [])
unfolding generate_upgrade_path path_from is_less_than is_equal compare compare_pre_release
    increment_major increment_minor increment_patch next_int to_string decimal digits
path_test = refl

generate_upgrade_path-last_example :
    (path : List Bytes) × (generate_upgrade_path 4
        (version 0 0 9 (b'r' ∷ []) [] [])
        (version 1 0 1 [] [] [])
      ≡ some path)
    × (last path ≡ some (to_string (version 1 0 1 [] [] [])))
generate_upgrade_path-last_example =
    generate_upgrade_path-last 0 0 9 (b'r' ∷ []) [] [] 1 0 1 [] [] (omega arith) (omega arith)
      (omega arith) (inl (omega arith))
