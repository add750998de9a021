-- ===== src/Health/Tests.antt =====
-- A checker with one check, and updates that ask it.
use net_llm.Prelude.{String, true, false, none, some, List, [], ◌∷◌, ◌≡◌, refl, ap, arith, str_eq}
use net_llm.Prelude.Int.{pos}
use net_llm.Prelude.Dict.{Dict}
use net_llm.Failover.State.{Node, standby}
use net_llm.Health.{
  HealthChecker, HealthCheckConfig, Probes, heartbeat, healthy, new, register_health_check,
  register_node, perform_health_checks, execute_health_check, succeeds, process_result,
  update_node_health, update_score, get_node_health_score,
}
use net_llm.Health.Silent.{Call, registers_check, registers, checks, processes, step, run}
use net_llm.Health.Updates.{IsReached, perform_rolling_update-TakenBack}
use net_llm.Updates.State.{UpdateManager, VersionInfo, rolling, in_progress}
use net_llm.Updates.Methods.{perform_rolling_update}
use net_llm.Updates.Outcome.{TakenBack}

abbrev probes : Probes
probes = record { get = λ config. some 200; custom_check = λ config. true }

abbrev beat : HealthCheckConfig
beat = record {
  id = "beat";
  check_type = heartbeat;
  endpoint = "";
  expected_status = 0;
  has_custom_check = false;
}

abbrev calls : List Call
calls = registers "a" ∷ registers_check beat ∷ checks probes 10 ∷ processes ∷ []

abbrev checker : HealthChecker
checker = record {
  configs = ("beat", beat) ∷ [];
  node_health = (register_node new "a").0.node_health;
  results = [];
}

-- The check passes, and the node keeps the score with which it was registered.
checked : run new calls ≡ some checker
unfolding run step new register_node register_health_check perform_health_checks
    execute_health_check succeeds process_result update_node_health
checked = refl

score_of_a : get_node_health_score checker "a" ≡ pos 0
unfolding get_node_health_score register_node new
score_of_a = refl

-- A result that names a node blocks.
blocks :
    update_node_health checker record {
      id = "beat";
      node_id = "a";
      check_type = heartbeat;
      status = healthy;
      score = 100;
      timestamp = 10;
    }
    ≡ none
unfolding update_node_health update_score register_node new
blocks = refl

reached : IsReached checker
reached = (calls, ((λ e. ground (arith, ap (λ s. str_eq s "") e)), (tt, (tt, (tt, tt)))), checked)

abbrev version : String → VersionInfo
version v = record { version = v; image = v; checksum = v }

abbrev manager : UpdateManager
manager = record {
  config = record {
    strategy = rolling;
    batch_size = 1;
    rollback_on_failure = true;
    canary_percentage = 10;
  };
  current_version = some (version "1.0.0");
  target_version = some (version "1.1.0");
  status = in_progress;
  events = [];
  nodes = "a" ∷ [];
}

abbrev heap : Dict Node
heap =
    (
      "a",
      record {
        id = "a";
        name = "a";
        address = "10.0.0.1";
        port = 80;
        state = standby;
        priority = pos 1;
        region = "eu";
        zone = "a";
        last_heartbeat = 0;
        health_score = pos 90;
      },
    )
    ∷ []

perform_rolling_update-TakenBack_example :
    TakenBack
      (λ b. false)
      (some (λ b id. get_node_health_score checker id))
      ("a" ∷ [])
      manager
      heap
      (version "1.0.0")
      (version "1.1.0")
      (perform_rolling_update
        (λ b. false)
        (some (λ b id. get_node_health_score checker id))
        ("a" ∷ [])
        manager
        heap)
perform_rolling_update-TakenBack_example =
    perform_rolling_update-TakenBack (λ b. checker) (λ b. false) ("a" ∷ []) manager heap
      (version "1.0.0") (version "1.1.0") (λ b. reached) refl refl (omega arith) (omega arith) refl
      refl
