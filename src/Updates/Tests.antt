-- ===== src/Updates/Tests.antt =====
-- Updates of a cluster of three nodes, and the theorems at them.
use net_llm.Prelude.{
  ℕ, String, Bool, true, false, Option, none, some, List, [], ◌∷◌, ◌≡◌, refl, arith, map, str_eq,
  if◌then◌else◌, ◌==◌,
}
use net_llm.Prelude.Int.{ℤ, pos}
use net_llm.Prelude.Dict.{Dict}
use net_llm.Failover.State.{Node, standby, active, failed, FailoverState}
use net_llm.Updates.State.{
  UpdateConfig, UpdateStatus, UpdateManager, VersionInfo, UpdateStats, rolling, completed, new,
  set_current_version, register_node, start_update, get_update_stats, in_progress_already,
}
use net_llm.Updates.Methods.{
  Run, update_node, update_nodes, verify_batch_health, perform_rollback, complete, rolling_from,
  perform_rolling_update, perform_canary_update,
}
use net_llm.Updates.Outcome.{Outcome, perform_rolling_update-Outcome}

abbrev config : UpdateConfig
config = record {
  strategy = rolling;
  batch_size = 2;
  rollback_on_failure = true;
  canary_percentage = 10;
}

abbrev v1 : VersionInfo
v1 = record { version = "1.0.0"; image = "llm:1.0.0"; checksum = "aa" }

abbrev v2 : VersionInfo
v2 = record { version = "1.1.0"; image = "llm:1.1.0"; checksum = "bb" }

abbrev node : String → FailoverState → Node
node id state = record {
  id = id;
  name = id;
  address = "10.0.0.1";
  port = 80;
  state = state;
  priority = pos 1;
  region = "eu";
  zone = "a";
  last_heartbeat = 0;
  health_score = pos 90;
}

abbrev heap : Dict Node
heap = ("a", node "a" active) ∷ ("b", node "b" standby) ∷ ("c", node "c" failed) ∷ []

abbrev started : UpdateManager
started =
    (start_update
      (register_node (register_node (register_node (set_current_version (new config) v1) "c") "b")
        "a")
      v2).0

-- Nodes with a score of their own: the last one is not healthy.
abbrev scores : ℕ → String → ℤ
scores batch id = if str_eq id "c" then pos 50 else pos 90

abbrev never : ℕ → Bool
never b = false

abbrev second : ℕ → Bool
second b = b == 1

abbrev status_of : Run → Option UpdateStatus
status_of none = none
status_of (some (um, h)) = some um.status

abbrev states_of : Run → List FailoverState
states_of none = []
states_of (some (um, h)) = map (λ e. (e.1).state) h

abbrev stats_of : Run → Option UpdateStats
stats_of none = none
stats_of (some (um, h)) = some (get_update_stats um)

started_again : (start_update started v2).1 ≡ some in_progress_already
unfolding start_update register_node set_current_version new
started_again = refl

finishes :
    status_of (perform_rolling_update never none ("a" ∷ "b" ∷ "c" ∷ []) started heap)
    ≡ some completed
unfolding perform_rolling_update rolling_from update_nodes update_node verify_batch_health complete
    start_update register_node set_current_version new
finishes = refl

all_are_active :
    states_of (perform_rolling_update never none ("a" ∷ "b" ∷ "c" ∷ []) started heap)
    ≡ active ∷ active ∷ active ∷ []
unfolding perform_rolling_update rolling_from update_nodes update_node verify_batch_health complete
    start_update register_node set_current_version new
all_are_active = refl

-- The second batch is not healthy: three updates, three more back, and the event of the rollback.
rolls_back :
    stats_of (perform_rolling_update never (some scores) ("c" ∷ "a" ∷ "b" ∷ []) started heap)
    ≡ some record {
      total_nodes = 3;
      total_events = 7;
      completed_updates = 6;
      failed_updates = 0;
      rollbacks = 1;
    }
unfolding perform_rolling_update rolling_from update_nodes update_node verify_batch_health
    perform_rollback start_update register_node set_current_version new get_update_stats
rolls_back = refl

stops :
    states_of (perform_rolling_update second none ("a" ∷ "b" ∷ "c" ∷ []) started heap)
    ≡ active ∷ active ∷ failed ∷ []
unfolding perform_rolling_update rolling_from update_nodes update_node verify_batch_health
    start_update register_node set_current_version new
stops = refl

-- The only canary is healthy.
canary_finishes :
    status_of (perform_canary_update (some (scores 0)) ("a" ∷ "b" ∷ "c" ∷ []) started heap)
    ≡ some completed
unfolding perform_canary_update update_nodes update_node verify_batch_health complete start_update
    register_node set_current_version new
canary_finishes = refl

-- No nodes: there is no canary to take.
canary_out_of_range :
    perform_canary_update none [] (start_update (set_current_version (new config) v1) v2).0 heap
    ≡ none
unfolding perform_canary_update start_update set_current_version new
canary_out_of_range = refl

perform_rolling_update-Outcome_example :
    Outcome second
      (some scores)
      ("c" ∷ "b" ∷ "a" ∷ [])
      started
      heap
      v1
      v2
      (perform_rolling_update second (some scores) ("c" ∷ "b" ∷ "a" ∷ []) started heap)
unfolding start_update register_node set_current_version new
perform_rolling_update-Outcome_example =
    perform_rolling_update-Outcome second (some scores) ("c" ∷ "b" ∷ "a" ∷ []) started heap v1 v2
      refl refl (omega arith)
