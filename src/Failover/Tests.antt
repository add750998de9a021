-- ===== src/Failover/Tests.antt =====
-- Runs of a cluster of three nodes, and the theorems at them.
use net_llm.Prelude.{ℕ, String, none, some, List, [], ◌∷◌, ◌≡◌, refl, inl, inr}
use net_llm.Prelude.Int.{pos}
use net_llm.Prelude.Dict.{values}
use net_llm.Failover.Calls.{Call, adds, checks, fails_over_to, step, run}
use net_llm.Failover.Methods.{
  remove_node, select_failover_candidate, perform_failover, check_nodes_health, add_node,
}
use net_llm.Failover.State.{
  FailoverConfig, FailoverManager, Node, unknown, failed, automatic, new, failover_failed,
  no_candidate, with_state, active,
}
use net_llm.Failover.Selection.{IsBest, select_failover_candidate-IsBest}
use net_llm.Failover.Nodes.{state_at}
use net_llm.Failover.Invariant.{IsSound, Outcome, run-new-IsSound, perform_failover-Outcome}
use net_llm.Failover.Outcomes.{step-failed, remove_node_refused}

abbrev config : FailoverConfig
config = record { policy = automatic; heartbeat_timeout = 15; quorum_size = pos 3 }

abbrev node : String → ℕ → ℕ → Node
node id priority beat = record {
  id = id;
  name = id;
  address = "10.0.0.1";
  port = 80;
  state = unknown;
  priority = pos priority;
  region = "eu";
  zone = "a";
  last_heartbeat = beat;
  health_score = pos 90;
}

abbrev calls : List Call
calls = adds (node "a" 3 0) ∷ adds (node "b" 2 100) ∷ adds (node "c" 1 100) ∷ checks none 101 ∷ []

-- The first node was silent, so the second took over.
taken_over : (run (new config) calls).active_node ≡ some "b"
unfolding run new step check_nodes_health add_node perform_failover select_failover_candidate
taken_over = refl

silent_failed : state_at (run (new config) calls).nodes "a" ≡ some failed
unfolding run new step check_nodes_health add_node perform_failover select_failover_candidate
silent_failed = refl

run-new-IsSound_example : IsSound (run (new config) calls)
run-new-IsSound_example = run-new-IsSound config calls

step-failed_example :
    state_at (step (run (new config) calls) (fails_over_to "c" "test" 102)).nodes "a" ≡ some failed
step-failed_example =
    step-failed (run (new config) calls) (fails_over_to "c" "test" 102) "a"
      (run-new-IsSound config calls) tt silent_failed

select_failover_candidate-IsBest_example :
    IsBest
      (values (run (new config) calls).nodes)
      (select_failover_candidate (run (new config) calls))
select_failover_candidate-IsBest_example = select_failover_candidate-IsBest (run (new config) calls)

perform_failover-Outcome_example :
    Outcome (run (new config) calls) "b" (perform_failover (run (new config) calls) "b" "drill" 103)
perform_failover-Outcome_example = perform_failover-Outcome (run (new config) calls) "b" "drill" 103

abbrev single : FailoverManager
unfolding run new step add_node
single = run (new config) (adds (node "a" 3 0) ∷ [])

remove_node_refused_example :
    remove_node single "a" 5 ≡ (single, some (failover_failed no_candidate))
unfolding single run new step add_node
remove_node_refused_example =
    remove_node_refused single "a" 5 (with_state active (node "a" 3 0)) refl refl
      λ m at. elim at [ inl same ↦ rw same refl | inr other ↦ absurd other ]
