-- ===== src/Failover/Calls.antt =====
-- A call of the manager as a value, and histories of calls.
use net_llm.Prelude.{ℕ, String, Option, List, [], ◌∷◌}
use net_llm.Prelude.Int.{ℤ}
use net_llm.Failover.Methods.{
  update_heartbeat, add_node, receive_event, remove_node, check_nodes_health,
  perform_manual_failover,
}
use net_llm.Failover.State.{Node, FailoverManager}

-- A call of a method, with its time where it reads the clock. The loops of the two goroutines make
-- `checks` and `receives`.
pub data Call : Type 0 where
  adds : Node → Call
  removes : String → ℕ → Call
  beats : String → ℕ → Call
  checks : Option (String → ℤ) → ℕ → Call
  fails_over_to : String → String → ℕ → Call
  receives : Call

unfoldable pub step : FailoverManager → Call → FailoverManager
step fm (adds node) = (add_node fm node).0
step fm (removes id now) = (remove_node fm id now).0
step fm (beats id now) = update_heartbeat fm id now
step fm (checks checker now) = check_nodes_health fm checker now
step fm (fails_over_to to reason now) = (perform_manual_failover fm to reason now).0
step fm receives = receive_event fm

unfoldable pub run : FailoverManager → List Call → FailoverManager
unfolding step
run fm [] = fm
run fm (c ∷ cs) = run (step fm c) cs
