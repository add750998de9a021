-- ===== src/Failover/Stats.antt =====
-- GetFailoverStats, which counts the nodes and the failovers.
use net_llm.Prelude.{
  ℕ, suc, String, Bool, true, false, not, Option, none, some, List, [], ◌∷◌, if◌then◌else◌, length,
}
use net_llm.Failover.State.{FailoverEvent, FailoverManager}

pub record Stats : Type 0 where
  pub total_failovers : ℕ
  pub successful_failovers : ℕ
  pub failed_failovers : ℕ
  pub active_nodes : ℕ
  pub current_active_node : String

count_success : Bool → List FailoverEvent → ℕ
count_success b [] = 0
count_success b (e ∷ es) =
    let rest = count_success b es in
    if (if b then e.success else not e.success) then suc rest else rest

-- `fm.activeNode.ID` panics, `none`, where no node is active.
unfoldable pub get_failover_stats : FailoverManager → Option Stats
unfolding count_success
get_failover_stats fm = elim fm.active_node [
  | none ↦ none
  | some a ↦ some (record {
    total_failovers = length fm.events;
    successful_failovers = count_success true fm.events;
    failed_failovers = count_success false fm.events;
    active_nodes = length fm.nodes;
    current_active_node = a;
  })
]
