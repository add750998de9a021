-- ===== src/Failover/State.antt =====
-- The structs of failover, and what they are made of.
use net_llm.Prelude.{ℕ, String, Bool, true, false, Option, none, List, []}
use net_llm.Prelude.Dict.{Dict}
use net_llm.Prelude.Int.{ℤ}

pub data FailoverState : Type 0 where
  active standby failing_over failed recovering unknown : FailoverState

pub data FailoverPolicy : Type 0 where
  automatic manual quorum_based : FailoverPolicy

pub record Node : Type 0 where
  pub id : String
  pub name : String
  pub address : String
  pub port : ℕ
  pub state : FailoverState
  pub priority : ℤ
  pub region : String
  pub zone : String
  pub last_heartbeat : ℕ
  pub health_score : ℤ

pub record FailoverConfig : Type 0 where
  pub policy : FailoverPolicy
  pub heartbeat_timeout : ℕ
  pub quorum_size : ℤ

pub record FailoverEvent : Type 0 where
  pub timestamp : ℕ
  pub from_node : String
  pub to_node : String
  pub reason : String
  pub success : Bool
  pub failover_policy : FailoverPolicy

pub record FailoverManager : Type 0 where
  pub config : FailoverConfig
  pub nodes : Dict Node
  pub active_node : Option String
  pub events : List FailoverEvent
  pub event_chan : List FailoverEvent

pub data Error : Type 0 where
  node_exists node_not_found no_candidate manual_policy no_quorum : Error
  target_not_found target_not_standby target_unhealthy : Error
  failover_failed : Error → Error

unfoldable pub new : FailoverConfig → FailoverManager
new config = record {
  config = config;
  nodes = [];
  active_node = none;
  events = [];
  event_chan = [];
}

abbrev pub is_active : FailoverState → Bool
is_active active = true
is_active _ = false

abbrev pub is_standby : FailoverState → Bool
is_standby standby = true
is_standby _ = false

abbrev pub with_state : FailoverState → Node → Node
with_state s n = record n { state = s }
