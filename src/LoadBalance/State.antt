-- ===== src/LoadBalance/State.antt =====
-- The structs of the load balancer. The map and the list of the source point to the same backends, so
-- one list stands for both; the session cache points to a backend by its ID.
use net_llm.Prelude.{ℕ, String, Bool, ◌&&◌, ◌||◌, List, []}
use net_llm.Prelude.Int.{ℤ, pos, negsuc, ◌+ℤ◌, ltb_ℤ, leb_ℤ, eqb_ℤ}
use net_llm.Prelude.Dict.{Dict}

pub data LoadBalanceAlgorithm : Type 0 where
  round_robin weighted_round_robin least_connections health_based random ip_hash :
      LoadBalanceAlgorithm

-- Nothing checks the sign of a weight or of a maximum. A maximum of 0 connections is no limit.
pub record Backend : Type 0 where
  pub id : String
  pub weight : ℤ
  pub max_connections : ℤ
  pub current_conns : ℤ
  pub health_score : ℤ
  pub is_active : Bool

unfoldable pub decrement_connections : Backend → Backend
decrement_connections b = record b { current_conns = b.current_conns +ℤ negsuc 0 }

unfoldable pub can_accept_connections : Backend → Bool
can_accept_connections b =
    eqb_ℤ b.max_connections (pos 0) || ltb_ℤ b.current_conns b.max_connections

-- The fields that are read.
pub record LoadBalancerConfig : Type 0 where
  pub algorithm : LoadBalanceAlgorithm
  pub min_health_score : ℤ
  pub sticky_session : Bool

pub record LoadBalancer : Type 0 where
  pub config : LoadBalancerConfig
  pub backend_list : List Backend
  pub algorithm : LoadBalanceAlgorithm
  pub round_robin_idx : ℕ
  pub session_cache : Dict String

pub data Error : Type 0 where
  backend_exists backend_not_found no_healthy : Error

-- A call may also panic.
pub data Result {ℓ} (A : Type ℓ) : Type ℓ where
  ok : A → Result A
  err : Error → Result A
  panics : Result A

unfoldable pub new : LoadBalancerConfig → LoadBalancer
new config = record {
  config = config;
  backend_list = [];
  algorithm = config.algorithm;
  round_robin_idx = 0;
  session_cache = [];
}

-- The test by which a session keeps its backend.
abbrev pub is_up : LoadBalancer → Backend → Bool
is_up lb b = b.is_active && leb_ℤ lb.config.min_health_score b.health_score

unfoldable pub is_healthy : LoadBalancer → Backend → Bool
is_healthy lb b = is_up lb b && can_accept_connections b
