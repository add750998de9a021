-- ===== src/Health.antt =====
-- ai-provider/internal/ha/health.go. Health checks of nodes. A check that asks a server, or calls a
-- function of its configuration, has its answer from an argument. Messages, durations and details of
-- results are left out. A lock that the same call holds already blocks it for ever: that is `none`.
use net_llm.Prelude.{
  ℕ, suc, ◌+◌, String, Bool, true, false, not, ◌&&◌, ◌||◌, Option, none, some, List, [], ◌∷◌, ◌++◌,
  if◌then◌else◌, ltb, leb, ◌==◌, length, str_eq, total, ◌/◌,
}
use net_llm.Prelude.Int.{ℤ, pos}
use net_llm.Prelude.Dict.{Dict, lookup, insert, delete, values}
pub mod Silent
pub mod Updates
mod Tests

pub data HealthStatus : Type 0 where
  healthy unhealthy degraded unknown : HealthStatus

pub data HealthCheckType : Type 0 where
  http tcp grpc custom heartbeat : HealthCheckType

pub record HealthCheckResult : Type 0 where
  pub id : String
  pub node_id : String
  pub check_type : HealthCheckType
  pub status : HealthStatus
  pub score : ℕ
  pub timestamp : ℕ

-- `has_custom_check` says whether the function is there.
pub record HealthCheckConfig : Type 0 where
  pub id : String
  pub check_type : HealthCheckType
  pub endpoint : String
  pub expected_status : ℕ
  pub has_custom_check : Bool

-- `locked` is the mutex of the node.
pub record NodeHealth : Type 0 where
  pub node_id : String
  pub overall_status : HealthStatus
  pub overall_score : ℕ
  pub last_check : ℕ
  pub check_results : Dict HealthCheckResult
  pub consecutive_failures : ℕ
  pub consecutive_successes : ℕ
  pub locked : Bool

-- `results` is the channel.
pub record HealthChecker : Type 0 where
  pub configs : Dict HealthCheckConfig
  pub node_health : Dict NodeHealth
  pub results : List HealthCheckResult

pub data Error : Type 0 where
  id_required already_exists not_found : Error

abbrev pub lock : NodeHealth → Option NodeHealth
lock nh = if nh.locked then none else some (record nh { locked = true })

abbrev pub unlock : NodeHealth → NodeHealth
unlock nh = record nh { locked = false }

abbrev pub status_for : ℕ → HealthStatus
status_for score = if leb 80 score then healthy else if leb 50 score then degraded else unhealthy

abbrev pub averaged : NodeHealth → NodeHealth
averaged nh = elim nh.check_results [
  | [] ↦ record nh { overall_score = 0; overall_status = unknown }
  | r ∷ rs ↦
      let score = total (λ e. (e.1).score) (r ∷ rs) / length (r ∷ rs) in
      record nh { overall_score = score; overall_status = status_for score }
]

unfoldable pub update_score : NodeHealth → Option NodeHealth
update_score nh = elim (lock nh) [ none ↦ none | some held ↦ some (unlock (averaged held)) ]

unfoldable pub new : HealthChecker
new = record { configs = []; node_health = []; results = [] }

unfoldable pub register_health_check :
    HealthChecker → HealthCheckConfig → HealthChecker × Option Error
register_health_check hc config =
    if str_eq config.id "" then (hc, some id_required) else elim (lookup config.id hc.configs) [
      | none ↦ (record hc { configs = insert config.id config hc.configs }, none)
      | some _ ↦ (hc, some already_exists)
    ]

unfoldable pub unregister_health_check : HealthChecker → String → HealthChecker × Option Error
unregister_health_check hc id = elim (lookup id hc.configs) [
  | none ↦ (hc, some not_found)
  | some _ ↦ (record hc { configs = delete id hc.configs }, none)
]

-- The health of a node before its first check.
abbrev pub unchecked : String → NodeHealth
unchecked id = record {
  node_id = id;
  overall_status = unknown;
  overall_score = 0;
  last_check = 0;
  check_results = [];
  consecutive_failures = 0;
  consecutive_successes = 0;
  locked = false;
}

unfoldable pub register_node : HealthChecker → String → HealthChecker × Option Error
register_node hc id = elim (lookup id hc.node_health) [
  | none ↦ (record hc { node_health = insert id (unchecked id) hc.node_health }, none)
  | some _ ↦ (hc, some already_exists)
]

unfoldable pub unregister_node : HealthChecker → String → HealthChecker × Option Error
unregister_node hc id = elim (lookup id hc.node_health) [
  | none ↦ (hc, some not_found)
  | some _ ↦ (record hc { node_health = delete id hc.node_health }, none)
]

-- What the world answers: the status of a request, if there is one, and whether a custom check returns
-- true and no error.
pub record Probes : Type 0 where
  pub get : HealthCheckConfig → Option ℕ
  pub custom_check : HealthCheckConfig → Bool

abbrev pub is_expected : HealthCheckConfig → ℕ → Bool
is_expected config code =
    if ltb 0 config.expected_status
    then code == config.expected_status
    else leb 200 code && ltb code 300

unfoldable pub perform_http_check : Probes → HealthCheckConfig → Bool
perform_http_check probes config =
    if str_eq config.endpoint ""
    then false
    else elim (probes.get config) [ none ↦ false | some code ↦ is_expected config code ]

-- Whether the check succeeds without an error.
unfoldable pub succeeds : Probes → HealthCheckConfig → Bool
unfolding perform_http_check
succeeds probes config = elim config.check_type [
  | http ↦ perform_http_check probes config
  | tcp ↦ true
  | grpc ↦ false
  | custom ↦ config.has_custom_check && probes.custom_check config
  | heartbeat ↦ true
]

-- The node of the result is not set.
unfoldable pub execute_health_check : Probes → ℕ → HealthCheckConfig → HealthCheckResult
execute_health_check probes now config = record {
  id = config.id;
  node_id = "";
  check_type = config.check_type;
  status = if succeeds probes config then healthy else unhealthy;
  score = if succeeds probes config then 100 else 0;
  timestamp = now;
}

-- A channel of 1000 results; what does not fit is dropped.
abbrev pub send : HealthCheckResult → List HealthCheckResult → List HealthCheckResult
send r results = if ltb (length results) 1000 then results ++ (r ∷ []) else results

abbrev pub send_each :
    Probes → ℕ → List HealthCheckConfig → List HealthCheckResult → List HealthCheckResult
send_each probes now [] results = results
send_each probes now (c ∷ cs) results =
    send_each probes now cs (send (execute_health_check probes now c) results)

unfoldable pub perform_health_checks : HealthChecker → Probes → ℕ → HealthChecker
perform_health_checks hc probes now = record hc {
  results = send_each probes now (values hc.configs) hc.results;
}

abbrev pub tallied : HealthStatus → NodeHealth → NodeHealth
tallied healthy nh = record nh {
  consecutive_successes = suc nh.consecutive_successes;
  consecutive_failures = 0;
}
tallied _ nh = record nh {
  consecutive_failures = suc nh.consecutive_failures;
  consecutive_successes = 0;
}

abbrev pub with_result : HealthCheckResult → NodeHealth → NodeHealth
with_result r nh =
    tallied r.status
      (record nh { check_results = insert r.id r nh.check_results; last_check = r.timestamp })

-- The node's mutex is held while its score is updated.
abbrev pub count_result : HealthChecker → HealthCheckResult → NodeHealth → Option HealthChecker
count_result hc r nh = elim (lock nh) [
  | none ↦ none
  | some held ↦ elim (update_score (with_result r held)) [
    | none ↦ none
    | some done ↦ some (record hc { node_health = insert r.node_id (unlock done) hc.node_health })
  ]
]

unfoldable pub update_node_health : HealthChecker → HealthCheckResult → Option HealthChecker
update_node_health hc r = elim (lookup r.node_id hc.node_health) [
  | none ↦ some hc
  | some nh ↦ count_result hc r nh
]

-- One round of `processResults`, with what is in the channel.
abbrev pub process_next : HealthChecker → List HealthCheckResult → Option HealthChecker
process_next hc [] = some hc
process_next hc (r ∷ rs) = update_node_health (record hc { results = rs }) r

unfoldable pub process_result : HealthChecker → Option HealthChecker
process_result hc = process_next hc hc.results

unfoldable pub get_node_health_score : HealthChecker → String → ℤ
get_node_health_score hc id = elim (lookup id hc.node_health) [
  | none ↦ pos 0
  | some nh ↦ pos nh.overall_score
]
