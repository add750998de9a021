-- ===== src/Updates/State.antt =====
-- The structs, and the calls that do not update nodes. A nil pointer that is read is a panic, `none`.
-- Left out are the time and ID of an event, the time of a version, the durations of a configuration,
-- which are only slept, and its limits MaxUnavailable and Timeout, which nothing reads.
use net_llm.Prelude.{
  ℕ, suc, length, String, Bool, true, false, Option, none, some, List, [], ◌∷◌, if◌then◌else◌,
  str_eq,
}

pub data UpdateStrategy : Type 0 where
  rolling blue_green canary unsupported : UpdateStrategy

pub data UpdateStatus : Type 0 where
  pending in_progress completed update_failed rolled_back : UpdateStatus

-- A batch size and a percentage are not negative.
pub record UpdateConfig : Type 0 where
  pub strategy : UpdateStrategy
  pub batch_size : ℕ
  pub rollback_on_failure : Bool
  pub canary_percentage : ℕ

pub record VersionInfo : Type 0 where
  pub version : String
  pub image : String
  pub checksum : String

pub record UpdateEvent : Type 0 where
  pub node_id : String
  pub old_version : String
  pub new_version : String
  pub status : UpdateStatus
  pub message : String

-- The nodes are the IDs of those that are registered, in an order of the map.
pub record UpdateManager : Type 0 where
  pub config : UpdateConfig
  pub current_version : Option VersionInfo
  pub target_version : Option VersionInfo
  pub status : UpdateStatus
  pub events : List UpdateEvent
  pub nodes : List String

pub data Error : Type 0 where
  in_progress_already unsupported_strategy node_not_found not_in_progress : Error

unfoldable pub new : UpdateConfig → UpdateManager
new config = record {
  config = config;
  current_version = none;
  target_version = none;
  status = pending;
  events = [];
  nodes = [];
}

unfoldable pub set_current_version : UpdateManager → VersionInfo → UpdateManager
set_current_version um v = record um { current_version = some v }

abbrev pub has_id : String → List String → Bool
has_id id [] = false
has_id id (i ∷ ids) = let rest = has_id id ids in if str_eq i id then true else rest

abbrev pub without : String → List String → List String
without id [] = []
without id (i ∷ ids) = let rest = without id ids in if str_eq i id then rest else i ∷ rest

unfoldable pub register_node : UpdateManager → String → UpdateManager
register_node um id = if has_id id um.nodes then um else record um { nodes = id ∷ um.nodes }

unfoldable pub unregister_node : UpdateManager → String → UpdateManager × Option Error
unregister_node um id =
    if has_id id um.nodes
    then (record um { nodes = without id um.nodes }, none)
    else (um, some node_not_found)

abbrev pub is_in_progress : UpdateStatus → Bool
is_in_progress in_progress = true
is_in_progress _ = false

-- What `StartUpdate` does before the goroutine of the update runs.
unfoldable pub start_update : UpdateManager → VersionInfo → UpdateManager × Option Error
start_update um target =
    if is_in_progress um.status then (um, some in_progress_already) else elim um.config.strategy [
      | unsupported ↦ (
        record um { target_version = some target; status = update_failed },
        some unsupported_strategy,
      )
      | _ ↦ (record um { target_version = some target; status = in_progress }, none)
    ]

unfoldable pub cancel_update : UpdateManager → UpdateManager × Option Error
cancel_update um =
    if is_in_progress um.status
    then (record um { status = update_failed }, none)
    else (um, some not_in_progress)

-- The events with each status, and the total, as `GetUpdateStats` counts them.
pub record UpdateStats : Type 0 where
  pub total_nodes : ℕ
  pub total_events : ℕ
  pub completed_updates : ℕ
  pub failed_updates : ℕ
  pub rollbacks : ℕ

abbrev pub count_event : UpdateStats → UpdateStatus → UpdateStats
count_event s completed = record s { completed_updates = suc s.completed_updates }
count_event s update_failed = record s { failed_updates = suc s.failed_updates }
count_event s rolled_back = record s { rollbacks = suc s.rollbacks }
count_event s _ = s

abbrev pub count_events : UpdateStats → List UpdateEvent → UpdateStats
count_events s [] = s
count_events s (e ∷ es) = count_events (count_event s e.status) es

unfoldable pub get_update_stats : UpdateManager → UpdateStats
get_update_stats um =
    count_events
      record {
        total_nodes = length um.nodes;
        total_events = length um.events;
        completed_updates = 0;
        failed_updates = 0;
        rollbacks = 0;
      }
      um.events
