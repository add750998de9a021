-- ===== src/Scheduler.antt =====
-- ai-provider/internal/inference/scheduler.go. The queues of the resource scheduler, by priority.
use net_llm.Prelude.{
  ℕ, zero, suc, String, Bool, true, false, ◌||◌, Option, none, some, List, [], ◌∷◌, ◌++◌,
  if◌then◌else◌, ltb, str_eq, ◌-◌,
}
use net_llm.Prelude.Int.{ℤ, pos, ◌+ℤ◌, ◌-ℤ◌, ltb_ℤ, eqb_ℤ}
use net_llm.Prelude.Dict.{Dict}
use net_llm.Gpu.{ResourceAllocation}
pub mod Order
pub mod Resources
pub mod Allocate
pub mod Returned
pub mod Untouched
pub mod Fifo
mod Cluster
mod Tests

abbrev pub priority_low : ℤ
priority_low = pos 1

abbrev pub priority_critical : ℤ
priority_critical = pos 15

-- The fields that the scheduler reads.
pub record InferenceRequest : Type 0 where
  pub id : String
  pub model_id : String
  pub priority : ℤ

pub record SchedulerStats : Type 0 where
  pub total_requests : ℕ
  pub queued_requests : ℤ
  pub processing_requests : ℤ
  pub completed_requests : ℕ
  pub failed_requests : ℕ
  pub active_instances : ℤ
  pub updated_at : ℕ

-- The map of the queues gives the empty queue where it has no entry, as Go's does.
pub record ResourceScheduler : Type 0 where
  pub allocations : Dict ResourceAllocation
  pub instance_loads : Dict ℕ
  pub priority_queues : ℤ → List InferenceRequest
  pub stats : SchedulerStats

abbrev pub priority_invalid : String
priority_invalid = "Invalid priority value"

abbrev pub set_queue :
    ℤ → List InferenceRequest → (ℤ → List InferenceRequest) → ℤ → List InferenceRequest
set_queue p queue queues z = if eqb_ℤ p z then queue else queues z

unfoldable pub is_invalid : InferenceRequest → Bool
is_invalid req = ltb_ℤ req.priority priority_low || ltb_ℤ priority_critical req.priority

unfoldable pub queue_request :
    ResourceScheduler → InferenceRequest → ℕ → ResourceScheduler × Option String
queue_request s req now = if is_invalid req then (s, some priority_invalid) else (
  record s {
    priority_queues =
        set_queue req.priority (s.priority_queues req.priority ++ (req ∷ [])) s.priority_queues;
    stats = record s.stats {
      total_requests = suc s.stats.total_requests;
      queued_requests = s.stats.queued_requests +ℤ pos 1;
      updated_at = now;
    };
  },
  none,
)

-- The first request of the queue of a priority, or the outcome of the lower ones.
unfoldable pub dequeue :
    ResourceScheduler
    → ℤ
    → ℕ
    → List InferenceRequest
    → ResourceScheduler × Option InferenceRequest
    → ResourceScheduler × Option InferenceRequest
dequeue s p now [] lower = lower
dequeue s p now (req ∷ queue) lower = (
  record s {
    priority_queues = set_queue p queue s.priority_queues;
    stats = record s.stats {
      queued_requests = s.stats.queued_requests -ℤ pos 1;
      processing_requests = s.stats.processing_requests +ℤ pos 1;
      updated_at = now;
    };
  },
  some req,
)

-- The loop of `GetNextRequest` from a priority down to 1, the lowest.
unfoldable pub next_from : ℕ → ResourceScheduler → ℕ → ResourceScheduler × Option InferenceRequest
unfolding dequeue
next_from zero s now = (s, none)
next_from (suc k) s now =
    dequeue s (pos (suc k)) now (s.priority_queues (pos (suc k))) (next_from k s now)

unfoldable pub get_next_request :
    ResourceScheduler → ℕ → ResourceScheduler × Option InferenceRequest
unfolding next_from
get_next_request s now = next_from 15 s now

-- The loop of `CompleteRequest`: the first instance with a load.
abbrev pub lower_first : Dict ℕ → Dict ℕ
lower_first [] = []
lower_first ((id, load) ∷ loads) =
    let rest = lower_first loads in if ltb 0 load then (id, load - 1) ∷ loads else (id, load) ∷ rest

unfoldable pub complete_request :
    ResourceScheduler → InferenceRequest → Option String → ℕ → ResourceScheduler
complete_request s req error now = record s {
  instance_loads =
      if str_eq req.model_id "" then s.instance_loads else lower_first s.instance_loads;
  stats = record s.stats {
    processing_requests = s.stats.processing_requests -ℤ pos 1;
    completed_requests = suc s.stats.completed_requests;
    failed_requests = elim error [
      | none ↦ s.stats.failed_requests
      | some _ ↦ suc s.stats.failed_requests
    ];
    updated_at = now;
  };
}
