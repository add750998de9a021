-- ===== src/Scheduler/Tests.antt =====
-- A history of four requests of two priorities, and the theorems at it.
use net_llm.Prelude.{ℕ, String, List, [], ◌∷◌, ◌++◌, ◌≡◌, refl}
use net_llm.Prelude.Int.{pos}
use net_llm.Scheduler.{
  InferenceRequest, ResourceScheduler, queue_request, dequeue, next_from, get_next_request,
  is_invalid,
}
use net_llm.Scheduler.Order.{Next, get_next_request-Next}
use net_llm.Scheduler.Resources.{ModelInstance, idle}
use net_llm.Scheduler.Allocate.{select_instance}
use net_llm.Scheduler.Fifo.{Call, queues, takes, selects, step, run, taken, put_in, run-fifo}

abbrev start : ResourceScheduler
start = record {
  allocations = [];
  instance_loads = [];
  priority_queues = λ z. [];
  stats = record {
    total_requests = 0;
    queued_requests = pos 0;
    processing_requests = pos 0;
    completed_requests = 0;
    failed_requests = 0;
    active_instances = pos 0;
    updated_at = 0;
  };
}

abbrev request : String → ℕ → InferenceRequest
request id priority = record { id = id; model_id = "m"; priority = pos priority }

abbrev instance_of : String → ModelInstance
instance_of id = record { id = id; state = idle }

abbrev calls : List Call
calls =
    queues (request "a" 5) 0
    ∷ queues (request "b" 10) 1
    ∷ queues (request "c" 10) 2
    ∷ queues (request "d" 16) 3
    ∷ selects "m" (instance_of "i" ∷ []) (λ less is. is)
    ∷ takes 4
    ∷ takes 5
    ∷ []

-- The fourth request has no valid priority.
high_first : taken (pos 10) start calls ≡ request "b" 10 ∷ request "c" 10 ∷ []
unfolding taken step queue_request get_next_request next_from dequeue is_invalid select_instance
high_first = refl

get_next_request-Next_example : Next 15 (run start calls) (get_next_request (run start calls) 6)
get_next_request-Next_example = get_next_request-Next (run start calls) 6

run-fifo_example :
    taken (pos 10) start calls ++ (run start calls).priority_queues (pos 10)
    ≡ [] ++ put_in (pos 10) calls
run-fifo_example = run-fifo (pos 10) start calls (λ z. tt)
