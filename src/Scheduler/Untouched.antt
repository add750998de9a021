-- ===== src/Scheduler/Untouched.antt =====
-- The calls about instances leave the queues of requests alone.
use net_llm.Prelude.{String, List, [], ◌∷◌, ◌≡◌, refl, select, Option-cases, inl, inr}
use net_llm.Prelude.Dict.{lookup}
use net_llm.Scheduler.{ResourceScheduler}
use net_llm.Scheduler.Resources.{ModelInstance, ResourceQuota, is_ready}
use net_llm.Scheduler.Allocate.{
  Sort, by_load, with_first, select_ready, select_instance, set_resource_quota,
}

with_first-queues :
    (s : ResourceScheduler) (model_id : String) (is : List ModelInstance)
    → (with_first s model_id is).0.priority_queues ≡ s.priority_queues
with_first-queues s model_id [] = refl
with_first-queues s model_id (i ∷ is) = refl

select_ready-queues :
    (s : ResourceScheduler) (model_id : String) (sort : Sort) (ready : List ModelInstance)
    → (select_ready s model_id sort ready).0.priority_queues ≡ s.priority_queues
select_ready-queues s model_id sort [] = refl
select_ready-queues s model_id sort (i ∷ is) =
    with_first-queues s model_id (sort (by_load s.instance_loads) (i ∷ is))

pub select_instance-queues :
    (s : ResourceScheduler) (model_id : String) (instances : List ModelInstance) (sort : Sort)
    → (select_instance s model_id instances sort).0.priority_queues ≡ s.priority_queues
unfolding select_instance
select_instance-queues s model_id instances sort =
    select_ready-queues s model_id sort (select is_ready instances)

pub set_resource_quota-queues :
    (s : ResourceScheduler) (id : String) (quota : ResourceQuota)
    → (set_resource_quota s id quota).0.priority_queues ≡ s.priority_queues
unfolding set_resource_quota
set_resource_quota-queues s id quota = elim (Option-cases (lookup id s.allocations)) [
  | inl absent ↦ rw (set_resource_quota, absent) refl
  | inr (a, found) ↦ rw (set_resource_quota, found) refl
]
