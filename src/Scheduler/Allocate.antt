-- ===== src/Scheduler/Allocate.antt =====
-- AllocateResources, ReleaseResources, SelectInstance and SetResourceQuota of the scheduler.
use net_llm.Prelude.{
  ℕ, ◌+◌, String, Bool, ◌&&◌, Option, none, some, List, [], ◌∷◌, if◌then◌else◌, ltb, select,
}
use net_llm.Prelude.Int.{ℤ, pos, ltb_ℤ}
use net_llm.Prelude.Dict.{Dict, lookup, insert}
use net_llm.Memory.Methods.{get_available_memory, reserve_memory, release_memory}
use net_llm.Gpu.{cpu, gpu, ResourceAllocation, GpuInfo, get_gpu_info}
use net_llm.Scheduler.{ResourceScheduler}
use net_llm.Scheduler.Resources.{
  InstanceConfig, ModelInstance, ResourceQuota, Error, Result, ok, err, insufficient_memory,
  no_available_instance, instance_not_found, Cluster, estimate_memory_requirement, gpu_requirement,
  device_for, allocation_for, track, untrack, reserve_device, release_device, is_ready, load_of,
}

-- `scale total share` is `int64(float64(total) * share)`.
module _ {Share : Type 0} (scale : ℤ → Share → ℤ) where
  -- With the device. What the reservations return is not looked at.
  unfoldable pub allocate_on :
      Cluster Share
      → InstanceConfig
      → String
      → ℕ
      → Result ℤ
      → Cluster Share × Result ResourceAllocation
  allocate_on c config id now (err e) = (c, err e)
  allocate_on c config id now (ok device_id) =
      let a = allocation_for config device_id id now in
      (
        record {
          scheduler = track c.scheduler a now;
          memory = (reserve_memory scale c.memory a.memory_bytes now).0;
          gpus = reserve_device c.gpus a;
        },
        ok a,
      )

  unfoldable pub allocate_resources :
      Cluster Share
      → InstanceConfig
      → (List GpuInfo → List GpuInfo)
      → String
      → ℕ
      → Cluster Share × Result ResourceAllocation
  unfolding allocate_on
  allocate_resources c config walk id now =
      let required = estimate_memory_requirement config in
      let available = get_available_memory scale c.memory in
      if ltb_ℤ available required
      then (c, err (insufficient_memory required available))
      else allocate_on c config id now
          (device_for config (gpu_requirement config) (get_gpu_info c.gpus walk))

  -- The allocation is what the object holds at the time of the call; the scheduler's table holds the same
  -- object, so that a quota which was set in between shows in it. A nil allocation changes nothing.
  unfoldable pub release_resources : Cluster Share → Option ResourceAllocation → ℕ → Cluster Share
  release_resources c none now = c
  release_resources c (some a) now = record {
    scheduler = untrack c.scheduler a now;
    memory = release_memory scale c.memory a.memory_bytes now;
    gpus = release_device c.gpus a;
  }

-- `sort less` is `sort.Slice` of the standard library.
abbrev pub Sort : Type 0
Sort = (ModelInstance → ModelInstance → Bool) → List ModelInstance → List ModelInstance

abbrev pub by_load : Dict ℕ → ModelInstance → ModelInstance → Bool
by_load loads i j = ltb (load_of loads i.id) (load_of loads j.id)

abbrev pub with_first :
    ResourceScheduler → String → List ModelInstance → ResourceScheduler × Result ModelInstance
with_first s model_id [] = (s, err (no_available_instance model_id))
with_first s model_id (i ∷ _) = (
  record s { instance_loads = insert i.id (load_of s.instance_loads i.id + 1) s.instance_loads },
  ok i,
)

-- The instances are those that are ready.
abbrev pub select_ready :
    ResourceScheduler
    → String
    → Sort
    → List ModelInstance
    → ResourceScheduler × Result ModelInstance
select_ready s model_id sort [] = (s, err (no_available_instance model_id))
select_ready s model_id sort (i ∷ is) =
    with_first s model_id (sort (by_load s.instance_loads) (i ∷ is))

unfoldable pub select_instance :
    ResourceScheduler
    → String
    → List ModelInstance
    → Sort
    → ResourceScheduler × Result ModelInstance
select_instance s model_id instances sort = select_ready s model_id sort (select is_ready instances)

abbrev pub limited : ℤ → ℤ → ℤ
limited limit bytes = if ltb_ℤ (pos 0) limit && ltb_ℤ limit bytes then limit else bytes

abbrev pub with_quota : ResourceQuota → ResourceAllocation → ResourceAllocation
with_quota quota a = record a {
  memory_bytes = limited quota.max_memory_bytes a.memory_bytes;
  gpu_memory_bytes = elim a.device_type [
    | cpu ↦ a.gpu_memory_bytes
    | gpu ↦ limited quota.max_gpu_memory_bytes a.gpu_memory_bytes
  ];
}

unfoldable pub set_resource_quota :
    ResourceScheduler → String → ResourceQuota → ResourceScheduler × Option Error
set_resource_quota s id quota = elim (lookup id s.allocations) [
  | none ↦ (s, some (instance_not_found id))
  | some a ↦ (record s { allocations = insert id (with_quota quota a) s.allocations }, none)
]
