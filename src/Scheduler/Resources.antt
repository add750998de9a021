-- ===== src/Scheduler/Resources.antt =====
-- The resources of instances: what the scheduler asks of the memory manager and of the GPU manager. An ID
-- that is generated is an argument, as is the order in which a walk over the devices meets them.
use net_llm.Prelude.{
  suc, ℕ, ◌*◌, String, Bool, true, false, not, none, some, List, [], ◌∷◌, if◌then◌else◌, ◌==◌, drop,
}
use net_llm.Prelude.Int.{ℤ, pos, negsuc, ◌+ℤ◌, ◌-ℤ◌, ltb_ℤ}
use net_llm.Prelude.Dict.{Dict, lookup, insert, delete}
use net_llm.Memory.State.{MemoryManager}
use net_llm.Gpu.{
  DeviceType, cpu, gpu, ResourceAllocation, GpuInfo, GpuManager, reserve_gpu_memory,
  release_gpu_memory,
}
use net_llm.Scheduler.{ResourceScheduler}

-- The fields that the scheduler reads. Any of these numbers may be negative, and the loader gives -1
-- layers to mean all of them: a requirement is then negative too.
pub record InstanceConfig : Type 0 where
  pub context_length : ℤ
  pub device : DeviceType
  pub device_id : ℤ
  pub gpu_layers : ℤ
  pub threads : ℕ
  pub batch_size : ℤ

pub data InstanceState : Type 0 where
  loading active idle busy unloading stopped in_error restarting : InstanceState

pub record ModelInstance : Type 0 where
  pub id : String
  pub state : InstanceState

pub record ResourceQuota : Type 0 where
  pub max_memory_bytes : ℤ
  pub max_gpu_memory_bytes : ℤ

pub data Error : Type 0 where
  insufficient_memory : ℤ → ℤ → Error
  no_available_gpu : Error
  insufficient_gpu_memory : ℤ → ℤ → ℤ → Error
  no_available_instance : String → Error
  instance_not_found : String → Error

pub data Result {ℓ} (A : Type ℓ) : Type ℓ where
  ok : A → Result A
  err : Error → Result A

-- The scheduler, and the two managers that it points to.
pub record Cluster (Share : Type 0) : Type 0 where
  pub scheduler : ResourceScheduler
  pub memory : MemoryManager Share
  pub gpus : GpuManager

abbrev times : ℤ → ℕ → ℤ
times (pos n) k = pos (n * k)
times (negsuc n) k = pos 0 -ℤ pos (suc n * k)

-- In bytes: 1 GB, 1 KB for a token of the context, and 512 KB for an item of the batch.
unfoldable pub estimate_memory_requirement : InstanceConfig → ℤ
estimate_memory_requirement config =
    pos 1073741824 +ℤ times config.context_length 1024 +ℤ times config.batch_size 524288

unfoldable pub estimate_gpu_memory_requirement : InstanceConfig → ℤ
estimate_gpu_memory_requirement config =
    times config.gpu_layers 104857600 +ℤ times config.context_length 2048

abbrev pub first_free : ℤ → List GpuInfo → Result ℤ
first_free required [] = err (insufficient_gpu_memory (pos 0) required (pos 0))
first_free required (d ∷ ds) =
    let rest = first_free required ds in if ltb_ℤ d.memory_free required then rest else ok d.id

-- Whether the device at a position is there and has the memory.
abbrev pub is_free_at : ℤ → ℤ → List GpuInfo → Bool
is_free_at (negsuc _) required gpus = false
is_free_at (pos n) required gpus = elim (drop n gpus) [
  | [] ↦ false
  | d ∷ _ ↦ not (ltb_ℤ d.memory_free required)
]

-- The preferred device is looked up by its position in the walk, and taken as the ID of a device.
unfoldable pub allocate_gpu : ℤ → ℤ → List GpuInfo → Result ℤ
allocate_gpu preferred required [] = err no_available_gpu
allocate_gpu preferred required (d ∷ ds) =
    if is_free_at preferred required (d ∷ ds) then ok preferred else first_free required (d ∷ ds)

abbrev pub device_for : InstanceConfig → ℤ → List GpuInfo → Result ℤ
device_for config required gpus = elim config.device [
  | cpu ↦ ok (pos 0)
  | gpu ↦ allocate_gpu config.device_id required gpus
]

-- The bookkeeping of the scheduler for an allocation, and for its release.
abbrev pub track : ResourceScheduler → ResourceAllocation → ℕ → ResourceScheduler
track s a now = record s {
  allocations = insert a.instance_id a s.allocations;
  instance_loads = insert a.instance_id 0 s.instance_loads;
  stats = record s.stats { active_instances = s.stats.active_instances +ℤ pos 1; updated_at = now };
}

abbrev pub untrack : ResourceScheduler → ResourceAllocation → ℕ → ResourceScheduler
untrack s a now = record s {
  allocations = delete a.instance_id s.allocations;
  instance_loads = delete a.instance_id s.instance_loads;
  stats = record s.stats { active_instances = s.stats.active_instances -ℤ pos 1; updated_at = now };
}

abbrev pub gpu_requirement : InstanceConfig → ℤ
gpu_requirement config = elim config.device [
  | cpu ↦ pos 0
  | gpu ↦ estimate_gpu_memory_requirement config
]

abbrev pub allocation_for : InstanceConfig → ℤ → String → ℕ → ResourceAllocation
allocation_for config device_id id now = record {
  instance_id = id;
  device_type = config.device;
  device_id = device_id;
  cpu_threads = if config.threads == 0 then 4 else config.threads;
  memory_bytes = estimate_memory_requirement config;
  gpu_memory_bytes = gpu_requirement config;
  gpu_layers = config.gpu_layers;
  allocated_at = now;
}

abbrev pub reserve_device : GpuManager → ResourceAllocation → GpuManager
reserve_device g a = elim a.device_type [
  | cpu ↦ g
  | gpu ↦ (reserve_gpu_memory g a.device_id a.gpu_memory_bytes).0
]

abbrev pub release_device : GpuManager → ResourceAllocation → GpuManager
release_device g a = elim a.device_type [
  | cpu ↦ g
  | gpu ↦ release_gpu_memory g a.device_id a.gpu_memory_bytes
]

-- The instances that are ready, in any order that sorts them by their loads.
abbrev pub is_ready : ModelInstance → Bool
is_ready i = elim i.state [ active ↦ true | idle ↦ true | busy ↦ true | _ ↦ false ]

abbrev pub load_of : Dict ℕ → String → ℕ
load_of loads id = elim (lookup id loads) [ none ↦ 0 | some n ↦ n ]
