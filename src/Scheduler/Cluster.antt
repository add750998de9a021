-- ===== src/Scheduler/Cluster.antt =====
-- A cluster with one device, and the theorem on resources at it. A share is a number of hundredths.
use net_llm.Prelude.{ℕ, ◌*◌, ◌/◌, true, [], ◌∷◌, ◌≡◌, refl, map}
use net_llm.Prelude.Int.{ℤ, pos, negsuc, ◌+ℤ◌, ◌-ℤ◌}
use net_llm.Prelude.Dict.{lookup}
use net_llm.Memory.State.{MemoryManager}
use net_llm.Memory.Methods.{get_available_memory, reserve_memory, release_memory, update_stats}
use net_llm.Gpu.{
  gpu, GpuManager, GpuInfo, ResourceAllocation, get_available_gpu_memory, reserve_gpu_memory,
  get_gpu_info,
}
use net_llm.Scheduler.{ResourceScheduler}
use net_llm.Scheduler.Resources.{
  InstanceConfig, Cluster, Result, estimate_memory_requirement, estimate_gpu_memory_requirement,
  allocate_gpu,
}
use net_llm.Scheduler.Allocate.{
  allocate_on, allocate_resources, release_resources, set_resource_quota,
}
use net_llm.Scheduler.Returned.{Outcome, allocate_resources-release_resources}

abbrev share : ℤ → ℕ → ℤ
share (pos n) s = pos (n * s / 100)
share (negsuc n) s = pos 0

abbrev memory : MemoryManager ℕ
memory = record {
  total_memory = pos 8589934592;
  used_memory = pos 0;
  reserved_memory = pos 0;
  memory_pools = [];
  allocations = [];
  config = record { max_memory_usage = 80; enable_pooling = true };
  stats = record {
    used_memory = pos 0;
    free_memory = pos 0;
    available_memory = pos 0;
    pool_count = pos 0;
    active_allocations = 0;
    total_allocations = 0;
    total_frees = 0;
    peak_usage = pos 0;
    updated_at = 0;
  };
}

abbrev scheduler : ResourceScheduler
scheduler = record {
  allocations = [];
  instance_loads = [];
  priority_queues = λ z. [];
  stats = record {
    total_requests = 0;
    queued_requests = pos 0;
    processing_requests = pos 0;
    completed_requests = 0;
    failed_requests = 0;
    active_instances = pos 0;
    updated_at = 0;
  };
}

-- 3 MB.
abbrev device : GpuInfo
device = record {
  id = pos 0;
  memory_total = pos 3145728;
  memory_used = pos 0;
  memory_free = pos 3145728;
  utilization = pos 10;
}

abbrev gpus : GpuManager
gpus = record {
  devices = device ∷ [];
  allocations = λ z. [];
  memory_buffer = pos 0;
  max_utilization = pos 90;
}

abbrev cluster : Cluster ℕ
cluster = record { scheduler = scheduler; memory = memory; gpus = gpus }

-- 2 MB on the device.
abbrev config : InstanceConfig
config = record {
  context_length = pos 1024;
  device = gpu;
  device_id = pos 0;
  gpu_layers = pos 0;
  threads = 0;
  batch_size = pos 8;
}

abbrev once : Cluster ℕ × Result ResourceAllocation
once = allocate_resources share cluster config (λ ds. ds) "a" 1

abbrev twice : Cluster ℕ × Result ResourceAllocation
twice = allocate_resources share once.0 config (λ ds. ds) "b" 2

-- Two instances with 2 MB each are on the device of 3 MB.
over_committed : map (λ d. d.memory_used) twice.0.gpus.devices ≡ pos 4194304 ∷ []
unfolding allocate_resources allocate_on get_gpu_info get_available_memory
    estimate_memory_requirement estimate_gpu_memory_requirement allocate_gpu reserve_gpu_memory
    get_available_gpu_memory reserve_memory update_stats ◌+ℤ◌ ◌-ℤ◌
over_committed = refl

abbrev limited_once : Cluster ℕ
limited_once = record once.0 {
  scheduler =
      (set_resource_quota once.0.scheduler "a"
        record { max_memory_bytes = pos 1000; max_gpu_memory_bytes = pos 0 }).0;
}

-- After a quota, the release gives back as much as the quota.
leaked :
    (release_resources share limited_once
      (lookup "a" limited_once.scheduler.allocations)
      3).memory.reserved_memory
    ≡ pos 1078983704
unfolding allocate_resources allocate_on get_gpu_info get_available_memory
    estimate_memory_requirement estimate_gpu_memory_requirement allocate_gpu reserve_gpu_memory
    get_available_gpu_memory reserve_memory update_stats set_resource_quota release_resources
    release_memory ◌+ℤ◌ ◌-ℤ◌
leaked = refl

-- All layers, as the loader asks for: the requirement on the device is negative.
abbrev all_layers : InstanceConfig
all_layers = record config { gpu_layers = negsuc 0 }

allocate_resources-release_resources_example :
    Outcome share cluster 2 (allocate_resources share cluster all_layers (λ ds. ds) "a" 1)
allocate_resources-release_resources_example =
    allocate_resources-release_resources share cluster all_layers (λ ds. ds) "a" 1 2 refl refl refl
      (refl, tt)
