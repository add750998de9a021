-- ===== src/Gpu.antt =====
-- ai-provider/internal/inference/gpu.go. The GPU devices, the allocations on them and what is reserved.
-- The devices stand in one order; where the source walks over the map of them, `walk` puts them into the
-- order of that walk. The limit of the utilization is `int(g.config.MaxUtilization*100)`.
use net_llm.Prelude.{
  ℕ, String, Bool, true, false, Option, none, some, List, [], ◌∷◌, ◌++◌, if◌then◌else◌, str_eq,
  select, not,
}
use net_llm.Prelude.Int.{ℤ, pos, ◌+ℤ◌, ◌-ℤ◌, ltb_ℤ, eqb_ℤ}

pub data DeviceType : Type 0 where
  cpu gpu : DeviceType

pub record ResourceAllocation : Type 0 where
  pub instance_id : String
  pub device_type : DeviceType
  pub device_id : ℤ
  pub cpu_threads : ℕ
  pub memory_bytes : ℤ
  pub gpu_memory_bytes : ℤ
  pub gpu_layers : ℤ
  pub allocated_at : ℕ

pub record GpuInfo : Type 0 where
  pub id : ℤ
  pub memory_total : ℤ
  pub memory_used : ℤ
  pub memory_free : ℤ
  pub utilization : ℤ

pub record GpuManager : Type 0 where
  pub devices : List GpuInfo
  pub allocations : ℤ → List ResourceAllocation
  pub memory_buffer : ℤ
  pub max_utilization : ℤ

pub data Error : Type 0 where
  device_not_found : ℤ → Error
  no_available_gpu : Error
  insufficient_gpu_memory : ℤ → ℤ → ℤ → Error
  utilization_too_high : Error

abbrev pub find_device : ℤ → List GpuInfo → Option GpuInfo
find_device id [] = none
find_device id (d ∷ ds) = let rest = find_device id ds in if eqb_ℤ d.id id then some d else rest

-- A write of the memory in use of a device.
abbrev pub use_memory : ℤ → (ℤ → ℤ) → List GpuInfo → List GpuInfo
use_memory id f [] = []
use_memory id f (d ∷ ds) =
    let rest = use_memory id f ds in
    if eqb_ℤ d.id id then record d { memory_used = f d.memory_used } ∷ rest else d ∷ rest

abbrev pub allocated_memory : List ResourceAllocation → ℤ
allocated_memory [] = pos 0
allocated_memory (a ∷ held) = a.gpu_memory_bytes +ℤ allocated_memory held

abbrev pub at_least_0 : ℤ → ℤ
at_least_0 a = if ltb_ℤ a (pos 0) then pos 0 else a

unfoldable pub get_available_gpu_memory : GpuManager → GpuInfo → ℤ
get_available_gpu_memory g d =
    at_least_0 (d.memory_total -ℤ allocated_memory (g.allocations d.id) -ℤ g.memory_buffer)

-- What `ReserveGPUMemory` and `AllocateGPU` do with the device that they find.
abbrev pub reserve_found : GpuManager → ℤ → ℤ → Option GpuInfo → GpuManager × Option Error
reserve_found g id size none = (g, some (device_not_found id))
reserve_found g id size (some d) =
    let available = get_available_gpu_memory g d in
    if ltb_ℤ available size
    then (g, some (insufficient_gpu_memory id size available))
    else (record g { devices = use_memory id (λ used. used +ℤ size) g.devices }, none)

unfoldable pub reserve_gpu_memory : GpuManager → ℤ → ℤ → GpuManager × Option Error
reserve_gpu_memory g id size = reserve_found g id size (find_device id g.devices)

unfoldable pub release_gpu_memory : GpuManager → ℤ → ℤ → GpuManager
release_gpu_memory g id size = record g {
  devices = use_memory id (λ used. at_least_0 (used -ℤ size)) g.devices;
}

abbrev pub set_allocations :
    ℤ → List ResourceAllocation → (ℤ → List ResourceAllocation) → ℤ → List ResourceAllocation
set_allocations id held table z = if eqb_ℤ id z then held else table z

abbrev pub allocate_found :
    GpuManager → ℤ → ResourceAllocation → ℕ → Option GpuInfo → GpuManager × Option Error
allocate_found g id a now none = (g, some no_available_gpu)
allocate_found g id a now (some d) =
    let available = get_available_gpu_memory g d in
    let placed = record a { device_id = id; device_type = gpu; allocated_at = now } in
    if ltb_ℤ available a.gpu_memory_bytes
    then (g, some (insufficient_gpu_memory id a.gpu_memory_bytes available))
    else if ltb_ℤ g.max_utilization d.utilization
    then (g, some utilization_too_high)
    else (
      record g {
        devices = use_memory id (λ used. used +ℤ a.gpu_memory_bytes) g.devices;
        allocations = set_allocations id (g.allocations id ++ (placed ∷ [])) g.allocations;
      },
      none,
    )

unfoldable pub allocate_gpu : GpuManager → ℤ → ResourceAllocation → ℕ → GpuManager × Option Error
allocate_gpu g id a now = allocate_found g id a now (find_device id g.devices)

abbrev pub is_allocated : String → List ResourceAllocation → Bool
is_allocated id [] = false
is_allocated id (a ∷ held) =
    let rest = is_allocated id held in if str_eq a.instance_id id then true else rest

abbrev pub without_first : String → List ResourceAllocation → List ResourceAllocation
without_first id [] = []
without_first id (a ∷ held) =
    let rest = without_first id held in if str_eq a.instance_id id then held else a ∷ rest

unfoldable pub release_gpu : GpuManager → ResourceAllocation → GpuManager
release_gpu g a = elim a.device_type [
  | cpu ↦ g
  | gpu ↦
      let held = g.allocations a.device_id in
      if is_allocated a.instance_id held
      then record g {
        devices =
            use_memory a.device_id (λ used. at_least_0 (used -ℤ a.gpu_memory_bytes)) g.devices;
        allocations = set_allocations a.device_id (without_first a.instance_id held) g.allocations;
      }
      else g
]

unfoldable pub get_available_devices : GpuManager → ℤ → (List GpuInfo → List GpuInfo) → List GpuInfo
get_available_devices g required walk =
    select (λ d. not (ltb_ℤ (get_available_gpu_memory g d) required)) (walk g.devices)

unfoldable pub get_gpu_info : GpuManager → (List GpuInfo → List GpuInfo) → List GpuInfo
get_gpu_info g walk = walk g.devices
