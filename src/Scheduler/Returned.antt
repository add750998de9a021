-- ===== src/Scheduler/Returned.antt =====
-- What AllocateResources takes, ReleaseResources gives back.
use net_llm.Prelude.{
  ℕ, String, false, Option, none, some, List, [], ◌∷◌, ◌≡◌, refl, sym, ap, ◌∙◌, inl, inr, All,
  Bool-cases, Option-cases, eq_iff, arith,
}
use text.Mathlib.TextPositions.{eq_refl}
use net_llm.Prelude.Int.{ℤ, pos, ◌+ℤ◌, ◌-ℤ◌, ltb_ℤ, eqb_ℤ, parts-add, parts-sub, ext_ℤ}
use net_llm.Prelude.Dict.{Dict, lookup, insert, delete, delete_absent, lookup-insert_self}
use net_llm.Memory.State.{MemoryManager}
use net_llm.Memory.Methods.{get_available_memory, reserve_memory, release_memory, update_stats}
use net_llm.Scheduler.Resources.{
  InstanceConfig, Result, ok, err, Cluster, reserve_device, release_device, allocation_for,
  estimate_memory_requirement, gpu_requirement, device_for,
}
use net_llm.Scheduler.Allocate.{allocate_on, allocate_resources, release_resources}
use net_llm.Gpu.{
  DeviceType, cpu, gpu, get_available_gpu_memory, get_gpu_info, GpuInfo, GpuManager,
  ResourceAllocation, use_memory, at_least_0, find_device, reserve_found, reserve_gpu_memory,
  release_gpu_memory,
}

add_back : (a b : ℤ) → (a +ℤ b) -ℤ b ≡ a
add_back a b = ext_ℤ ((a +ℤ b) -ℤ b) a (omega (arith, parts-add a b, parts-sub (a +ℤ b) b))

back_at_least_0 : (a b : ℤ) → ltb_ℤ a (pos 0) ≡ false → at_least_0 ((a +ℤ b) -ℤ b) ≡ a
back_at_least_0 a b h = rw (add_back a b, h) refl

use_memory_back :
    (id size : ℤ) (ds : List GpuInfo)
    → All (λ d. ltb_ℤ d.memory_used (pos 0) ≡ false) ds
    → use_memory id (λ used. at_least_0 (used -ℤ size)) (use_memory id (λ used. used +ℤ size) ds)
      ≡ ds
use_memory_back id size [] h = refl
use_memory_back id size (d ∷ ds) h = elim (Bool-cases (eqb_ℤ d.id id)) [
  | inl same ↦ rw same (
      rw same (
        ap
          (λ x.
            record d { memory_used = x }
            ∷ use_memory id (λ u. at_least_0 (u -ℤ size)) (use_memory id (λ u. u +ℤ size) ds))
          (back_at_least_0 d.memory_used size h.0)
        ∙ ap (λ l. d ∷ l) (use_memory_back id size ds h.1)))
  | inr other ↦ rw other (rw other (ap (λ l. d ∷ l) (use_memory_back id size ds h.1)))
]

delete-insert :
    {V : Type 0}
    → (k : String) (v : V) (m : Dict V) → lookup k m ≡ none
    → delete k (insert k v m) ≡ m
delete-insert k v [] h = rw (eq_refl k) refl
delete-insert k v ((i, w) ∷ m) h =
    ground (arith, delete-insert k v m, delete_absent k m, eq_iff i k)

-- What the reservation of memory on the device returns; the scheduler does not look at it.
abbrev pub reservation : GpuManager → ResourceAllocation → Option net_llm.Gpu.Error
reservation g a = elim a.device_type [
  | cpu ↦ none
  | gpu ↦ (reserve_gpu_memory g a.device_id a.gpu_memory_bytes).1
]

abbrev pub NotNegative : GpuManager → Type 0
NotNegative g = All (λ d. ltb_ℤ d.memory_used (pos 0) ≡ false) g.devices

reserved_back :
    (g : GpuManager) (id size : ℤ)
    → NotNegative g
    → (reserve_gpu_memory g id size).1 ≡ none
    → release_gpu_memory (reserve_gpu_memory g id size).0 id size ≡ g
unfolding reserve_gpu_memory release_gpu_memory
reserved_back g id size h e = elim (Option-cases (find_device id g.devices)) [
  | inl absent ↦ absurd (ground (arith, e))
  | inr (d, found) ↦ elim (Bool-cases (ltb_ℤ (get_available_gpu_memory g d) size)) [
    | inl full ↦ absurd (ground (arith, e))
    | inr room ↦
        rw (release_gpu_memory, reserve_gpu_memory, found, room)
          (ap (λ ds. record g { devices = ds }) (use_memory_back id size g.devices h))
  ]
]

device_back_by :
    (g : GpuManager) (a : ResourceAllocation) (t : DeviceType)
    → a.device_type ≡ t
    → NotNegative g
    → reservation g a ≡ none
    → release_device (reserve_device g a) a ≡ g
device_back_by g a cpu same h e = rw same refl
device_back_by g a gpu same h e =
    let given =
      sym (
        ap
          (λ t. elim t [
            | cpu ↦ none
            | gpu ↦ (reserve_gpu_memory g a.device_id a.gpu_memory_bytes).1
          ])
          same)
      ∙ e in
    rw same (reserved_back g a.device_id a.gpu_memory_bytes h given)

device_back :
    (g : GpuManager) (a : ResourceAllocation)
    → NotNegative g
    → reservation g a ≡ none
    → release_device (reserve_device g a) a ≡ g
device_back g a h e = device_back_by g a a.device_type refl h e

module _ {Share : Type 0} (scale : ℤ → Share → ℤ) where
  memory_back :
      (m : MemoryManager Share) (size : ℤ) (now now' : ℕ)
      → ltb_ℤ m.reserved_memory (pos 0) ≡ false
      → ltb_ℤ (get_available_memory scale m) size ≡ false
      → ((reserve_memory scale m size now).0.reserved_memory ≡ m.reserved_memory +ℤ size)
        × ((release_memory scale (reserve_memory scale m size now).0 size now').reserved_memory
            ≡ m.reserved_memory)
        × ((release_memory scale (reserve_memory scale m size now).0 size now').used_memory
            ≡ m.used_memory)
  unfolding reserve_memory release_memory update_stats
  memory_back m size now now' h room =
      rw room (refl, back_at_least_0 m.reserved_memory size h, refl)

  abbrev pub IsRestored : Cluster Share → Cluster Share → Type 0
  IsRestored c d =
      (d.scheduler.allocations ≡ c.scheduler.allocations)
      × (d.scheduler.instance_loads ≡ c.scheduler.instance_loads)
      × (d.scheduler.stats.active_instances ≡ c.scheduler.stats.active_instances)
      × (d.memory.reserved_memory ≡ c.memory.reserved_memory)
      × (d.memory.used_memory ≡ c.memory.used_memory)

  -- The memory is reserved and the instance known, and its release undoes that; it undoes the use of the
  -- device too where the device had the memory.
  abbrev pub Taken : Cluster Share → Cluster Share → ResourceAllocation → ℕ → Type 0
  Taken c d a now =
      (d.memory.reserved_memory ≡ c.memory.reserved_memory +ℤ a.memory_bytes)
      × (lookup a.instance_id d.scheduler.allocations ≡ some a)
      × IsRestored c (release_resources scale d (some a) now)
      × (reservation c.gpus a ≡ none → (release_resources scale d (some a) now).gpus ≡ c.gpus)

  abbrev pub Outcome : Cluster Share → ℕ → Cluster Share × Result ResourceAllocation → Type 0
  Outcome c now (d, ok a) = Taken c d a now
  Outcome c now (d, err e) = d ≡ c

  allocate_on-Outcome :
      (c : Cluster Share) (config : InstanceConfig) (id : String) (now now' : ℕ) (device : Result ℤ)
      → lookup id c.scheduler.allocations ≡ none
      → lookup id c.scheduler.instance_loads ≡ none
      → ltb_ℤ c.memory.reserved_memory (pos 0) ≡ false
      → NotNegative c.gpus
      → ltb_ℤ (get_available_memory scale c.memory) (estimate_memory_requirement config) ≡ false
      → Outcome c now' (allocate_on scale c config id now device)
  unfolding allocate_on release_resources
  allocate_on-Outcome c config id now now' (err e) new_id unloaded h used room = refl
  allocate_on-Outcome c config id now now' (ok device_id) new_id unloaded h used room =
      let a = allocation_for config device_id id now in
      let (more, reserved, in_use) = memory_back c.memory a.memory_bytes now now' h room in
      (
        more,
        lookup-insert_self id a c.scheduler.allocations,
        (
          delete-insert id a c.scheduler.allocations new_id,
          delete-insert id 0 c.scheduler.instance_loads unloaded,
          add_back c.scheduler.stats.active_instances (pos 1),
          reserved,
          in_use,
        ),
        λ given. device_back c.gpus a used given,
      )

  -- For an ID that the scheduler does not know, with no memory reserved below 0 and none in use below 0
  -- on a device: AllocateResources fails and changes nothing, or it reserves the memory of the allocation
  -- and knows the instance. Then ReleaseResources of the allocation restores the allocations, the loads,
  -- the number of instances and the memory, and the devices too where they had the memory.
  pub allocate_resources-release_resources :
      (c : Cluster Share) (config : InstanceConfig) (walk : List GpuInfo → List GpuInfo)
      (id : String) (now now' : ℕ)
      → lookup id c.scheduler.allocations ≡ none
      → lookup id c.scheduler.instance_loads ≡ none
      → ltb_ℤ c.memory.reserved_memory (pos 0) ≡ false
      → NotNegative c.gpus
      → Outcome c now' (allocate_resources scale c config walk id now)
  unfolding allocate_resources
  allocate_resources-release_resources c config walk id now now' new_id unloaded h used =
      elim (Bool-cases
        (ltb_ℤ (get_available_memory scale c.memory) (estimate_memory_requirement config))) [
          | inl short ↦ rw short refl
          | inr room ↦ rw room (
              allocate_on-Outcome c config id now now'
                (device_for config (gpu_requirement config) (get_gpu_info c.gpus walk)) new_id
                unloaded h used room)
        ]
