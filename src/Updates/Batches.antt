-- ===== src/Updates/Batches.antt =====
-- The batches of a rolling update: what is done before and after each.
use mathlib.Core.List.{append_assoc}
use native.Mathlib.Omega.{div_any}
use native.Mathlib.Nat.{mod-lt}
use net_llm.Prelude.{
  ℕ, suc, ◌+◌, ◌-◌, ◌*◌, ◌/◌, ◌≤◌, String, some, List, ◌++◌, ◌≡◌, sym, ap, ◌∙◌, take, drop, length,
  take-add, arith,
}
use net_llm.Prelude.Dict.{Dict}
use net_llm.Failover.State.{Node}
use net_llm.Updates.State.{UpdateManager, VersionInfo}
use net_llm.Updates.Methods.{update_nodes}
use net_llm.Updates.Touched.{
  node_events, node_events-append, all_active, all_active-append, with_events, update_nodes-some,
}

abbrev pub batch_count : UpdateManager → ℕ
batch_count um = (length um.nodes + um.config.batch_size - 1) / um.config.batch_size

-- The manager and the heap after so many batches.
abbrev pub um_at : UpdateManager → VersionInfo → VersionInfo → ℕ → UpdateManager
um_at um v w b = with_events um (node_events v w (take (b * um.config.batch_size) um.nodes))

abbrev pub heap_at : UpdateManager → Dict Node → ℕ → Dict Node
heap_at um heap b = all_active (take (b * um.config.batch_size) um.nodes) heap

abbrev pub batch_at : UpdateManager → ℕ → List String
batch_at um b = take um.config.batch_size (drop (b * um.config.batch_size) um.nodes)

take_next :
    (um : UpdateManager) (b : ℕ)
    → take (suc b * um.config.batch_size) um.nodes
      ≡ take (b * um.config.batch_size) um.nodes ++ batch_at um b
take_next um b =
    ap (λ k. take k um.nodes) {x = suc b * um.config.batch_size}
      {y = b * um.config.batch_size + um.config.batch_size} (omega arith)
    ∙ take-add (b * um.config.batch_size) um.config.batch_size um.nodes

-- A batch takes the manager and the heap to the next ones.
pub next_batch :
    (um : UpdateManager) (heap : Dict Node) (v w : VersionInfo) (b : ℕ)
    → um.current_version ≡ some v
    → um.target_version ≡ some w
    → update_nodes (um_at um v w b) (heap_at um heap b) (batch_at um b)
      ≡ some (um_at um v w (suc b), heap_at um heap (suc b))
next_batch um heap v w b hv hw =
    let before = take (b * um.config.batch_size) um.nodes in
    update_nodes-some (um_at um v w b) (heap_at um heap b) v w (batch_at um b) hv hw
    ∙ ap (λ es. some (record um { events = es }, all_active (batch_at um b) (heap_at um heap b)))
        (append_assoc um.events (node_events v w before) (node_events v w (batch_at um b))
          ∙ ap (λ l. um.events ++ l) (sym (node_events-append v w before (batch_at um b))))
    ∙ ap (λ h. some (with_events um (node_events v w (before ++ batch_at um b)), h))
        (sym (all_active-append before (batch_at um b) heap))
    ∙ ap (λ l. some (with_events um (node_events v w l), all_active l heap)) (sym (take_next um b))

pub batch_count_enough :
    (um : UpdateManager)
    → 1 ≤ um.config.batch_size
    → length um.nodes ≤ batch_count um * um.config.batch_size
batch_count_enough um h =
    let n = length um.nodes + um.config.batch_size - 1 in
    omega (arith, div_any n um.config.batch_size, mod-lt n h)
