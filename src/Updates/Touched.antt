-- ===== src/Updates/Touched.antt =====
-- What the update of some nodes does to the events and to the heap.
use mathlib.Core.List.{append_assoc, append-nil}
use net_llm.Prelude.{
  String, none, some, List, [], ◌∷◌, ◌++◌, ◌≡◌, refl, sym, ap, ◌∙◌, if◌then◌else◌, map, str_eq,
  arith, Bool-cases, Option-cases, inl, inr,
}
use net_llm.Prelude.Dict.{Dict, lookup, adjust, map_found, lookup-adjust}
use net_llm.Failover.State.{Node, active, recovering, with_state}
use net_llm.Updates.State.{completed, VersionInfo, UpdateEvent, UpdateManager, has_id}
use net_llm.Updates.Methods.{event, with_event, update_node, update_nodes}

abbrev pub node_events : VersionInfo → VersionInfo → List String → List UpdateEvent
node_events v w ids = map (λ id. event v w id completed "Node updated successfully") ids

-- What the update of a node leaves of its states.
abbrev pub once : String → Dict Node → Dict Node
once id heap = adjust id (with_state active) (adjust id (with_state recovering) heap)

abbrev pub all_active : List String → Dict Node → Dict Node
all_active [] heap = heap
all_active (id ∷ ids) heap = all_active ids (once id heap)

abbrev pub with_events : UpdateManager → List UpdateEvent → UpdateManager
with_events um es = record um { events = um.events ++ es }

pub update_nodes-some :
    (um : UpdateManager) (heap : Dict Node) (v w : VersionInfo) (ids : List String)
    → um.current_version ≡ some v
    → um.target_version ≡ some w
    → update_nodes um heap ids ≡ some (with_events um (node_events v w ids), all_active ids heap)
unfolding update_nodes update_node
update_nodes-some um heap v w [] hv hw =
    ap (λ es. some (record um { events = es }, heap)) (sym (append-nil um.events))
update_nodes-some um heap v w (id ∷ ids) hv hw =
    let e = event v w id completed "Node updated successfully" in
    let heap' = once id heap in
    let first : update_node um heap id ≡ some (with_event um e, heap') =
      ap
        (λ o. elim o [
          | none ↦ none
          | some v ↦ elim um.target_version [
            | none ↦ none
            | some w ↦
                some (with_event um (event v w id completed "Node updated successfully"), heap')
          ]
        ])
        hv
      ∙ ap
          (λ o. elim o [
            | none ↦ none
            | some w ↦
                some (with_event um (event v w id completed "Node updated successfully"), heap')
          ])
          hw in
    rw (update_nodes, first)
      (update_nodes-some (with_event um e) heap' v w ids hv hw
        ∙ ap (λ es. some (record um { events = es }, all_active ids heap'))
            (append_assoc um.events (e ∷ []) (node_events v w ids)))

pub all_active-append :
    (xs ys : List String) (heap : Dict Node)
    → all_active (xs ++ ys) heap ≡ all_active ys (all_active xs heap)
all_active-append [] ys heap = refl
all_active-append (x ∷ xs) ys heap = all_active-append xs ys (once x heap)

pub node_events-append :
    (v w : VersionInfo) (xs ys : List String)
    → node_events v w (xs ++ ys) ≡ node_events v w xs ++ node_events v w ys
node_events-append v w [] ys = refl
node_events-append v w (x ∷ xs) ys =
    ap (λ l. event v w x completed "Node updated successfully" ∷ l) (node_events-append v w xs ys)

-- The nodes on a list are active, and the others are as they were.
abbrev pub Touched : List String → Dict Node → Dict Node → Type 0
Touched ids heap heap' =
    (id : String)
    → lookup id heap'
      ≡ (if has_id id ids then map_found (with_state active) (lookup id heap) else lookup id heap)

pub all_active-Touched :
    (ids : List String) (heap : Dict Node) → Touched ids heap (all_active ids heap)
all_active-Touched [] heap id = refl
all_active-Touched (i ∷ ids) heap id = elim (Bool-cases (str_eq i id)) [
  | inl same ↦ elim (Option-cases (lookup id heap)) [
    | inl absent ↦ ground (
      arith,
      all_active-Touched ids (once i heap) id,
      lookup-adjust i id (with_state active) (adjust i (with_state recovering) heap),
      lookup-adjust i id (with_state recovering) heap,
    )
    | inr (n, found) ↦ ground (
      arith,
      all_active-Touched ids (once i heap) id,
      lookup-adjust i id (with_state active) (adjust i (with_state recovering) heap),
      lookup-adjust i id (with_state recovering) heap,
    )
  ]
  | inr ne ↦ ground (
    arith,
    all_active-Touched ids (once i heap) id,
    lookup-adjust i id (with_state active) (adjust i (with_state recovering) heap),
    lookup-adjust i id (with_state recovering) heap,
  )
]
