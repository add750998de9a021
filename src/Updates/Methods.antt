-- ===== src/Updates/Methods.antt =====
-- The updates themselves. Each runs alone; where a rolling update looks whether it was cancelled, and
-- the scores of the health checker, if there is one, are functions of the number of the batch.
-- `again` is the order of the nodes in a rollback, since each walk over a map has an order of its own.
-- `updateNode` always returns nil, so that the branches for its error are left out.
use net_llm.Prelude.{
  ℕ, zero, suc, ◌+◌, ◌-◌, ◌*◌, ◌/◌, String, Bool, true, false, not, ◌&&◌, Option, none, some, List,
  [], ◌∷◌, ◌++◌, if◌then◌else◌, ltb, ◌==◌, length, take, drop, all,
}
use net_llm.Prelude.Int.{ℤ, pos, ltb_ℤ}
use net_llm.Prelude.Dict.{Dict, adjust}
use net_llm.Failover.State.{Node, active, recovering, with_state}
use net_llm.Updates.State.{
  UpdateStatus, completed, update_failed, rolled_back, VersionInfo, UpdateEvent, UpdateManager,
}

abbrev pub Run : Type 0
Run = Option (UpdateManager × Dict Node)

abbrev pub event : VersionInfo → VersionInfo → String → UpdateStatus → String → UpdateEvent
event old target id status message = record {
  node_id = id;
  old_version = old.version;
  new_version = target.version;
  status = status;
  message = message;
}

abbrev pub with_event : UpdateManager → UpdateEvent → UpdateManager
with_event um e = record um { events = um.events ++ (e ∷ []) }

unfoldable pub update_node : UpdateManager → Dict Node → String → Run
update_node um heap id = elim um.current_version [
  | none ↦ none
  | some v ↦ elim um.target_version [
    | none ↦ none
    | some w ↦ some (
      with_event um (event v w id completed "Node updated successfully"),
      adjust id (with_state active) (adjust id (with_state recovering) heap),
    )
  ]
]

-- The loops that update some nodes.
unfoldable pub update_nodes : UpdateManager → Dict Node → List String → Run
unfolding update_node
update_nodes um heap [] = some (um, heap)
update_nodes um heap (id ∷ ids) = elim (update_node um heap id) [
  | none ↦ none
  | some (um', heap') ↦ update_nodes um' heap' ids
]

unfoldable pub verify_batch_health : Option (String → ℤ) → List String → Bool
verify_batch_health none ids = true
verify_batch_health (some score) ids = all (λ id. not (ltb_ℤ (score id) (pos 70))) ids

abbrev pub end_rollback : UpdateManager × Dict Node → Run
end_rollback (um, heap) = elim um.target_version [
  | none ↦ none
  | some v ↦ some (
    with_event (record um { status = rolled_back }) (event v v "" rolled_back "Rollback completed"),
    heap,
  )
]

-- The nodes come in the order in which the walk over the map of nodes meets them this time.
unfoldable pub perform_rollback : List String → UpdateManager → Dict Node → Run
unfolding update_nodes
perform_rollback nodes um heap =
    elim (update_nodes (record um { target_version = um.current_version }) heap nodes) [
      | none ↦ none
      | some r ↦ end_rollback r
    ]

-- The end of an update; the event shows the target as the old version too.
unfoldable pub complete : String → UpdateManager → Dict Node → Run
complete message um heap = elim um.target_version [
  | none ↦ none
  | some w ↦ some (
    with_event (record um { status = completed; current_version = some w })
        (event w w "" completed message),
    heap,
  )
]

abbrev pub score_at : Option (ℕ → String → ℤ) → ℕ → Option (String → ℤ)
score_at none batch = none
score_at (some score) batch = some (score batch)

module _ (cancelled : ℕ → Bool) (score : Option (ℕ → String → ℤ)) (again : List String) where
  -- The loop of `performRollingUpdate`, with so many batches left.
  unfoldable pub rolling_from : ℕ → ℕ → List String → UpdateManager → Dict Node → Run
  unfolding update_nodes verify_batch_health perform_rollback complete
  rolling_from zero batch nodes um heap = complete "Update completed successfully" um heap
  rolling_from (suc left) batch nodes um heap = elim (cancelled batch) [
    | true ↦ some (record um { status = update_failed }, heap)
    | false ↦
        let size = um.config.batch_size in
        let ids = take size (drop (batch * size) nodes) in
        elim (update_nodes um heap ids) [
          | none ↦ none
          | some (um', heap') ↦
              elim (not (verify_batch_health (score_at score batch) ids)
                && um.config.rollback_on_failure) [
                  | true ↦ perform_rollback again um' heap'
                  | false ↦ rolling_from left (suc batch) nodes um' heap'
                ]
        ]
  ]

  -- A batch size of 0 divides by zero.
  unfoldable pub perform_rolling_update : UpdateManager → Dict Node → Run
  unfolding rolling_from
  perform_rolling_update um heap =
      let size = um.config.batch_size in
      if size == 0
      then none
      else rolling_from ((length um.nodes + size - 1) / size) 0 um.nodes um heap

  unfoldable pub perform_blue_green_update : UpdateManager → Dict Node → Run
  unfolding perform_rolling_update
  perform_blue_green_update um heap = perform_rolling_update um heap

abbrev pub canary_count : UpdateManager → ℕ
canary_count um =
    let count = (length um.nodes * um.config.canary_percentage) / 100 in
    if count == 0 then 1 else count

-- The part of `performCanaryUpdate` after the canary nodes are updated.
abbrev pub after_canary :
    Option (String → ℤ) → List String → List String → List String → UpdateManager → Dict Node → Run
after_canary score again canary_nodes remaining um heap =
    if verify_batch_health score canary_nodes
    then elim (update_nodes um heap remaining) [
      | none ↦ none
      | some (um', heap') ↦ complete "Canary update completed successfully" um' heap'
    ]
    else if um.config.rollback_on_failure
    then perform_rollback again um heap
    else some (um, heap)

-- More canary nodes than nodes are a slice out of range.
unfoldable pub perform_canary_update :
    Option (String → ℤ) → List String → UpdateManager → Dict Node → Run
unfolding update_nodes verify_batch_health perform_rollback complete
perform_canary_update score again um heap =
    let count = canary_count um in
    if ltb (length um.nodes) count
    then none
    else elim (update_nodes um heap (take count um.nodes)) [
      | none ↦ none
      | some (um', heap') ↦
          after_canary score again (take count um.nodes) (drop count um.nodes) um' heap'
    ]
