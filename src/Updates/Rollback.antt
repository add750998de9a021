-- ===== src/Updates/Rollback.antt =====
-- What a rollback and the end of an update leave, where both versions are set.
use mathlib.Core.List.{append_assoc}
use net_llm.Prelude.{String, Option, none, some, List, [], ◌∷◌, ◌++◌, ◌≡◌, ap, ◌∙◌}
use net_llm.Prelude.Dict.{Dict}
use net_llm.Failover.State.{Node}
use net_llm.Updates.State.{UpdateManager, VersionInfo, UpdateEvent, rolled_back, completed}
use net_llm.Updates.Methods.{Run, event, perform_rollback, complete}
use net_llm.Updates.Touched.{node_events, all_active, update_nodes-some}

abbrev pub after_rollback : UpdateManager → VersionInfo → List String → UpdateManager
after_rollback um v again = record um {
  status = rolled_back;
  target_version = some v;
  events =
      um.events ++ (node_events v v again ++ (event v v "" rolled_back "Rollback completed" ∷ []));
}

abbrev pub after_update : UpdateManager → VersionInfo → String → UpdateManager
after_update um w message = record um {
  status = completed;
  current_version = some w;
  events = um.events ++ (event w w "" completed message ∷ []);
}

pub complete-some :
    (um : UpdateManager) (heap : Dict Node) (w : VersionInfo) (message : String)
    → um.target_version ≡ some w
    → complete message um heap ≡ some (after_update um w message, heap)
unfolding complete
complete-some um heap w message hw =
    ap (λ o. elim o [ none ↦ none | some x ↦ some (after_update um x message, heap) ]) hw

-- The end of a rollback to `o`, which is the new target too.
abbrev ended :
    UpdateManager → Dict Node → List UpdateEvent → Option VersionInfo → Option VersionInfo → Run
ended um heap es target o = elim o [
  | none ↦ none
  | some x ↦ some (
    record um {
      status = rolled_back;
      target_version = target;
      events = es ++ (event x x "" rolled_back "Rollback completed" ∷ []);
    },
    heap,
  )
]

pub perform_rollback-some :
    (um : UpdateManager) (heap : Dict Node) (v : VersionInfo) (again : List String)
    → um.current_version ≡ some v
    → perform_rollback again um heap ≡ some (after_rollback um v again, all_active again heap)
unfolding perform_rollback
perform_rollback-some um heap v again hv =
    let back = record um { target_version = um.current_version } in
    let es = um.events ++ node_events v v again in
    rw (perform_rollback, update_nodes-some back heap v v again hv hv)
      (ap (λ o. ended um (all_active again heap) es o o) hv
        ∙ ap
            (λ l. some (
              record um { status = rolled_back; target_version = some v; events = l },
              all_active again heap,
            ))
            (append_assoc um.events (node_events v v again)
              (event v v "" rolled_back "Rollback completed" ∷ [])))
