-- ===== src/Failover/Methods.antt =====
-- The methods of FailoverManager.
use net_llm.Prelude.{
  ℕ, suc, ◌+◌, String, Bool, true, false, not, ◌&&◌, Option, none, some, List, [], ◌∷◌, ◌++◌,
  if◌then◌else◌, ltb, length, str_eq,
}
use net_llm.Prelude.Dict.{lookup, insert, delete, adjust, values, keys}
use net_llm.Prelude.Int.{ℤ, pos, negsuc, ltb_ℤ, leb_ℤ}
use net_llm.Failover.State.{
  FailoverState, active, standby, failed, automatic, manual, quorum_based, Node, FailoverEvent,
  FailoverManager, Error, node_exists, node_not_found, no_candidate, manual_policy, no_quorum,
  target_not_found, target_not_standby, target_unhealthy, failover_failed, is_active, is_standby,
  with_state,
}

unfoldable pub set_state : FailoverManager → String → FailoverState → FailoverManager
set_state fm id s = record fm { nodes = adjust id (with_state s) fm.nodes }

-- The state of the active node, if there is one, becomes standby.
unfoldable pub retire : FailoverManager → FailoverManager
unfolding set_state
retire fm = elim fm.active_node [ none ↦ fm | some a ↦ set_state fm a standby ]

unfoldable pub update_heartbeat : FailoverManager → String → ℕ → FailoverManager
update_heartbeat fm id now = record fm {
  nodes = adjust id (λ n. record n { last_heartbeat = now }) fm.nodes;
}

-- The node takes over if no node is active or its priority is above that of the active one.
unfoldable pub takes_over : FailoverManager → Node → Bool
takes_over fm node = elim fm.active_node [
  | none ↦ true
  | some a ↦ elim (lookup a fm.nodes) [ none ↦ true | some n ↦ ltb_ℤ n.priority node.priority ]
]

unfoldable pub add_node : FailoverManager → Node → FailoverManager × Option Error
unfolding takes_over retire
add_node fm node = elim (lookup node.id fm.nodes) [
  | some _ ↦ (fm, some node_exists)
  | none ↦
      if takes_over fm node
      then (
        record (retire fm) {
          nodes = insert node.id (with_state active node) (retire fm).nodes;
          active_node = some node.id;
        },
        none,
      )
      else (record fm { nodes = insert node.id (with_state standby node) fm.nodes }, none)
]

-- The loop of `selectFailoverCandidate`, with the best priority and candidate so far.
unfoldable pub select_from : ℤ → Option Node → List Node → Option Node
select_from best candidate [] = candidate
select_from best candidate (n ∷ ns) =
    let better = is_standby n.state && (leb_ℤ (pos 70) n.health_score && ltb_ℤ best n.priority) in
    select_from (if better then n.priority else best) (if better then some n else candidate) ns

unfoldable pub select_failover_candidate : FailoverManager → Option Node
unfolding select_from
select_failover_candidate fm = select_from (negsuc 0) none (values fm.nodes)

unfoldable pub count_healthy : List Node → ℕ
count_healthy [] = 0
count_healthy (n ∷ ns) =
    let rest = count_healthy ns in if leb_ℤ (pos 70) n.health_score then suc rest else rest

unfoldable pub check_quorum : FailoverManager → Bool
unfolding count_healthy
check_quorum fm = leb_ℤ fm.config.quorum_size (pos (count_healthy (values fm.nodes)))

abbrev pub event_for : FailoverManager → ℕ → String → String → String → Bool → FailoverEvent
event_for fm now from to reason success = record {
  timestamp = now;
  from_node = from;
  to_node = to;
  reason = reason;
  success = success;
  failover_policy = fm.config.policy;
}

abbrev pub log_event : FailoverManager → FailoverEvent → FailoverManager
log_event fm e = record fm { events = fm.events ++ e ∷ [] }

-- The channel holds 100 events; a further one is dropped.
send_event : FailoverManager → FailoverEvent → FailoverManager
send_event fm e =
    if ltb (length fm.event_chan) 100
    then record fm { event_chan = fm.event_chan ++ e ∷ [] }
    else fm

-- `processEvents` takes an event off the channel, and does nothing with it.
unfoldable pub receive_event : FailoverManager → FailoverManager
receive_event fm = elim fm.event_chan [ [] ↦ fm | _ ∷ rest ↦ record fm { event_chan = rest } ]

-- The active node steps back, the candidate takes over, and the node that failed is marked.
unfoldable pub switch_to : FailoverManager → String → String → FailoverManager
unfolding retire set_state
switch_to fm from to =
    set_state (record (set_state (retire fm) to active) { active_node = some to }) from failed

-- The policy may stop a failover.
unfoldable pub refusal : FailoverManager → Option Error
refusal fm = elim fm.config.policy [
  | automatic ↦ none
  | manual ↦ some manual_policy
  | quorum_based ↦ if check_quorum fm then none else some no_quorum
]

unfoldable pub perform_failover :
    FailoverManager → String → String → ℕ → FailoverManager × Option Error
unfolding switch_to refusal send_event
perform_failover fm from reason now = elim (select_failover_candidate fm) [
  | none ↦ (fm, some no_candidate)
  | some c ↦ elim (refusal fm) [
    | some e ↦ (log_event fm (event_for fm now from c.id reason false), some e)
    | none ↦
        let event = event_for fm now from c.id reason true in
        (send_event (log_event (switch_to fm from c.id) event) event, none)
  ]
]

abbrev pub is_active_node : FailoverManager → String → Bool
is_active_node fm id = elim fm.active_node [ none ↦ false | some a ↦ str_eq a id ]

abbrev pub drop_node : String → FailoverManager × Option Error → FailoverManager × Option Error
drop_node id (fm, some e) = (fm, some (failover_failed e))
drop_node id (fm, none) = (record fm { nodes = delete id fm.nodes }, none)

-- An active node is removed after a failover that succeeds.
unfoldable pub remove_node : FailoverManager → String → ℕ → FailoverManager × Option Error
remove_node fm id now = elim (lookup id fm.nodes) [
  | none ↦ (fm, some node_not_found)
  | some _ ↦
      if is_active_node fm id
      then drop_node id (perform_failover fm id "node removed" now)
      else (record fm { nodes = delete id fm.nodes }, none)
]

-- The heartbeat part of `checkNodesHealth`, for one node.
unfoldable pub check_heartbeat : FailoverManager → String → Node → ℕ → FailoverManager
unfolding set_state
check_heartbeat fm id n now =
    if ltb (n.last_heartbeat + fm.config.heartbeat_timeout) now
    then (if is_active n.state
        then (perform_failover fm id "heartbeat timeout" now).0
        else set_state fm id failed)
    else fm

-- The health score part: the score is noted, then an active node with a low one is failed over.
unfoldable pub act_on_score : FailoverManager → String → ℤ → ℕ → FailoverManager
act_on_score fm id score now = elim (lookup id fm.nodes) [
  | none ↦ fm
  | some n ↦
      if ltb_ℤ score (pos 50) && is_active n.state
      then (perform_failover fm id "low health score" now).0
      else fm
]

unfoldable pub with_score : FailoverManager → String → ℤ → FailoverManager
with_score fm id score = record fm {
  nodes = adjust id (λ n. record n { health_score = score }) fm.nodes;
}

check_score : FailoverManager → String → (String → ℤ) → ℕ → FailoverManager
unfolding act_on_score with_score
check_score fm id score now = act_on_score (with_score fm id (score id)) id (score id) now

unfoldable pub check_node : Option (String → ℤ) → ℕ → FailoverManager → String → FailoverManager
unfolding check_heartbeat check_score
check_node checker now fm id = elim (lookup id fm.nodes) [
  | none ↦ fm
  | some n ↦ elim checker [
    | none ↦ check_heartbeat fm id n now
    | some score ↦ check_score (check_heartbeat fm id n now) id score now
  ]
]

unfoldable pub check_each :
    Option (String → ℤ) → ℕ → FailoverManager → List String → FailoverManager
unfolding check_node
check_each checker now fm [] = fm
check_each checker now fm (id ∷ ids) = check_each checker now (check_node checker now fm id) ids

unfoldable pub check_nodes_health : FailoverManager → Option (String → ℤ) → ℕ → FailoverManager
unfolding check_each
check_nodes_health fm checker now = check_each checker now fm (keys fm.nodes)

unfoldable pub perform_manual_failover :
    FailoverManager → String → String → ℕ → FailoverManager × Option Error
unfolding retire set_state
perform_manual_failover fm to reason now = elim (lookup to fm.nodes) [
  | none ↦ (fm, some target_not_found)
  | some n ↦
      if not (is_standby n.state)
      then (fm, some target_not_standby)
      else if ltb_ℤ n.health_score (pos 70)
      then (fm, some target_unhealthy)
      else (
        log_event (record (set_state (retire fm) to active) { active_node = some to })
            (record {
              timestamp = now;
              from_node = elim fm.active_node [ none ↦ "" | some a ↦ a ];
              to_node = to;
              reason = reason;
              success = true;
              failover_policy = manual;
            }),
        none,
      )
]
