-- ===== src/Failover/Invariant.antt =====
-- Every method of the manager keeps at most one node active, and holds that one to be active.
use net_llm.Prelude.{
  ℕ, ◌+◌, ltb, String, true, false, ◌&&◌, Option, none, some, List, [], ◌∷◌, ◌≡◌, refl, sym, ◌≢◌,
  ◌⊎◌, inl, inr, arith, subst, Bool-cases, Option-cases, str_eq, eq_iff,
}
use net_llm.Prelude.Dict.{Dict, lookup, adjust, keys, values}
use net_llm.Prelude.Int.{ℤ, pos, ltb_ℤ}
use net_llm.Failover.Selection.{IsBest, select_failover_candidate-IsBest}
use net_llm.Failover.Nodes.{
  Good, OneActive, is_active_at, retired, lookup_of_Among, hand_over-Good, adjust-Good,
  insert_standby-Good, insert_active-Good, delete-Good,
}
use net_llm.Failover.Calls.{Call, adds, removes, beats, checks, fails_over_to, receives, step, run}
use net_llm.Failover.Methods.{
  is_active_node, retire, add_node, takes_over, refusal, drop_node, perform_failover, remove_node,
  check_node, check_heartbeat, act_on_score, with_score, check_each, check_nodes_health,
  perform_manual_failover, update_heartbeat, receive_event, select_failover_candidate,
}
use net_llm.Failover.State.{
  FailoverManager, FailoverConfig, Node, Error, active, failed, is_active, is_standby, with_state,
  new,
}

abbrev pub IsSound : FailoverManager → Type 0
IsSound fm = Good fm.nodes fm.active_node

-- The map after a failover.
abbrev pub switched : FailoverManager → String → String → Dict Node
switched fm from to =
    adjust from (with_state failed)
      (adjust to (with_state active) (retired fm.nodes fm.active_node))

pub retire-nodes : (fm : FailoverManager) → (retire fm).nodes ≡ retired fm.nodes fm.active_node
unfolding retire
retire-nodes fm = ground arith

-- A failover fails and changes neither the nodes nor the active one, or it succeeds: the candidate is
-- active, the node that was active steps back, and the node that it was for is marked as failed.
abbrev pub Outcome : FailoverManager → String → FailoverManager × Option Error → Type 0
Outcome fm from r =
    ((r.1 ≢ none) × (r.0.nodes ≡ fm.nodes) × (r.0.active_node ≡ fm.active_node))
    ⊎ ((c : Node) × (select_failover_candidate fm ≡ some c)
        × (refusal fm ≡ none)
        × (r.1 ≡ none)
        × (r.0.nodes ≡ switched fm from c.id)
        × (r.0.active_node ≡ some c.id))

-- A failover that returns an error changes neither the nodes nor the active one. Otherwise there is a
-- candidate and the policy allows it: the candidate becomes the active node, the node that was active
-- goes on standby, and the node that the failover is for is marked as failed.
pub perform_failover-Outcome :
    (fm : FailoverManager) (from reason : String) (now : ℕ)
    → Outcome fm from (perform_failover fm from reason now)
unfolding perform_failover
perform_failover-Outcome fm from reason now = elim (Option-cases (select_failover_candidate fm)) [
  | inl e ↦ rw (e, perform_failover) (inl ((λ q. cc), refl, refl))
  | inr (c, e) ↦ elim (Option-cases (refusal fm)) [
    | inr (x, stop) ↦ rw (e, perform_failover) (rw (stop) (inl ((λ q. cc), refl, refl)))
    | inl go ↦
        rw (e, perform_failover) (rw go (inr (c, refl, refl, refl, ground arith, ground arith)))
  ]
]

-- The candidate is in the map under its ID, and is not active.
pub candidate_at :
    (fm : FailoverManager) (c : Node)
    → IsSound fm
    → select_failover_candidate fm ≡ some c
    → (lookup c.id fm.nodes ≡ some c) × (is_active c.state ≡ false) × (is_standby c.state ≡ true)
candidate_at fm c g e =
    let best : IsBest (values fm.nodes) (some c) =
      subst (IsBest (values fm.nodes)) e (select_failover_candidate-IsBest fm) in
    let (k, found) = lookup_of_Among c fm.nodes g.unique best.0 in
    (
      subst (λ j. lookup j fm.nodes ≡ some c) (sym (g.ids k c found)) found,
      ground (arith, best.1),
      ground (arith, best.1),
    )

-- An active node is not the candidate.
apart :
    (fm : FailoverManager) (from : String) (c : Node)
    → is_active_at fm.nodes from ≡ true
    → lookup c.id fm.nodes ≡ some c
    → is_active c.state ≡ false
    → str_eq c.id from ≡ false
apart fm from c on found off = elim (Bool-cases (str_eq c.id from)) [
  | inr e ↦ e
  | inl e ↦ absurd (
      ground (arith, subst (λ j. is_active_at fm.nodes j ≡ true) (sym ((eq_iff c.id from).0 e)) on))
]

switched-Good :
    (fm : FailoverManager) (from : String) (c : Node)
    → IsSound fm
    → is_active_at fm.nodes from ≡ true
    → lookup c.id fm.nodes ≡ some c
    → is_active c.state ≡ false
    → Good (switched fm from c.id) (some c.id)
switched-Good fm from c g on found off =
    adjust-Good _ (some c.id) from (with_state failed) (λ n. refl) idle handed
  where
    handed : Good (adjust c.id (with_state active) (retired fm.nodes fm.active_node)) (some c.id)
    handed = hand_over-Good fm.nodes fm.active_node c.id c g found

    idle :
        (n : Node)
        → lookup from (adjust c.id (with_state active) (retired fm.nodes fm.active_node)) ≡ some n
        → false ≡ is_active n.state
    idle n e = elim (Bool-cases (is_active n.state)) [
      | inr off' ↦ sym off'
      | inl on' ↦
          ground (
            arith,
            handed.one.1 from (ground arith),
            eq_iff c.id from,
            apart fm from c on found off,
          )
    ]

perform_failover-IsSound :
    (fm : FailoverManager) (from reason : String) (now : ℕ)
    → IsSound fm
    → is_active_at fm.nodes from ≡ true
    → IsSound (perform_failover fm from reason now).0
perform_failover-IsSound fm from reason now g on =
    elim (perform_failover-Outcome fm from reason now) [
      | inl (_, same, act) ↦ rw (same, act) g
      | inr (c, e, _, _, nodes, act) ↦
          let (found, off, _) = candidate_at fm c g e in
          rw (nodes, act) (switched-Good fm from c g on found off)
    ]

is_active_node-is_active_at :
    (fm : FailoverManager) (id : String)
    → IsSound fm
    → is_active_node fm id ≡ true
    → is_active_at fm.nodes id ≡ true
is_active_node-is_active_at fm id g h = elim (Option-cases fm.active_node) [
  | inl e ↦ ground arith
  | inr (a, e) ↦
      let one : OneActive fm.nodes (some a) = subst (OneActive fm.nodes) e g.one in
      subst (λ j. is_active_at fm.nodes j ≡ true) (ground (arith, eq_iff a id)) one.0
]

drop_node-IsSound :
    (fm : FailoverManager) (id : String) (r : FailoverManager × Option Error)
    → IsSound fm
    → is_active_at fm.nodes id ≡ true
    → Outcome fm id r
    → IsSound (drop_node id r).0
drop_node-IsSound fm id (fm', some x) g on (inl (_, nodes, act)) = rw (nodes, act) g
drop_node-IsSound fm id (fm', some x) g on (inr (c, e, _, ended, _, _)) = absurd (cc ended)
drop_node-IsSound fm id (fm', none) g on (inl (ended, _, _)) = absurd (ended refl)
drop_node-IsSound fm id (fm', none) g on (inr (c, e, _, _, nodes, act)) =
    let (found, off, _) = candidate_at fm c g e in
    rw (nodes, act)
      (delete-Good (switched fm id c.id) (some c.id) id
        (λ a same. ground (arith, apart fm id c on found off))
        (switched-Good fm id c g on found off))

add_node-IsSound : (fm : FailoverManager) (node : Node) → IsSound fm → IsSound (add_node fm node).0
unfolding add_node
add_node-IsSound fm node g = elim (Option-cases (lookup node.id fm.nodes)) [
  | inr (_, e) ↦ rw (e, add_node) g
  | inl e ↦ elim (Bool-cases (takes_over fm node)) [
    | inl over ↦
        rw (e, add_node)
          (rw over (rw retire-nodes (insert_active-Good fm.nodes fm.active_node node g)))
    | inr under ↦ rw (e, add_node) (rw under (insert_standby-Good fm.nodes fm.active_node node e g))
  ]
]

remove_node-IsSound :
    (fm : FailoverManager) (id : String) (now : ℕ) → IsSound fm → IsSound (remove_node fm id now).0
unfolding remove_node
remove_node-IsSound fm id now g = elim (Option-cases (lookup id fm.nodes)) [
  | inl e ↦ rw (e, remove_node) g
  | inr (_, e) ↦ elim (Bool-cases (is_active_node fm id)) [
    | inl act ↦
        rw (e, remove_node)
          (rw act (
            drop_node-IsSound fm id _ g (is_active_node-is_active_at fm id g act)
              (perform_failover-Outcome fm id "node removed" now)))
    | inr other ↦
        rw (e, remove_node)
          (rw other (delete-Good fm.nodes fm.active_node id (λ a same. ground arith) g))
  ]
]

perform_manual_failover-IsSound :
    (fm : FailoverManager) (to reason : String) (now : ℕ)
    → IsSound fm
    → IsSound (perform_manual_failover fm to reason now).0
unfolding perform_manual_failover
perform_manual_failover-IsSound fm to reason now g = elim (Option-cases (lookup to fm.nodes)) [
  | inl e ↦ rw (e, perform_manual_failover) g
  | inr (n, e) ↦ elim (Bool-cases (is_standby n.state)) [
    | inr busy ↦ rw (e, perform_manual_failover) (rw busy g)
    | inl ready ↦ elim (Bool-cases (ltb_ℤ n.health_score (pos 70))) [
      | inl sick ↦ rw (e, perform_manual_failover) (rw (ready, sick) g)
      | inr well ↦
          rw (e, perform_manual_failover)
            (rw (ready, well) (rw retire-nodes (hand_over-Good fm.nodes fm.active_node to n g e)))
    ]
  ]
]

pub check_heartbeat-IsSound :
    (fm : FailoverManager) (id : String) (n : Node) (now : ℕ)
    → lookup id fm.nodes ≡ some n
    → IsSound fm
    → IsSound (check_heartbeat fm id n now)
unfolding check_heartbeat
check_heartbeat-IsSound fm id n now e g =
    elim (Bool-cases (ltb (n.last_heartbeat + fm.config.heartbeat_timeout) now)) [
      | inr alive ↦ rw alive g
      | inl late ↦ elim (Bool-cases (is_active n.state)) [
        | inl on ↦
            rw (late, on) (perform_failover-IsSound fm id "heartbeat timeout" now g (ground arith))
        | inr off ↦
            rw (late, off)
              (adjust-Good fm.nodes fm.active_node id (with_state failed) (λ m. refl)
                (λ m found. ground arith) g)
      ]
    ]

act_on_score-IsSound :
    (fm : FailoverManager) (id : String) (score : ℤ) (now : ℕ)
    → IsSound fm
    → IsSound (act_on_score fm id score now)
unfolding act_on_score
act_on_score-IsSound fm id score now g = elim (Option-cases (lookup id fm.nodes)) [
  | inl e ↦ rw (e, act_on_score) g
  | inr (n, e) ↦ elim (Bool-cases (ltb_ℤ score (pos 50) && is_active n.state)) [
    | inl low ↦
        rw (e, act_on_score)
          (rw low (perform_failover-IsSound fm id "low health score" now g (ground arith)))
    | inr fine ↦ rw (e, act_on_score) (rw fine g)
  ]
]

pub check_node-IsSound :
    (checker : Option (String → ℤ)) (now : ℕ) (fm : FailoverManager) (id : String)
    → IsSound fm
    → IsSound (check_node checker now fm id)
unfolding check_node with_score
check_node-IsSound none now fm id g = elim (Option-cases (lookup id fm.nodes)) [
  | inl e ↦ rw (e, check_node) g
  | inr (n, e) ↦ rw (e, check_node) (check_heartbeat-IsSound fm id n now e g)
]
check_node-IsSound (some score) now fm id g = elim (Option-cases (lookup id fm.nodes)) [
  | inl e ↦ rw (e, check_node) g
  | inr (n, e) ↦
      rw (e, check_node)
        (act_on_score-IsSound (with_score (check_heartbeat fm id n now) id (score id)) id (score id)
          now
          (adjust-Good _ _ id (λ m. record m { health_score = score id }) (λ m. refl)
            (λ m found. refl) (check_heartbeat-IsSound fm id n now e g)))
]

pub check_each-IsSound :
    (checker : Option (String → ℤ)) (now : ℕ) (fm : FailoverManager) (ids : List String)
    → IsSound fm
    → IsSound (check_each checker now fm ids)
unfolding check_each
check_each-IsSound checker now fm [] g = g
check_each-IsSound checker now fm (id ∷ ids) g =
    check_each-IsSound checker now (check_node checker now fm id) ids
      (check_node-IsSound checker now fm id g)

-- Every call keeps it.
step-IsSound : (fm : FailoverManager) (c : Call) → IsSound fm → IsSound (step fm c)
unfolding step update_heartbeat check_nodes_health receive_event
step-IsSound fm (adds node) g = add_node-IsSound fm node g
step-IsSound fm (removes id now) g = remove_node-IsSound fm id now g
step-IsSound fm (beats id now) g =
    adjust-Good fm.nodes fm.active_node id (λ n. record n { last_heartbeat = now }) (λ n. refl)
      (λ n found. refl) g
step-IsSound fm (checks checker now) g = check_each-IsSound checker now fm (keys fm.nodes) g
step-IsSound fm (fails_over_to to reason now) g = perform_manual_failover-IsSound fm to reason now g
step-IsSound fm receives g = ground arith

run-IsSound : (fm : FailoverManager) (cs : List Call) → IsSound fm → IsSound (run fm cs)
unfolding run
run-IsSound fm [] g = g
run-IsSound fm (c ∷ cs) g = run-IsSound (step fm c) cs (step-IsSound fm c g)

new-IsSound : (config : FailoverConfig) → IsSound (new config)
unfolding new
new-IsSound config = record { unique = tt; ids = λ k n e. cc; one = λ k. refl }

-- After any calls on a new manager, in any order and with any answers of the health checker: a node
-- is in the active state exactly when it is the one that the manager holds to be active, which is in
-- the map, and every node stands once, under its ID.
pub run-new-IsSound : (config : FailoverConfig) (cs : List Call) → IsSound (run (new config) cs)
run-new-IsSound config cs = run-IsSound (new config) cs (new-IsSound config)
