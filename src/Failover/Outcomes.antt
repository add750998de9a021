-- ===== src/Failover/Outcomes.antt =====
-- What becomes of a failed node, and of the removal of an active one.
use net_llm.Prelude.{
  ℕ, ◌+◌, ltb, String, true, false, ◌&&◌, Option, none, some, List, [], ◌∷◌, ◌≡◌, refl, sym, inl,
  inr, arith, subst, Bool-cases, Option-cases, str_eq, eq_iff,
}
use net_llm.Prelude.Dict.{Dict, lookup, adjust, keys, values, lookup-adjust}
use net_llm.Prelude.Int.{ℤ, pos, ltb_ℤ}
use net_llm.Failover.Selection.{IsBest, Among, select_failover_candidate-IsBest, is_eligible}
use net_llm.Failover.Nodes.{OneActive, adjust-Good, state_at, retired}
use net_llm.Failover.Invariant.{
  IsSound, perform_failover-Outcome, candidate_at, check_node-IsSound, check_heartbeat-IsSound,
  retire-nodes,
}
use net_llm.Failover.Calls.{Call, adds, removes, beats, checks, fails_over_to, receives, step}
use net_llm.Failover.Methods.{
  is_active_node, perform_failover, remove_node, check_node, check_heartbeat, act_on_score,
  with_score, check_each, check_nodes_health, perform_manual_failover, update_heartbeat,
  receive_event, select_failover_candidate,
}
use net_llm.Failover.State.{
  FailoverManager, Node, active, standby, failed, is_active, is_standby, with_state,
  failover_failed, no_candidate,
}

adjust-failed :
    (m : Dict Node) (id k : String) (f : Node → Node)
    → ((n : Node) → lookup id m ≡ some n → n.state ≡ failed → (f n).state ≡ failed)
    → state_at m k ≡ some failed
    → state_at (adjust id f m) k ≡ some failed
adjust-failed m id k f keeps h = elim (Bool-cases (str_eq id k)) [
  | inr away ↦ ground (arith, lookup-adjust id k f m)
  | inl here ↦ elim (Option-cases (lookup k m)) [
    | inl absent ↦ ground arith
    | inr (n, found) ↦
        let same = subst (λ j. lookup j m ≡ some n) (sym ((eq_iff id k).0 here)) found in
        ground (arith, lookup-adjust id k f m, keeps n same)
  ]
]

retired-failed :
    (m : Dict Node) (act : Option String) (k : String)
    → OneActive m act
    → state_at m k ≡ some failed
    → state_at (retired m act) k ≡ some failed
retired-failed m none k one h = h
retired-failed m (some a) k one h =
    adjust-failed m a k (with_state standby) (λ n found dead. ground (arith, one.0)) h

-- The one who takes over was on standby, and is no failed node.
hand_over-failed :
    (m : Dict Node) (act : Option String) (to k : String) (n : Node)
    → OneActive m act
    → lookup to m ≡ some n
    → is_standby n.state ≡ true
    → state_at m k ≡ some failed
    → state_at (adjust to (with_state active) (retired m act)) k ≡ some failed
hand_over-failed m act to k n one found ready h =
    adjust-failed (retired m act) to k (with_state active)
      (λ n' found' dead. absurd (go act one found' dead)) (retired-failed m act k one h)
  where
    go :
        (o : Option String)
        → OneActive m o
        → {n' : Node} → lookup to (retired m o) ≡ some n'
        → n'.state ≡ failed
        → ⊥
    go none one' found' dead = ground arith
    go (some a) one' found' dead = ground (arith, lookup-adjust a to (with_state standby) m)

failover-failed :
    (fm : FailoverManager) (from reason : String) (now : ℕ) (k : String)
    → IsSound fm
    → state_at fm.nodes k ≡ some failed
    → state_at (perform_failover fm from reason now).0.nodes k ≡ some failed
failover-failed fm from reason now k g h = elim (perform_failover-Outcome fm from reason now) [
  | inl (_, nodes, _) ↦ rw nodes h
  | inr (c, e, _, _, nodes, _) ↦ rw nodes (
      adjust-failed _ from k (with_state failed) (λ n found dead. refl)
        (hand_over-failed fm.nodes fm.active_node c.id k c g.one (candidate_at fm c g e).0
          (candidate_at fm c g e).2 h))
]

heartbeat-failed :
    (fm : FailoverManager) (id : String) (n : Node) (now : ℕ) (k : String)
    → IsSound fm
    → state_at fm.nodes k ≡ some failed
    → state_at (check_heartbeat fm id n now).nodes k ≡ some failed
unfolding check_heartbeat
heartbeat-failed fm id n now k g h =
    elim (Bool-cases (ltb (n.last_heartbeat + fm.config.heartbeat_timeout) now)) [
      | inr alive ↦ rw alive h
      | inl late ↦ elim (Bool-cases (is_active n.state)) [
        | inl on ↦ rw (late, on) (failover-failed fm id "heartbeat timeout" now k g h)
        | inr off ↦
            rw (late, off)
              (adjust-failed fm.nodes id k (with_state failed) (λ m found dead. refl) h)
      ]
    ]

score-failed :
    (fm : FailoverManager) (id : String) (score : ℤ) (now : ℕ) (k : String)
    → IsSound fm
    → state_at fm.nodes k ≡ some failed
    → state_at (act_on_score fm id score now).nodes k ≡ some failed
unfolding act_on_score
score-failed fm id score now k g h = elim (Option-cases (lookup id fm.nodes)) [
  | inl e ↦ rw (e, act_on_score) h
  | inr (n, e) ↦ elim (Bool-cases (ltb_ℤ score (pos 50) && is_active n.state)) [
    | inl low ↦ rw (e, act_on_score) (rw low (failover-failed fm id "low health score" now k g h))
    | inr fine ↦ rw (e, act_on_score) (rw fine h)
  ]
]

with_score-failed :
    (fm : FailoverManager) (id : String) (score : ℤ) (k : String)
    → state_at fm.nodes k ≡ some failed
    → state_at (with_score fm id score).nodes k ≡ some failed
unfolding with_score
with_score-failed fm id score k h =
    adjust-failed fm.nodes id k (λ m. record m { health_score = score }) (λ m found dead. dead) h

scored-IsSound :
    (fm : FailoverManager) (id : String) (score : ℤ) → IsSound fm → IsSound (with_score fm id score)
unfolding with_score
scored-IsSound fm id score g =
    adjust-Good _ _ id (λ m. record m { health_score = score }) (λ m. refl) (λ m found. refl) g

check_node-failed :
    (checker : Option (String → ℤ)) (now : ℕ) (fm : FailoverManager) (id k : String)
    → IsSound fm
    → state_at fm.nodes k ≡ some failed
    → state_at (check_node checker now fm id).nodes k ≡ some failed
unfolding check_node
check_node-failed none now fm id k g h = elim (Option-cases (lookup id fm.nodes)) [
  | inl e ↦ rw (e, check_node) h
  | inr (n, e) ↦ rw (e, check_node) (heartbeat-failed fm id n now k g h)
]
check_node-failed (some score) now fm id k g h = elim (Option-cases (lookup id fm.nodes)) [
  | inl e ↦ rw (e, check_node) h
  | inr (n, e) ↦
      rw (e, check_node)
        (score-failed (with_score (check_heartbeat fm id n now) id (score id)) id (score id) now k
          (scored-IsSound (check_heartbeat fm id n now) id (score id)
            (check_heartbeat-IsSound fm id n now e g))
          (with_score-failed (check_heartbeat fm id n now) id (score id) k
            (heartbeat-failed fm id n now k g h)))
]

check_each-failed :
    (checker : Option (String → ℤ)) (now : ℕ) (fm : FailoverManager) (ids : List String)
    (k : String)
    → IsSound fm
    → state_at fm.nodes k ≡ some failed
    → state_at (check_each checker now fm ids).nodes k ≡ some failed
unfolding check_each
check_each-failed checker now fm [] k g h = h
check_each-failed checker now fm (id ∷ ids) k g h =
    check_each-failed checker now (check_node checker now fm id) ids k
      (check_node-IsSound checker now fm id g) (check_node-failed checker now fm id k g h)

manual-failed :
    (fm : FailoverManager) (to reason : String) (now : ℕ) (k : String)
    → IsSound fm
    → state_at fm.nodes k ≡ some failed
    → state_at (perform_manual_failover fm to reason now).0.nodes k ≡ some failed
unfolding perform_manual_failover
manual-failed fm to reason now k g h = elim (Option-cases (lookup to fm.nodes)) [
  | inl e ↦ rw (e, perform_manual_failover) h
  | inr (n, e) ↦ elim (Bool-cases (is_standby n.state)) [
    | inr busy ↦ rw (e, perform_manual_failover) (rw busy h)
    | inl ready ↦ elim (Bool-cases (ltb_ℤ n.health_score (pos 70))) [
      | inl sick ↦ rw (e, perform_manual_failover) (rw (ready, sick) h)
      | inr well ↦
          rw (e, perform_manual_failover)
            (rw (ready, well)
              (rw retire-nodes (hand_over-failed fm.nodes fm.active_node to k n g.one e ready h)))
    ]
  ]
]

-- The calls other than the addition and the removal of nodes.
abbrev pub Runs : Call → Type 0
Runs (adds node) = ⊥
Runs (removes id now) = ⊥
Runs (beats id now) = Unit
Runs (checks checker now) = Unit
Runs (fails_over_to to reason now) = Unit
Runs receives = Unit

-- In a sound manager no call but an addition or a removal takes a node out of the failed state: not a
-- heartbeat, a good health score, nor a manual failover.
pub step-failed :
    (fm : FailoverManager) (c : Call) (k : String)
    → IsSound fm
    → Runs c
    → state_at fm.nodes k ≡ some failed
    → state_at (step fm c).nodes k ≡ some failed
unfolding step update_heartbeat check_nodes_health receive_event
step-failed fm (adds node) k g runs h = absurd runs
step-failed fm (removes id now) k g runs h = absurd runs
step-failed fm (beats id now) k g runs h =
    adjust-failed fm.nodes id k (λ n. record n { last_heartbeat = now }) (λ n found dead. dead) h
step-failed fm (checks checker now) k g runs h =
    check_each-failed checker now fm (keys fm.nodes) k g h
step-failed fm (fails_over_to to reason now) k g runs h = manual-failed fm to reason now k g h
step-failed fm receives k g runs h = ground arith

-- An active node of a sound manager cannot be removed while no other is eligible, so the last node of
-- a cluster never can: the call fails and changes nothing.
pub remove_node_refused :
    (fm : FailoverManager) (id : String) (now : ℕ) (n : Node)
    → lookup id fm.nodes ≡ some n
    → is_active_node fm id ≡ true
    → ((m : Node) → Among m (values fm.nodes) → is_eligible m ≡ false)
    → remove_node fm id now ≡ (fm, some (failover_failed no_candidate))
unfolding remove_node perform_failover
remove_node_refused fm id now n found act alone =
    elim (Option-cases (select_failover_candidate fm)) [
      | inl e ↦ ground (arith, e)
      | inr (c, e) ↦
          let best : IsBest (values fm.nodes) (some c) =
            subst (IsBest (values fm.nodes)) e (select_failover_candidate-IsBest fm) in
          absurd (ground (arith, alone c best.0, best.1))
    ]
