-- ===== src/Updates/Failover.antt =====
-- Updates and failover of the same nodes. `SetFailoverManager` only stores the failover manager, and
-- `updateNode` sets the states of the nodes without it.
use net_llm.Prelude.{
  ℕ, ◌<◌, ◌≤◌, String, Bool, true, Option, none, some, List, ◌≡◌, ◌≢◌, refl, sym, subst, ◌∙◌, inl,
  inr, arith,
}
use net_llm.Prelude.Int.{ℤ}
use net_llm.Prelude.Dict.{Dict, lookup}
use net_llm.Failover.State.{FailoverManager, Node}
use net_llm.Failover.Nodes.{OneActive, is_active_at}
use net_llm.Failover.Invariant.{IsSound}
use net_llm.Updates.State.{UpdateManager, VersionInfo, completed, has_id}
use net_llm.Updates.Methods.{perform_rolling_update}
use net_llm.Updates.Touched.{Touched}
use net_llm.Updates.Batches.{batch_count}
use net_llm.Updates.Outcome.{IsPassed, Finished, perform_rolling_update-Outcome}

active_after :
    (ids : List String) (heap heap' : Dict Node) (id : String) (n : Node)
    → Touched ids heap heap'
    → has_id id ids ≡ true
    → lookup id heap ≡ some n
    → is_active_at heap' id ≡ true
active_after ids heap heap' id n t in_ids found = ground (arith, t id)

two_active :
    (m : Dict Node) (act : Option String) (a b : String)
    → a ≢ b
    → is_active_at m a ≡ true
    → is_active_at m b ≡ true
    → ¬ OneActive m act
two_active m none a b ne on_a on_b one = ground (arith, one a)
two_active m (some c) a b ne on_a on_b one = ne (one.1 a on_a ∙ sym (one.1 b on_b))

all_passed-Finished :
    (cancelled : ℕ → Bool) (score : Option (ℕ → String → ℤ)) (again : List String)
    (um : UpdateManager) (heap : Dict Node) (v w : VersionInfo)
    → um.current_version ≡ some v
    → um.target_version ≡ some w
    → 1 ≤ um.config.batch_size
    → ((j : ℕ) → j < batch_count um → IsPassed cancelled score again um heap v w j)
    → Finished cancelled score again um heap v w
        (perform_rolling_update cancelled score again um heap)
all_passed-Finished cancelled score again um heap v w hv hw h passed =
    elim (perform_rolling_update-Outcome cancelled score again um heap v w hv hw h) [
      | inl done ↦ done
      | inr (inl (b, lt, before, stop, rest)) ↦ absurd (ground (arith, passed b lt))
      | inr (inr (b, lt, before, go, sick, back, rest)) ↦ absurd (ground (arith, passed b lt))
    ]

-- The update ends as completed, both nodes are active, and no failover manager is sound with the nodes.
abbrev pub TwoActive : String → String → Option (UpdateManager × Dict Node) → Type 0
TwoActive a b r =
    (um : UpdateManager) × (heap : Dict Node) × (r ≡ some (um, heap))
    × (um.status ≡ completed)
    × (is_active_at heap a ≡ true)
    × (is_active_at heap b ≡ true)
    × ((fm : FailoverManager) → fm.nodes ≡ heap → ¬ IsSound fm)

-- When both versions are set, the batch size is not 0, and no batch is cancelled or rolled back, then a
-- rolling update completes; of any two different nodes that it updates both are active afterwards, so
-- that a failover manager with these nodes no longer holds at most one node active.
pub perform_rolling_update-TwoActive :
    (cancelled : ℕ → Bool) (score : Option (ℕ → String → ℤ)) (again : List String)
    (um : UpdateManager) (heap : Dict Node) (v w : VersionInfo) (a b : String) (n m : Node)
    → um.current_version ≡ some v
    → um.target_version ≡ some w
    → 1 ≤ um.config.batch_size
    → ((j : ℕ) → j < batch_count um → IsPassed cancelled score again um heap v w j)
    → a ≢ b
    → has_id a um.nodes ≡ true
    → has_id b um.nodes ≡ true
    → lookup a heap ≡ some n
    → lookup b heap ≡ some m
    → TwoActive a b (perform_rolling_update cancelled score again um heap)
perform_rolling_update-TwoActive cancelled score again um heap v w a b n m hv hw h passed ne in_a
      in_b at_a at_b =
    let (_, (heap', touched, e)) =
      all_passed-Finished cancelled score again um heap v w hv hw h passed in
    let on_a = active_after um.nodes heap heap' a n touched in_a at_a in
    let on_b = active_after um.nodes heap heap' b m touched in_b at_b in
    (
      _,
      heap',
      e,
      refl,
      on_a,
      on_b,
      λ fm same good.
          two_active heap' fm.active_node a b ne on_a on_b
            (subst (λ k. OneActive k fm.active_node) same good.one),
    )
