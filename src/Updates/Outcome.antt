-- ===== src/Updates/Outcome.antt =====
-- How a rolling update ends: it finishes, is cancelled, or rolls back, at the first batch that says so.
use mathlib.Core.List.{append-nil}
use net_llm.Prelude.{
  ℕ, zero, suc, ◌+◌, ◌*◌, ◌==◌, ◌<◌, ◌≤◌, String, Bool, true, false, not, ◌&&◌, Option, none, some,
  List, [], ◌++◌, ◌≡◌, refl, sym, ap, subst, ◌∙◌, ◌⊎◌, inl, inr, take, length, if◌then◌else◌,
  take_all, Bool-cases, arith,
}
use net_llm.Prelude.Int.{ℤ}
use net_llm.Prelude.Dict.{Dict}
use net_llm.Failover.State.{Node}
use net_llm.Updates.State.{UpdateManager, VersionInfo, update_failed}
use net_llm.Updates.Methods.{
  Run, verify_batch_health, score_at, rolling_from, perform_rolling_update,
}
use net_llm.Updates.Touched.{
  node_events, all_active, all_active-append, all_active-Touched, with_events, Touched,
}
use net_llm.Updates.Rollback.{after_rollback, after_update, complete-some, perform_rollback-some}
use net_llm.Updates.Batches.{batch_count, um_at, heap_at, batch_at, next_batch, batch_count_enough}

module _ (cancelled : ℕ → Bool) (score : Option (ℕ → String → ℤ)) (again : List String)
    (um : UpdateManager) (heap : Dict Node) (v w : VersionInfo) where
  -- A batch that is not cancelled, and is healthy if an unhealthy one is rolled back.
  abbrev pub IsPassed : ℕ → Type 0
  IsPassed b =
      (cancelled b ≡ false)
      × ((not (verify_batch_health (score_at score b) (batch_at um b))
            && um.config.rollback_on_failure)
          ≡ false)

  -- All batches pass, every node is active, and the target is the current version.
  abbrev pub Finished : Run → Type 0
  Finished r =
      ((j : ℕ) → j < batch_count um → IsPassed j)
      × ((heap' : Dict Node) × Touched um.nodes heap heap'
          × (r
              ≡ some (
                after_update (with_events um (node_events v w um.nodes)) w
                    "Update completed successfully",
                heap',
              )))

  -- A batch is cancelled: the nodes of the batches before it are updated, and the others as they were.
  abbrev pub Cancelled : Run → Type 0
  Cancelled r =
      (b : ℕ) × (b < batch_count um)
      × ((j : ℕ) → j < b → IsPassed j)
      × (cancelled b ≡ true)
      × ((heap' : Dict Node) × Touched (take (b * um.config.batch_size) um.nodes) heap heap'
          × (r ≡ some (record (um_at um v w b) { status = update_failed }, heap')))

  -- A batch is not healthy: it is updated, and then all nodes are taken back.
  abbrev pub TakenBack : Run → Type 0
  TakenBack r =
      (b : ℕ) × (b < batch_count um)
      × ((j : ℕ) → j < b → IsPassed j)
      × (cancelled b ≡ false)
      × (verify_batch_health (score_at score b) (batch_at um b) ≡ false)
      × (um.config.rollback_on_failure ≡ true)
      × ((heap' : Dict Node) × Touched (take (suc b * um.config.batch_size) um.nodes ++ again) heap
            heap'
          × (r ≡ some (after_rollback (um_at um v w (suc b)) v again, heap')))

  abbrev pub Outcome : Run → Type 0
  Outcome r = Finished r ⊎ (Cancelled r ⊎ TakenBack r)

  -- The first of the ways on that a batch takes.
  abbrev way : Bool → Bool → Run → Run → Run → Run
  way true _ a b c = a
  way false true a b c = b
  way false false a b c = c

  rolling_from-way :
      (left b : ℕ)
      → um.current_version ≡ some v
      → um.target_version ≡ some w
      → rolling_from cancelled score again
          (suc left)
          b
          um.nodes
          (um_at um v w b)
          (heap_at um heap b)
        ≡ way
            (cancelled b)
            (not (verify_batch_health (score_at score b) (batch_at um b))
              && um.config.rollback_on_failure)
            (some (record (um_at um v w b) { status = update_failed }, heap_at um heap b))
            (some (
              after_rollback (um_at um v w (suc b)) v again,
              all_active again (heap_at um heap (suc b)),
            ))
            (rolling_from cancelled score again left
              (suc b)
              um.nodes
              (um_at um v w (suc b))
              (heap_at um heap (suc b)))
  unfolding rolling_from
  rolling_from-way left b hv hw = elim (Bool-cases (cancelled b)) [
    | inl stop ↦ rw (rolling_from, stop) refl
    | inr go ↦
        elim (Bool-cases (
          not (verify_batch_health (score_at score b) (batch_at um b))
          && um.config.rollback_on_failure)) [
            | inl bad ↦
                rw (rolling_from, go)
                  (rw (next_batch um heap v w b hv hw, bad)
                    (perform_rollback-some (um_at um v w (suc b)) (heap_at um heap (suc b)) v again
                      hv))
            | inr well ↦ rw (rolling_from, go) (rw (next_batch um heap v w b hv hw, well) refl)
          ]
  ]

  -- The last batch is done.
  finish :
      length um.nodes ≤ batch_count um * um.config.batch_size
      → um.target_version ≡ some w
      → ((j : ℕ) → j < batch_count um → IsPassed j)
      → Outcome (
          rolling_from cancelled score again 0
            (batch_count um)
            um.nodes
            (um_at um v w (batch_count um))
            (heap_at um heap (batch_count um)))
  unfolding rolling_from
  finish enough hw passed = inl (
    passed,
    (
      all_active um.nodes heap,
      all_active-Touched um.nodes heap,
      complete-some (um_at um v w (batch_count um)) (heap_at um heap (batch_count um)) w
            "Update completed successfully" hw
          ∙ ap
              (λ l. some (
                after_update (with_events um (node_events v w l)) w "Update completed successfully",
                all_active l heap,
              ))
              (take_all um.nodes (batch_count um * um.config.batch_size) enough),
    ),
  )

  take_back :
      (b : ℕ)
      → b < batch_count um
      → ((j : ℕ) → j < b → IsPassed j)
      → cancelled b ≡ false
      → (not (verify_batch_health (score_at score b) (batch_at um b))
          && um.config.rollback_on_failure)
        ≡ true
      → Outcome (
          some (
            after_rollback (um_at um v w (suc b)) v again,
            all_active again (heap_at um heap (suc b)),
          ))
  take_back b lt passed go bad =
      let done = take (suc b * um.config.batch_size) um.nodes in
      inr (
        inr (
          b,
          lt,
          passed,
          go,
          ground arith,
          ground arith,
          (
            all_active again (heap_at um heap (suc b)),
            subst (Touched (done ++ again) heap) (all_active-append done again heap)
                (all_active-Touched (done ++ again) heap),
            refl,
          ),
        ))

  before_next :
      (b : ℕ) → ((j : ℕ) → j < b → IsPassed j) → IsPassed b → (j : ℕ) → j < suc b → IsPassed j
  before_next b passed here j lt = elim (Bool-cases (j == b)) [
    | inl same ↦ subst IsPassed {x = b} {y = j} (ground arith) here
    | inr ne ↦ passed j (ground arith)
  ]

  pick :
      (c d : Bool) (x y z : Run)
      → (c ≡ true → Outcome x)
      → (c ≡ false → d ≡ true → Outcome y)
      → (c ≡ false → d ≡ false → Outcome z)
      → Outcome (way c d x y z)
  pick true d x y z f g h = f refl
  pick false true x y z f g h = g refl refl
  pick false false x y z f g h = h refl refl

  rolling_from-Outcome :
      (left b : ℕ)
      → um.current_version ≡ some v
      → um.target_version ≡ some w
      → length um.nodes ≤ batch_count um * um.config.batch_size
      → b + left ≡ batch_count um
      → ((j : ℕ) → j < b → IsPassed j)
      → Outcome
          (rolling_from cancelled score again left b um.nodes (um_at um v w b) (heap_at um heap b))
  rolling_from-Outcome zero b hv hw enough at passed =
      let e : batch_count um ≡ b = omega arith in
      subst
        (λ k.
          Outcome
            (rolling_from cancelled score again 0 k um.nodes (um_at um v w k) (heap_at um heap k)))
        e (finish enough hw (subst (λ k. (j : ℕ) → j < k → IsPassed j) (sym e) passed))
  rolling_from-Outcome (suc left) b hv hw enough at passed =
      let before = take (b * um.config.batch_size) um.nodes in
      subst Outcome (sym (rolling_from-way left b hv hw)) (
        pick _ _ _ _ _
          (λ stop. inr (
            inl (
              b,
              omega arith,
              passed,
              stop,
              (heap_at um heap b, all_active-Touched before heap, refl),
            )))
          (λ go bad. take_back b (omega arith) passed go bad)
          (λ go well.
            rolling_from-Outcome left (suc b) hv hw enough (omega arith)
              (before_next b passed (go, well))))

-- A rolling update with both versions set and a batch size that is not 0 always ends, in one of three
-- ways. All batches pass: then the status is completed, the target is the current version, each node has
-- an event, in order, and is active. Or the batches pass up to one that is cancelled: then the status is
-- failed, and only the nodes of the batches before it have their event and are active. Or the batches
-- pass up to one that is not healthy, and a failure is rolled back: then the nodes up to this batch have
-- their event, then each node has one back to the current version, all of these are active, the target
-- is the current version, and the status is rolled back. No other node changes.
pub perform_rolling_update-Outcome :
    (cancelled : ℕ → Bool) (score : Option (ℕ → String → ℤ)) (again : List String)
    (um : UpdateManager) (heap : Dict Node) (v w : VersionInfo)
    → um.current_version ≡ some v
    → um.target_version ≡ some w
    → 1 ≤ um.config.batch_size
    → Outcome cancelled score again um heap v w
        (perform_rolling_update cancelled score again um heap)
unfolding perform_rolling_update
perform_rolling_update-Outcome cancelled score again um heap v w hv hw h =
    let start =
      rolling_from-Outcome cancelled score again um heap v w (batch_count um) 0 hv hw
        (batch_count_enough um h) (omega arith) (λ j lt. absurd (omega arith)) in
    let same : ◌≡◌ {A = UpdateManager × Dict Node} (um_at um v w 0, heap_at um heap 0) (um, heap) =
      ap (λ l. (with_events um (node_events v w l), all_active l heap))
        {x = take (0 * um.config.batch_size) um.nodes} {y = []}
        (ap (λ k. take k um.nodes) {x = 0 * um.config.batch_size} {y = 0} (omega arith))
      ∙ ap (λ es. (record um { events = es }, heap)) (append-nil um.events) in
    let some_size : (um.config.batch_size == 0) ≡ false = ground arith in
    subst (Outcome cancelled score again um heap v w)
      (ap {A = UpdateManager × Dict Node}
          (λ p. rolling_from cancelled score again (batch_count um) 0 um.nodes p.0 p.1) same
        ∙ sym (
            ap
              (λ c.
                if c
                then none
                else rolling_from cancelled score again (batch_count um) 0 um.nodes um heap)
              some_size))
      start
