-- ===== src/Health/Updates.antt =====
-- Rolling updates that ask a health checker.
use net_llm.Prelude.{
  ℕ, zero, suc, ◌*◌, ◌<◌, ◌≤◌, String, Bool, true, false, some, List, [], ◌∷◌, ◌≡◌, refl, subst,
  inl, inr, All, take, drop, length, Bool-cases, ◌==◌, arith,
}
use net_llm.Prelude.Int.{ℤ, pos}
use net_llm.Prelude.Dict.{Dict}
use net_llm.Failover.State.{Node}
use net_llm.Health.{HealthChecker, new, get_node_health_score}
use net_llm.Health.Silent.{Call, Names, IsSilent, run, run-StaysSilent, new-IsSilent, score-zero}
use net_llm.Updates.State.{UpdateManager, VersionInfo}
use net_llm.Updates.Methods.{verify_batch_health, perform_rolling_update}
use net_llm.Updates.Batches.{batch_count, batch_at, batch_count_enough}
use net_llm.Updates.Outcome.{IsPassed, TakenBack, perform_rolling_update-Outcome}

-- Some calls on a new checker led to this one.
abbrev pub IsReached : HealthChecker → Type 0
IsReached hc = (xs : List Call) × All Names xs × (run new xs ≡ some hc)

reached-zero :
    (hc : HealthChecker) (id : String) → IsReached hc → get_node_health_score hc id ≡ pos 0
reached-zero hc id (xs, named, e) =
    let (hc', e', silent) = run-StaysSilent new xs named new-IsSilent in
    let same : hc' ≡ hc = cc in score-zero hc id (subst IsSilent same silent)

verify_batch_health-zero :
    (score : String → ℤ) (ids : List String)
    → 1 ≤ length ids
    → ((id : String) → score id ≡ pos 0)
    → verify_batch_health (some score) ids ≡ false
unfolding verify_batch_health
verify_batch_health-zero score [] h zeros = absurd (omega arith)
verify_batch_health-zero score (id ∷ ids) h zeros = rw (zeros id) refl

first_batch :
    (size : ℕ) (nodes : List String) → 1 ≤ size → 1 ≤ length nodes → 1 ≤ length (take size nodes)
first_batch zero nodes h k = absurd (omega arith)
first_batch (suc size) [] h k = absurd (omega arith)
first_batch (suc size) (id ∷ ids) h k = omega arith

batch_at-first :
    (um : UpdateManager)
    → 1 ≤ um.config.batch_size
    → 1 ≤ length um.nodes
    → 1 ≤ length (batch_at um 0)
batch_at-first um h k =
    subst (λ n. 1 ≤ length (take um.config.batch_size (drop n um.nodes))) {x = 0}
      {y = 0 * um.config.batch_size} (omega arith) (first_batch um.config.batch_size um.nodes h k)

factor_positive : (n size l : ℕ) → 1 ≤ l → l ≤ n * size → 0 < n
factor_positive zero size l h k = absurd (omega arith)
factor_positive (suc n) size l h k = omega arith

some_batch :
    (um : UpdateManager) → 1 ≤ um.config.batch_size → 1 ≤ length um.nodes → 0 < batch_count um
some_batch um h k =
    factor_positive (batch_count um) um.config.batch_size (length um.nodes) k
      (batch_count_enough um h)

-- Take the scores that a health checker gives, for each batch after any calls on a new checker of which
-- none registers a node with an empty name. Then a rolling update of at least one node, with both
-- versions set, a batch size that is not 0 and rollback on failure, that is not cancelled before its
-- first batch, is rolled back for a batch that is not healthy, whatever the checks answered.
pub perform_rolling_update-TakenBack :
    (checker : ℕ → HealthChecker) (cancelled : ℕ → Bool) (again : List String) (um : UpdateManager)
    (heap : Dict Node) (v w : VersionInfo)
    → ((b : ℕ) → IsReached (checker b))
    → um.current_version ≡ some v
    → um.target_version ≡ some w
    → 1 ≤ um.config.batch_size
    → 1 ≤ length um.nodes
    → um.config.rollback_on_failure ≡ true
    → cancelled 0 ≡ false
    → TakenBack cancelled (some (λ b id. get_node_health_score (checker b) id)) again um heap v w (
        perform_rolling_update cancelled
          (some (λ b id. get_node_health_score (checker b) id))
          again
          um
          heap)
perform_rolling_update-TakenBack checker cancelled again um heap v w reached hv hw h k back go =
    let score : ℕ → String → ℤ = λ b id. get_node_health_score (checker b) id in
    let sick =
      verify_batch_health-zero (score 0) (batch_at um 0) (batch_at-first um h k)
        (λ id. reached-zero (checker 0) id (reached 0)) in
    let not_passed : ¬ IsPassed cancelled (some score) again um heap v w 0 =
      λ p. absurd (ground (arith, p.1, sick, back)) in
    elim (perform_rolling_update-Outcome cancelled (some score) again um heap v w hv hw h) [
      | inl (passed, done) ↦ absurd (not_passed (passed 0 (some_batch um h k)))
      | inr (inl (b, lt, before, stop, rest)) ↦ elim (Bool-cases (b == 0)) [
        | inl first ↦ absurd (
            ground (arith, go, subst (λ j. cancelled j ≡ true) {x = b} {y = 0} (ground arith) stop))
        | inr later ↦ absurd (not_passed (before 0 (ground arith)))
      ]
      | inr (inr taken) ↦ taken
    ]
