-- ===== src/Health/Silent.antt =====
-- Histories: no check ever reaches a node.
use net_llm.Prelude.{
  ℕ, String, Option, none, some, List, [], ◌∷◌, ◌++◌, ◌≡◌, ◌≢◌, refl, sym, ap, subst, All, str_eq,
  eq_iff, Option-cases, Bool-cases, inl, inr, arith, ltb, length,
}
use net_llm.Prelude.Int.{pos}
use net_llm.Prelude.Dict.{lookup, values, lookup-insert, lookup-delete}
use net_llm.Health.{
  HealthChecker, HealthCheckConfig, HealthCheckResult, NodeHealth, Probes, new,
  register_health_check, unregister_health_check, register_node, unregister_node,
  perform_health_checks, execute_health_check, send, send_each, process_result, process_next,
  update_node_health, get_node_health_score, unchecked,
}

pub data Call : Type 0 where
  registers_check : HealthCheckConfig → Call
  unregisters_check : String → Call
  registers : String → Call
  unregisters : String → Call
  checks : Probes → ℕ → Call
  processes : Call

unfoldable pub step : HealthChecker → Call → Option HealthChecker
step hc (registers_check config) = some (register_health_check hc config).0
step hc (unregisters_check id) = some (unregister_health_check hc id).0
step hc (registers id) = some (register_node hc id).0
step hc (unregisters id) = some (unregister_node hc id).0
step hc (checks probes now) = some (perform_health_checks hc probes now)
step hc processes = process_result hc

unfoldable pub run : HealthChecker → List Call → Option HealthChecker
run hc [] = some hc
run hc (x ∷ xs) = elim (step hc x) [ none ↦ none | some next ↦ run next xs ]

-- No node is registered without a name.
abbrev pub Names : Call → Type 0
Names (registers id) = id ≢ ""
Names _ = Unit

-- Each result is of no node, no node has the empty name, and each node is as it was registered.
pub record IsSilent (hc : HealthChecker) : Type 0 where
  pub anonymous : All (λ r. r.node_id ≡ "") hc.results
  pub named : lookup "" hc.node_health ≡ none
  pub zero_scores :
      (id : String) (nh : NodeHealth) → lookup id hc.node_health ≡ some nh → nh ≡ unchecked id

pub new-IsSilent : IsSilent new
unfolding new
new-IsSilent = record {
  anonymous = tt;
  named = refl;
  zero_scores = λ id nh e. absurd (ground (arith, e));
}

abbrev AllAnonymous : List HealthCheckResult → Type 0
AllAnonymous = All (λ r. r.node_id ≡ "")

one_more :
    (r : HealthCheckResult) (rs : List HealthCheckResult)
    → r.node_id ≡ ""
    → AllAnonymous rs
    → AllAnonymous (rs ++ (r ∷ []))
one_more r [] e h = (e, tt)
one_more r (x ∷ xs) e h = (h.0, one_more r xs e h.1)

send_each-AllAnonymous :
    (probes : Probes) (now : ℕ) (cs : List HealthCheckConfig) (rs : List HealthCheckResult)
    → AllAnonymous rs
    → AllAnonymous (send_each probes now cs rs)
unfolding execute_health_check
send_each-AllAnonymous probes now [] rs h = h
send_each-AllAnonymous probes now (c ∷ cs) rs h =
    let r = execute_health_check probes now c in
    send_each-AllAnonymous probes now cs (send r rs) (elim (Bool-cases (ltb (length rs) 1000)) [
      | inl room ↦ rw room (one_more r rs refl h)
      | inr full ↦ rw full h
    ])

register_node-IsSilent :
    (hc : HealthChecker) (id : String) → id ≢ "" → IsSilent hc → IsSilent (register_node hc id).0
unfolding register_node
register_node-IsSilent hc id ne h = elim (Option-cases (lookup id hc.node_health)) [
  | inr (nh, found) ↦ rw (register_node, found) h
  | inl absent ↦
      rw (register_node, absent)
        record {
          anonymous = h.anonymous;
          named =
              ground
                (arith, lookup-insert id "" (unchecked id) hc.node_health, eq_iff id "", h.named);
          zero_scores = λ k nh e. elim (Bool-cases (str_eq id k)) [
            | inl same ↦
                subst (λ j. nh ≡ unchecked j) {x = id} {y = k} (ground (arith, eq_iff id k))
                  (ground (arith, lookup-insert id k (unchecked id) hc.node_health, e))
            | inr other ↦
                h.zero_scores k nh
                  (ground (arith, lookup-insert id k (unchecked id) hc.node_health, e))
          ];
        }
]

unregister_node-IsSilent :
    (hc : HealthChecker) (id : String) → IsSilent hc → IsSilent (unregister_node hc id).0
unfolding unregister_node
unregister_node-IsSilent hc id h = elim (Option-cases (lookup id hc.node_health)) [
  | inl absent ↦ rw (unregister_node, absent) h
  | inr (nh, found) ↦
      rw (unregister_node, found)
        record {
          anonymous = h.anonymous;
          named = ground (arith, lookup-delete id "" hc.node_health, h.named);
          zero_scores =
              λ k nh e. h.zero_scores k nh (ground (arith, lookup-delete id k hc.node_health, e));
        }
]

register_health_check-IsSilent :
    (hc : HealthChecker) (config : HealthCheckConfig)
    → IsSilent hc
    → IsSilent (register_health_check hc config).0
unfolding register_health_check
register_health_check-IsSilent hc config h = elim (Bool-cases (str_eq config.id "")) [
  | inl nameless ↦ rw (register_health_check, nameless) h
  | inr ok ↦ elim (Option-cases (lookup config.id hc.configs)) [
    | inl absent ↦
        rw (register_health_check, ok)
          (rw absent
            record { anonymous = h.anonymous; named = h.named; zero_scores = h.zero_scores })
    | inr (c, found) ↦ rw (register_health_check, ok) (rw found h)
  ]
]

unregister_health_check-IsSilent :
    (hc : HealthChecker) (id : String) → IsSilent hc → IsSilent (unregister_health_check hc id).0
unfolding unregister_health_check
unregister_health_check-IsSilent hc id h = elim (Option-cases (lookup id hc.configs)) [
  | inl absent ↦ rw (unregister_health_check, absent) h
  | inr (c, found) ↦
      rw (unregister_health_check, found)
        record { anonymous = h.anonymous; named = h.named; zero_scores = h.zero_scores }
]

-- A call ends, and leaves the checker silent.
abbrev pub StaysSilent : Option HealthChecker → Type 0
StaysSilent r = (hc : HealthChecker) × (r ≡ some hc) × IsSilent hc

process_next-StaysSilent :
    (hc : HealthChecker) (rs : List HealthCheckResult)
    → AllAnonymous rs
    → IsSilent hc
    → StaysSilent (process_next hc rs)
unfolding update_node_health
process_next-StaysSilent hc [] all h = (hc, refl, h)
process_next-StaysSilent hc (r ∷ rs) all h =
    let nowhere : lookup r.node_id hc.node_health ≡ none =
      subst (λ id. lookup id hc.node_health ≡ none) (sym all.0) h.named in
    (
      record hc { results = rs },
      rw (update_node_health, nowhere) refl,
      record { anonymous = all.1; named = h.named; zero_scores = h.zero_scores },
    )

step-StaysSilent : (hc : HealthChecker) (x : Call) → Names x → IsSilent hc → StaysSilent (step hc x)
unfolding step perform_health_checks process_result
step-StaysSilent hc (registers_check config) ok h =
    (_, refl, register_health_check-IsSilent hc config h)
step-StaysSilent hc (unregisters_check id) ok h =
    (_, refl, unregister_health_check-IsSilent hc id h)
step-StaysSilent hc (registers id) ok h = (_, refl, register_node-IsSilent hc id ok h)
step-StaysSilent hc (unregisters id) ok h = (_, refl, unregister_node-IsSilent hc id h)
step-StaysSilent hc (checks probes now) ok h = (
  _,
  refl,
  record {
    anonymous = send_each-AllAnonymous probes now (values hc.configs) hc.results h.anonymous;
    named = h.named;
    zero_scores = h.zero_scores;
  },
)
step-StaysSilent hc processes ok h = process_next-StaysSilent hc hc.results h.anonymous h

pub run-StaysSilent :
    (hc : HealthChecker) (xs : List Call) → All Names xs → IsSilent hc → StaysSilent (run hc xs)
unfolding run
run-StaysSilent hc [] ok h = (hc, refl, h)
run-StaysSilent hc (x ∷ xs) ok h =
    let (next, e, silent) = step-StaysSilent hc x ok.0 h in
    rw (run, e) (run-StaysSilent next xs ok.1 silent)

pub score-zero :
    (hc : HealthChecker) (id : String) → IsSilent hc → get_node_health_score hc id ≡ pos 0
unfolding get_node_health_score
score-zero hc id h = elim (Option-cases (lookup id hc.node_health)) [
  | inl absent ↦ rw (get_node_health_score, absent) refl
  | inr (nh, found) ↦
      rw (get_node_health_score, found) (ap (λ n. pos n.overall_score) (h.zero_scores id nh found))
]
