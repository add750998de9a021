-- ===== src/LoadBalance/Methods.antt =====
-- The methods of the load balancer.
use net_llm.Prelude.{
  ℕ, String, Option, none, some, List, [], ◌∷◌, ◌++◌, if◌then◌else◌, select, str_eq,
}
use net_llm.Prelude.Int.{ℤ, leb_ℤ}
use net_llm.Prelude.Dict.{Dict, lookup, insert, delete}
use net_llm.LoadBalance.State.{
  LoadBalanceAlgorithm, round_robin, weighted_round_robin, least_connections, health_based, random,
  ip_hash, Backend, LoadBalancer, Error, backend_exists, backend_not_found, no_healthy, panics,
  Result, ok, err, decrement_connections, is_up, is_healthy,
}
use net_llm.LoadBalance.Choice.{
  select_round_robin, select_weighted_round_robin, select_least_connections, select_health_based,
  select_random,
}

abbrev pub find : String → List Backend → Option Backend
find id [] = none
find id (b ∷ bs) = let rest = find id bs in if str_eq b.id id then some b else rest

-- A write through the pointer that the map holds.
abbrev pub change : String → (Backend → Backend) → List Backend → List Backend
change id f [] = []
change id f (b ∷ bs) = let rest = change id f bs in if str_eq b.id id then f b ∷ bs else b ∷ rest

abbrev pub remove_first : String → List Backend → List Backend
remove_first id [] = []
remove_first id (b ∷ bs) = let rest = remove_first id bs in if str_eq b.id id then bs else b ∷ rest

abbrev pub forget : String → Dict String → Dict String
forget id [] = []
forget id ((session, b) ∷ m) =
    let rest = forget id m in if str_eq b id then rest else (session, b) ∷ rest

unfoldable pub add_backend : LoadBalancer → Backend → LoadBalancer × Option Error
add_backend lb b = elim (find b.id lb.backend_list) [
  | some _ ↦ (lb, some backend_exists)
  | none ↦ (record lb { backend_list = lb.backend_list ++ (b ∷ []) }, none)
]

unfoldable pub remove_backend : LoadBalancer → String → LoadBalancer × Option Error
remove_backend lb id = elim (find id lb.backend_list) [
  | none ↦ (lb, some backend_not_found)
  | some _ ↦ (
    record lb {
      backend_list = remove_first id lb.backend_list;
      session_cache = forget id lb.session_cache;
    },
    none,
  )
]

unfoldable pub get_backend : LoadBalancer → String → Result Backend
get_backend lb id = elim (find id lb.backend_list) [ none ↦ err backend_not_found | some b ↦ ok b ]

abbrev pub get_healthy_backends : LoadBalancer → List Backend
get_healthy_backends lb = select (is_healthy lb) lb.backend_list

-- The switch over the algorithms. `none` is a panic.
unfoldable pub select_by :
    LoadBalanceAlgorithm
    → LoadBalancer
    → (ℕ → ℕ)
    → List Backend
    → Option (LoadBalancer × Option Backend)
select_by round_robin lb draw bs = some (select_round_robin lb bs)
select_by weighted_round_robin lb draw bs = select_weighted_round_robin lb draw bs
select_by least_connections lb draw bs = some (lb, select_least_connections bs)
select_by health_based lb draw bs = some (lb, select_health_based bs)
select_by random lb draw bs = some (lb, select_random draw bs)
select_by ip_hash lb draw bs = some (select_round_robin lb bs)

abbrev pub remember :
    Option String → LoadBalancer × Option Backend → LoadBalancer × Result (Option Backend)
remember (some session) (lb, some b) = (
  if lb.config.sticky_session
      then record lb { session_cache = insert session b.id lb.session_cache }
      else lb,
  ok (some b),
)
remember none (lb, b) = (lb, ok b)
remember (some session) (lb, none) = (lb, ok none)

abbrev pub remember_unless_panic :
    LoadBalancer
    → Option String
    → Option (LoadBalancer × Option Backend)
    → LoadBalancer × Result (Option Backend)
remember_unless_panic lb session none = (lb, panics)
remember_unless_panic lb session (some r) = remember session r

-- The part of `SelectBackend` after the look at the session.
unfoldable pub select_new :
    LoadBalancer → Option String → (ℕ → ℕ) → List Backend → LoadBalancer × Result (Option Backend)
select_new lb session draw [] = (lb, err no_healthy)
select_new lb session draw (b ∷ bs) =
    remember_unless_panic lb session (select_by lb.algorithm lb draw (b ∷ bs))

-- The backend of a session, where it has one.
abbrev pub sticky : LoadBalancer → Option String → Option Backend
sticky lb none = none
sticky lb (some session) =
    if lb.config.sticky_session
    then elim (lookup session lb.session_cache) [ none ↦ none | some id ↦ find id lb.backend_list ]
    else none

abbrev pub end_session : LoadBalancer → Option String → LoadBalancer
end_session lb none = lb
end_session lb (some session) = record lb { session_cache = delete session lb.session_cache }

unfoldable pub select_with :
    LoadBalancer → Option String → (ℕ → ℕ) → Option Backend → LoadBalancer × Result (Option Backend)
unfolding select_new
select_with lb session draw none = select_new lb session draw (get_healthy_backends lb)
select_with lb session draw (some b) =
    if is_up lb b
    then (lb, ok (some b))
    else (let lb' = end_session lb session in
        select_new lb' session draw (get_healthy_backends lb'))

unfoldable pub select_backend :
    LoadBalancer → Option String → (ℕ → ℕ) → LoadBalancer × Result (Option Backend)
unfolding select_with
select_backend lb session draw = select_with lb session draw (sticky lb session)

unfoldable pub release_backend : LoadBalancer → String → LoadBalancer × Option Error
unfolding decrement_connections
release_backend lb id = elim (find id lb.backend_list) [
  | none ↦ (lb, some backend_not_found)
  | some _ ↦ (record lb { backend_list = change id decrement_connections lb.backend_list }, none)
]

unfoldable pub update_backend_health : LoadBalancer → String → ℤ → LoadBalancer × Option Error
update_backend_health lb id score = elim (find id lb.backend_list) [
  | none ↦ (lb, some backend_not_found)
  | some _ ↦ (
    record lb {
      backend_list =
          change id
            (λ b. record b {
              health_score = score;
              is_active = leb_ℤ lb.config.min_health_score score;
            })
            lb.backend_list;
    },
    none,
  )
]

unfoldable pub set_algorithm : LoadBalancer → LoadBalanceAlgorithm → LoadBalancer
set_algorithm lb a = record lb { algorithm = a }

unfoldable pub clear_session_cache : LoadBalancer → LoadBalancer
clear_session_cache lb = record lb { session_cache = [] }
