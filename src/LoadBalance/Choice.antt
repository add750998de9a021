-- ===== src/LoadBalance/Choice.antt =====
-- The algorithms by which a backend is chosen from a list.
use net_llm.Prelude.{
  ℕ, zero, suc, ◌+◌, ◌-◌, ◌%◌, ◌^◌, ◌||◌, Option, none, some, List, [], ◌∷◌, if◌then◌else◌, length,
}
use net_llm.Prelude.Int.{ℤ, pos, negsuc, ◌+ℤ◌, ltb_ℤ, eqb_ℤ}
use net_llm.LoadBalance.State.{Backend, LoadBalancer}

abbrev pub get_elem? {ℓ} : {A : Type ℓ} → List A → ℕ → Option A
get_elem? [] i = none
get_elem? (x ∷ xs) zero = some x
get_elem? (x ∷ xs) (suc i) = get_elem? xs i

-- The atomic counter wraps. An empty list is no backend.
unfoldable pub select_round_robin : LoadBalancer → List Backend → LoadBalancer × Option Backend
select_round_robin lb [] = (lb, none)
select_round_robin lb (b ∷ bs) =
    let next = (lb.round_robin_idx + 1) % 2 ^ 64 in
    let idx = (next + (2 ^ 64 - 1)) % 2 ^ 64 in
    (record lb { round_robin_idx = next }, get_elem? (b ∷ bs) (idx % length (b ∷ bs)))

abbrev pub weights : List Backend → ℤ
weights [] = pos 0
weights (b ∷ bs) = b.weight +ℤ weights bs

-- The loop of `selectWeightedRoundRobin`; at its end stands the first backend.
unfoldable pub at_weight : ℕ → ℤ → Backend → List Backend → Backend
at_weight r current first [] = first
at_weight r current first (b ∷ bs) =
    let rest = at_weight r (current +ℤ b.weight) first bs in
    if ltb_ℤ (pos r) (current +ℤ b.weight) then b else rest

-- With the total weight. `draw n` is what `rand.Intn(n)` gives, which panics for a negative one.
abbrev pub select_by_total :
    LoadBalancer → (ℕ → ℕ) → Backend → List Backend → ℤ → Option (LoadBalancer × Option Backend)
select_by_total lb draw b bs (negsuc n) = none
select_by_total lb draw b bs (pos zero) = some (select_round_robin lb (b ∷ bs))
select_by_total lb draw b bs (pos (suc n)) =
    some (lb, some (at_weight (draw (suc n)) (pos 0) b (b ∷ bs)))

-- `none` is a panic.
unfoldable pub select_weighted_round_robin :
    LoadBalancer → (ℕ → ℕ) → List Backend → Option (LoadBalancer × Option Backend)
unfolding at_weight select_round_robin
select_weighted_round_robin lb draw [] = some (lb, none)
select_weighted_round_robin lb draw (b ∷ bs) = select_by_total lb draw b bs (weights (b ∷ bs))

-- The loop, with the fewest connections so far, -1 at first, and the backend that has them.
unfoldable pub least_from : ℤ → Option Backend → List Backend → Option Backend
least_from fewest selected [] = selected
least_from fewest selected (b ∷ bs) =
    let better = eqb_ℤ fewest (negsuc 0) || ltb_ℤ b.current_conns fewest in
    least_from (if better then b.current_conns else fewest) (if better then some b else selected) bs

unfoldable pub select_least_connections : List Backend → Option Backend
unfolding least_from
select_least_connections bs = least_from (negsuc 0) none bs

unfoldable pub healthiest_from : ℤ → Option Backend → List Backend → Option Backend
healthiest_from best selected [] = selected
healthiest_from best selected (b ∷ bs) =
    let better = ltb_ℤ best b.health_score in
    healthiest_from (if better then b.health_score else best) (if better then some b else selected)
      bs

unfoldable pub select_health_based : List Backend → Option Backend
unfolding healthiest_from
select_health_based bs = healthiest_from (pos 0) none bs

unfoldable pub select_random : (ℕ → ℕ) → List Backend → Option Backend
select_random draw bs = get_elem? bs (draw (length bs))
