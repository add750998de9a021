-- ===== src/LoadBalance/Tests.antt =====
-- Two backends, and the theorems at them.
use net_llm.Prelude.{ℕ, String, true, none, some, List, [], ◌∷◌, ◌≡◌, refl, arith, All}
use net_llm.Prelude.Int.{ℤ, pos, negsuc, ◌≤ℤ◌, ◌<ℤ◌, ◌+ℤ◌}
use net_llm.LoadBalance.State.{
  round_robin, Backend, LoadBalancer, ok, decrement_connections, can_accept_connections, is_healthy,
}
use net_llm.LoadBalance.Choice.{
  select_round_robin, select_weighted_round_robin, select_least_connections, weights,
}
use net_llm.LoadBalance.Methods.{
  release_backend, select_backend, select_with, select_new, select_by,
}
use net_llm.LoadBalance.Chosen.{Among}
use net_llm.LoadBalance.Selection.{Outcome, select_backend-Outcome}
use net_llm.LoadBalance.Least.{select_least_connections-Least, select_weighted-Share}
use net_llm.LoadBalance.Rotation.{served, served-rotation}

abbrev backend : String → ℕ → ℤ → Backend
backend id weight conns = record {
  id = id;
  weight = pos weight;
  max_connections = pos 0;
  current_conns = conns;
  health_score = pos 90;
  is_active = true;
}

abbrev first : Backend
first = backend "a" 1 (pos 5)

abbrev second : Backend
second = backend "b" 3 (pos 2)

abbrev third : Backend
third = backend "c" 2 (pos 4)

abbrev three : List Backend
three = first ∷ second ∷ third ∷ []

abbrev balancer : LoadBalancer
balancer = record {
  config = record { algorithm = round_robin; min_health_score = pos 70; sticky_session = true };
  backend_list = three;
  algorithm = round_robin;
  round_robin_idx = 4;
  session_cache = ("s", "c") ∷ [];
}

-- A session keeps its backend, and another session gets the one whose turn it is.
sticky_test : (select_backend balancer (some "s") (λ n. 0)).1 ≡ ok (some third)
unfolding select_backend select_with
sticky_test = refl

other_test : (select_backend balancer (some "t") (λ n. 0)).1 ≡ ok (some second)
unfolding select_backend select_with select_new select_by select_round_robin can_accept_connections
    is_healthy
other_test = refl

-- A release takes one connection off the backend.
release_test :
    (release_backend balancer "b").0.backend_list ≡ first ∷ backend "b" 3 (pos 1) ∷ third ∷ []
unfolding release_backend decrement_connections ◌+ℤ◌
release_test = refl

select_backend-Outcome_example :
    Outcome balancer (some "t") (select_backend balancer (some "t") (λ n. 0))
select_backend-Outcome_example = select_backend-Outcome balancer (some "t") (λ n. 0) (λ n h. h)

select_least_connections-Least_example :
    (b : Backend) × (select_least_connections three ≡ some b)
    × Among b three
    × All (λ d. b.current_conns ≤ℤ d.current_conns) three
select_least_connections-Least_example =
    select_least_connections-Least first (second ∷ third ∷ [])
      (omega arith, (omega arith, (omega arith, tt)))

low : weights (first ∷ []) ≤ℤ pos 3
unfolding ◌+ℤ◌
low = omega arith

high : pos 3 <ℤ weights (first ∷ []) +ℤ second.weight
unfolding ◌+ℤ◌
high = omega arith

select_weighted-Share_example :
    select_weighted_round_robin balancer (λ n. 3) three ≡ some (balancer, some second)
select_weighted-Share_example =
    select_weighted-Share balancer (λ n. 3) (first ∷ []) second (third ∷ [])
      (omega arith, (omega arith, (omega arith, tt))) low high

-- A negative total of the weights is a panic.
panic_test :
    select_weighted_round_robin balancer (λ n. 0) (record first { weight = negsuc 0 } ∷ []) ≡ none
unfolding select_weighted_round_robin ◌+ℤ◌
panic_test = refl

served-rotation_example : served 3 balancer three ≡ some second ∷ some third ∷ some first ∷ []
served-rotation_example = served-rotation balancer three (omega arith) (omega arith)
