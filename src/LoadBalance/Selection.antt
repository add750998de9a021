-- ===== src/LoadBalance/Selection.antt =====
-- What `select_backend` gives, over all algorithms and sessions.
use net_llm.Prelude.{
  ℕ, String, true, false, Option, none, some, List, [], ◌∷◌, ◌≡◌, refl, sym, subst, if_cases, All,
  arith, Option-cases, inl, inr, ◌⊎◌,
}
use net_llm.Prelude.Int.{pos, ◌≤ℤ◌, ◌<ℤ◌}
use net_llm.Prelude.Dict.{lookup}
use net_llm.LoadBalance.State.{
  weighted_round_robin, health_based, Backend, LoadBalancer, no_healthy, Result, ok, err, panics,
  is_up, is_healthy,
}
use net_llm.LoadBalance.Choice.{weights}
use net_llm.LoadBalance.Methods.{
  get_healthy_backends, select_by, remember, remember_unless_panic, select_new, sticky, end_session,
  select_with, select_backend,
}
use net_llm.LoadBalance.Chosen.{
  Among, Found, InRange, select_by-ByOutcome, ByOutcome, Among-select, select-nil, find-Among,
}

-- How a call of `select_backend` may end.
abbrev pub Outcome : LoadBalancer → Option String → LoadBalancer × Result (Option Backend) → Type 0
Outcome lb session (lb', err e) =
    (e ≡ no_healthy)
    × (lb'.backend_list ≡ lb.backend_list)
    × All (λ b. is_healthy lb b ≡ false) lb.backend_list
Outcome lb session (lb', panics) =
    (lb'.backend_list ≡ lb.backend_list)
    × (lb.algorithm ≡ weighted_round_robin)
    × (weights (get_healthy_backends lb) <ℤ pos 0)
Outcome lb session (lb', ok (some b)) =
    (lb'.backend_list ≡ lb.backend_list)
    × Among b lb.backend_list
    × (is_up lb b ≡ true)
    × ((sticky lb session ≡ some b) ⊎ (is_healthy lb b ≡ true))
Outcome lb session (lb', ok none) =
    (lb'.backend_list ≡ lb.backend_list)
    × (lb.algorithm ≡ health_based)
    × All (λ b. b.health_score ≤ℤ pos 0) (get_healthy_backends lb)

-- The same for a choice with no regard to the session.
abbrev NewOutcome : LoadBalancer → LoadBalancer × Result (Option Backend) → Type 0
NewOutcome lb (lb', err e) =
    (e ≡ no_healthy)
    × (lb'.backend_list ≡ lb.backend_list)
    × All (λ b. is_healthy lb b ≡ false) lb.backend_list
NewOutcome lb (lb', panics) =
    (lb'.backend_list ≡ lb.backend_list)
    × (lb.algorithm ≡ weighted_round_robin)
    × (weights (get_healthy_backends lb) <ℤ pos 0)
NewOutcome lb (lb', ok (some b)) =
    (lb'.backend_list ≡ lb.backend_list) × Among b lb.backend_list × (is_healthy lb b ≡ true)
NewOutcome lb (lb', ok none) =
    (lb'.backend_list ≡ lb.backend_list)
    × (lb.algorithm ≡ health_based)
    × All (λ b. b.health_score ≤ℤ pos 0) (get_healthy_backends lb)

remember-NewOutcome :
    (lb lb' : LoadBalancer) (session : Option String) (o : Option Backend)
    → lb'.backend_list ≡ lb.backend_list
    → Found lb.algorithm (get_healthy_backends lb) o
    → NewOutcome lb (remember session (lb', o))
remember-NewOutcome lb lb' none none e f = (e, f.0, f.1)
remember-NewOutcome lb lb' none (some b) e f =
    let (i, h) = Among-select (is_healthy lb) b lb.backend_list f in (e, i, h)
remember-NewOutcome lb lb' (some s) none e f = (e, f.0, f.1)
remember-NewOutcome lb lb' (some s) (some b) e f =
    let (i, h) = Among-select (is_healthy lb) b lb.backend_list f in
    (
      if_cases (λ (l : LoadBalancer). l.backend_list ≡ lb.backend_list) lb'.config.sticky_session _
          lb' (λ _. e) (λ _. e),
      i,
      h,
    )

unless_panic-NewOutcome :
    (lb : LoadBalancer) (session : Option String) (o : Option (LoadBalancer × Option Backend))
    → ByOutcome lb.algorithm lb (get_healthy_backends lb) o
    → NewOutcome lb (remember_unless_panic lb session o)
unless_panic-NewOutcome lb session none h = (refl, h.0, h.1)
unless_panic-NewOutcome lb session (some (lb', o)) h = remember-NewOutcome lb lb' session o h.0 h.1

select_new-NewOutcome :
    (lb : LoadBalancer) (session : Option String) (draw : ℕ → ℕ) (bs : List Backend)
    → InRange draw
    → get_healthy_backends lb ≡ bs
    → NewOutcome lb (select_new lb session draw bs)
unfolding select_new
select_new-NewOutcome lb session draw [] r e =
    (refl, refl, select-nil (is_healthy lb) lb.backend_list e)
select_new-NewOutcome lb session draw (b ∷ bs) r e =
    unless_panic-NewOutcome lb session (select_by lb.algorithm lb draw (b ∷ bs)) (
      subst (λ l. ByOutcome lb.algorithm lb l (select_by lb.algorithm lb draw (b ∷ bs))) (sym e)
        (select_by-ByOutcome lb.algorithm lb draw b bs r))

end_session-NewOutcome :
    (lb : LoadBalancer) (session : Option String) (r : LoadBalancer × Result (Option Backend))
    → NewOutcome (end_session lb session) r
    → NewOutcome lb r
unfolding is_healthy
end_session-NewOutcome lb none r h = h
end_session-NewOutcome lb (some s) r h = h

is_up_of_is_healthy : (lb : LoadBalancer) (b : Backend) → is_healthy lb b ≡ true → is_up lb b ≡ true
unfolding is_healthy
is_up_of_is_healthy lb b h = ground (arith, h)

NewOutcome-Outcome :
    (lb : LoadBalancer) (session : Option String) (r : LoadBalancer × Result (Option Backend))
    → NewOutcome lb r
    → Outcome lb session r
NewOutcome-Outcome lb session (lb', err e) h = h
NewOutcome-Outcome lb session (lb', panics) h = h
NewOutcome-Outcome lb session (lb', ok none) h = h
NewOutcome-Outcome lb session (lb', ok (some b)) (e, i, healthy) =
    (e, i, is_up_of_is_healthy lb b healthy, inr healthy)

sticky-Among :
    (lb : LoadBalancer) (session : Option String) {b : Backend}
    → sticky lb session ≡ some b
    → Among b lb.backend_list
sticky-Among lb none e = absurd (ground (arith, e))
sticky-Among lb (some s) e = elim (Option-cases (lookup s lb.session_cache)) [
  | inl missing ↦ absurd (ground (arith, e, missing))
  | inr (id, at) ↦ find-Among id lb.backend_list (ground (arith, e, at))
]

select_with-Outcome :
    (lb : LoadBalancer) (session : Option String) (draw : ℕ → ℕ) (o : Option Backend)
    → InRange draw
    → sticky lb session ≡ o
    → Outcome lb session (select_with lb session draw o)
unfolding select_with
select_with-Outcome lb session draw none r e =
    let hs = get_healthy_backends lb in
    NewOutcome-Outcome lb session (select_new lb session draw hs)
      (select_new-NewOutcome lb session draw hs r refl)
select_with-Outcome lb session draw (some b) r e =
    let lb' = end_session lb session in
    let hs = get_healthy_backends lb' in
    let result = select_new lb' session draw hs in
    if_cases (Outcome lb session) (is_up lb b) (lb, ok (some b)) result
      (λ up. (refl, sticky-Among lb session e, up, inl e))
      (λ _. NewOutcome-Outcome lb session result (
        end_session-NewOutcome lb session result
          (select_new-NewOutcome lb' session draw hs r refl)))

-- With drawn numbers in range, for every algorithm and session, and leaving the backends as they are:
-- SelectBackend fails only where no backend is healthy; or it gives one of the backends that is active
-- and has the minimum score, and that is either the one of the session or also has room for a
-- connection; or it gives none, which is with the algorithm by health only, where no score of a
-- healthy backend is above 0; or it panics, which is with the algorithm by weight only, where the weights
-- of the healthy backends sum up to less than 0.
pub select_backend-Outcome :
    (lb : LoadBalancer) (session : Option String) (draw : ℕ → ℕ)
    → InRange draw
    → Outcome lb session (select_backend lb session draw)
unfolding select_backend
select_backend-Outcome lb session draw r =
    select_with-Outcome lb session draw (sticky lb session) r refl
