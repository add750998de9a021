-- ===== src/LoadBalance/Least.antt =====
-- The choice by connections and the choice by weight.
use net_llm.Prelude.{
  ℕ, zero, suc, true, false, ◌||◌, some, List, [], ◌∷◌, ◌++◌, ◌≡◌, refl, sym, subst, ap, ◌∙◌, All,
  arith, Bool-cases, inl, inr, ◌⊎◌,
}
use net_llm.Prelude.Int.{ℤ, pos, negsuc, ltb_ℤ, eqb_ℤ, ◌≤ℤ◌, ◌<ℤ◌, ◌+ℤ◌, parts-add, ext_ℤ, pos_part}
use net_llm.LoadBalance.State.{Backend, LoadBalancer}
use net_llm.LoadBalance.Choice.{
  least_from, select_least_connections, weights, at_weight, select_by_total,
  select_weighted_round_robin,
}
use net_llm.LoadBalance.Chosen.{Among, le_trans_ℤ}

abbrev Counted : Backend → Type 0
Counted b = pos 0 ≤ℤ b.current_conns

-- From a backend `s`, where no count is negative.
least_from-Least :
    (s : Backend) (bs : List Backend)
    → Counted s
    → All Counted bs
    → (b : Backend) × (least_from s.current_conns (some s) bs ≡ some b)
      × ((s ≡ b) ⊎ Among b bs)
      × (b.current_conns ≤ℤ s.current_conns)
      × All (λ c. b.current_conns ≤ℤ c.current_conns) bs
unfolding least_from
least_from-Least s [] h hs = (s, refl, inl refl, omega arith, tt)
least_from-Least s (c ∷ cs) h hs =
    let better = eqb_ℤ s.current_conns (negsuc 0) || ltb_ℤ c.current_conns s.current_conns in
    elim (Bool-cases better) [
      | inl t ↦
          let (b, is, i, le, all) = least_from-Least c cs hs.0 hs.1 in
          let down : c.current_conns ≤ℤ s.current_conns = ground (arith, t, h) in
          (
            b,
            rw t is,
            inr i,
            le_trans_ℤ b.current_conns c.current_conns s.current_conns le down,
            (le, all),
          )
      | inr f ↦
          let (b, is, i, le, all) = least_from-Least s cs h hs.1 in
          let up : s.current_conns ≤ℤ c.current_conns = ground (arith, f) in
          (
            b,
            rw f is,
            elim i [ inl e ↦ inl e | inr j ↦ inr (inr j) ],
            le,
            (le_trans_ℤ b.current_conns s.current_conns c.current_conns le up, all),
          )
    ]

-- Where no backend of a list that has one counts fewer than 0 connections, the choice by connections
-- gives a backend of the list, and none has fewer connections. (A count of -1 is taken for no count
-- yet, and the next backend is taken instead.)
pub select_least_connections-Least :
    (c : Backend) (cs : List Backend)
    → All (λ b. pos 0 ≤ℤ b.current_conns) (c ∷ cs)
    → (b : Backend) × (select_least_connections (c ∷ cs) ≡ some b)
      × Among b (c ∷ cs)
      × All (λ d. b.current_conns ≤ℤ d.current_conns) (c ∷ cs)
unfolding select_least_connections least_from
select_least_connections-Least c cs h =
    let (b, is, i, le, all) = least_from-Least c cs h.0 h.1 in
    (b, is, elim i [ inl e ↦ inl e | inr j ↦ inr j ], (le, all))

abbrev Weighted : Backend → Type 0
Weighted b = pos 0 ≤ℤ b.weight

weights-nonneg : (xs : List Backend) → All Weighted xs → pos 0 ≤ℤ weights xs
weights-nonneg [] h = omega arith
weights-nonneg (x ∷ xs) h =
    omega (arith, parts-add x.weight (weights xs), weights-nonneg xs h.1, h.0)

at_weight-Share :
    (r : ℕ) (current : ℤ) (first : Backend) (xs : List Backend) (b : Backend) (ys : List Backend)
    → All Weighted xs
    → current +ℤ weights xs ≤ℤ pos r
    → pos r <ℤ (current +ℤ weights xs) +ℤ b.weight
    → at_weight r current first (xs ++ (b ∷ ys)) ≡ b
unfolding at_weight
at_weight-Share r current first [] b ys all low high =
    let here : ltb_ℤ (pos r) (current +ℤ b.weight) ≡ true = ground (
      arith,
      high,
      parts-add current (pos 0),
      parts-add (current +ℤ pos 0) b.weight,
      parts-add current b.weight,
    ) in
    rw here refl
at_weight-Share r current first (x ∷ xs) b ys all low high =
    let next = current +ℤ x.weight in
    let same : next +ℤ weights xs ≡ current +ℤ (x.weight +ℤ weights xs) = ext_ℤ _ _ (
      omega (
        arith,
        parts-add current x.weight,
        parts-add next (weights xs),
        parts-add x.weight (weights xs),
        parts-add current (x.weight +ℤ weights xs),
      )) in
    let on : ltb_ℤ (pos r) next ≡ false = ground (
      arith,
      low,
      weights-nonneg xs all.1,
      parts-add current x.weight,
      parts-add x.weight (weights xs),
      parts-add current (x.weight +ℤ weights xs),
    ) in
    rw on (
      at_weight-Share r next first xs b ys all.1 (subst (λ t. t ≤ℤ pos r) (sym same) low)
        (subst (λ t. pos r <ℤ t +ℤ b.weight) (sym same) high))

front-Weighted : (xs ys : List Backend) → All Weighted (xs ++ ys) → All Weighted xs
front-Weighted [] ys h = tt
front-Weighted (x ∷ xs) ys h = (h.0, front-Weighted xs ys h.1)

weights-part :
    (xs : List Backend) (b : Backend) (ys : List Backend)
    → All Weighted (xs ++ (b ∷ ys))
    → weights xs +ℤ b.weight ≤ℤ weights (xs ++ (b ∷ ys))
weights-part [] b ys h =
    omega
      (arith, parts-add (pos 0) b.weight, parts-add b.weight (weights ys), weights-nonneg ys h.1)
weights-part (x ∷ xs) b ys h = omega (
  arith,
  weights-part xs b ys h.1,
  parts-add x.weight (weights xs),
  parts-add (x.weight +ℤ weights xs) b.weight,
  parts-add (weights xs) b.weight,
  parts-add x.weight (weights (xs ++ (b ∷ ys))),
)

positive_total :
    (lb : LoadBalancer) (draw : ℕ → ℕ) (f : Backend) (fs : List Backend) (t : ℤ)
    → pos 0 <ℤ t
    → select_by_total lb draw f fs t
      ≡ some (lb, some (at_weight (draw (pos_part t)) (pos 0) f (f ∷ fs)))
positive_total lb draw f fs (negsuc n) h = absurd (omega arith)
positive_total lb draw f fs (pos zero) h = absurd (omega arith)
positive_total lb draw f fs (pos (suc n)) h = refl

some_backend :
    (xs : List Backend) (b : Backend) (ys : List Backend)
    → (f : Backend) × (fs : List Backend) × (xs ++ (b ∷ ys) ≡ f ∷ fs)
some_backend [] b ys = (b, ys, refl)
some_backend (x ∷ xs) b ys = (x, xs ++ (b ∷ ys), refl)

-- Where no weight is negative: of the numbers below the total weight, the choice by weight gives a backend
-- exactly the share of its own weight: those from the sum of the weights before it, up to its weight. In
-- particular a drawn number in that range gives that backend, and no state changes.
pub select_weighted-Share :
    (lb : LoadBalancer) (draw : ℕ → ℕ) (xs : List Backend) (b : Backend) (ys : List Backend)
    → All (λ c. pos 0 ≤ℤ c.weight) (xs ++ (b ∷ ys))
    → weights xs ≤ℤ pos (draw (pos_part (weights (xs ++ (b ∷ ys)))))
    → pos (draw (pos_part (weights (xs ++ (b ∷ ys))))) <ℤ weights xs +ℤ b.weight
    → select_weighted_round_robin lb draw (xs ++ (b ∷ ys)) ≡ some (lb, some b)
unfolding select_weighted_round_robin
select_weighted-Share lb draw xs b ys all low high =
    let r = draw (pos_part (weights (xs ++ (b ∷ ys)))) in
    let positive : pos 0 <ℤ weights (xs ++ (b ∷ ys)) =
      omega (arith, weights-part xs b ys all, high) in
    let low' : pos 0 +ℤ weights xs ≤ℤ pos r = omega (arith, low, parts-add (pos 0) (weights xs)) in
    let high' : pos r <ℤ (pos 0 +ℤ weights xs) +ℤ b.weight = omega (
      arith,
      high,
      parts-add (pos 0) (weights xs),
      parts-add (weights xs) b.weight,
      parts-add (pos 0 +ℤ weights xs) b.weight,
    ) in
    let (f, fs, e) = some_backend xs b ys in
    let shared = at_weight-Share r (pos 0) f xs b ys (front-Weighted xs (b ∷ ys) all) low' high' in
    ap (select_weighted_round_robin lb draw) e
    ∙ positive_total lb draw f fs (weights (f ∷ fs)) (subst (λ l. pos 0 <ℤ weights l) e positive)
    ∙ ap (λ l. some (lb, some (at_weight (draw (pos_part (weights l))) (pos 0) f l))) (sym e)
    ∙ ap (λ c. some (lb, some c)) shared
