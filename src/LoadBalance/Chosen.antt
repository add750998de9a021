-- ===== src/LoadBalance/Chosen.antt =====
-- Which backend a choice may give.
use net_llm.Prelude.{
  ℕ, zero, suc, ◌<◌, String, Bool, true, false, ◌||◌, Option, none, some, List, [], ◌∷◌, ◌≡◌, refl,
  sym, subst, if◌then◌else◌, if_cases, select, length, All, arith, Bool-cases, inl, inr, ◌⊎◌,
  str_eq,
}
use net_llm.Prelude.Int.{◌+ℤ◌, negsuc, ℤ, pos, negsuc, ltb_ℤ, eqb_ℤ, ◌≤ℤ◌, ◌<ℤ◌}
use net_llm.LoadBalance.State.{
  LoadBalanceAlgorithm, round_robin, weighted_round_robin, least_connections, health_based, random,
  ip_hash, Backend, LoadBalancer,
}
use net_llm.LoadBalance.Choice.{
  get_elem?, select_round_robin, weights, at_weight, select_weighted_round_robin, select_by_total,
  least_from, select_least_connections, healthiest_from, select_health_based, select_random,
}
use net_llm.LoadBalance.Methods.{find, select_by}

abbrev pub Among : Backend → List Backend → Type 0
Among b [] = ⊥
Among b (c ∷ cs) = (c ≡ b) ⊎ Among b cs

Among-All : (P : Backend → Type 0) (b : Backend) (bs : List Backend) → All P bs → Among b bs → P b
Among-All P b [] h i = elim i [ ]
Among-All P b (c ∷ cs) h (inl e) = subst P e h.0
Among-All P b (c ∷ cs) h (inr i) = Among-All P b cs h.1 i

-- A choice from a list: one of it.
abbrev Within : List Backend → Option Backend → Type 0
Within bs none = Unit
Within bs (some b) = Among b bs

get_elem?-Among :
    (bs : List Backend) (i : ℕ)
    → i < length bs
    → (b : Backend) × (get_elem? bs i ≡ some b) × Among b bs
get_elem?-Among [] i h = absurd (omega arith)
get_elem?-Among (c ∷ cs) zero h = (c, refl, inl refl)
get_elem?-Among (c ∷ cs) (suc i) h =
    let (b, at, among) = get_elem?-Among cs i (omega arith) in (b, at, inr among)

-- Some backend of the list.
abbrev Picks : List Backend → Option Backend → Type 0
Picks bs o = (b : Backend) × (o ≡ some b) × Among b bs

select_round_robin-Picks :
    (lb : LoadBalancer) (b : Backend) (bs : List Backend)
    → Picks (b ∷ bs) (select_round_robin lb (b ∷ bs)).1
unfolding select_round_robin
select_round_robin-Picks lb b bs = get_elem?-Among (b ∷ bs) _ (grind arith)

at_weight-Among :
    (r : ℕ) (current : ℤ) (first : Backend) (bs all : List Backend)
    → Among first all
    → ((b : Backend) → Among b bs → Among b all)
    → Among (at_weight r current first bs) all
unfolding at_weight
at_weight-Among r current first [] all f h = f
at_weight-Among r current first (b ∷ bs) all f h =
    if_cases (λ x. Among x all) (ltb_ℤ (pos r) (current +ℤ b.weight)) _ _ (λ _. h b (inl refl))
      (λ _. at_weight-Among r (current +ℤ b.weight) first bs all f (λ x i. h x (inr i)))

least_from-Picks :
    (fewest : ℤ) (s : Backend) (bs all : List Backend)
    → Among s all
    → ((b : Backend) → Among b bs → Among b all)
    → Picks all (least_from fewest (some s) bs)
unfolding least_from
least_from-Picks fewest s [] all i h = (s, refl, i)
least_from-Picks fewest s (b ∷ bs) all i h =
    let better = eqb_ℤ fewest (negsuc 0) || ltb_ℤ b.current_conns fewest in
    elim (Bool-cases better) [
      | inl t ↦
          rw t (least_from-Picks b.current_conns b bs all (h b (inl refl)) (λ x j. h x (inr j)))
      | inr f ↦ rw f (least_from-Picks fewest s bs all i (λ x j. h x (inr j)))
    ]

select_least-Picks :
    (b : Backend) (bs : List Backend) → Picks (b ∷ bs) (select_least_connections (b ∷ bs))
unfolding select_least_connections
select_least-Picks b bs = least_from-Picks b.current_conns b bs (b ∷ bs) (inl refl) (λ x i. inr i)

-- The healthiest, whose score is above 0, unless none is.
abbrev pub Healthiest : List Backend → Option Backend → Type 0
Healthiest bs none = All (λ b. b.health_score ≤ℤ pos 0) bs
Healthiest bs (some b) =
    (pos 0 <ℤ b.health_score) × Among b bs × All (λ c. c.health_score ≤ℤ b.health_score) bs

pub le_trans_ℤ : (a b c : ℤ) → a ≤ℤ b → b ≤ℤ c → a ≤ℤ c
le_trans_ℤ a b c h k = omega arith

All-le :
    (a b : ℤ) (bs : List Backend)
    → a ≤ℤ b
    → All (λ c. c.health_score ≤ℤ a) bs
    → All (λ c. c.health_score ≤ℤ b) bs
All-le a b [] h k = tt
All-le a b (c ∷ cs) h k = (le_trans_ℤ c.health_score a b k.0 h, All-le a b cs h k.1)

-- The search from a backend `s`.
healthiest_from-some :
    (s : Backend) (bs : List Backend)
    → (b : Backend) × (healthiest_from s.health_score (some s) bs ≡ some b)
      × ((s ≡ b) ⊎ Among b bs)
      × (s.health_score ≤ℤ b.health_score)
      × All (λ c. c.health_score ≤ℤ b.health_score) bs
unfolding healthiest_from
healthiest_from-some s [] = (s, refl, inl refl, omega arith, tt)
healthiest_from-some s (c ∷ cs) = elim (Bool-cases (ltb_ℤ s.health_score c.health_score)) [
  | inl t ↦
      let (b, is, i, le, all) = healthiest_from-some c cs in
      let up : s.health_score ≤ℤ c.health_score = ground (arith, t) in
      (b, rw t is, inr i, le_trans_ℤ s.health_score c.health_score b.health_score up le, (le, all))
  | inr f ↦
      let (b, is, i, le, all) = healthiest_from-some s cs in
      let down : c.health_score ≤ℤ s.health_score = ground (arith, f) in
      (
        b,
        rw f is,
        elim i [ inl e ↦ inl e | inr j ↦ inr (inr j) ],
        le,
        (le_trans_ℤ c.health_score s.health_score b.health_score down le, all),
      )
]

Healthiest-cons :
    (c : Backend) (cs : List Backend) (o : Option Backend)
    → c.health_score ≤ℤ pos 0
    → Healthiest cs o
    → Healthiest (c ∷ cs) o
Healthiest-cons c cs none h all = (h, all)
Healthiest-cons c cs (some b) h (positive, i, all) = (positive, inr i, (omega arith, all))

pub select_health-Healthiest : (bs : List Backend) → Healthiest bs (select_health_based bs)
unfolding select_health_based healthiest_from
select_health-Healthiest [] = tt
select_health-Healthiest (c ∷ cs) = elim (Bool-cases (ltb_ℤ (pos 0) c.health_score)) [
  | inl t ↦
      let (b, is, i, le, all) = healthiest_from-some c cs in
      let positive : pos 0 <ℤ b.health_score = ground (arith, t, le) in
      rw (t, is) (positive, elim i [ inl e ↦ inl e | inr j ↦ inr j ], (le, all))
  | inr f ↦ rw f (Healthiest-cons c cs _ (ground (arith, f)) (select_health-Healthiest cs))
]

-- Only the algorithm by health may find no backend in a list that has some.
abbrev pub Found : LoadBalanceAlgorithm → List Backend → Option Backend → Type 0
Found a bs (some b) = Among b bs
Found a bs none = (a ≡ health_based) × All (λ b. b.health_score ≤ℤ pos 0) bs

Picks-Found :
    (a : LoadBalanceAlgorithm) (bs : List Backend) (o : Option Backend) → Picks bs o → Found a bs o
Picks-Found a bs o (b, is, i) = subst (Found a bs) (sym is) i

Healthiest-Found :
    (bs : List Backend) (o : Option Backend) → Healthiest bs o → Found health_based bs o
Healthiest-Found bs none h = (refl, h)
Healthiest-Found bs (some b) h = h.1

-- The drawn numbers are in range, as those of `rand.Intn` are.
abbrev pub InRange : (ℕ → ℕ) → Type 0
InRange draw = (n : ℕ) → 0 < n → draw n < n

-- What a choice gives: the backends stay as they are, and it panics only for weights that sum up to less
-- than 0.
abbrev pub ByOutcome :
    LoadBalanceAlgorithm
    → LoadBalancer
    → List Backend
    → Option (LoadBalancer × Option Backend)
    → Type 0
ByOutcome a lb bs none = (a ≡ weighted_round_robin) × (weights bs <ℤ pos 0)
ByOutcome a lb bs (some (lb', o)) = (lb'.backend_list ≡ lb.backend_list) × Found a bs o

select_by_total-ByOutcome :
    (lb : LoadBalancer) (draw : ℕ → ℕ) (b : Backend) (bs : List Backend) (t : ℤ)
    → weights (b ∷ bs) ≡ t
    → ByOutcome weighted_round_robin lb (b ∷ bs) (select_by_total lb draw b bs t)
unfolding select_round_robin
select_by_total-ByOutcome lb draw b bs (negsuc n) e =
    (refl, subst (λ t. t <ℤ pos 0) (sym e) (omega arith))
select_by_total-ByOutcome lb draw b bs (pos zero) e =
    (refl, Picks-Found _ (b ∷ bs) _ (select_round_robin-Picks lb b bs))
select_by_total-ByOutcome lb draw b bs (pos (suc n)) e =
    (refl, at_weight-Among (draw (suc n)) (pos 0) b (b ∷ bs) (b ∷ bs) (inl refl) (λ x i. i))

pub select_by-ByOutcome :
    (a : LoadBalanceAlgorithm) (lb : LoadBalancer) (draw : ℕ → ℕ) (b : Backend) (bs : List Backend)
    → InRange draw
    → ByOutcome a lb (b ∷ bs) (select_by a lb draw (b ∷ bs))
unfolding select_by select_random select_weighted_round_robin select_round_robin
select_by-ByOutcome round_robin lb draw b bs r =
    (refl, Picks-Found _ (b ∷ bs) _ (select_round_robin-Picks lb b bs))
select_by-ByOutcome weighted_round_robin lb draw b bs r =
    select_by_total-ByOutcome lb draw b bs (weights (b ∷ bs)) refl
select_by-ByOutcome least_connections lb draw b bs r =
    (refl, Picks-Found _ (b ∷ bs) _ (select_least-Picks b bs))
select_by-ByOutcome health_based lb draw b bs r =
    (refl, Healthiest-Found (b ∷ bs) _ (select_health-Healthiest (b ∷ bs)))
select_by-ByOutcome random lb draw b bs r = (
  refl,
  Picks-Found _ (b ∷ bs) _ (get_elem?-Among (b ∷ bs) _ (r (length (b ∷ bs)) (omega arith))),
)
select_by-ByOutcome ip_hash lb draw b bs r =
    (refl, Picks-Found _ (b ∷ bs) _ (select_round_robin-Picks lb b bs))

pub Among-select :
    (p : Backend → Bool) (b : Backend) (bs : List Backend)
    → Among b (select p bs)
    → Among b bs × (p b ≡ true)
Among-select p b [] i = elim i [ ]
Among-select p b (c ∷ cs) i = elim (Bool-cases (p c)) [
  | inl t ↦ elim (subst (λ u. Among b (if u then c ∷ select p cs else select p cs)) t i) [
    | inl e ↦ (inl e, subst (λ x. p x ≡ true) e t)
    | inr j ↦ let (k, q) = Among-select p b cs j in (inr k, q)
  ]
  | inr f ↦
      let (k, q) =
        Among-select p b cs
          (subst (λ u. Among b (if u then c ∷ select p cs else select p cs)) f i) in
      (inr k, q)
]

pub select-nil :
    (p : Backend → Bool) (bs : List Backend) → select p bs ≡ [] → All (λ b. p b ≡ false) bs
select-nil p [] e = tt
select-nil p (c ∷ cs) e = elim (Bool-cases (p c)) [
  | inl t ↦ absurd (ground (arith, e, t))
  | inr f ↦ (f, select-nil p cs (ground (arith, e, f)))
]

pub find-Among : (id : String) (bs : List Backend) {b : Backend} → find id bs ≡ some b → Among b bs
find-Among id [] e = absurd (ground (arith, e))
find-Among id (c ∷ cs) {b = b} e = elim (Bool-cases (str_eq c.id id)) [
  | inl t ↦ inl (ground (arith, e, t))
  | inr f ↦ inr (find-Among id cs (ground (arith, e, f)))
]
