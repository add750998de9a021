-- ===== src/Failover/Selection.antt =====
-- Which node `selectFailoverCandidate` picks.
use net_llm.Prelude.{
  Bool, true, false, ◌&&◌, Option, none, some, List, [], ◌∷◌, ◌≡◌, refl, ◌≢◌, ◌⊎◌, inl, inr, arith,
  Bool-cases,
}
use net_llm.Prelude.Dict.{values}
use net_llm.Prelude.Int.{ℤ, pos, negsuc, ltb_ℤ, leb_ℤ, ◌≤ℤ◌, ◌<ℤ◌}
use net_llm.Failover.Methods.{select_from, select_failover_candidate}
use net_llm.Failover.State.{Node, is_standby, FailoverManager}

-- A node that can take over: on standby, with a health score of 70 or more and a priority that is not
-- negative.
abbrev pub is_eligible : Node → Bool
is_eligible n = is_standby n.state && (leb_ℤ (pos 70) n.health_score && ltb_ℤ (negsuc 0) n.priority)

-- Some node of the list.
abbrev pub Among : Node → List Node → Type 0
Among n [] = ⊥
Among n (m ∷ ms) = (n ≡ m) ⊎ Among n ms

-- The best of the eligible nodes: none where there is none.
abbrev pub IsBest : List Node → Option Node → Type 0
IsBest ns none = (m : Node) → Among m ns → is_eligible m ≡ false
IsBest ns (some c) =
    Among c ns
    × (is_eligible c ≡ true)
    × ((m : Node) → Among m ns → is_eligible m ≡ true → m.priority ≤ℤ c.priority)

-- What the loop holds: the candidate so far, with its priority as the best.
abbrev Held : ℤ → Option Node → Type 0
Held best none = best ≡ negsuc 0
Held best (some c) = (best ≡ c.priority) × (is_eligible c ≡ true)

-- The result of the loop: the candidate at its start, or a node of the rest that beats it.
abbrev IsBestFrom : ℤ → Option Node → List Node → Option Node → Type 0
IsBestFrom best start ns none = (start ≡ none) × ((m : Node) → Among m ns → is_eligible m ≡ false)
IsBestFrom best start ns (some c) =
    ((start ≡ some c) ⊎ Among c ns)
    × (is_eligible c ≡ true)
    × (best ≤ℤ c.priority)
    × ((m : Node) → Among m ns → is_eligible m ≡ true → m.priority ≤ℤ c.priority)

module _ (best : ℤ) (start : Option Node) (n : Node) (ns : List Node) (held : Held best start) where
  abbrev better : Bool
  better = is_standby n.state && (leb_ℤ (pos 70) n.health_score && ltb_ℤ best n.priority)

  -- What `better` says of the node and of the best so far.
  better_eligible :
      (s : Option Node)
      → Held best s
      → better ≡ true
      → (is_eligible n ≡ true) × (best <ℤ n.priority)
  better_eligible none h e = (ground arith, ground arith)
  better_eligible (some c) h e = (ground arith, ground arith)

  not_better_le :
      (s : Option Node)
      → Held best s
      → better ≡ false
      → is_eligible n ≡ true
      → (s ≢ none) × (n.priority ≤ℤ best)
  not_better_le none h e el = absurd (ground arith)
  not_better_le (some c) h e el = ((λ q. cc), ground arith)

  step_better :
      (r : Option Node)
      → better ≡ true
      → IsBestFrom n.priority (some n) ns r
      → IsBestFrom best start (n ∷ ns) r
  step_better none e b = absurd (cc b.0)
  step_better (some c) e b =
      let (el, above) = better_eligible start held e in
      (
        inr (elim b.0 [ inl same ↦ inl (ground arith) | inr later ↦ inr later ]),
        b.1,
        omega (arith, b.2, above),
        λ m at em. elim at [ inl same ↦ rw same b.2 | inr later ↦ b.3 m later em ],
      )

  step_kept :
      (r : Option Node)
      → better ≡ false
      → IsBestFrom best start ns r
      → IsBestFrom best start (n ∷ ns) r
  step_kept none e b = (
    b.0,
    λ m at. elim at [
      | inl same ↦ rw same (elim (Bool-cases (is_eligible n)) [
        | inl el ↦ absurd ((not_better_le start held e el).0 b.0)
        | inr out ↦ out
      ])
      | inr later ↦ b.1 m later
    ],
  )
  step_kept (some c) e b = (
    elim b.0 [ inl same ↦ inl same | inr later ↦ inr (inr later) ],
    b.1,
    b.2,
    λ m at em. elim at [
      | inl same ↦ rw same (omega (arith, (not_better_le start held e (rw same at em)).1, b.2))
      | inr later ↦ b.3 m later em
    ],
  )

select_from-IsBestFrom :
    (best : ℤ) (start : Option Node) (ns : List Node)
    → Held best start
    → IsBestFrom best start ns (select_from best start ns)
unfolding select_from
select_from-IsBestFrom best none [] h = (refl, λ m at. absurd at)
select_from-IsBestFrom best (some c) [] h = (inl refl, h.1, rw h.0 (omega arith), λ m at. absurd at)
select_from-IsBestFrom best start (n ∷ ns) h = elim (Bool-cases (better best start n ns h)) [
  | inl e ↦ rw e (
      step_better best start n ns h _ e (
        select_from-IsBestFrom n.priority (some n) ns
          (refl, (better_eligible best start n ns h start h e).0)))
  | inr e ↦ rw e (step_kept best start n ns h _ e (select_from-IsBestFrom best start ns h))
]

IsBest-start : (ns : List Node) (r : Option Node) → IsBestFrom (negsuc 0) none ns r → IsBest ns r
IsBest-start ns none b = b.1
IsBest-start ns (some c) b = (elim b.0 [ inl e ↦ absurd (cc e) | inr at ↦ at ], b.1, b.3)

-- The candidate is a node of the cluster that is on standby with a health score of 70 or more and a
-- priority that is not negative, and none such has a higher priority; there is no candidate exactly
-- when no node is such.
pub select_failover_candidate-IsBest :
    (fm : FailoverManager) → IsBest (values fm.nodes) (select_failover_candidate fm)
unfolding select_failover_candidate
select_failover_candidate-IsBest fm =
    IsBest-start (values fm.nodes) _ (select_from-IsBestFrom (negsuc 0) none (values fm.nodes) refl)
