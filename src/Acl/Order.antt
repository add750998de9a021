-- ===== src/Acl/Order.antt =====
-- The sort of the entries by priority keeps the entries, and puts none before one of higher priority.
use net_llm.Prelude.{
  ℕ, zero, suc, true, false, List, [], ◌∷◌, ◌≡◌, refl, sym, ap, subst, if_cases, arith, inl, inr,
  ◌⊎◌, ◌↔◌, length,
}
use net_llm.Prelude.Int.{ℤ, ltb_ℤ, ◌≤ℤ◌}
use net_llm.LoadBalance.Chosen.{le_trans_ℤ}
use net_llm.Acl.State.{Ace}
use net_llm.Acl.Access.{exchange, sort_places, sort_aces_by_priority}

abbrev pub Among : Ace → List Ace → Type 0
Among a [] = ⊥
Among a (b ∷ bs) = (a ≡ b) ⊎ Among a bs

abbrev pub Leads : Ace → List Ace → Type 0
Leads a bs = (b : Ace) → Among b bs → b.priority ≤ℤ a.priority

abbrev pub IsSorted : List Ace → Type 0
IsSorted [] = Unit
IsSorted (a ∷ bs) = Leads a bs × IsSorted bs

-- What the inner loop leaves: the same entries, and first one of the highest priority.
abbrev Exchanged : Ace → List Ace → Ace × List Ace → Type 0
Exchanged first xs (m, r) =
    ((a : Ace) → Among a (first ∷ xs) ↔ Among a (m ∷ r))
    × Leads m r
    × (first.priority ≤ℤ m.priority)
    × (length r ≡ length xs)

pub le_refl_ℤ : (a : ℤ) → a ≤ℤ a
le_refl_ℤ a = omega arith

le_of_less : (a b : ℤ) → ltb_ℤ a b ≡ true → a ≤ℤ b
le_of_less a b h = ground (arith, h)

le_of_not_less : (a b : ℤ) → ltb_ℤ a b ≡ false → b ≤ℤ a
le_of_not_less a b h = ground (arith, h)

-- One entry more, which stands behind the first one.
insert_second : {P Q R : Type 0} → P ⊎ Q → P ⊎ (R ⊎ Q)
insert_second (inl p) = inl p
insert_second (inr q) = inr (inr q)

Leads-add : (m x : Ace) (r : List Ace) → x.priority ≤ℤ m.priority → Leads m r → Leads m (x ∷ r)
Leads-add m x r le leads b (inl e) = subst (λ y. y.priority ≤ℤ m.priority) (sym e) le
Leads-add m x r le leads b (inr i) = leads b i

exchange-Exchanged : (first : Ace) (xs : List Ace) → Exchanged first xs (exchange first xs)
unfolding exchange
exchange-Exchanged first [] =
    (λ a. (λ i. i, λ i. i), λ b i. absurd i, le_refl_ℤ first.priority, refl)
exchange-Exchanged first (x ∷ xs) =
    let (same1, leads1, le1, size1) = exchange-Exchanged x xs in
    let (same2, leads2, le2, size2) = exchange-Exchanged first xs in
    let (m1, r1) = exchange x xs in
    let (m2, r2) = exchange first xs in
    if_cases (Exchanged first (x ∷ xs)) (ltb_ℤ first.priority x.priority) (m1, first ∷ r1)
      (m2, x ∷ r2)
      (λ less.
        let up =
          le_trans_ℤ first.priority x.priority m1.priority
            (le_of_less first.priority x.priority less) le1 in
        (
          λ a. (
            λ i. elim i [ inl e ↦ inr (inl e) | inr j ↦ insert_second ((same1 a).0 j) ],
            λ i. elim i [
              | inl e ↦ inr ((same1 a).1 (inl e))
              | inr (inl e) ↦ inl e
              | inr (inr j) ↦ inr ((same1 a).1 (inr j))
            ],
          ),
          Leads-add m1 first r1 up leads1,
          up,
          ap suc size1,
        ))
      (λ not_less.
        let up =
          le_trans_ℤ x.priority first.priority m2.priority
            (le_of_not_less first.priority x.priority not_less) le2 in
        (
          λ a. (
            λ i. elim i [
              | inl e ↦ insert_second ((same2 a).0 (inl e))
              | inr (inl e) ↦ inr (inl e)
              | inr (inr j) ↦ insert_second ((same2 a).0 (inr j))
            ],
            λ i. elim i [
              | inl e ↦ insert_second ((same2 a).1 (inl e))
              | inr (inl e) ↦ inr (inl e)
              | inr (inr j) ↦ insert_second ((same2 a).1 (inr j))
            ],
          ),
          Leads-add m2 x r2 up leads2,
          le2,
          ap suc size2,
        ))

sort_places-IsSorted :
    (n : ℕ) (xs : List Ace)
    → length xs ≡ n
    → ((a : Ace) → Among a xs ↔ Among a (sort_places n xs)) × IsSorted (sort_places n xs)
unfolding sort_places
sort_places-IsSorted zero [] size = (λ a. (λ i. i, λ i. i), tt)
sort_places-IsSorted zero (x ∷ xs) size = absurd (omega arith)
sort_places-IsSorted (suc n) [] size = absurd (omega arith)
sort_places-IsSorted (suc n) (x ∷ xs) size =
    let (same, leads, le, left) = exchange-Exchanged x xs in
    let (same', sorted) = sort_places-IsSorted n (exchange x xs).1 (omega arith) in
    (
      λ a. (
        λ i. elim ((same a).0 i) [ inl e ↦ inl e | inr j ↦ inr ((same' a).0 j) ],
        λ i. elim i [ inl e ↦ (same a).1 (inl e) | inr j ↦ (same a).1 (inr ((same' a).1 j)) ],
      ),
      (λ b i. leads b ((same' b).1 i), sorted),
    )

pub sort_aces_by_priority-IsSorted :
    (xs : List Ace)
    → ((a : Ace) → Among a xs ↔ Among a (sort_aces_by_priority xs))
      × IsSorted (sort_aces_by_priority xs)
unfolding sort_aces_by_priority
sort_aces_by_priority-IsSorted xs = sort_places-IsSorted (length xs) xs refl
