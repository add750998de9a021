-- ===== src/LoadBalance/Rotation.antt =====
-- Round robin goes round: as many calls as there are backends serve each of them once.
use native.Mathlib.Nat.{mod-add-mod, mod_self, mod-lt}
use net_llm.Prelude.{
  ℕ, zero, suc, ◌+◌, ◌-◌, ◌%◌, ◌^◌, ◌≤◌, ◌<◌, Option, some, List, [], ◌∷◌, ◌++◌, ◌≡◌, refl, sym, ap,
  ◌∙◌, length, take, drop, take_all, arith,
}
use net_llm.LoadBalance.State.{Backend, LoadBalancer}
use net_llm.LoadBalance.Choice.{get_elem?, select_round_robin}

-- What so many calls in turn give, from one list of backends.
unfoldable pub served : ℕ → LoadBalancer → List Backend → List (Option Backend)
served zero lb bs = []
served (suc k) lb bs = let (lb', b) = select_round_robin lb bs in b ∷ served k lb' bs

abbrev pub given : List Backend → List (Option Backend)
given [] = []
given (b ∷ bs) = some b ∷ given bs

-- The turn at an index that does not wrap.
turn : (idx n : ℕ) → idx + 1 < 2 ^ 64 → ((idx + 1) % 2 ^ 64 + (2 ^ 64 - 1)) % 2 ^ 64 ≡ idx
turn idx n h = omega arith

next_turn : (idx n s : ℕ) → s + 1 < n → idx % n ≡ s → (idx + 1) % n ≡ s + 1
next_turn idx n s h e = grind arith

turn_over : (idx n s : ℕ) → 0 < n → s ≤ n → idx % n ≡ s → (idx + (n - s)) % n ≡ 0
turn_over idx n s h le e =
    sym (mod-add-mod idx n (n - s))
    ∙ ap (λ r. (r + (n - s)) % n) e
    ∙ ap (λ m. m % n) {x = s + (n - s)} {y = n} (omega arith)
    ∙ mod_self n

-- The state after so many turns that do not wrap.
abbrev pub advanced : ℕ → LoadBalancer → LoadBalancer
advanced j lb = record lb { round_robin_idx = lb.round_robin_idx + j }

drop-get_elem? {ℓ} :
    {A : Type ℓ}
    → (s : ℕ) → (xs : List A) → s < length xs
    → (x : A) × (get_elem? xs s ≡ some x) × (drop s xs ≡ x ∷ drop (suc s) xs)
drop-get_elem? s [] h = absurd (omega arith)
drop-get_elem? zero (x ∷ xs) h = (x, refl, refl)
drop-get_elem? (suc s) (x ∷ xs) h = drop-get_elem? s xs (omega arith)

select_round_robin-turn :
    (lb : LoadBalancer)
    → (bs : List Backend) → (s : ℕ) → s < length bs
    → lb.round_robin_idx + 1 < 2 ^ 64
    → lb.round_robin_idx % length bs ≡ s
    → select_round_robin lb bs ≡ (advanced 1 lb, get_elem? bs s)
unfolding select_round_robin
select_round_robin-turn lb [] s h w e = absurd (omega arith)
select_round_robin-turn lb (b ∷ bs) s h w e =
    ap
      (λ i. (
        record lb { round_robin_idx = i },
        get_elem? (b ∷ bs)
            ((((lb.round_robin_idx + 1) % 2 ^ 64 + (2 ^ 64 - 1)) % 2 ^ 64) % length (b ∷ bs)),
      ))
      {x = (lb.round_robin_idx + 1) % 2 ^ 64} {y = lb.round_robin_idx + 1} (omega arith)
    ∙ ap (λ k. (advanced 1 lb, get_elem? (b ∷ bs) k))
        (ap (λ i. i % length (b ∷ bs)) (turn lb.round_robin_idx (length (b ∷ bs)) w) ∙ e)

-- So many turns, before the list is over, give so many backends from the one whose turn it is; then
-- come the others.
served-ahead :
    (j k s : ℕ)
    → (lb : LoadBalancer) → (bs : List Backend) → s + j ≤ length bs
    → lb.round_robin_idx + j < 2 ^ 64
    → (0 < j → lb.round_robin_idx % length bs ≡ s)
    → served (j + k) lb bs ≡ given (take j (drop s bs)) ++ served k (advanced j lb) bs
unfolding served
served-ahead zero k s lb bs le w e =
    ap (λ i. served i lb bs) {x = 0 + k} {y = k} (omega arith)
    ∙ ap (λ i. served k (record lb { round_robin_idx = i }) bs) {x = lb.round_robin_idx}
        {y = lb.round_robin_idx + 0} (omega arith)
served-ahead (suc j) k s lb bs le w e =
    let (x, at, from) = drop-get_elem? s bs (omega arith) in
    let on_turn = e (omega arith) in
    let turned = select_round_robin-turn lb bs s (omega arith) (omega arith) on_turn in
    let next =
      served-ahead j k (suc s) (advanced 1 lb) bs (omega arith) (omega arith)
        (λ more. next_turn lb.round_robin_idx (length bs) s (omega arith) on_turn ∙ omega arith) in
    ap (λ i. served i lb bs) {x = suc j + k} {y = suc (j + k)} (omega arith)
    ∙ ap (λ p. p.1 ∷ served (j + k) p.0 bs) turned
    ∙ ap (λ b. b ∷ served (j + k) (advanced 1 lb) bs) at
    ∙ ap (λ l. some x ∷ l) next
    ∙ ap
        (λ i.
          some x ∷ given (take j (drop (suc s) bs))
          ++ served k (record lb { round_robin_idx = i }) bs)
        {x = lb.round_robin_idx + 1 + j} {y = lb.round_robin_idx + suc j} (omega arith)
    ∙ ap (λ l. given (take (suc j) l) ++ served k (advanced (suc j) lb) bs) (sym from)

length-drop : {A : Type 0} → (s : ℕ) → (xs : List A) → length (drop s xs) ≡ length xs - s
length-drop zero xs = omega arith
length-drop (suc s) [] = omega arith
length-drop (suc s) (x ∷ xs) = length-drop s xs ∙ omega arith

given-++ : (xs ys : List Backend) → given (xs ++ ys) ≡ given xs ++ given ys
given-++ [] ys = refl
given-++ (x ∷ xs) ys = ap (λ l. some x ∷ l) (given-++ xs ys)

append_nil : {A : Type 0} → (xs : List A) → xs ++ [] ≡ xs
append_nil [] = refl
append_nil (x ∷ xs) = ap (λ l. x ∷ l) (append_nil xs)

-- While the counter does not wrap, as many round-robin choices in a row as the list has backends give
-- every backend of the list once, in the order of the list, from the one whose turn it is, and after
-- the last of the list comes the first.
pub served-rotation :
    (lb : LoadBalancer)
    → (bs : List Backend) → 0 < length bs
    → lb.round_robin_idx + length bs < 2 ^ 64
    → served (length bs) lb bs
      ≡ given (drop (lb.round_robin_idx % length bs) bs ++ take (lb.round_robin_idx % length bs) bs)
unfolding served
served-rotation lb bs some_left w =
    let n = length bs in
    let s = lb.round_robin_idx % n in
    let below = mod-lt lb.round_robin_idx some_left in
    let to_end = served-ahead (n - s) s s lb bs (omega arith) (omega arith) (λ _. refl) in
    let over = turn_over lb.round_robin_idx n s some_left (omega arith) refl in
    let from_start =
      served-ahead s 0 0 (advanced (n - s) lb) bs (omega arith) (omega arith) (λ _. over) in
    ap (λ k. served k lb bs) {x = n} {y = (n - s) + s} (omega arith)
    ∙ to_end
    ∙ ap (λ l. given l ++ served s (advanced (n - s) lb) bs)
        (take_all (drop s bs) (n - s) (let left = length-drop s bs in omega arith))
    ∙ ap (λ l. given (drop s bs) ++ l)
        (ap (λ k. served k (advanced (n - s) lb) bs) {x = s} {y = s + 0} (omega arith)
          ∙ from_start
          ∙ append_nil (given (take s bs)))
    ∙ sym (given-++ (drop s bs) (take s bs))
