-- ===== src/RateLimit/LeakyBucket/Throughput.antt =====
-- How much a leaky bucket grants over a history of calls.
use native.Mathlib.Nat.{mul-le-mul_right, div-mul-le_self}
use net_llm.Prelude.{
  ℕ, ◌+◌, ◌-◌, ◌*◌, ◌/◌, ◌≤◌, ◌<◌, Bool, Option, none, some, List, [], ◌∷◌, ◌≡◌, refl, sym, subst,
  if◌then◌else◌, arith,
}
use net_llm.RateLimit.LeakyBucket.{LeakyBucket, leak, take, allow_n}

-- The times and the sizes of calls, and what they were granted in all; `none` is the panic.
unfoldable pub granted : LeakyBucket → List (ℕ × ℕ) → Option (LeakyBucket × ℕ)
granted lb [] = some (lb, 0)
granted lb ((now, n) ∷ cs) = elim (allow_n lb n now) [
  | none ↦ none
  | some (lb', ok) ↦ elim (granted lb' cs) [
    | none ↦ none
    | some (last, sum) ↦ some (last, (if ok then n else 0) + sum)
  ]
]

-- The clock does not run backwards.
abbrev pub Ordered : ℕ → List (ℕ × ℕ) → Type 0
Ordered t [] = Unit
Ordered t ((now, n) ∷ cs) = (t ≤ now) × Ordered now cs

-- Each call comes less than `rate` after the one before it.
abbrev pub Frequent : ℕ → ℕ → List (ℕ × ℕ) → Type 0
Frequent rate t [] = Unit
Frequent rate t ((now, n) ∷ cs) = (now < t + rate) × Frequent rate now cs

-- What one call does, when the rate is not 0.
abbrev Call : LeakyBucket → ℕ → ℕ → LeakyBucket → Bool → Type 0
Call lb n now lb' ok =
    (allow_n lb n now ≡ some (lb', ok))
    × (lb'.rate ≡ lb.rate)
    × (lb'.capacity ≡ lb.capacity)
    × (lb'.last_leak ≡ now)
    × (lb'.available + (if ok then n else 0) ≤ lb.available + (now - lb.last_leak) / lb.rate)
    × (lb'.available ≤ lb.capacity)

allow_n_lem :
    (lb : LeakyBucket) (n now : ℕ)
    → 0 < lb.rate
    → (lb' : LeakyBucket) × (ok : Bool) × Call lb n now lb' ok
unfolding allow_n
allow_n_lem lb n now pos =
    let r = take (leak lb now) n in
    (r.0, r.1, (ground arith, ground arith, ground arith, ground arith, ground arith, ground arith))

-- One more call in front: the rates multiplied out.
step_bound :
    (rate a a' b n sum e e' : ℕ)
    → a' + n ≤ a + e / rate
    → (sum + b) * rate ≤ a' * rate + e'
    → (n + sum + b) * rate ≤ a * rate + (e + e')
step_bound rate a a' b n sum e e' h k =
    let whole : e / rate * rate ≤ e = div-mul-le_self e rate in
    let scaled : (a' + n) * rate ≤ (a + e / rate) * rate = mul-le-mul_right rate h in
    omega (arith, whole, scaled)

granted-cons :
    (lb lb1 lb2 : LeakyBucket) (now n sum : ℕ) (ok : Bool) (cs : List (ℕ × ℕ))
    → allow_n lb n now ≡ some (lb1, ok)
    → granted lb1 cs ≡ some (lb2, sum)
    → granted lb ((now, n) ∷ cs) ≡ some (lb2, (if ok then n else 0) + sum)
unfolding granted
granted-cons lb lb1 lb2 now n sum ok cs e f = rw (e, granted) (rw (f, granted))

-- For a rate that is not 0 and times that do not run backwards, the calls never panic, and all that
-- they are granted, with what is left, is paid for by what was there and one request for each `rate`
-- that has gone by.
pub throughput_bound :
    (lb : LeakyBucket) (cs : List (ℕ × ℕ))
    → 0 < lb.rate
    → Ordered lb.last_leak cs
    → (lb' : LeakyBucket) × (sum : ℕ) × (granted lb cs ≡ some (lb', sum))
      × (lb.last_leak ≤ lb'.last_leak)
      × ((sum + lb'.available) * lb.rate ≤ lb.available * lb.rate + (lb'.last_leak - lb.last_leak))
unfolding granted
throughput_bound lb [] pos ord = (lb, 0, refl, omega arith, omega arith)
throughput_bound lb ((now, n) ∷ cs) pos ord =
    let (lb1, ok, called) = allow_n_lem lb n now pos in
    let (lb2, sum, ran, later, bound) =
      throughput_bound lb1 cs (omega (arith, called.1))
        (subst (λ t. Ordered t cs) (sym called.3) ord.1) in
    let scaled : (sum + lb2.available) * lb.rate
        ≤ lb1.available * lb.rate + (lb2.last_leak - lb1.last_leak) =
      subst (λ r. (sum + lb2.available) * r ≤ lb1.available * r + (lb2.last_leak - lb1.last_leak))
        called.1 bound in
    (
      lb2,
      (if ok then n else 0) + sum,
      granted-cons lb lb1 lb2 now n sum ok cs called.0 ran,
      omega (arith, ord.0, called.3, later),
      omega (
        arith,
        step_bound lb.rate lb.available lb1.available lb2.available (if ok then n else 0) sum
            (now - lb.last_leak) (lb2.last_leak - lb1.last_leak) called.4 scaled,
        ord.0,
        called.3,
        later,
      ),
    )

-- The remainder of each division is lost: while every call comes less than `rate` after the one
-- before it, nothing is ever given back, however much time goes by in all.
pub starves :
    (lb : LeakyBucket) (cs : List (ℕ × ℕ))
    → 0 < lb.rate
    → Ordered lb.last_leak cs
    → Frequent lb.rate lb.last_leak cs
    → (lb' : LeakyBucket) × (sum : ℕ) × (granted lb cs ≡ some (lb', sum))
      × (sum + lb'.available ≤ lb.available)
unfolding granted
starves lb [] pos ord often = (lb, 0, refl, omega arith)
starves lb ((now, n) ∷ cs) pos ord often =
    let (lb1, ok, called) = allow_n_lem lb n now pos in
    let (lb2, sum, ran, bound) =
      starves lb1 cs (omega (arith, called.1)) (subst (λ t. Ordered t cs) (sym called.3) ord.1) (
        subst (λ t. Frequent lb1.rate t cs) (sym called.3)
          (subst (λ r. Frequent r now cs) (sym called.1) often.1)) in
    let idle : (now - lb.last_leak) / lb.rate ≡ 0 = grind arith in
    (
      lb2,
      (if ok then n else 0) + sum,
      granted-cons lb lb1 lb2 now n sum ok cs called.0 ran,
      omega (arith, called.4, idle, bound),
    )
