-- ===== src/RateLimit/LeakyBucket.antt =====
-- LeakyBucket: capacity that comes back at a fixed rate. A call gives the new bucket and its answer,
-- or `none` where the source divides by a rate of 0, which panics.
pub mod Throughput
use net_llm.Prelude.{
  ℕ, ◌+◌, ◌-◌, ◌/◌, Bool, true, false, Option, none, some, if◌then◌else◌, ltb, leb, ◌==◌,
}

pub record LeakyBucket : Type 0 where
  pub capacity : ℕ
  pub available : ℕ
  pub rate : ℕ
  pub last_leak : ℕ

unfoldable pub new : ℕ → ℕ → ℕ → LeakyBucket
new capacity rate now = record {
  capacity = capacity;
  available = capacity;
  rate = rate;
  last_leak = now;
}

-- The capacity is given back for the time since the last call, and no more than the bucket holds.
unfoldable pub leak : LeakyBucket → ℕ → LeakyBucket
leak lb now =
    let available = lb.available + (now - lb.last_leak) / lb.rate in
    record lb {
      available = if ltb lb.capacity available then lb.capacity else available;
      last_leak = now;
    }

unfoldable pub take : LeakyBucket → ℕ → LeakyBucket × Bool
take lb n =
    if leb n lb.available then (record lb { available = lb.available - n }, true) else (lb, false)

unfoldable pub allow_n : LeakyBucket → ℕ → ℕ → Option (LeakyBucket × Bool)
unfolding leak take
allow_n lb n now = if lb.rate == 0 then none else some (take (leak lb now) n)

unfoldable pub allow : LeakyBucket → ℕ → Option (LeakyBucket × Bool)
unfolding allow_n
allow lb now = allow_n lb 1 now
