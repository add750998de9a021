-- ===== src/RateLimit/TokenBucket.antt =====
-- TokenBucket. Floating-point numbers are a parameter: a type with the operations that the source
-- applies to them.
pub mod Cap
use net_llm.Prelude.Int.{ℤ, pos}
use net_llm.Prelude.{ℕ, ◌-◌, Bool, true, false, if◌then◌else◌}

-- float64, as the limiter uses it. `seconds` is Duration.Seconds(), `truncate` the conversion to an
-- integer of a number that is not negative.
pub record Float64 : Type 1 where
  pub Carrier : Type 0
  pub of_int : ℤ → Carrier
  pub add : Carrier → Carrier → Carrier
  pub mul : Carrier → Carrier → Carrier
  pub sub : Carrier → Carrier → Carrier
  pub gt : Carrier → Carrier → Bool
  pub ge : Carrier → Carrier → Bool
  pub seconds : ℕ → Carrier
  pub truncate : Carrier → ℕ

pub record TokenBucket (F : Float64) : Type 0 where
  pub rate : F.Carrier
  pub burst : ℤ
  pub tokens : F.Carrier
  pub last_update : ℕ

module _ (F : Float64) where
  open F use {of_int, add, mul, sub, gt, ge, seconds}

  unfoldable pub new : F.Carrier → ℤ → ℕ → TokenBucket F
  new rate burst now = record {
    rate = rate;
    burst = burst;
    tokens = of_int burst;
    last_update = now;
  }

  -- The tokens at a time: what has come in since the last call, up to the burst size.
  unfoldable pub refilled : TokenBucket F → ℕ → F.Carrier
  refilled tb now =
      let tokens = add tb.tokens (mul (seconds (now - tb.last_update)) tb.rate) in
      if gt tokens (of_int tb.burst) then of_int tb.burst else tokens

  -- A negative number of requests is not refused.
  unfoldable pub allow_n : TokenBucket F → ℤ → ℕ → TokenBucket F × Bool
  unfolding refilled
  allow_n tb n now =
      let tokens = refilled tb now in
      if ge tokens (of_int n)
      then (record tb { tokens = sub tokens (of_int n); last_update = now }, true)
      else (record tb { tokens = tokens; last_update = now }, false)

  unfoldable pub allow : TokenBucket F → ℕ → TokenBucket F × Bool
  unfolding allow_n
  allow tb now = allow_n tb (pos 1) now

  unfoldable pub get_tokens : TokenBucket F → ℕ → F.Carrier
  unfolding refilled
  get_tokens tb now = refilled tb now
