-- ===== src/RateLimit/Info.antt =====
-- The answer of `GetInfo` (RateLimitInfo). A zero `time.Time` is `none`.
use net_llm.Prelude.{ℕ, String, Option, none}
use net_llm.Prelude.Int.{ℤ, pos}

pub record RateLimitInfo : Type 0 where
  pub key : String
  pub limit : ℕ
  pub remaining : ℕ
  pub reset_at : Option ℕ
  pub retry_after : ℕ
  pub window_start : Option ℕ
  pub total_requests : ℤ

-- The literal with the first three fields given.
abbrev pub untouched : String → ℕ → ℕ → RateLimitInfo
untouched key limit remaining = record {
  key = key;
  limit = limit;
  remaining = remaining;
  reset_at = none;
  retry_after = 0;
  window_start = none;
  total_requests = pos 0;
}
