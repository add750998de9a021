-- ===== src/RateLimit/Service.antt =====
-- RateLimitService: limiters by name.
pub mod Quota
use net_llm.Prelude.{
  ℕ, String, Bool, true, false, Option, none, some, List, [], ◌∷◌, if◌then◌else◌, ltb, ◌==◌,
}
use net_llm.Prelude.Dict.{Dict, lookup, insert, delete}
use net_llm.RateLimit.Info.{RateLimitInfo}
use net_llm.RateLimit.FixedWindow
use net_llm.RateLimit.TokenBucket.{Float64}
use net_llm.RateLimit.Universal.{
  RateLimitConfig, UniversalRateLimiter, Result, ok, err, invalid_rate_limit,
  rate_limiter_not_found, fixed_window, sliding_window,
}
use net_llm.RateLimit.Universal

module _ (F : Float64) where
  pub record RateLimitService : Type 0 where
    pub limiters : Dict (UniversalRateLimiter F)
    pub configs : Dict (RateLimitConfig F)

  abbrev pub empty : RateLimitService
  empty = record { limiters = []; configs = [] }

  -- Every registered limiter is a sliding window. `BurstSize <= 0` is 0 here.
  unfoldable pub register_limiter :
      RateLimitService → String → Option (RateLimitConfig F) → Result RateLimitService
  register_limiter s name none = err invalid_rate_limit
  register_limiter s name (some config) =
      if config.burst_size == 0
      then err invalid_rate_limit
      else elim (Universal.new F sliding_window (some config)) [
        | err e ↦ err e
        | ok limiter ↦ ok (record s {
          limiters = insert name limiter s.limiters;
          configs = insert name config s.configs;
        })
      ]

  -- A name with no limiter is allowed everything. `none` is a panic of the limiter.
  unfoldable pub allow_n :
      RateLimitService → String → String → ℕ → ℕ → Option (RateLimitService × Bool)
  allow_n s name key n now = elim (lookup name s.limiters) [
    | none ↦ some (s, true)
    | some limiter ↦ elim (Universal.allow_n F limiter key n now) [
      | none ↦ none
      | some (limiter', granted) ↦
          some (record s { limiters = insert name limiter' s.limiters }, granted)
    ]
  ]

  unfoldable pub get_info : RateLimitService → String → String → ℕ → Result RateLimitInfo
  get_info s name key now = elim (lookup name s.limiters) [
    | none ↦ err rate_limiter_not_found
    | some limiter ↦ ok (Universal.get_info F limiter key now)
  ]

  unfoldable pub reset : RateLimitService → String → String → Result RateLimitService
  reset s name key = elim (lookup name s.limiters) [
    | none ↦ err rate_limiter_not_found
    | some limiter ↦
        ok (record s { limiters = insert name (Universal.reset F limiter key) s.limiters })
  ]

  unfoldable pub remove_limiter : RateLimitService → String → RateLimitService
  remove_limiter s name = record s {
    limiters = delete name s.limiters;
    configs = delete name s.configs;
  }
