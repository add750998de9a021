-- ===== src/RateLimit/Universal.antt =====
-- UniversalRateLimiter, the service of named limiters, and the check of the middleware.
pub mod Routing
use net_llm.Prelude.{
  ℕ, ◌/◌, String, Bool, true, false, not, Option, none, some, List, [], ◌∷◌, if◌then◌else◌, leb,
  str_eq, map, ◌==◌,
}
use net_llm.Prelude.Int.{pos}
use net_llm.Prelude.Dict.{Dict, lookup, insert, delete}
use net_llm.RateLimit.Info.{RateLimitInfo, untouched}
use net_llm.RateLimit.FixedWindow.{FixedWindowRateLimiter}
use net_llm.RateLimit.FixedWindow
use net_llm.RateLimit.SlidingWindow.{SlidingWindowRateLimiter}
use net_llm.RateLimit.SlidingWindow
use net_llm.RateLimit.LeakyBucket.{LeakyBucket}
use net_llm.RateLimit.LeakyBucket
use net_llm.RateLimit.TokenBucket.{Float64, TokenBucket}
use net_llm.RateLimit.TokenBucket

-- The source's type is a string: any other value is `unknown_type`.
pub data RateLimiterType : Type 0 where
  token_bucket fixed_window sliding_window leaky_bucket unknown_type : RateLimiterType

pub data Error : Type 0 where
  rate_limit_exceeded invalid_rate_limit rate_limiter_not_found : Error

pub data Result {ℓ} (A : Type ℓ) : Type ℓ where
  ok : A → Result A
  err : Error → Result A

module _ (F : Float64) where
  pub record RateLimitConfig : Type 0 where
    pub requests_per_second : F.Carrier
    pub burst_size : ℕ
    pub window_duration : ℕ

  pub record UniversalRateLimiter : Type 0 where
    pub typ : RateLimiterType
    pub token_buckets : Dict (TokenBucket F)
    pub fixed : FixedWindowRateLimiter
    pub sliding : SlidingWindowRateLimiter
    pub leaky_buckets : Dict LeakyBucket
    pub config : RateLimitConfig

  abbrev pub bare : RateLimiterType → RateLimitConfig → UniversalRateLimiter
  bare typ config = record {
    typ = typ;
    token_buckets = [];
    fixed = FixedWindow.new config.burst_size config.window_duration;
    sliding = SlidingWindow.new config.burst_size config.window_duration;
    leaky_buckets = [];
    config = config;
  }

  -- The parts that the type does not use are nil in the source, and never read.
  unfoldable pub new : RateLimiterType → Option RateLimitConfig → Result UniversalRateLimiter
  new typ none = err invalid_rate_limit
  new unknown_type (some config) = err invalid_rate_limit
  new token_bucket (some config) = ok (bare token_bucket config)
  new fixed_window (some config) = ok (bare fixed_window config)
  new sliding_window (some config) = ok (bare sliding_window config)
  new leaky_bucket (some config) = ok (bare leaky_bucket config)

  abbrev second : ℕ
  second = 1000000000

  bucket_of : UniversalRateLimiter → String → ℕ → TokenBucket F
  bucket_of rl key now = elim (lookup key rl.token_buckets) [
    | none ↦ TokenBucket.new F rl.config.requests_per_second (pos rl.config.burst_size) now
    | some tb ↦ tb
  ]

  -- `time.Second / time.Duration(RequestsPerSecond)` panics when the rate rounds down to 0.
  leaky_of : UniversalRateLimiter → String → ℕ → Option LeakyBucket
  leaky_of rl key now = elim (lookup key rl.leaky_buckets) [
    | none ↦
        let per_second = F.truncate rl.config.requests_per_second in
        if per_second == 0
        then none
        else some (LeakyBucket.new rl.config.burst_size (second / per_second) now)
    | some lb ↦ some lb
  ]

  leaky_allow : UniversalRateLimiter → String → ℕ → ℕ → Option (UniversalRateLimiter × Bool)
  unfolding leaky_of
  leaky_allow rl key n now = elim (leaky_of rl key now) [
    | none ↦ none
    | some lb ↦ elim (LeakyBucket.allow_n lb n now) [
      | none ↦ none
      | some (lb', granted) ↦
          some (record rl { leaky_buckets = insert key lb' rl.leaky_buckets }, granted)
    ]
  ]

  dispatch :
      RateLimiterType → UniversalRateLimiter → String → ℕ → ℕ → Option (UniversalRateLimiter × Bool)
  unfolding bucket_of leaky_allow
  dispatch token_bucket rl key n now =
      let (tb, granted) = TokenBucket.allow_n F (bucket_of rl key now) (pos n) now in
      some (record rl { token_buckets = insert key tb rl.token_buckets }, granted)
  dispatch fixed_window rl key n now =
      let (fixed, granted) = FixedWindow.allow_n rl.fixed key (pos n) now in
      some (record rl { fixed = fixed }, granted)
  dispatch sliding_window rl key n now =
      let (sliding, granted) = SlidingWindow.allow_n rl.sliding key n now in
      some (record rl { sliding = sliding }, granted)
  dispatch leaky_bucket rl key n now = leaky_allow rl key n now
  dispatch unknown_type rl key n now = some (rl, false)

  -- `none` is a panic.
  unfoldable pub allow_n :
      UniversalRateLimiter → String → ℕ → ℕ → Option (UniversalRateLimiter × Bool)
  unfolding dispatch
  allow_n rl key n now = dispatch rl.typ rl key n now

  info_of : RateLimiterType → UniversalRateLimiter → String → ℕ → RateLimitInfo
  info_of token_bucket rl key now = elim (lookup key rl.token_buckets) [
    | none ↦ untouched key rl.config.burst_size rl.config.burst_size
    | some tb ↦ untouched key rl.config.burst_size (F.truncate (TokenBucket.get_tokens F tb now))
  ]
  info_of fixed_window rl key now = FixedWindow.get_info rl.fixed key now
  info_of sliding_window rl key now = SlidingWindow.get_info rl.sliding key now
  info_of _ rl key now = untouched key rl.config.burst_size 0

  unfoldable pub get_info : UniversalRateLimiter → String → ℕ → RateLimitInfo
  unfolding info_of
  get_info rl key now = info_of rl.typ rl key now

  reset_of : RateLimiterType → UniversalRateLimiter → String → UniversalRateLimiter
  reset_of token_bucket rl key = record rl { token_buckets = delete key rl.token_buckets }
  reset_of fixed_window rl key = record rl { fixed = FixedWindow.reset rl.fixed key }
  reset_of sliding_window rl key = record rl { sliding = SlidingWindow.reset rl.sliding key }
  reset_of leaky_bucket rl key = record rl { leaky_buckets = delete key rl.leaky_buckets }
  reset_of unknown_type rl key = rl

  unfoldable pub reset : UniversalRateLimiter → String → UniversalRateLimiter
  unfolding reset_of
  reset rl key = reset_of rl.typ rl key

  -- RateLimitMiddleware.Check: the key that the key function gave, the answer and the information.
  unfoldable pub check :
      UniversalRateLimiter
      → String
      → ℕ
      → Option (UniversalRateLimiter × RateLimitInfo × Option Error)
  unfolding allow_n get_info
  check rl key now =
      let used = if str_eq key "" then "default" else key in
      elim (allow_n rl used 1 now) [
        | none ↦ none
        | some (rl', granted) ↦
            some (rl', get_info rl' used now, if granted then none else some rate_limit_exceeded)
      ]
