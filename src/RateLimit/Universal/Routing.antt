-- ===== src/RateLimit/Universal/Routing.antt =====
-- How the universal limiter routes a call, and what `Reset` and a rate below 1 do.
use net_llm.Prelude.{ℕ, String, none, ◌≡◌, refl, ◌≢◌, arith}
use net_llm.Prelude.Dict.{lookup, lookup-delete_self}
use net_llm.RateLimit.Info.{untouched}
use net_llm.RateLimit.FixedWindow
use net_llm.RateLimit.SlidingWindow
use net_llm.RateLimit.TokenBucket.{Float64}
use net_llm.RateLimit.Universal.{
  RateLimiterType, token_bucket, fixed_window, sliding_window, leaky_bucket, unknown_type,
  UniversalRateLimiter, allow_n, get_info, reset,
}

module _ (F : Float64) where
  -- The limits of the windows are those of the configuration, as the constructor sets them.
  pub record IsConfigured (rl : UniversalRateLimiter F) : Type 0 where
    pub fixed_limit : rl.fixed.limit ≡ rl.config.burst_size
    pub sliding_limit : rl.sliding.limit ≡ rl.config.burst_size

  reset_of-get_info :
      (typ : RateLimiterType) (rl : UniversalRateLimiter F) (key : String) (now : ℕ)
      → rl.typ ≡ typ
      → typ ≢ leaky_bucket
      → typ ≢ unknown_type
      → IsConfigured rl
      → get_info F (reset F rl key) key now
        ≡ untouched key rl.config.burst_size rl.config.burst_size
  unfolding get_info reset FixedWindow.reset SlidingWindow.reset FixedWindow.get_info
      SlidingWindow.get_info
  reset_of-get_info token_bucket rl key now e nl nu c =
      ground (arith, lookup-delete_self key rl.token_buckets)
  reset_of-get_info fixed_window rl key now e nl nu c =
      ground (arith, lookup-delete_self key rl.fixed.windows)
  reset_of-get_info sliding_window rl key now e nl nu c =
      ground (arith, lookup-delete_self key rl.sliding.windows)
  reset_of-get_info leaky_bucket rl key now e nl nu c = absurd (nl refl)
  reset_of-get_info unknown_type rl key now e nl nu c = absurd (nu refl)

  -- For a token bucket or a window limiter whose limits are those of its configuration: after `Reset`
  -- the information on the key is that of a key which was never used.
  pub get_info-reset :
      (rl : UniversalRateLimiter F) (key : String) (now : ℕ)
      → rl.typ ≢ leaky_bucket
      → rl.typ ≢ unknown_type
      → IsConfigured rl
      → get_info F (reset F rl key) key now
        ≡ untouched key rl.config.burst_size rl.config.burst_size
  get_info-reset rl key now nl nu c = reset_of-get_info rl.typ rl key now refl nl nu c

  -- A leaky limiter whose rate rounds down to 0 panics at the first call for a key.
  pub slow_leaky_panics :
      (rl : UniversalRateLimiter F) (key : String) (n now : ℕ)
      → rl.typ ≡ leaky_bucket
      → lookup key rl.leaky_buckets ≡ none
      → F.truncate rl.config.requests_per_second ≡ 0
      → allow_n F rl key n now ≡ none
  unfolding allow_n
  slow_leaky_panics rl key n now e absent slow = ground arith
