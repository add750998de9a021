-- ===== src/RateLimit/SlidingWindow.antt =====
-- SlidingWindowRateLimiter: the times of the granted requests of each key.
pub mod Guarantee
use net_llm.Prelude.{
  ℕ, ◌+◌, ◌-◌, String, Bool, true, false, Option, none, some, List, [], ◌∷◌, ◌++◌, if◌then◌else◌,
  ltb, leb, length, replicate, select,
}
use net_llm.Prelude.Int.{pos}
use net_llm.Prelude.Dict.{Dict, lookup, insert, delete}
use net_llm.RateLimit.Info.{RateLimitInfo, untouched}

pub record SlidingWindow : Type 0 where
  pub timestamps : List ℕ

pub record SlidingWindowRateLimiter : Type 0 where
  pub windows : Dict SlidingWindow
  pub window_size : ℕ
  pub limit : ℕ

unfoldable pub new : ℕ → ℕ → SlidingWindowRateLimiter
new limit window_size = record { windows = []; window_size = window_size; limit = limit }

-- `ts.After(now.Add(-windowSize))`.
abbrev pub is_recent : ℕ → ℕ → ℕ → Bool
is_recent size now ts = ltb now (ts + size)

abbrev pub put : SlidingWindowRateLimiter → String → List ℕ → SlidingWindowRateLimiter
put rl key ts = record rl { windows = insert key (record { timestamps = ts }) rl.windows }

-- The window of the key, or the empty one that the call creates.
abbrev pub timestamps_of : Option SlidingWindow → List ℕ
timestamps_of none = []
timestamps_of (some w) = w.timestamps

-- The test and the update, over the timestamps that are still valid.
unfoldable pub admit :
    SlidingWindowRateLimiter → String → ℕ → ℕ → List ℕ → SlidingWindowRateLimiter × Bool
admit rl key n now valid =
    if ltb rl.limit (length valid + n)
    then (put rl key valid, false)
    else (put rl key (valid ++ replicate n now), true)

unfoldable pub allow_n : SlidingWindowRateLimiter → String → ℕ → ℕ → SlidingWindowRateLimiter × Bool
unfolding admit
allow_n rl key n now =
    admit rl key n now
      (select (is_recent rl.window_size now) (timestamps_of (lookup key rl.windows)))

unfoldable pub allow : SlidingWindowRateLimiter → String → ℕ → SlidingWindowRateLimiter × Bool
unfolding allow_n
allow rl key now = allow_n rl key 1 now

-- The source computes an `oldestTime` here that it does not use.
unfoldable pub get_info : SlidingWindowRateLimiter → String → ℕ → RateLimitInfo
get_info rl key now = elim (lookup key rl.windows) [
  | none ↦ untouched key rl.limit rl.limit
  | some w ↦
      let count = length (select (is_recent rl.window_size now) w.timestamps) in
      record {
        key = key;
        limit = rl.limit;
        remaining = rl.limit - count;
        reset_at = some (now + rl.window_size);
        retry_after = 0;
        window_start = some (now - rl.window_size);
        total_requests = pos count;
      }
]

unfoldable pub reset : SlidingWindowRateLimiter → String → SlidingWindowRateLimiter
reset rl key = record rl { windows = delete key rl.windows }
