-- ===== src/RateLimit/FixedWindow.antt =====
-- FixedWindowRateLimiter: a counter for each key, reset when its window is over. The counter and the
-- numbers asked for are any `int`, and their sum wraps.
pub mod Counted
pub mod Guarantee
use net_llm.Prelude.{
  ℕ, ◌+◌, ◌-◌, String, Bool, true, false, not, Option, none, some, List, [], ◌∷◌, if◌then◌else◌,
  ltb, leb,
}
use net_llm.Prelude.Int.{ℤ, pos, pos_part, ltb_ℤ, leb_ℤ, ◌+ℤ◌, ◌-ℤ◌, wrap_int}
use net_llm.Prelude.Dict.{Dict, lookup, insert, delete}
use net_llm.RateLimit.Info.{RateLimitInfo, untouched}

pub record FixedWindow : Type 0 where
  pub count : ℤ
  pub start_time : ℕ

pub record FixedWindowRateLimiter : Type 0 where
  pub windows : Dict FixedWindow
  pub window_size : ℕ
  pub limit : ℕ

unfoldable pub new : ℕ → ℕ → FixedWindowRateLimiter
new limit window_size = record { windows = []; window_size = window_size; limit = limit }

-- `now.Sub(startTime) >= windowSize`.
unfoldable pub is_over : FixedWindowRateLimiter → FixedWindow → ℕ → Bool
is_over rl w now = leb (w.start_time + rl.window_size) now

abbrev pub put : FixedWindowRateLimiter → String → FixedWindow → FixedWindowRateLimiter
put rl key w = record rl { windows = insert key w rl.windows }

open_window : FixedWindowRateLimiter → String → ℤ → ℕ → FixedWindowRateLimiter × Bool
open_window rl key n now =
    (put rl key (record { count = n; start_time = now }), leb_ℤ n (pos rl.limit))

use_window : FixedWindowRateLimiter → String → FixedWindow → ℤ → FixedWindowRateLimiter × Bool
use_window rl key w n =
    let count = wrap_int (w.count +ℤ n) in
    if ltb_ℤ (pos rl.limit) count
    then (rl, false)
    else (put rl key (record w { count = count }), true)

-- The body of `AllowN` once the window of the key is looked up.
unfoldable pub admit :
    FixedWindowRateLimiter → String → ℤ → ℕ → Option FixedWindow → FixedWindowRateLimiter × Bool
unfolding open_window use_window is_over
admit rl key n now none = open_window rl key n now
admit rl key n now (some w) =
    if is_over rl w now then open_window rl key n now else use_window rl key w n

unfoldable pub allow_n : FixedWindowRateLimiter → String → ℤ → ℕ → FixedWindowRateLimiter × Bool
unfolding admit
allow_n rl key n now = admit rl key n now (lookup key rl.windows)

unfoldable pub allow : FixedWindowRateLimiter → String → ℕ → FixedWindowRateLimiter × Bool
unfolding allow_n
allow rl key now = allow_n rl key (pos 1) now

-- `pos_part` is the source's test for a negative remainder.
unfoldable pub get_info : FixedWindowRateLimiter → String → ℕ → RateLimitInfo
unfolding is_over
get_info rl key now = elim (lookup key rl.windows) [
  | none ↦ untouched key rl.limit rl.limit
  | some w ↦ if is_over rl w now then untouched key rl.limit rl.limit else record {
    key = key;
    limit = rl.limit;
    remaining = pos_part (wrap_int (pos rl.limit -ℤ w.count));
    reset_at = some (w.start_time + rl.window_size);
    retry_after = 0;
    window_start = some w.start_time;
    total_requests = w.count;
  }
]

unfoldable pub reset : FixedWindowRateLimiter → String → FixedWindowRateLimiter
reset rl key = record rl { windows = delete key rl.windows }

sweep : FixedWindowRateLimiter → ℕ → Dict FixedWindow → Dict FixedWindow
unfolding is_over
sweep rl now [] = []
sweep rl now ((k, w) ∷ m) =
    let rest = sweep rl now m in if is_over rl w now then rest else (k, w) ∷ rest

unfoldable pub cleanup : FixedWindowRateLimiter → ℕ → FixedWindowRateLimiter
unfolding sweep
cleanup rl now = record rl { windows = sweep rl now rl.windows }
