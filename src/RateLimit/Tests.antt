-- ===== src/RateLimit/Tests.antt =====
-- Runs of the limiters, and the theorems at them.
use net_llm.Prelude.{ℕ, true, ◌+◌, ◌*◌, ◌-◌, ◌≤◌, String, some, List, [], ◌∷◌, ◌≡◌, refl, arith}
use net_llm.Prelude.Int.{
  ℤ, pos, negsuc, pos_part, ltb_ℤ, leb_ℤ, ◌+ℤ◌, ◌-ℤ◌, parts-sub, max_int, wrap_int,
}
use net_llm.RateLimit.Info.{untouched}
use net_llm.RateLimit.FixedWindow
use net_llm.RateLimit.FixedWindow.Counted as Counted
use net_llm.RateLimit.FixedWindow.Guarantee as Fixed
use net_llm.RateLimit.FixedWindow.Guarantee.{window_bound}
use net_llm.RateLimit.SlidingWindow
use net_llm.RateLimit.SlidingWindow.Guarantee as Sliding
use net_llm.RateLimit.SlidingWindow.Guarantee.{sliding_bound}
use net_llm.RateLimit.LeakyBucket.{LeakyBucket}
use net_llm.RateLimit.LeakyBucket.Throughput.{granted, throughput_bound, starves}
use net_llm.RateLimit.TokenBucket.{Float64}
use net_llm.RateLimit.TokenBucket
use net_llm.RateLimit.TokenBucket.Cap.{IsIeee, run-new-IsCapped}
use net_llm.RateLimit.TokenBucket.Cap
use net_llm.RateLimit.Universal.{
  leaky_bucket, sliding_window, token_bucket, RateLimitConfig, UniversalRateLimiter, ok,
}
use net_llm.RateLimit.Universal
use net_llm.RateLimit.Universal.Routing.{get_info-reset}
use net_llm.RateLimit.Service
use net_llm.RateLimit.Service.{RateLimitService, register_limiter}
use net_llm.RateLimit.Service.Quota.{service_quota}
use net_llm.RateLimit.Service.Quota

abbrev fixed_call : ℕ → String → ℕ → Counted.Call
fixed_call at key n = record { at = at; key = key; n = n }

abbrev fixed_calls : List Counted.Call
fixed_calls =
    fixed_call 0 "a" 2 ∷ fixed_call 3 "a" 2 ∷ fixed_call 4 "b" 1 ∷ fixed_call 12 "a" 3 ∷ []

abbrev fixed_history : Fixed.History
fixed_history = Fixed.serve_all (Fixed.started 3 10) fixed_calls

window_bound_example : Counted.granted_since "a" 12 fixed_history.granted ≤ 3
window_bound_example =
    window_bound 1000 3 10 fixed_calls "a" (record { count = pos 3; start_time = 12 })
      (record { some_size = omega arith; no_wrap = omega arith; bound = omega arith }) (omega arith)
      (omega arith, (omega arith, (omega arith, (omega arith, tt))))
      (unfold Fixed.serve_all Fixed.started Fixed.serve FixedWindow.allow_n ◌+ℤ◌ wrap_int in refl)

-- A limiter for 3 requests, of which one is granted.
abbrev one_granted : FixedWindow.FixedWindowRateLimiter
one_granted = (FixedWindow.allow_n (FixedWindow.new 3 10) "a" (pos 1) 0).0

-- The largest `int` on top of that wraps, and is granted.
wrapped : (FixedWindow.allow_n one_granted "a" (pos max_int) 1).1 ≡ true
unfolding FixedWindow.allow_n FixedWindow.new ◌+ℤ◌ wrap_int
wrapped = refl

-- A negative number is granted, and lowers the count.
lowered :
    (FixedWindow.get_info (FixedWindow.allow_n one_granted "a" (negsuc 4) 1).0 "a" 2).total_requests
    ≡ negsuc 3
unfolding FixedWindow.get_info FixedWindow.allow_n FixedWindow.new ◌+ℤ◌ wrap_int
lowered = refl

abbrev sliding_call : ℕ → String → ℕ → Sliding.Call
sliding_call at key n = record { at = at; key = key; n = n }

abbrev sliding_calls : List Sliding.Call
sliding_calls = sliding_call 0 "a" 2 ∷ sliding_call 5 "a" 2 ∷ sliding_call 12 "a" 2 ∷ []

sliding_bound_example :
    Sliding.recent 10 13 (Sliding.serve_all "a" (Sliding.started 3 10) sliding_calls).granted ≤ 3
sliding_bound_example = sliding_bound 3 10 "a" sliding_calls 13 (omega arith)

-- The second call of the three is refused.
sliding_run :
    (Sliding.serve_all "a" (Sliding.started 3 10) sliding_calls).granted ≡ 0 ∷ 0 ∷ 12 ∷ 12 ∷ []
unfolding Sliding.serve_all Sliding.started Sliding.serve SlidingWindow.allow_n
sliding_run = refl

abbrev bucket : LeakyBucket
bucket = record { capacity = 3; available = 3; rate = 10; last_leak = 0 }

throughput_bound_example :
    (lb : LeakyBucket) × (sum : ℕ) × (granted bucket ((5, 2) ∷ (25, 2) ∷ []) ≡ some (lb, sum))
    × (0 ≤ lb.last_leak)
    × ((sum + lb.available) * 10 ≤ 3 * 10 + (lb.last_leak - 0))
throughput_bound_example =
    throughput_bound bucket ((5, 2) ∷ (25, 2) ∷ []) (omega arith) (omega arith)

starves_example :
    (lb : LeakyBucket) × (sum : ℕ) × (granted bucket ((9, 2) ∷ (18, 1) ∷ (27, 1) ∷ [])
      ≡ some (lb, sum))
    × (sum + lb.available ≤ 3)
starves_example =
    starves bucket ((9, 2) ∷ (18, 1) ∷ (27, 1) ∷ []) (omega arith) (omega arith) (omega arith)

-- Whole numbers in the place of floating-point ones.
abbrev whole : Float64
whole = record {
  Carrier = ℤ;
  of_int = λ n. n;
  add = λ a b. a +ℤ b;
  mul = λ a b. pos (pos_part a * pos_part b);
  sub = λ a b. a -ℤ b;
  gt = λ a b. ltb_ℤ b a;
  ge = λ a b. leb_ℤ b a;
  seconds = λ n. pos n;
  truncate = pos_part;
}

whole-IsIeee : IsIeee whole
whole-IsIeee = record {
  gt_irrefl = λ a. ground arith;
  gt-sub = λ a b n h. ground (arith, parts-sub a (pos n));
}

run-new-IsCapped_example :
    Cap.IsCapped whole
      (Cap.run whole (TokenBucket.new whole (pos 1) (pos 5) 0) ((3, pos 2) ∷ (9, pos 4) ∷ []))
run-new-IsCapped_example =
    run-new-IsCapped whole whole-IsIeee (pos 1) (pos 5) 0 ((3, pos 2) ∷ (9, pos 4) ∷ [])
      (omega arith, (omega arith, tt))

-- A negative number of requests is granted, and raises the tokens above the burst size.
raised :
    (TokenBucket.allow_n whole (TokenBucket.new whole (pos 1) (pos 5) 0) (negsuc 2) 0).0.tokens
    ≡ pos 8
unfolding TokenBucket.allow_n TokenBucket.new TokenBucket.refilled ◌+ℤ◌ ◌-ℤ◌
raised = refl

abbrev limits : ℕ → RateLimitConfig whole
limits rate = record { requests_per_second = pos rate; burst_size = 5; window_duration = 60 }

get_info-reset_example :
    Universal.get_info whole
      (Universal.reset whole (Universal.bare whole sliding_window (limits 1)) "ip")
      "ip"
      7
    ≡ untouched "ip" 5 5
unfolding FixedWindow.new SlidingWindow.new
get_info-reset_example =
    get_info-reset whole (Universal.bare whole sliding_window (limits 1)) "ip" 7 (λ e. cc) (λ e. cc)
      (record { fixed_limit = refl; sliding_limit = refl })

abbrev registered : RateLimitService whole
registered = record {
  limiters = ("api", Universal.bare whole sliding_window (limits 1)) ∷ [];
  configs = ("api", limits 1) ∷ [];
}

abbrev named : ℕ → ℕ → Quota.NamedCall whole
named at n = record { name = "api"; call = sliding_call at "ip" n }

service_quota_example :
    Sliding.recent 60 50
      (Quota.serve_all_named whole "api" "ip"
        (record { service = registered; granted = [] })
        (named 10 4 ∷ named 20 4 ∷ [])).granted
    ≤ 5
service_quota_example =
    service_quota whole (Service.empty whole) registered "api" "ip" (limits 1)
      (named 10 4 ∷ named 20 4 ∷ []) 50 (unfold register_limiter Universal.new in refl)
      (omega arith)
