-- ===== src/Cache/Sorting.antt =====
-- The bubble sorts at the end of cache.go, over the test by which two neighbours change places.
use net_llm.Prelude.{ℕ, zero, suc, ◌-◌, Bool, List, [], ◌∷◌, if◌then◌else◌, ltb, length}
use net_llm.Prelude.Dict.{values}
use net_llm.Cache.State.{CacheEntry, EvictionPolicy, lru, lfu, fifo, other_policy, InferenceCache}

module _ {ℓ} {A : Type ℓ} (swap : A → A → Bool) where
  -- The inner loop, with `k` comparisons to make.
  unfoldable pub pass : ℕ → List A → List A
  pass zero xs = xs
  pass (suc k) [] = []
  pass (suc k) (a ∷ []) = a ∷ []
  pass (suc k) (a ∷ b ∷ xs) =
      let first = if swap a b then b else a in
      let second = if swap a b then a else b in first ∷ pass k (second ∷ xs)

  -- The outer loop: passes of k, k - 1, …, 1 comparisons.
  unfoldable pub passes : ℕ → List A → List A
  passes zero xs = xs
  passes (suc k) xs = passes k (pass (suc k) xs)

  unfoldable pub bubble_sort : List A → List A
  bubble_sort xs = passes (length xs - 1) xs

-- `timeJ.Before(timeJ1)`.
abbrev pub swap_accessed : CacheEntry → CacheEntry → Bool
swap_accessed a b = ltb a.last_accessed b.last_accessed

abbrev pub swap_hits : CacheEntry → CacheEntry → Bool
swap_hits a b = ltb b.hit_count a.hit_count

-- `CreatedAt.After`.
abbrev pub swap_created : CacheEntry → CacheEntry → Bool
swap_created a b = ltb b.created_at a.created_at

unfoldable pub sort_by_last_accessed : List CacheEntry → List CacheEntry
sort_by_last_accessed = bubble_sort swap_accessed

unfoldable pub sort_by_hit_count : List CacheEntry → List CacheEntry
sort_by_hit_count = bubble_sort swap_hits

unfoldable pub sort_by_creation_time : List CacheEntry → List CacheEntry
sort_by_creation_time = bubble_sort swap_created

unfoldable pub sort_entries : EvictionPolicy → List CacheEntry → List CacheEntry
sort_entries lru es = sort_by_last_accessed es
sort_entries lfu es = sort_by_hit_count es
sort_entries fifo es = sort_by_creation_time es
sort_entries other_policy es = sort_by_last_accessed es

unfoldable pub get_sorted_entries : InferenceCache → List CacheEntry
get_sorted_entries c = sort_entries c.config.eviction_policy (values c.entries)
