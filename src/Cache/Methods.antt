-- ===== src/Cache/Methods.antt =====
-- The methods of the cache. The key of a request (the hash of its JSON) is an argument, `none` where
-- it cannot be marshalled. Times are arguments too.
use net_llm.Prelude.{
  ℕ, zero, suc, ◌+◌, ◌-◌, String, Bool, true, false, Option, none, some, List, [], ◌∷◌,
  if◌then◌else◌, ltb, leb, length, select, total, str_eq,
}
use net_llm.Prelude.Dict.{lookup, insert, delete, values}
use net_llm.Cache.State.{
  Request, Response, CacheEntry, CacheStats, InferenceCache, Error, cache_miss, key_failed,
  cache_disabled, Result, ok, err, estimate_entry_size,
}
use net_llm.Cache.Sorting.{get_sorted_entries}

abbrev pub with_stats : InferenceCache → (CacheStats → CacheStats) → InferenceCache
with_stats c f = record c { stats = f c.stats }

abbrev count_request : CacheStats → CacheStats
count_request s = record s { total_requests = s.total_requests + 1 }

unfoldable pub record_hit : InferenceCache → InferenceCache
record_hit c = with_stats c (λ s. record s { hits = s.hits + 1 })

unfoldable pub record_miss : InferenceCache → InferenceCache
record_miss c = with_stats c (λ s. record s { misses = s.misses + 1 })

abbrev count_expiration : CacheStats → CacheStats
count_expiration s = record s { expirations = s.expirations + 1 }

-- The part of `Get` after the lookup. `time.Now().After(entry.ExpiresAt)` is `ltb`.
unfoldable pub get_found :
    InferenceCache → String → ℕ → Option CacheEntry → InferenceCache × Result Response
unfolding record_hit record_miss
get_found c key now none = (record_miss c, err cache_miss)
get_found c key now (some e) =
    if ltb e.expires_at now
    then (
      with_stats (record_miss (record c { entries = delete key c.entries })) count_expiration,
      err cache_miss,
    )
    else (
      record_hit (record c {
        entries =
            insert key (record e { hit_count = e.hit_count + 1; last_accessed = now }) c.entries;
      }),
      ok e.response,
    )

unfoldable pub get : InferenceCache → Option String → ℕ → InferenceCache × Result Response
unfolding get_found
get c none now = (c, if c.enabled then err key_failed else err cache_miss)
get c (some key) now =
    if c.enabled
    then get_found (with_stats c count_request) key now (lookup key c.entries)
    else (c, err cache_miss)

abbrev pub sizes : List CacheEntry → ℕ
sizes = total (λ e. e.size)

unfoldable pub get_current_size : InferenceCache → ℕ
get_current_size c = sizes (values c.entries)

-- One eviction. `TotalSize` is never below the size of an entry (Accounting).
unfoldable pub evict_entry : InferenceCache → CacheEntry → InferenceCache
evict_entry c e = record c {
  entries = delete e.key c.entries;
  stats = record c.stats {
    total_size = c.stats.total_size - e.size;
    evictions = c.stats.evictions + 1;
  };
}

-- The loop of `evict`, with the number that is still to be evicted.
unfoldable pub evict_some : ℕ → List CacheEntry → InferenceCache → InferenceCache
unfolding evict_entry
evict_some zero es c = c
evict_some (suc n) [] c = c
evict_some (suc n) (e ∷ es) c = evict_some n es (evict_entry c e)

unfoldable pub evict : ℕ → InferenceCache → InferenceCache
unfolding evict_some
evict count c = evict_some count (get_sorted_entries c) c

-- The loop of `evictToFree`.
unfoldable pub free_some : ℕ → ℕ → List CacheEntry → InferenceCache → InferenceCache
unfolding evict_entry
free_some required freed [] c = c
free_some required freed (e ∷ es) c =
    let rest = free_some required (freed + e.size) es (evict_entry c e) in
    if leb required freed then c else rest

unfoldable pub evict_to_free : ℕ → InferenceCache → InferenceCache
unfolding free_some
evict_to_free required c = free_some required 0 (get_sorted_entries c) c

-- Both evictions return nil, so the errors that the source passes on do not arise.
unfoldable pub make_room : ℕ → InferenceCache → InferenceCache
unfolding evict_to_free get_current_size
make_room size c =
    if ltb c.config.max_size_bytes (get_current_size c + size)
    then evict_to_free (get_current_size c + size - c.config.max_size_bytes) c
    else c

unfoldable pub ensure_capacity : ℕ → InferenceCache → InferenceCache
ensure_capacity size c =
    make_room size (if leb c.config.max_entries (length c.entries) then evict 1 c else c)

abbrev pub entry_for : InferenceCache → Request → Response → String → ℕ → CacheEntry
entry_for c req resp key now = record {
  key = key;
  response = resp;
  created_at = now;
  expires_at = now + c.config.default_ttl;
  hit_count = 0;
  size = estimate_entry_size req resp;
  model_id = req.model_id;
  last_accessed = now;
}

-- The entry is stored, and the statistics follow.
unfoldable pub store : InferenceCache → CacheEntry → InferenceCache
store c e =
    let entries = insert e.key e c.entries in
    record c {
      entries = entries;
      stats = record c.stats {
        entry_count = length entries;
        total_size = c.stats.total_size + e.size;
      };
    }

unfoldable pub set :
    InferenceCache → Option String → Request → Response → ℕ → InferenceCache × Option Error
set c none req resp now = (c, if c.enabled then some key_failed else none)
set c (some key) req resp now =
    if c.enabled
    then (
      store (ensure_capacity (estimate_entry_size req resp) c) (entry_for c req resp key now),
      none,
    )
    else (c, none)

-- `Delete`, on what the lookup found.
unfoldable pub remove_found :
    InferenceCache → String → Option CacheEntry → InferenceCache × Option Error
remove_found c key none = (c, some cache_miss)
remove_found c key (some e) = (
  record c {
    entries = delete key c.entries;
    stats = record c.stats {
      total_size = c.stats.total_size - e.size;
      entry_count = c.stats.entry_count - 1;
    };
  },
  none,
)

unfoldable pub remove : InferenceCache → String → InferenceCache × Option Error
unfolding remove_found
remove c key = remove_found c key (lookup key c.entries)

unfoldable pub clear : InferenceCache → InferenceCache
clear c = record c { entries = []; stats = record c.stats { total_size = 0; entry_count = 0 } }

unfoldable pub get_entry : InferenceCache → String → Result CacheEntry
get_entry c key = elim (lookup key c.entries) [ none ↦ err cache_miss | some e ↦ ok e ]

unfoldable pub set_ttl_found :
    InferenceCache → String → ℕ → ℕ → Option CacheEntry → InferenceCache × Option Error
set_ttl_found c key ttl now none = (c, some cache_miss)
set_ttl_found c key ttl now (some e) =
    (record c { entries = insert key (record e { expires_at = now + ttl }) c.entries }, none)

unfoldable pub set_ttl : InferenceCache → String → ℕ → ℕ → InferenceCache × Option Error
unfolding set_ttl_found
set_ttl c key ttl now = set_ttl_found c key ttl now (lookup key c.entries)

-- The loop over the entries chosen by a test, as `Invalidate` and `Cleanup` delete them. `expired`
-- says whether each is counted as an expiration.
unfoldable pub drop_each : Bool → List CacheEntry → InferenceCache → InferenceCache
drop_each expired [] c = c
drop_each expired (e ∷ es) c = drop_each expired es (record c {
  entries = delete e.key c.entries;
  stats = record c.stats {
    total_size = c.stats.total_size - e.size;
    expirations = if expired then c.stats.expirations + 1 else c.stats.expirations;
  };
})

-- An empty model ID stands for every entry.
unfoldable pub invalidate : InferenceCache → String → InferenceCache
unfolding drop_each
invalidate c model_id =
    drop_each false
      (select (λ e. if str_eq model_id "" then true else str_eq e.model_id model_id)
        (values c.entries))
      c

unfoldable pub cleanup : InferenceCache → ℕ → InferenceCache
unfolding drop_each
cleanup c now = drop_each true (select (λ e. ltb e.expires_at now) (values c.entries)) c

-- `runEviction`. The two products with floating-point constants are arguments.
unfoldable pub run_eviction : (ℕ → ℕ) → (ℕ → ℕ) → InferenceCache → ℕ → InferenceCache
unfolding cleanup evict
run_eviction nine_tenths one_tenth c now =
    let c' = cleanup c now in
    if ltb (nine_tenths c'.config.max_size_bytes) c'.stats.total_size
    then evict (one_tenth (length c'.entries)) c'
    else c'

-- `Warmup`: the requests with their keys and what the executor answers.
unfoldable pub warm :
    InferenceCache → List (Request × Option String × Option Response) → ℕ → InferenceCache
unfolding set
warm c [] now = c
warm c ((req, none, answer) ∷ reqs) now = warm c reqs now
warm c ((req, some key, none) ∷ reqs) now = warm c reqs now
warm c ((req, some key, some resp) ∷ reqs) now =
    warm (elim (lookup key c.entries) [ some _ ↦ c | none ↦ (set c (some key) req resp now).0 ])
      reqs now

unfoldable pub warmup :
    InferenceCache
    → List (Request × Option String × Option Response)
    → ℕ
    → InferenceCache × Option Error
unfolding warm
warmup c reqs now =
    if c.config.enable_warmup then (warm c reqs now, none) else (c, some cache_disabled)
