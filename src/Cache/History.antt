-- ===== src/Cache/History.antt =====
-- Histories of calls of the cache, from an empty one.
use net_llm.Prelude.{
  ℕ, ◌+◌, ◌≤◌, String, Bool, true, false, Option, none, some, List, [], ◌∷◌, ◌≡◌, refl, sym, subst,
  if◌then◌else◌, ltb, arith, inl, inr, Bool-cases, Option-cases,
}
use net_llm.Prelude.Dict.{lookup, insert, delete}
use net_llm.Cache.State.{
  Request, Response, CacheEntry, CacheConfig, InferenceCache, new, estimate_entry_size,
}
use net_llm.Cache.Methods.{
  ensure_capacity, entry_for, set, get, get_found, remove, clear, set_ttl, invalidate, cleanup,
  run_eviction, record_hit, record_miss,
}
use net_llm.Cache.Eviction.{Tidy, total-delete}
use net_llm.Cache.Accounting.{
  IsAccounted, delete-Tidy, replace-Tidy, evict-IsAccounted, ensure_capacity-IsAccounted,
  store-IsAccounted, drop_each-IsAccounted, values-Pending, length-delete-lt, total-insert,
  length-insert,
}

-- A call, with the key of its request where it has one, and the time at which it is made.
pub data Call : Type 0 where
  gets : Option String → ℕ → Call
  sets : Option String → Request → Response → ℕ → Call
  removes : String → Call
  clears : Call
  sets_ttl : String → ℕ → ℕ → Call
  invalidates : String → Call
  cleans : ℕ → Call
  evicts : ℕ → Call

module _ (nine_tenths one_tenth : ℕ → ℕ) where
  unfoldable pub step : InferenceCache → Call → InferenceCache
  step c (gets key now) = (get c key now).0
  step c (sets key req resp now) = (set c key req resp now).0
  step c (removes key) = (remove c key).0
  step c clears = clear c
  step c (sets_ttl key ttl now) = (set_ttl c key ttl now).0
  step c (invalidates model_id) = invalidate c model_id
  step c (cleans now) = cleanup c now
  step c (evicts now) = run_eviction nine_tenths one_tenth c now

  unfoldable pub run : InferenceCache → List Call → InferenceCache
  run c [] = c
  run c (x ∷ xs) = run (step c x) xs

-- An entry is written back with the same key and size.
touch-IsAccounted :
    (c c' : InferenceCache) (k : String) (e w : CacheEntry)
    → IsAccounted c
    → lookup k c.entries ≡ some w
    → e.key ≡ w.key
    → e.size ≡ w.size
    → c'.entries ≡ insert k e c.entries
    → c'.stats.total_size ≡ c.stats.total_size
    → c'.stats.entry_count ≡ c.stats.entry_count
    → IsAccounted c'
touch-IsAccounted c c' k e w a at key size entries total_size count = record {
  tidy = subst Tidy (sym entries) (replace-Tidy k e w c.entries at key a.tidy);
  total =
      rw entries
        (omega (arith, total-insert (λ x. x.size) k e w c.entries at, a.total, total_size, size));
  count = rw entries (omega (arith, length-insert k e w c.entries at, a.count, count));
}

-- An entry is taken out; the statistics fall by no more than that.
drop-IsAccounted :
    (c c' : InferenceCache) (k : String) (w : CacheEntry)
    → IsAccounted c
    → lookup k c.entries ≡ some w
    → c'.entries ≡ delete k c.entries
    → c.stats.total_size ≤ c'.stats.total_size + w.size
    → c.stats.entry_count ≤ c'.stats.entry_count + 1
    → IsAccounted c'
drop-IsAccounted c c' k w a at entries total_size count = record {
  tidy = subst Tidy (sym entries) (delete-Tidy k c.entries a.tidy);
  total = rw entries (
      omega
        (arith, total-delete (λ x. x.size) k w c.entries a.tidy.unique at, a.total, total_size));
  count = rw entries (omega (arith, length-delete-lt k w c.entries at, a.count, count));
}

-- Only the counters of requests, hits and misses differ.
recount-IsAccounted :
    (c c' : InferenceCache)
    → IsAccounted c
    → c'.entries ≡ c.entries
    → c'.stats.total_size ≡ c.stats.total_size
    → c'.stats.entry_count ≡ c.stats.entry_count
    → IsAccounted c'
recount-IsAccounted c c' a entries total_size count = record {
  tidy = subst Tidy (sym entries) a.tidy;
  total = rw entries (omega (arith, a.total, total_size));
  count = rw entries (omega (arith, a.count, count));
}

get_found-IsAccounted :
    (c : InferenceCache) (key : String) (now : ℕ) (found : Option CacheEntry)
    → lookup key c.entries ≡ found
    → IsAccounted c
    → IsAccounted (get_found c key now found).0
unfolding get_found record_hit record_miss
get_found-IsAccounted c key now none at a = recount-IsAccounted c _ a refl refl refl
get_found-IsAccounted c key now (some e) at a = elim (Bool-cases (ltb e.expires_at now)) [
  | inl t ↦ rw t (drop-IsAccounted c _ key e a at refl (omega arith) (omega arith))
  | inr f ↦ rw f (touch-IsAccounted c _ key _ e a at refl refl refl refl refl)
]

-- Both branches of a test, where the cache is the first part of the result.
branch-IsAccounted :
    {R : Type 0} (b : Bool) (x y : InferenceCache × R)
    → IsAccounted x.0
    → IsAccounted y.0
    → IsAccounted (if b then x else y).0
branch-IsAccounted true x y h k = h
branch-IsAccounted false x y h k = k

get-IsAccounted :
    (c : InferenceCache) (key : Option String) (now : ℕ)
    → IsAccounted c
    → IsAccounted (get c key now).0
unfolding get
get-IsAccounted c none now a = a
get-IsAccounted c (some key) now a =
    branch-IsAccounted c.enabled _ _
      (get_found-IsAccounted _ key now (lookup key c.entries) refl
        (recount-IsAccounted c _ a refl refl refl))
      a

set-IsAccounted :
    (c : InferenceCache) (key : Option String) (req : Request) (resp : Response) (now : ℕ)
    → IsAccounted c
    → IsAccounted (set c key req resp now).0
unfolding set
set-IsAccounted c none req resp now a = a
set-IsAccounted c (some key) req resp now a =
    let size = estimate_entry_size req resp in
    branch-IsAccounted c.enabled _ _
      (store-IsAccounted (ensure_capacity size c) (entry_for c req resp key now)
        (ensure_capacity-IsAccounted size c a))
      a

remove-IsAccounted :
    (c : InferenceCache) (key : String) → IsAccounted c → IsAccounted (remove c key).0
unfolding remove
remove-IsAccounted c key a = elim (Option-cases (lookup key c.entries)) [
  | inl none_there ↦ rw none_there a
  | inr (e, at) ↦ rw at (drop-IsAccounted c _ key e a at refl (omega arith) (omega arith))
]

set_ttl-IsAccounted :
    (c : InferenceCache) (key : String) (ttl now : ℕ)
    → IsAccounted c
    → IsAccounted (set_ttl c key ttl now).0
unfolding set_ttl
set_ttl-IsAccounted c key ttl now a = elim (Option-cases (lookup key c.entries)) [
  | inl none_there ↦ rw none_there a
  | inr (e, at) ↦ rw at (touch-IsAccounted c _ key _ e a at refl refl refl refl refl)
]

clear-IsAccounted : (c : InferenceCache) → IsAccounted (clear c)
unfolding clear
clear-IsAccounted c = record {
  tidy = record { unique = tt; keyed = λ k e at. absurd (ground arith) };
  total = omega arith;
  count = omega arith;
}

new-IsAccounted : (config : CacheConfig) → IsAccounted (new config)
unfolding new
new-IsAccounted config = record {
  tidy = record { unique = tt; keyed = λ k e at. absurd (ground arith) };
  total = omega arith;
  count = omega arith;
}

invalidate-IsAccounted :
    (c : InferenceCache) (model_id : String) → IsAccounted c → IsAccounted (invalidate c model_id)
unfolding invalidate
invalidate-IsAccounted c model_id a =
    drop_each-IsAccounted false _ c (values-Pending _ c.entries a.tidy) a

cleanup-IsAccounted : (c : InferenceCache) (now : ℕ) → IsAccounted c → IsAccounted (cleanup c now)
unfolding cleanup
cleanup-IsAccounted c now a = drop_each-IsAccounted true _ c (values-Pending _ c.entries a.tidy) a

module _ (nine_tenths one_tenth : ℕ → ℕ) where
  run_eviction-IsAccounted :
      (c : InferenceCache) (now : ℕ)
      → IsAccounted c
      → IsAccounted (run_eviction nine_tenths one_tenth c now)
  unfolding run_eviction
  run_eviction-IsAccounted c now a =
      let a' = cleanup-IsAccounted c now a in
      elim (Bool-cases (
        ltb (nine_tenths (cleanup c now).config.max_size_bytes) (cleanup c now).stats.total_size)) [
          | inl t ↦ rw t (evict-IsAccounted _ (cleanup c now) a')
          | inr f ↦ rw f a'
        ]

  step-IsAccounted :
      (c : InferenceCache) (x : Call) → IsAccounted c → IsAccounted (step nine_tenths one_tenth c x)
  unfolding step
  step-IsAccounted c (gets key now) a = get-IsAccounted c key now a
  step-IsAccounted c (sets key req resp now) a = set-IsAccounted c key req resp now a
  step-IsAccounted c (removes key) a = remove-IsAccounted c key a
  step-IsAccounted c clears a = clear-IsAccounted c
  step-IsAccounted c (sets_ttl key ttl now) a = set_ttl-IsAccounted c key ttl now a
  step-IsAccounted c (invalidates model_id) a = invalidate-IsAccounted c model_id a
  step-IsAccounted c (cleans now) a = cleanup-IsAccounted c now a
  step-IsAccounted c (evicts now) a = run_eviction-IsAccounted c now a

  run-IsAccounted :
      (c : InferenceCache) (xs : List Call)
      → IsAccounted c
      → IsAccounted (run nine_tenths one_tenth c xs)
  unfolding run
  run-IsAccounted c [] a = a
  run-IsAccounted c (x ∷ xs) a =
      run-IsAccounted (step nine_tenths one_tenth c x) xs (step-IsAccounted c x a)

  -- After any history of calls on a new cache, each entry stands once and under its key, the total
  -- size in the statistics is at least the sum of the sizes of the entries, and the entry count is at
  -- least the number of entries. The two thresholds of the periodic eviction may be any functions.
  pub run-new-IsAccounted :
      (config : CacheConfig) (xs : List Call)
      → IsAccounted (run nine_tenths one_tenth (new config) xs)
  run-new-IsAccounted config xs = run-IsAccounted (new config) xs (new-IsAccounted config)
