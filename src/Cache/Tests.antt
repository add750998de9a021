-- ===== src/Cache/Tests.antt =====
-- Runs of a cache with room for two entries, and the theorems at them.
use mathlib.Core.List.{Perm}
use net_llm.Prelude.{ℕ, String, true, none, some, List, [], ◌∷◌, ◌≡◌, refl, arith}
use net_llm.Prelude.Dict.{lookup, values}
use net_llm.Cache.State.{
  Request, Response, CacheConfig, InferenceCache, lru, new, estimate_entry_size,
}
use net_llm.Cache.Sorting.{
  get_sorted_entries, sort_entries, sort_by_last_accessed, bubble_sort, passes, pass,
}
use net_llm.Cache.Methods.{evict, make_room, ensure_capacity, entry_for, store, set, get, get_found}
use net_llm.Cache.Order.{IsOrdered, get_sorted_entries-IsOrdered}
use net_llm.Cache.Capacity.{Stored, set-Stored}
use net_llm.Cache.Accounting.{IsAccounted}
use net_llm.Cache.History.{Call, gets, sets, step, run, run-new-IsAccounted}

abbrev config : CacheConfig
config = record {
  enabled = true;
  max_size_bytes = 5000;
  default_ttl = 100;
  max_entries = 2;
  eviction_policy = lru;
  enable_warmup = true;
}

abbrev request : String → Request
request prompt = record { id = "1"; model_id = "m"; prompt = prompt; messages = [] }

abbrev answer : Response
answer = record { content = "hello"; total_tokens = 7 }

abbrev same : ℕ → ℕ
same n = n

abbrev calls : List Call
calls =
    sets (some "a") (request "a") answer 0
    ∷ sets (some "b") (request "b") answer 1
    ∷ gets (some "a") 2
    ∷ []

abbrev full : InferenceCache
unfolding run new step set get get_found store ensure_capacity
full = run same same (new config) calls

-- The policy is LRU, and yet the third entry drives out "a", which was used last.
used_last_is_evicted : lookup "a" (set full (some "c") (request "c") answer 3).0.entries ≡ none
unfolding full run new step set get get_found store ensure_capacity evict get_sorted_entries
    make_room estimate_entry_size sort_entries sort_by_last_accessed bubble_sort passes pass
used_last_is_evicted = refl

-- Written twice, an entry is counted twice.
counted_twice :
    (run same same (new config) (
      sets (some "a") (request "a") answer 0
      ∷ sets (some "a") (request "a") answer 0
      ∷ [])).stats.total_size
    ≡ 2152
unfolding run new step set store ensure_capacity estimate_entry_size make_room
counted_twice = refl

get_sorted_entries-IsOrdered_example :
    Perm (get_sorted_entries full) (values full.entries)
    × IsOrdered full.config.eviction_policy (get_sorted_entries full)
get_sorted_entries-IsOrdered_example = get_sorted_entries-IsOrdered full

run-new-IsAccounted_example : IsAccounted (run same same (new config) calls)
run-new-IsAccounted_example = run-new-IsAccounted same same config calls

set-Stored_example :
    ((set full (some "c") (request "c") answer 3).1 ≡ none)
    × Stored "c"
        (entry_for full (request "c") answer "c" 3)
        full
        (set full (some "c") (request "c") answer 3).0
unfolding full make_room estimate_entry_size
set-Stored_example =
    set-Stored full "c" (request "c") answer 3 refl
      (run-new-IsAccounted same same config calls).tidy (omega arith) (omega arith) (omega arith)
