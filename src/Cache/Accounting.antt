-- ===== src/Cache/Accounting.antt =====
-- The statistics of the cache never fall below what it holds, so no subtraction from them goes below 0.
use net_llm.Prelude.{
  ℕ, zero, suc, ◌+◌, ◌≤◌, ◌<◌, String, Bool, false, some, List, [], ◌∷◌, ◌≡◌, subst, ◌∙◌, ltb, leb,
  length, select, total, All, arith, inl, inr, Bool-cases, str_eq,
}
use net_llm.Prelude.Dict.{Dict, lookup, insert, delete, values, delete-IsMap, lookup-delete}
use net_llm.Cache.State.{CacheEntry, InferenceCache}
use net_llm.Cache.Sorting.{get_sorted_entries}
use net_llm.Cache.Methods.{
  sizes, evict_entry, evict_some, evict, free_some, evict_to_free, get_current_size, make_room,
  ensure_capacity, store, drop_each,
}
use net_llm.Cache.Eviction.{
  Tidy, Holds, InMap, Distinct, get_sorted_entries-Holds, total-delete, others-found, values-found,
  values-Distinct,
}
use net_llm.Cache.Capacity.{rest-Holds, insert-Tidy, total-insert-le}

-- The entries stand once and under their keys, the total size is at least the sum of the sizes of the
-- entries, and the entry count is at least the number of entries.
pub record IsAccounted (c : InferenceCache) : Type 0 where
  pub tidy : Tidy c.entries
  pub total : sizes (values c.entries) ≤ c.stats.total_size
  pub count : length c.entries ≤ c.stats.entry_count

module _ {V : Type 0} where
  pub length-delete-le : (k : String) (m : Dict V) → length (delete k m) ≤ length m
  length-delete-le k [] = omega arith
  length-delete-le k ((i, w) ∷ m) = ground (arith, length-delete-le k m)

  pub length-delete-lt :
      (k : String) (v : V) (m : Dict V) → lookup k m ≡ some v → length (delete k m) < length m
  length-delete-lt k v [] at = absurd (ground arith)
  length-delete-lt k v ((i, w) ∷ m) at =
      ground (arith, length-delete-le k m, length-delete-lt k v m)

  pub total-insert :
      (f : V → ℕ) (k : String) (v w : V) (m : Dict V)
      → lookup k m ≡ some w
      → total f (values (insert k v m)) + f w ≡ f v + total f (values m)
  total-insert f k v w [] at = absurd (ground arith)
  total-insert f k v w ((i, x) ∷ m) at = ground (arith, total-insert f k v w m)

  pub length-insert :
      (k : String) (v w : V) (m : Dict V) → lookup k m ≡ some w → length (insert k v m) ≡ length m
  length-insert k v w [] at = absurd (ground arith)
  length-insert k v w ((i, x) ∷ m) at = ground (arith, length-insert k v w m)

pub delete-Tidy : (k : String) (m : Dict CacheEntry) → Tidy m → Tidy (delete k m)
delete-Tidy k m t = record {
  unique = delete-IsMap k m t.unique;
  keyed = λ j x at. t.keyed j x (ground (arith, lookup-delete k j m));
}

pub replace-Tidy :
    (k : String) (e w : CacheEntry) (m : Dict CacheEntry)
    → lookup k m ≡ some w
    → e.key ≡ w.key
    → Tidy m
    → Tidy (insert k e m)
replace-Tidy k e w m at same t =
    let key : e.key ≡ k = same ∙ t.keyed k w at in
    subst (λ j. Tidy (insert j e m)) key (insert-Tidy e m t)

-- The loops of the evictions.
module _ (c : InferenceCache) (e : CacheEntry) (es : List CacheEntry)
    (h : Holds c.entries (e ∷ es)) where
  evict_entry-IsAccounted : IsAccounted c → IsAccounted (evict_entry c e)
  unfolding evict_entry
  evict_entry-IsAccounted a = record {
    tidy = delete-Tidy e.key c.entries a.tidy;
    total =
        omega
          (arith, total-delete (λ x. x.size) e.key e c.entries a.tidy.unique h.found.0, a.total);
    count = omega (arith, length-delete-le e.key c.entries, a.count);
  }

evict_some-IsAccounted :
    (n : ℕ) (es : List CacheEntry) (c : InferenceCache)
    → Holds c.entries es
    → IsAccounted c
    → IsAccounted (evict_some n es c)
unfolding evict_some
evict_some-IsAccounted zero es c h a = a
evict_some-IsAccounted (suc n) [] c h a = a
evict_some-IsAccounted (suc n) (e ∷ es) c h a =
    evict_some-IsAccounted n es (evict_entry c e) (rest-Holds c e es h)
      (evict_entry-IsAccounted c e es h a)

free_some-IsAccounted :
    (required freed : ℕ) (es : List CacheEntry) (c : InferenceCache)
    → Holds c.entries es
    → IsAccounted c
    → IsAccounted (free_some required freed es c)
unfolding free_some
free_some-IsAccounted required freed [] c h a = a
free_some-IsAccounted required freed (e ∷ es) c h a =
    let rest =
      free_some-IsAccounted required (freed + e.size) es (evict_entry c e) (rest-Holds c e es h)
        (evict_entry-IsAccounted c e es h a) in
    elim (Bool-cases (leb required freed)) [ inl t ↦ rw t a | inr f ↦ rw f rest ]

make_room-IsAccounted :
    (size : ℕ) (c : InferenceCache) → IsAccounted c → IsAccounted (make_room size c)
unfolding make_room
make_room-IsAccounted size c a =
    let evicted : (n : ℕ) → IsAccounted (evict_to_free n c) = λ n.
      free_some-IsAccounted n 0 (get_sorted_entries c) c (get_sorted_entries-Holds c a.tidy) a in
    elim (Bool-cases (ltb c.config.max_size_bytes (get_current_size c + size))) [
      | inl t ↦ rw t (evicted _)
      | inr f ↦ rw f a
    ]

pub evict-IsAccounted : (n : ℕ) (c : InferenceCache) → IsAccounted c → IsAccounted (evict n c)
unfolding evict
evict-IsAccounted n c a =
    evict_some-IsAccounted n (get_sorted_entries c) c (get_sorted_entries-Holds c a.tidy) a

pub ensure_capacity-IsAccounted :
    (size : ℕ) (c : InferenceCache) → IsAccounted c → IsAccounted (ensure_capacity size c)
unfolding ensure_capacity
ensure_capacity-IsAccounted size c a =
    elim (Bool-cases (leb c.config.max_entries (length c.entries))) [
      | inl t ↦ rw t (make_room-IsAccounted size (evict 1 c) (evict-IsAccounted 1 c a))
      | inr f ↦ rw f (make_room-IsAccounted size c a)
    ]

pub store-IsAccounted :
    (c : InferenceCache) (e : CacheEntry) → IsAccounted c → IsAccounted (store c e)
unfolding store
store-IsAccounted c e a = record {
  tidy = insert-Tidy e c.entries a.tidy;
  total = omega (arith, total-insert-le (λ x. x.size) e.key e c.entries, a.total);
  count = omega arith;
}

All-select :
    (P : CacheEntry → Type 0) (p : CacheEntry → Bool) (es : List CacheEntry)
    → All P es
    → All P (select p es)
All-select P p [] h = tt
All-select P p (e ∷ es) h = elim (Bool-cases (p e)) [
  | inl t ↦ rw t (h.0, All-select P p es h.1)
  | inr f ↦ rw f (All-select P p es h.1)
]

-- The loops over the entries that a test chose.
abbrev Pending : Dict CacheEntry → List CacheEntry → Type 0
Pending m es = All (InMap m) es × Distinct es

select-Pending :
    (p : CacheEntry → Bool) (m : Dict CacheEntry) (es : List CacheEntry)
    → Pending m es
    → Pending m (select p es)
select-Pending p m [] h = h
select-Pending p m (e ∷ es) h =
    let (found, distinct) = select-Pending p m es (h.0.1, h.1.1) in
    elim (Bool-cases (p e)) [
      | inl t ↦
          rw t ((h.0.0, found), (All-select (λ f. str_eq e.key f.key ≡ false) p es h.1.0, distinct))
      | inr f ↦ rw f (found, distinct)
    ]

pub drop_each-IsAccounted :
    (expired : Bool) (es : List CacheEntry) (c : InferenceCache)
    → Pending c.entries es
    → IsAccounted c
    → IsAccounted (drop_each expired es c)
unfolding drop_each
drop_each-IsAccounted expired [] c h a = a
drop_each-IsAccounted expired (e ∷ es) c h a =
    drop_each-IsAccounted expired es _ (others-found e.key c.entries es h.1.0 h.0.1, h.1.1)
      record {
        tidy = delete-Tidy e.key c.entries a.tidy;
        total =
            omega
              (arith, total-delete (λ x. x.size) e.key e c.entries a.tidy.unique h.0.0, a.total);
        count = omega (arith, length-delete-le e.key c.entries, a.count);
      }

pub values-Pending :
    (p : CacheEntry → Bool) (m : Dict CacheEntry) → Tidy m → Pending m (select p (values m))
values-Pending p m t =
    select-Pending p m (values m) (
      values-found m m t.unique (λ k e at. (at, t.keyed k e at)),
      values-Distinct m t.unique t.keyed,
    )
