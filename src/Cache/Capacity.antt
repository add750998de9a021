-- ===== src/Cache/Capacity.antt =====
-- `Set` makes room: the cache stays within its limits on entries and bytes.
use net_llm.Prelude.{
  ℕ, ◌+◌, ◌-◌, ◌≤◌, ◌<◌, String, true, Option, none, some, List, [], ◌∷◌, ◌≡◌, refl, ap, sym, subst,
  ◌∙◌, if◌then◌else◌, ltb, leb, length, total, arith, inl, inr, Bool-cases, ◌⊎◌, eq_iff,
}
use net_llm.Prelude.Dict.{
  Dict, lookup, insert, values, lookup-insert, lookup-insert_self, insert-IsMap,
}
use net_llm.Cache.State.{Request, Response, CacheEntry, InferenceCache, Error, estimate_entry_size}
use net_llm.Cache.Sorting.{get_sorted_entries}
use net_llm.Cache.Methods.{
  sizes, evict_entry, evict_some, evict, free_some, make_room, ensure_capacity, entry_for, store,
  set,
}
use net_llm.Cache.Eviction.{Tidy, Holds, get_sorted_entries-Holds, delete-Holds, total-delete}

module _ {V : Type 0} where
  length-total : (m : Dict V) → length m ≡ total (λ _. 1) (values m)
  length-total [] = refl
  length-total ((k, v) ∷ m) = omega (arith, length-total m)

  pub total-insert-le :
      (f : V → ℕ) (k : String) (v : V) (m : Dict V)
      → total f (values (insert k v m)) ≤ f v + total f (values m)
  total-insert-le f k v [] = omega arith
  total-insert-le f k v ((i, w) ∷ m) = ground (arith, total-insert-le f k v m)

  pub length-insert-le : (k : String) (v : V) (m : Dict V) → length (insert k v m) ≤ length m + 1
  length-insert-le k v [] = omega arith
  length-insert-le k v ((i, w) ∷ m) = ground (arith, length-insert-le k v m)

nothing_left : (m : Dict CacheEntry) → Holds m [] → length m ≡ 0
nothing_left m h = length-total m ∙ sym (h.sum (λ _. 1))

-- What an eviction leaves of a cache: the same configuration, a tidy map, and no more than there was.
pub record Shrinks (c c' : InferenceCache) : Type 0 where
  pub tidy : Tidy c'.entries
  pub config : c'.config ≡ c.config
  pub fewer : length c'.entries ≤ length c.entries
  pub smaller : sizes (values c'.entries) ≤ sizes (values c.entries)

Shrinks-trans : (a b c : InferenceCache) → Shrinks a b → Shrinks b c → Shrinks a c
Shrinks-trans a b c h k = record {
  tidy = k.tidy;
  config = k.config ∙ h.config;
  fewer = omega arith;
  smaller = omega arith;
}

Shrinks-refl : (c : InferenceCache) → Tidy c.entries → Shrinks c c
Shrinks-refl c t = record { tidy = t; config = refl; fewer = omega arith; smaller = omega arith }

module _ (c : InferenceCache) (e : CacheEntry) (es : List CacheEntry)
    (h : Holds c.entries (e ∷ es)) where
  pub rest-Holds : Holds (evict_entry c e).entries es
  unfolding evict_entry
  rest-Holds = delete-Holds c.entries e es h

  evict_entry-sum :
      (f : CacheEntry → ℕ)
      → total f (values c.entries) ≡ f e + total f (values (evict_entry c e).entries)
  unfolding evict_entry
  evict_entry-sum f = total-delete f e.key e c.entries h.tidy.unique h.found.0

  evict_entry-length : length c.entries ≡ 1 + length (evict_entry c e).entries
  evict_entry-length = omega (
    arith,
    length-total c.entries,
    length-total (evict_entry c e).entries,
    evict_entry-sum (λ _. 1),
  )

  evict_entry-Shrinks : Shrinks c (evict_entry c e)
  unfolding evict_entry
  evict_entry-Shrinks = record {
    tidy = rest-Holds.tidy;
    config = refl;
    fewer = omega (arith, evict_entry-length);
    smaller = omega (arith, evict_entry-sum (λ x. x.size));
  }

-- `evictToFree` frees what is asked, or empties the cache.
free_some-Shrinks :
    (required freed : ℕ) (es : List CacheEntry) (c : InferenceCache)
    → Holds c.entries es
    → Shrinks c (free_some required freed es c)
      × ((length (free_some required freed es c).entries ≡ 0)
          ⊎ (required + sizes (values (free_some required freed es c).entries)
              ≤ freed + sizes (values c.entries)))
unfolding free_some
free_some-Shrinks required freed [] c h = (Shrinks-refl c h.tidy, inl (nothing_left c.entries h))
free_some-Shrinks required freed (e ∷ es) c h = elim (Bool-cases (leb required freed)) [
  | inl enough ↦ rw enough (Shrinks-refl c h.tidy, inr (ground arith))
  | inr more ↦
      let (s, out) =
        free_some-Shrinks required (freed + e.size) es (evict_entry c e) (rest-Holds c e es h) in
      rw more (
        Shrinks-trans c (evict_entry c e) _ (evict_entry-Shrinks c e es h) s,
        elim out [
          | inl z ↦ inl z
          | inr b ↦ inr (omega (arith, b, evict_entry-sum c e es h (λ x. x.size)))
        ],
      )
]

-- `evict(1)` takes one entry, if there is one.
evict_one-Shrinks :
    (es : List CacheEntry) (c : InferenceCache)
    → Holds c.entries es
    → Shrinks c (evict_some 1 es c) × (length (evict_some 1 es c).entries ≡ length c.entries - 1)
unfolding evict_some
evict_one-Shrinks [] c h = (Shrinks-refl c h.tidy, omega (arith, nothing_left c.entries h))
evict_one-Shrinks (e ∷ es) c h =
    (evict_entry-Shrinks c e es h, omega (arith, evict_entry-length c e es h))

evict-Shrinks :
    (c : InferenceCache)
    → Tidy c.entries
    → Shrinks c (evict 1 c) × (length (evict 1 c).entries ≡ length c.entries - 1)
unfolding evict
evict-Shrinks c t = evict_one-Shrinks (get_sorted_entries c) c (get_sorted_entries-Holds c t)

make_room-Shrinks :
    (size : ℕ) (c : InferenceCache)
    → Tidy c.entries
    → Shrinks c (make_room size c)
      × ((length (make_room size c).entries ≡ 0)
          ⊎ (sizes (values (make_room size c).entries) + size ≤ c.config.max_size_bytes))
unfolding make_room
make_room-Shrinks size c t =
    elim (Bool-cases (ltb c.config.max_size_bytes (sizes (values c.entries) + size))) [
      | inl over ↦
          let required = sizes (values c.entries) + size - c.config.max_size_bytes in
          let (s, out) =
            free_some-Shrinks required 0 (get_sorted_entries c) c (get_sorted_entries-Holds c t) in
          rw over (s, elim out [ inl z ↦ inl z | inr b ↦ inr (ground (arith, b)) ])
      | inr fits ↦ rw fits (Shrinks-refl c t, inr (ground arith))
    ]

abbrev Room : ℕ → InferenceCache → InferenceCache → Type 0
Room size c c' =
    Shrinks c c'
    × (length c'.entries < c.config.max_entries)
    × ((length c'.entries ≡ 0) ⊎ (sizes (values c'.entries) + size ≤ c.config.max_size_bytes))

make_room-Room :
    (size : ℕ) (c c1 : InferenceCache)
    → Shrinks c c1
    → length c1.entries < c.config.max_entries
    → Room size c (make_room size c1)
make_room-Room size c c1 s lt =
    let (s', out) = make_room-Shrinks size c1 s.tidy in
    (
      Shrinks-trans c c1 _ s s',
      omega (arith, s'.fewer, lt),
      subst
          (λ k.
            (length (make_room size c1).entries ≡ 0)
            ⊎ (sizes (values (make_room size c1).entries) + size ≤ k.max_size_bytes))
          s.config out,
    )

ensure_capacity-Room :
    (size : ℕ) (c : InferenceCache)
    → Tidy c.entries
    → length c.entries ≤ c.config.max_entries
    → 0 < c.config.max_entries
    → Room size c (ensure_capacity size c)
unfolding ensure_capacity
ensure_capacity-Room size c t within pos =
    elim (Bool-cases (leb c.config.max_entries (length c.entries))) [
      | inr room ↦ rw room (make_room-Room size c c (Shrinks-refl c t) (ground arith))
      | inl full ↦
          let (s, gone) = evict-Shrinks c t in
          rw full (make_room-Room size c (evict 1 c) s (ground (arith, gone)))
    ]

-- What `set` leaves of a cache: the entry stands under its key, and both limits are kept.
pub record Stored (key : String) (e : CacheEntry) (c c' : InferenceCache) : Type 0 where
  pub tidy : Tidy c'.entries
  pub config : c'.config ≡ c.config
  pub stored : lookup key c'.entries ≡ some e
  pub entries : length c'.entries ≤ c.config.max_entries
  pub bytes : sizes (values c'.entries) ≤ c.config.max_size_bytes

pub insert-Tidy : (e : CacheEntry) (m : Dict CacheEntry) → Tidy m → Tidy (insert e.key e m)
insert-Tidy e m t = record {
  unique = insert-IsMap e.key e m t.unique;
  keyed = λ k x at. ground (arith, eq_iff e.key k, lookup-insert e.key k e m, t.keyed k x);
}

no_sizes : (m : Dict CacheEntry) → length m ≡ 0 → sizes (values m) ≡ 0
no_sizes [] e = refl
no_sizes (_ ∷ _) e = absurd (omega arith)

store-Stored :
    (c c1 : InferenceCache) (e : CacheEntry)
    → e.size ≤ c.config.max_size_bytes
    → Room e.size c c1
    → Stored e.key e c (store c1 e)
unfolding store
store-Stored c c1 e small (s, lt, out) = record {
  tidy = insert-Tidy e c1.entries s.tidy;
  config = s.config;
  stored = lookup-insert_self e.key e c1.entries;
  entries = omega (arith, length-insert-le e.key e c1.entries, lt);
  bytes = elim out [
    | inl z ↦
        omega
          (arith, no_sizes c1.entries z, total-insert-le (λ x. x.size) e.key e c1.entries, small)
    | inr b ↦ omega (arith, total-insert-le (λ x. x.size) e.key e c1.entries, b)
  ];
}

set-on :
    (c : InferenceCache) (key : String) (req : Request) (resp : Response) (now : ℕ)
    → c.enabled ≡ true
    → set c (some key) req resp now ≡ (
      store (ensure_capacity (estimate_entry_size req resp) c) (entry_for c req resp key now),
      none,
    )
unfolding set
set-on c key req resp now on =
    let done : InferenceCache × Option Error = (
      store (ensure_capacity (estimate_entry_size req resp) c) (entry_for c req resp key now),
      none,
    ) in
    ap (λ b. if b then done else (c, none)) on

-- A cache that is switched on, whose entries stand once and under their keys, and that holds at most
-- its positive maximum of entries, stores any response that is not larger than the cache: `set`
-- succeeds, a lookup of the key finds the new entry, and entries and bytes are within the limits
-- afterwards, whatever the bytes were before.
pub set-Stored :
    (c : InferenceCache) (key : String) (req : Request) (resp : Response) (now : ℕ)
    → c.enabled ≡ true
    → Tidy c.entries
    → length c.entries ≤ c.config.max_entries
    → 0 < c.config.max_entries
    → estimate_entry_size req resp ≤ c.config.max_size_bytes
    → ((set c (some key) req resp now).1 ≡ none)
      × Stored key (entry_for c req resp key now) c (set c (some key) req resp now).0
set-Stored c key req resp now on t within pos small =
    let e = entry_for c req resp key now in
    let room = ensure_capacity-Room e.size c t within pos in
    let result = set-on c key req resp now on in
    (
      ap (λ r. r.1) result,
      subst (λ r. Stored key e c r.0) (sym result)
          (store-Stored c (ensure_capacity e.size c) e small room),
    )
