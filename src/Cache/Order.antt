-- ===== src/Cache/Order.antt =====
-- The bubble sort sorts, and only reorders. What each policy evicts first.
use mathlib.Core.List.{Perm, Permᴰ, append-nil}
use mathlib.Core.List.Permᴰ
use net_llm.Prelude.{
  ℕ, zero, suc, ◌-◌, ◌≤◌, Bool, true, false, List, [], ◌∷◌, ◌++◌, ◌≡◌, refl, ap, subst, length, All,
  arith, inl, inr, Bool-cases,
}
use net_llm.Prelude.Dict.{values}
use net_llm.Cache.State.{CacheEntry, EvictionPolicy, lru, lfu, fifo, other_policy, InferenceCache}
use net_llm.Cache.Sorting.{
  pass, passes, bubble_sort, swap_accessed, swap_hits, swap_created, sort_by_last_accessed,
  sort_by_hit_count, sort_by_creation_time, sort_entries, get_sorted_entries,
}

module _ {A : Type 0} (swap : A → A → Bool) where
  -- Nothing in front of an item would change places with it.
  abbrev pub IsSortedBy : List A → Type 0
  IsSortedBy [] = Unit
  IsSortedBy (a ∷ xs) = All (λ b. swap a b ≡ false) xs × IsSortedBy xs

  pass-perm : (k : ℕ) (xs : List A) → Permᴰ (pass swap k xs) xs
  unfolding pass
  pass-perm zero xs = Permᴰ.refl xs
  pass-perm (suc k) [] = Permᴰ.refl []
  pass-perm (suc k) (a ∷ []) = Permᴰ.refl (a ∷ [])
  pass-perm (suc k) (a ∷ b ∷ xs) = elim (Bool-cases (swap a b)) [
    | inl e ↦ rw e (Permᴰ.trans (Permᴰ.cons refl (pass-perm k (a ∷ xs))) (Permᴰ.swap refl refl))
    | inr e ↦ rw e (Permᴰ.cons refl (pass-perm k (b ∷ xs)))
  ]

  passes-perm : (k : ℕ) (xs : List A) → Permᴰ (passes swap k xs) xs
  unfolding passes
  passes-perm zero xs = Permᴰ.refl xs
  passes-perm (suc k) xs = Permᴰ.trans (passes-perm k (pass swap (suc k) xs)) (pass-perm (suc k) xs)

  module _ (asym : (a b : A) → swap a b ≡ true → swap b a ≡ false)
      (trans : (a b c : A) → swap a b ≡ false → swap b c ≡ false → swap a c ≡ false) where
    irrefl : (a : A) → swap a a ≡ false
    irrefl a = elim (Bool-cases (swap a a)) [ inl e ↦ asym a a e | inr e ↦ e ]

    -- One pass carries a last item to the end of the first `suc k`.
    abbrev Carried : ℕ → A → List A → List A → Type 1
    Carried k a ys zs =
        (init : List A) × (m : A) × (pass swap k (a ∷ (ys ++ zs)) ≡ init ++ (m ∷ zs))
        × (length init ≡ k)
        × All (λ x. swap x m ≡ false) init
        × (swap a m ≡ false)
        × ((P : A → Type 0) → P a → All P ys → All P init × P m)

    pass-Carried : (k : ℕ) (a : A) (ys zs : List A) → length ys ≡ k → Carried k a ys zs
    unfolding pass
    pass-Carried zero a [] zs e = ([], a, refl, refl, tt, irrefl a, λ P p ps. (tt, p))
    pass-Carried zero a (b ∷ ys) zs e = absurd (omega arith)
    pass-Carried (suc k) a [] zs e = absurd (omega arith)
    pass-Carried (suc k) a (b ∷ ys) zs e = elim (Bool-cases (swap a b)) [
      | inl s ↦
          let (init, m, eq, len, le, head, both) = pass-Carried k a ys zs (omega arith) in
          (
            b ∷ init,
            m,
            rw s (ap (◌∷◌ b) eq),
            omega (arith, len),
            (trans b a m (asym a b s) head, le),
            head,
            λ P p ps. let (pi, pm) = both P p ps.1 in ((ps.0, pi), pm),
          )
      | inr s ↦
          let (init, m, eq, len, le, head, both) = pass-Carried k b ys zs (omega arith) in
          (
            a ∷ init,
            m,
            rw s (ap (◌∷◌ a) eq),
            omega (arith, len),
            (trans a b m s head, le),
            trans a b m s head,
            λ P p ps. let (pi, pm) = both P ps.0 ps.1 in ((p, pi), pm),
          )
    ]

    All-cons :
        (m : A) (xs zs : List A)
        → All (λ x. swap x m ≡ false) xs
        → All (λ x. All (λ z. swap x z ≡ false) zs) xs
        → All (λ x. All (λ z. swap x z ≡ false) (m ∷ zs)) xs
    All-cons m [] zs h k = tt
    All-cons m (x ∷ xs) zs h k = ((h.0, k.0), All-cons m xs zs h.1 k.1)

    passes-IsSortedBy :
        (k : ℕ) (ys zs : List A)
        → length ys ≡ suc k
        → IsSortedBy zs
        → All (λ y. All (λ z. swap y z ≡ false) zs) ys
        → IsSortedBy (passes swap k (ys ++ zs))
    unfolding passes
    passes-IsSortedBy k [] zs e s h = absurd (omega arith)
    passes-IsSortedBy zero (a ∷ []) zs e s h = (h.0, s)
    passes-IsSortedBy zero (a ∷ b ∷ ys) zs e s h = absurd (omega arith)
    passes-IsSortedBy (suc k) (a ∷ ys) zs e s h =
        let (init, m, eq, len, le, head, both) = pass-Carried (suc k) a ys zs (omega arith) in
        let (hi, hm) = both (λ y. All (λ z. swap y z ≡ false) zs) h.0 h.1 in
        rw eq (passes-IsSortedBy k init (m ∷ zs) len (hm, s) (All-cons m init zs le hi))

    All-nil : (xs : List A) → All (λ x. All (λ z. swap x z ≡ false) []) xs
    All-nil [] = tt
    All-nil (x ∷ xs) = (tt, All-nil xs)

    bubble_sort-IsSortedBy : (xs : List A) → IsSortedBy (bubble_sort swap xs)
    unfolding bubble_sort passes
    bubble_sort-IsSortedBy [] = tt
    bubble_sort-IsSortedBy (a ∷ ys) =
        let count : suc (length ys) - 1 ≡ length ys = omega arith in
        rw count (
          subst (λ l. IsSortedBy (passes swap (length ys) l)) (append-nil (a ∷ ys))
            (passes-IsSortedBy (length ys) (a ∷ ys) [] refl tt (All-nil (a ∷ ys))))

  bubble_sort-perm : (xs : List A) → Permᴰ (bubble_sort swap xs) xs
  unfolding bubble_sort
  bubble_sort-perm xs = passes-perm (length xs - 1) xs

-- What it means that a policy takes one entry before another: the recently used before the long
-- unused, the seldom hit before the often hit, the old before the new.
abbrev pub Precedes : EvictionPolicy → CacheEntry → CacheEntry → Type 0
Precedes lru a b = b.last_accessed ≤ a.last_accessed
Precedes lfu a b = a.hit_count ≤ b.hit_count
Precedes fifo a b = a.created_at ≤ b.created_at
Precedes other_policy a b = b.last_accessed ≤ a.last_accessed

abbrev pub IsOrdered : EvictionPolicy → List CacheEntry → Type 0
IsOrdered p [] = Unit
IsOrdered p (e ∷ es) = All (Precedes p e) es × IsOrdered p es

All-map :
    (P Q : CacheEntry → Type 0) (es : List CacheEntry)
    → ((e : CacheEntry) → P e → Q e)
    → All P es
    → All Q es
All-map P Q [] f h = tt
All-map P Q (e ∷ es) f h = (f e h.0, All-map P Q es f h.1)

IsSortedBy-IsOrdered :
    (p : EvictionPolicy) (swap : CacheEntry → CacheEntry → Bool) (es : List CacheEntry)
    → ((a b : CacheEntry) → swap a b ≡ false → Precedes p a b)
    → IsSortedBy swap es
    → IsOrdered p es
IsSortedBy-IsOrdered p swap [] f h = tt
IsSortedBy-IsOrdered p swap (e ∷ es) f h = (
  All-map (λ b. swap e b ≡ false) (Precedes p e) es (f e) h.0,
  IsSortedBy-IsOrdered p swap es f h.1,
)

sort_entries-IsOrdered :
    (p : EvictionPolicy) (es : List CacheEntry) → IsOrdered p (sort_entries p es)
unfolding sort_entries sort_by_last_accessed sort_by_hit_count sort_by_creation_time
sort_entries-IsOrdered lru es =
    IsSortedBy-IsOrdered lru swap_accessed _ (λ a b h. ground arith)
      (bubble_sort-IsSortedBy swap_accessed (λ a b h. ground arith) (λ a b c h k. ground arith) es)
sort_entries-IsOrdered lfu es =
    IsSortedBy-IsOrdered lfu swap_hits _ (λ a b h. ground arith)
      (bubble_sort-IsSortedBy swap_hits (λ a b h. ground arith) (λ a b c h k. ground arith) es)
sort_entries-IsOrdered fifo es =
    IsSortedBy-IsOrdered fifo swap_created _ (λ a b h. ground arith)
      (bubble_sort-IsSortedBy swap_created (λ a b h. ground arith) (λ a b c h k. ground arith) es)
sort_entries-IsOrdered other_policy es =
    IsSortedBy-IsOrdered other_policy swap_accessed _ (λ a b h. ground arith)
      (bubble_sort-IsSortedBy swap_accessed (λ a b h. ground arith) (λ a b c h k. ground arith) es)

pub sort_entries-perm : (p : EvictionPolicy) (es : List CacheEntry) → Permᴰ (sort_entries p es) es
unfolding sort_entries sort_by_last_accessed sort_by_hit_count sort_by_creation_time
sort_entries-perm lru es = bubble_sort-perm swap_accessed es
sort_entries-perm lfu es = bubble_sort-perm swap_hits es
sort_entries-perm fifo es = bubble_sort-perm swap_created es
sort_entries-perm other_policy es = bubble_sort-perm swap_accessed es

-- The entries in the order of eviction are the entries of the cache, each as often, and they are in
-- the order of the policy: by hits, the seldom hit first; by creation, the oldest first; and for LRU
-- and any unknown policy by last access, but the most recently used first.
pub get_sorted_entries-IsOrdered :
    (c : InferenceCache)
    → Perm (get_sorted_entries c) (values c.entries)
      × IsOrdered c.config.eviction_policy (get_sorted_entries c)
unfolding get_sorted_entries
get_sorted_entries-IsOrdered c = (
  ∣ sort_entries-perm c.config.eviction_policy (values c.entries) ∣₁,
  sort_entries-IsOrdered c.config.eviction_policy (values c.entries),
)
