-- ===== src/Cache/Eviction.antt =====
-- What the eviction loops leave: the entries to evict are those of the cache, and each is taken once.
use mathlib.Core.List.{Permᴰ}
use mathlib.Core.List.Permᴰ
use text.Mathlib.TextPositions.{eq_refl}
use net_llm.Prelude.{
  ℕ, ◌+◌, String, false, none, some, List, [], ◌∷◌, ◌≡◌, refl, ap, sym, subst, ◌∙◌, total, All,
  arith, str_eq, eq_iff,
}
use net_llm.Prelude.Dict.{
  Dict, lookup, delete, values, IsMap, lookup-delete, delete-IsMap, delete_absent,
}
use net_llm.Cache.State.{CacheEntry, InferenceCache}
use net_llm.Cache.Sorting.{get_sorted_entries}
use net_llm.Cache.Order.{sort_entries-perm}

-- Each entry stands once, under its key.
pub record Tidy (m : Dict CacheEntry) : Type 0 where
  pub unique : IsMap m
  pub keyed : (k : String) (e : CacheEntry) → lookup k m ≡ some e → e.key ≡ k

abbrev pub Distinct : List CacheEntry → Type 0
Distinct [] = Unit
Distinct (e ∷ es) = All (λ f. str_eq e.key f.key ≡ false) es × Distinct es

abbrev pub InMap : Dict CacheEntry → CacheEntry → Type 0
InMap m e = lookup e.key m ≡ some e

module _ {A : Type 0} where
  All-Permᴰ : (P : A → Type 0) {xs ys : List A} → Permᴰ xs ys → All P xs → All P ys
  All-Permᴰ P Permᴰ.nil h = tt
  All-Permᴰ P (Permᴰ.cons e d) h = (subst P e h.0, All-Permᴰ P d h.1)
  All-Permᴰ P (Permᴰ.swap p q) h = (subst P q h.1.0, (subst P p h.0, h.1.1))
  All-Permᴰ P (Permᴰ.trans c d) h = All-Permᴰ P d (All-Permᴰ P c h)

  total-Permᴰ : (f : A → ℕ) {xs ys : List A} → Permᴰ xs ys → total f xs ≡ total f ys
  total-Permᴰ f Permᴰ.nil = refl
  total-Permᴰ f (Permᴰ.cons e d) = omega (arith, ap f e, total-Permᴰ f d)
  total-Permᴰ f (Permᴰ.swap p q) = omega (arith, ap f p, ap f q)
  total-Permᴰ f (Permᴰ.trans c d) = total-Permᴰ f c ∙ total-Permᴰ f d

apart_sym : (a b : String) → str_eq a b ≡ false → str_eq b a ≡ false
apart_sym a b h = ground (arith, eq_iff a b, eq_iff b a)

abbrev Apart : CacheEntry → CacheEntry → Type 0
Apart e f = str_eq e.key f.key ≡ false

Distinct-Permᴰ : {xs ys : List CacheEntry} → Permᴰ xs ys → Distinct xs → Distinct ys
Distinct-Permᴰ Permᴰ.nil h = tt
Distinct-Permᴰ (Permᴰ.cons {b = b} {l₁ = k} e d) h =
    (All-Permᴰ (Apart b) d (subst (λ a. All (Apart a) k) e h.0), Distinct-Permᴰ d h.1)
Distinct-Permᴰ (Permᴰ.swap {a = a} {b = b} {a' = c} {b' = d} {l = l} p q) h =
    let turned : Apart b a = apart_sym a.key b.key h.0.0 in
    (
      (
        subst (λ x. Apart c x) p (subst (λ x. Apart x a) q turned),
        subst (λ x. All (Apart x) l) q h.1.0,
      ),
      (subst (λ x. All (Apart x) l) p h.0.1, h.1.1),
    )
Distinct-Permᴰ (Permᴰ.trans c d) h = Distinct-Permᴰ d (Distinct-Permᴰ c h)

pub total-delete :
    (f : CacheEntry → ℕ) (k : String) (e : CacheEntry) (m : Dict CacheEntry)
    → IsMap m
    → lookup k m ≡ some e
    → total f (values m) ≡ f e + total f (values (delete k m))
total-delete f k e [] u h = absurd (ground arith)
total-delete f k e ((i, w) ∷ m) u h =
    ground (arith, eq_iff i k, delete_absent k m, total-delete f k e m u.1)

-- The entries that are still to be looked at are those of the map.
pub record Holds (m : Dict CacheEntry) (rest : List CacheEntry) : Type 0 where
  pub found : All (InMap m) rest
  pub distinct : Distinct rest
  pub sum : (f : CacheEntry → ℕ) → total f rest ≡ total f (values m)
  pub tidy : Tidy m

tail-keyed :
    (i : String) (w : CacheEntry) (n m : Dict CacheEntry)
    → lookup i n ≡ none
    → ((k : String) (e : CacheEntry)
        → lookup k ((i, w) ∷ n) ≡ some e
        → (lookup k m ≡ some e) × (e.key ≡ k))
    → (k : String) (e : CacheEntry) → lookup k n ≡ some e
    → (lookup k m ≡ some e) × (e.key ≡ k)
tail-keyed i w n m absent h k e at = h k e (ground (arith, eq_iff i k))

pub values-found :
    (n m : Dict CacheEntry)
    → IsMap n
    → ((k : String) (e : CacheEntry) → lookup k n ≡ some e → (lookup k m ≡ some e) × (e.key ≡ k))
    → All (InMap m) (values n)
values-found [] m u h = tt
values-found ((i, w) ∷ n) m u h =
    let (at, same) = h i w (ground (arith, eq_refl i)) in
    (
      subst (λ k. lookup k m ≡ some w) (sym same) at,
      values-found n m u.1 (tail-keyed i w n m u.0 h),
    )

values-apart :
    (i : String) (n : Dict CacheEntry)
    → IsMap n
    → lookup i n ≡ none
    → ((k : String) (e : CacheEntry) → lookup k n ≡ some e → e.key ≡ k)
    → All (λ f. str_eq i f.key ≡ false) (values n)
values-apart i [] u absent h = tt
values-apart i ((j, w) ∷ n) u absent h =
    let same : w.key ≡ j = h j w (ground (arith, eq_refl j)) in
    (
      subst (λ k. str_eq i k ≡ false) (sym same) (ground (arith, eq_iff i j, eq_iff j i)),
      values-apart i n u.1 (ground arith) (λ k e at. h k e (ground (arith, eq_iff j k))),
    )

pub values-Distinct :
    (n : Dict CacheEntry)
    → IsMap n
    → ((k : String) (e : CacheEntry) → lookup k n ≡ some e → e.key ≡ k)
    → Distinct (values n)
values-Distinct [] u h = tt
values-Distinct ((i, w) ∷ n) u h =
    let keyed : (k : String) (e : CacheEntry) → lookup k n ≡ some e → e.key ≡ k =
      λ k e at. h k e (ground (arith, eq_iff i k)) in
    let same : w.key ≡ i = h i w (ground (arith, eq_refl i)) in
    (
      subst (λ k. All (λ f. str_eq k f.key ≡ false) (values n)) (sym same)
          (values-apart i n u.1 u.0 keyed),
      values-Distinct n u.1 keyed,
    )

-- The sorted entries are those of the cache.
pub get_sorted_entries-Holds :
    (c : InferenceCache) → Tidy c.entries → Holds c.entries (get_sorted_entries c)
unfolding get_sorted_entries
get_sorted_entries-Holds c t =
    let m = c.entries in
    let perm = sort_entries-perm c.config.eviction_policy (values m) in
    let back = Permᴰ.symm perm in
    record {
      found = All-Permᴰ (InMap m) back (values-found m m t.unique (λ k e at. (at, t.keyed k e at)));
      distinct = Distinct-Permᴰ back (values-Distinct m t.unique t.keyed);
      sum = λ f. total-Permᴰ f perm;
      tidy = t;
    }

pub others-found :
    (k : String) (m : Dict CacheEntry) (es : List CacheEntry)
    → All (λ f. str_eq k f.key ≡ false) es
    → All (InMap m) es
    → All (InMap (delete k m)) es
others-found k m [] a h = tt
others-found k m (e ∷ es) a h =
    (ground (arith, lookup-delete k e.key m), others-found k m es a.1 h.1)

-- One entry less.
pub delete-Holds :
    (m : Dict CacheEntry) (e : CacheEntry) (es : List CacheEntry)
    → Holds m (e ∷ es)
    → Holds (delete e.key m) es
delete-Holds m e es h = record {
  found = others-found e.key m es h.distinct.0 h.found.1;
  distinct = h.distinct.1;
  sum = λ f. omega (arith, h.sum f, total-delete f e.key e m h.tidy.unique h.found.0);
  tidy = record {
    unique = delete-IsMap e.key m h.tidy.unique;
    keyed = λ k x at. h.tidy.keyed k x (ground (arith, lookup-delete e.key k m));
  };
}
