-- ===== src/Version/Order.antt =====
-- The order of versions.
use net_llm.Prelude.{ℕ, Bool, true, false, [], ◌∷◌, ◌≡◌, ◌↔◌, refl, subst, arith}
use net_llm.Prelude.Int.{ℤ, pos, ltb_ℤ}
use net_llm.Version.Semantic.{
  Bytes, SemanticVersion, ltb_bytes, eqb_bytes, compare_pre_release, compare_int, compare,
  is_greater_than,
}

abbrev above : ℤ → Bool
above r = ltb_ℤ (pos 0) r

compare_int_trans :
    (a b c r s t : ℤ)
    → (above r ≡ false → above s ≡ false → above t ≡ false)
    → above (compare_int a b r) ≡ false
    → above (compare_int b c s) ≡ false
    → above (compare_int a c t) ≡ false
compare_int_trans a b c r s t rest h k = ground (arith, rest, h, k)

compare_int_asym :
    (a b r s : ℤ)
    → (above r ≡ true → above s ≡ false)
    → above (compare_int a b r) ≡ true
    → above (compare_int b a s) ≡ false
compare_int_asym a b r s rest h = ground (arith, rest, h)

-- No byte string is above the next one but one.
not_above_trans :
    (p q r : Bytes) → ltb_bytes q p ≡ false → ltb_bytes r q ≡ false → ltb_bytes r p ≡ false
not_above_trans [] [] [] h k = refl
not_above_trans [] [] (c ∷ r) h k = refl
not_above_trans [] (b ∷ q) [] h k = refl
not_above_trans [] (b ∷ q) (c ∷ r) h k = refl
not_above_trans (a ∷ p) [] r h k = absurd (ground (arith, h))
not_above_trans (a ∷ p) (b ∷ q) [] h k = absurd (ground (arith, k))
not_above_trans (a ∷ p) (b ∷ q) (c ∷ r) h k = ground (arith, not_above_trans p q r, h, k)

eqb_bytes_iff : (p q : Bytes) → (eqb_bytes p q ≡ true) ↔ (p ≡ q)
eqb_bytes_iff p q = (eqb_eq p q, λ e. subst (λ r. eqb_bytes p r ≡ true) e (eqb_self p))
  where
    eqb_self : (p : Bytes) → eqb_bytes p p ≡ true
    eqb_self [] = refl
    eqb_self (c ∷ p) = ground (arith, eqb_self p)

    eqb_eq : (p q : Bytes) → eqb_bytes p q ≡ true → p ≡ q
    eqb_eq [] [] h = refl
    eqb_eq [] (d ∷ q) h = absurd (ground (arith, h))
    eqb_eq (c ∷ p) [] h = absurd (ground (arith, h))
    eqb_eq (c ∷ p) (d ∷ q) h =
        let here : c ≡ d = ground (arith, h) in
        let rest : eqb_bytes p q ≡ true = ground (arith, h) in ap2_cons here (eqb_eq p q rest)
      where
        ap2_cons : {c d : ℕ} {p q : Bytes} → c ≡ d → p ≡ q → c ∷ p ≡ d ∷ q
        ap2_cons e f = cc

both_not_above : (p q : Bytes) → ltb_bytes q p ≡ false → ltb_bytes p q ≡ false → p ≡ q
both_not_above [] [] h k = refl
both_not_above [] (d ∷ q) h k = absurd (ground (arith, k))
both_not_above (c ∷ p) [] h k = absurd (ground (arith, h))
both_not_above (c ∷ p) (d ∷ q) h k =
    let here : c ≡ d = ground (arith, h, k) in
    let below : ltb_bytes q p ≡ false = ground (arith, h, here) in
    let above : ltb_bytes p q ≡ false = ground (arith, k, here) in
    let rest = both_not_above p q below above in cc

ltb_bytes_asym : (p q : Bytes) → ltb_bytes p q ≡ true → ltb_bytes q p ≡ false
ltb_bytes_asym [] [] h = refl
ltb_bytes_asym [] (d ∷ q) h = refl
ltb_bytes_asym (c ∷ p) [] h = absurd (ground (arith, h))
ltb_bytes_asym (c ∷ p) (d ∷ q) h = ground (arith, ltb_bytes_asym p q, h)

pre_release_asym :
    (p q : Bytes) → above (compare_pre_release p q) ≡ true → above (compare_pre_release q p) ≡ false
unfolding compare_pre_release
pre_release_asym p q h = ground (
  arith,
  h,
  ltb_bytes_asym p q,
  ltb_bytes_asym q p,
  eqb_bytes_iff p q,
  eqb_bytes_iff q p,
  eqb_bytes_iff p [],
  eqb_bytes_iff q [],
)

pre_release_trans :
    (p q r : Bytes)
    → above (compare_pre_release p q) ≡ false
    → above (compare_pre_release q r) ≡ false
    → above (compare_pre_release p r) ≡ false
unfolding compare_pre_release
pre_release_trans p q r h k = ground (
  arith,
  h,
  k,
  not_above_trans p q r,
  eqb_bytes_iff p q,
  eqb_bytes_iff q r,
  eqb_bytes_iff p r,
  eqb_bytes_iff p [],
  eqb_bytes_iff q [],
  eqb_bytes_iff r [],
)

pub is_greater_than_trans :
    (u v w : SemanticVersion)
    → is_greater_than u v ≡ false
    → is_greater_than v w ≡ false
    → is_greater_than u w ≡ false
unfolding is_greater_than compare
is_greater_than_trans u v w = compare_int_trans u.major v.major w.major _ _ _ (
    compare_int_trans u.minor v.minor w.minor _ _ _ (
      compare_int_trans u.patch v.patch w.patch _ _ _
        (pre_release_trans u.pre_release v.pre_release w.pre_release)))

pub is_greater_than_asym :
    (u v : SemanticVersion) → is_greater_than u v ≡ true → is_greater_than v u ≡ false
unfolding is_greater_than compare
is_greater_than_asym u v = compare_int_asym u.major v.major _ _ (
    compare_int_asym u.minor v.minor _ _
      (compare_int_asym u.patch v.patch _ _ (pre_release_asym u.pre_release v.pre_release)))
