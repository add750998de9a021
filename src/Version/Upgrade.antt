-- ===== src/Version/Upgrade.antt =====
-- The loop of generateUpgradePath ends, and where.
use net_llm.Prelude.{
  ℕ, zero, suc, ◌+◌, ◌-◌, ◌^◌, ◌≤◌, ◌<◌, some, List, [], ◌≡◌, refl, sym, ap, subst, ◌∙◌, ◌⊎◌, inl,
  inr, Bool-cases, arith,
}
use net_llm.Version.Semantic.{Bytes, is_less_than, to_string}
use net_llm.Version.Path.{next_version, path_from, generate_upgrade_path, version}
use net_llm.Version.Rounds.{
  last, Before, to, less_cases, less_of_Before, next_major, next_minor, next_patch, PathTo,
  round-PathTo,
}

module _ (A B C : ℕ) (pre' build' raw' : Bytes) where
  -- How much fuel is enough.
  pub record Enough (fuel a b c : ℕ) : Type 0 where
    pub some_fuel : 1 ≤ fuel
    pub majors : a < A → A - a + B + C + 2 ≤ fuel
    pub minors : a ≡ A → b < B → B - b + C + 2 ≤ fuel
    pub patches : a ≡ A → b ≡ B → c ≤ C → C - c + 2 ≤ fuel

  closer_major : (a : ℕ) → a < A → Before (suc a) 0 0 A B C ⊎ ((suc a ≡ A) × (0 ≡ B) × (0 ≡ C))
  closer_major a m = ground (arith, m)

  closer_minor : (b : ℕ) → b < B → Before A (suc b) 0 A B C ⊎ ((A ≡ A) × (suc b ≡ B) × (0 ≡ C))
  closer_minor b m = ground (arith, m)

  closer_patch :
      (a b c : ℕ)
      → a ≡ A
      → b ≡ B
      → Before a b c A B C
      → Before A B (suc c) A B C ⊎ ((A ≡ A) × (B ≡ B) × (suc c ≡ C))
  closer_patch a b c ea eb m = ground (arith, ea, eb, m)

  Enough-major : (fuel a b c : ℕ) → a < A → Enough (suc fuel) a b c → Enough fuel (suc a) 0 0
  Enough-major fuel a b c m e =
      let used = e.majors m in
      record {
        some_fuel = omega arith;
        majors = λ x. omega arith;
        minors = λ x y. omega arith;
        patches = λ x y z. omega arith;
      }

  Enough-minor :
      (fuel a b c : ℕ) → a ≡ A → b < B → Enough (suc fuel) a b c → Enough fuel A (suc b) 0
  Enough-minor fuel a b c ea m e =
      let used = e.minors ea m in
      record {
        some_fuel = omega arith;
        majors = λ x. omega arith;
        minors = λ x y. omega arith;
        patches = λ x y z. omega arith;
      }

  Enough-patch :
      (fuel a b c : ℕ) → a ≡ A → b ≡ B → c ≤ C → Enough (suc fuel) a b c → Enough fuel A B (suc c)
  Enough-patch fuel a b c ea eb m e =
      let used = e.patches ea eb m in
      record {
        some_fuel = omega arith;
        majors = λ x. omega arith;
        minors = λ x y. omega arith;
        patches = λ x y z. omega arith;
      }

  module _ (A_int : A < 2 ^ 63) (B_int : B < 2 ^ 63) (C_int : C < 2 ^ 63 - 1) where
    path_from-PathTo :
        (fuel a b c : ℕ) (pre build raw : Bytes)
        → Enough fuel a b c
        → PathTo A B C pre' build' raw' a b c pre
            (path_from fuel (version a b c pre build raw) (to A B C pre' build' raw'))
    unfolding path_from
    path_from-PathTo zero a b c pre build raw e = absurd (omega (arith, e.some_fuel))
    path_from-PathTo (suc fuel) a b c pre build raw e =
        elim (Bool-cases (is_less_than (version a b c pre build raw) (to A B C pre' build' raw'))) [
          | inr off ↦ (
            [],
            rw (path_from, off) refl,
            λ released before.
                let on = less_of_Before A B C pre' build' raw' a b c pre build raw before in
                absurd (ground (arith, on, off)),
            λ _ _ _. refl,
          )
          | inl less ↦ elim (less_cases A B C pre' build' raw' a b c pre build raw less) [
            | inl m ↦
                round-PathTo A B C pre' build' raw' fuel a b c (suc a) 0 0 pre build raw less
                  (next_major A B C pre' build' raw' a b c pre build raw m A_int)
                  (λ _. closer_major a m)
                  (path_from-PathTo fuel (suc a) 0 0 [] [] [] (Enough-major fuel a b c m e))
            | inr (inl (ea, m)) ↦
                round-PathTo A B C pre' build' raw' fuel a b c A (suc b) 0 pre build raw less
                  (subst
                    (λ x.
                      next_version (version x b c pre build raw) (to A B C pre' build' raw')
                      ≡ version A (suc b) 0 [] [] [])
                    (sym ea) (next_minor A B C pre' build' raw' b c pre build raw m B_int))
                  (λ _. closer_minor b m)
                  (path_from-PathTo fuel A (suc b) 0 [] [] [] (Enough-minor fuel a b c ea m e))
            | inr (inr (ea, eb, m)) ↦
                let is : version a b c pre build raw ≡ version A B c pre build raw = cc in
                round-PathTo A B C pre' build' raw' fuel a b c A B (suc c) pre build raw less
                  (ap (λ v. next_version v (to A B C pre' build' raw')) is
                    ∙ next_patch A B C pre' build' raw' c pre build raw m C_int)
                  (closer_patch a b c ea eb)
                  (path_from-PathTo fuel A B (suc c) [] [] [] (Enough-patch fuel a b c ea eb m e))
          ]
        ]

-- To a version with no pre-release whose patch is not the greatest number, from one whose numbers
-- come before: with fuel for two rounds more than the sum of the numbers of the target, the loop of
-- generateUpgradePath ends, and the path ends with the target.
pub generate_upgrade_path-last :
    (a b c : ℕ) (pre build raw : Bytes) (A B C : ℕ) (build' raw' : Bytes)
    → A < 2 ^ 63
    → B < 2 ^ 63
    → C < 2 ^ 63 - 1
    → Before a b c A B C
    → (path : List Bytes) × (generate_upgrade_path
          (A + B + C + 2)
          (version a b c pre build raw)
          (version A B C [] build' raw')
        ≡ some path)
      × (last path ≡ some (to_string (version A B C [] [] [])))
unfolding generate_upgrade_path
generate_upgrade_path-last a b c pre build raw A B C build' raw' A_int B_int C_int before =
    let enough : Enough A B C [] build' raw' (A + B + C + 2) a b c = record {
      some_fuel = omega arith;
      majors = λ x. omega arith;
      minors = λ x y. omega arith;
      patches = λ x y z. omega arith;
    } in
    let (path, is, ends, _) =
      path_from-PathTo A B C [] build' raw' A_int B_int C_int (A + B + C + 2) a b c pre build raw
        enough in
    (path, is, ends refl before)
