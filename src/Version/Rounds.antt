-- ===== src/Version/Rounds.antt =====
-- One round of the loop of generateUpgradePath.
use net_llm.Prelude.{
  ℕ, suc, ◌-◌, ◌^◌, ◌≤◌, ◌<◌, Bool, true, false, ◌||◌, Option, none, some, List, [], ◌∷◌, ◌≡◌, refl,
  sym, ap, subst, ◌∙◌, ◌⊎◌, inl, inr, if◌then◌else◌, arith,
}
use net_llm.Prelude.Int.{ℤ, pos, ltb_ℤ}
use net_llm.Version.Semantic.{
  Bytes, SemanticVersion, compare, compare_int, compare_pre_release, is_less_than, is_equal,
  next_int, increment_major, increment_minor, increment_patch, to_string,
}
use net_llm.Version.Path.{next_version, path_from, version}

abbrev pub last : List Bytes → Option Bytes
last [] = none
last (x ∷ []) = some x
last (x ∷ (y ∷ xs)) = last (y ∷ xs)

-- The numbers of one version come before those of another.
abbrev pub Before : ℕ → ℕ → ℕ → ℕ → ℕ → ℕ → Type 0
Before a b c A B C = (a < A) ⊎ (((a ≡ A) × (b < B)) ⊎ ((a ≡ A) × (b ≡ B) × (c < C)))

next_int-pos : (n m : ℕ) → n < m → m < 2 ^ 63 → next_int (pos n) ≡ pos (suc n)
unfolding next_int
next_int-pos n m h k = ground (arith, h, k)

if_true : {T : Type 0} (b : Bool) (x y : T) → b ≡ true → (if b then x else y) ≡ x
if_true b x y h = rw h refl

if_false : {T : Type 0} (b : Bool) (x y : T) → b ≡ false → (if b then x else y) ≡ y
if_false b x y h = rw h refl

abbrev release : ℤ → ℤ → ℤ → SemanticVersion
release x y z = record { major = x; minor = y; patch = z; pre_release = []; build = []; raw = [] }

module _ (A B C : ℕ) (pre' build' raw' : Bytes) where
  abbrev pub to : SemanticVersion
  to = version A B C pre' build' raw'

  pub less_cases :
      (a b c : ℕ) (pre build raw : Bytes)
      → is_less_than (version a b c pre build raw) to ≡ true
      → (a < A) ⊎ (((a ≡ A) × (b < B)) ⊎ ((a ≡ A) × (b ≡ B) × (c ≤ C)))
  unfolding is_less_than compare
  less_cases a b c pre build raw h = by_numbers (compare_pre_release pre pre') h
    where
      by_numbers :
          (r : ℤ)
          → ltb_ℤ
              (compare_int
                (pos a)
                (pos A)
                (compare_int (pos b) (pos B) (compare_int (pos c) (pos C) r)))
              (pos 0)
            ≡ true
          → (a < A) ⊎ (((a ≡ A) × (b < B)) ⊎ ((a ≡ A) × (b ≡ B) × (c ≤ C)))
      by_numbers r h = ground (arith, h)

  pub less_of_Before :
      (a b c : ℕ) (pre build raw : Bytes)
      → Before a b c A B C
      → is_less_than (version a b c pre build raw) to ≡ true
  unfolding is_less_than compare
  less_of_Before a b c pre build raw h = by_numbers (compare_pre_release pre pre') h
    where
      by_numbers :
          (r : ℤ)
          → Before a b c A B C
          → ltb_ℤ
              (compare_int
                (pos a)
                (pos A)
                (compare_int (pos b) (pos B) (compare_int (pos c) (pos C) r)))
              (pos 0)
            ≡ true
      by_numbers r h = ground (arith, h)

  -- At the numbers of a release, the loop is over.
  at_release :
      (build raw : Bytes)
      → pre' ≡ []
      → (is_less_than (version A B C [] build raw) to ≡ false)
        × (is_equal (version A B C [] build raw) to ≡ true)
  unfolding is_less_than is_equal compare compare_pre_release
  at_release build raw e = (rw e (ground arith), rw e (ground arith))

  pub next_major :
      (a b c : ℕ) (pre build raw : Bytes)
      → a < A
      → A < 2 ^ 63
      → next_version (version a b c pre build raw) to ≡ version (suc a) 0 0 [] [] []
  unfolding increment_major
  next_major a b c pre build raw h k =
      if_true (ltb_ℤ (pos a) (pos A)) _ _ (ground (arith, h))
      ∙ ap (λ z. release z (pos 0) (pos 0)) (next_int-pos a A h k)

  pub next_minor :
      (b c : ℕ) (pre build raw : Bytes)
      → b < B
      → B < 2 ^ 63
      → next_version (version A b c pre build raw) to ≡ version A (suc b) 0 [] [] []
  unfolding increment_minor
  next_minor b c pre build raw h k =
      if_false (ltb_ℤ (pos A) (pos A)) _ _ (ground arith)
      ∙ if_true (ltb_ℤ (pos b) (pos B)) _ _ (ground (arith, h))
      ∙ ap (λ z. release (pos A) z (pos 0)) (next_int-pos b B h k)

  pub next_patch :
      (c : ℕ) (pre build raw : Bytes)
      → c ≤ C
      → C < 2 ^ 63 - 1
      → next_version (version A B c pre build raw) to ≡ version A B (suc c) [] [] []
  unfolding increment_patch
  next_patch c pre build raw h k =
      if_false (ltb_ℤ (pos A) (pos A)) _ _ (ground arith)
      ∙ if_false (ltb_ℤ (pos B) (pos B)) _ _ (ground arith)
      ∙ ap (λ z. release (pos A) (pos B) z) (next_int-pos c (suc C) (omega arith) (omega arith))

  -- A path, which ends at the release, or at nothing where the release is reached already.
  abbrev pub PathTo : ℕ → ℕ → ℕ → Bytes → Option (List Bytes) → Type 0
  PathTo a b c pre o =
      (path : List Bytes) × (o ≡ some path)
      × (pre' ≡ [] → Before a b c A B C → last path ≡ some (to_string (version A B C [] [] [])))
      × (pre' ≡ [] → pre ≡ [] → (a ≡ A) × (b ≡ B) × (c ≡ C) → path ≡ [])

  last-cons :
      (x : Bytes) (path : List Bytes) (g : Bytes) → last path ≡ some g → last (x ∷ path) ≡ some g
  last-cons x [] g h = absurd (ground (arith, h))
  last-cons x (y ∷ path) g h = h

  -- What a round puts before the path of the rest.
  abbrev with_next : SemanticVersion → List Bytes → List Bytes
  with_next next path =
      if is_less_than next to || is_equal next to then to_string next ∷ path else path

  round :
      (fuel : ℕ) (current next : SemanticVersion) (path : List Bytes)
      → is_less_than current to ≡ true
      → next_version current to ≡ next
      → path_from fuel next to ≡ some path
      → path_from (suc fuel) current to ≡ some (with_next next path)
  unfolding path_from
  round fuel current next path less is rest =
      let at_next : path_from fuel (next_version current to) to ≡ some path =
        ap (λ v. path_from fuel v to) is ∙ rest in
      rw (path_from, less, at_next) (ap (λ v. some (with_next v path)) is)

  pub round-PathTo :
      (fuel a b c a2 b2 c2 : ℕ) (pre build raw : Bytes)
      → is_less_than (version a b c pre build raw) to ≡ true
      → next_version (version a b c pre build raw) to ≡ version a2 b2 c2 [] [] []
      → (Before a b c A B C → Before a2 b2 c2 A B C ⊎ ((a2 ≡ A) × (b2 ≡ B) × (c2 ≡ C)))
      → PathTo a2 b2 c2 [] (path_from fuel (version a2 b2 c2 [] [] []) to)
      → PathTo a b c pre (path_from (suc fuel) (version a b c pre build raw) to)
  round-PathTo fuel a b c a2 b2 c2 pre build raw less is closer (path, rest, ends, over) = (
    with_next (version a2 b2 c2 [] [] []) path,
    round fuel (version a b c pre build raw) (version a2 b2 c2 [] [] []) path less is rest,
    λ released before. elim (closer before) [
      | inl still ↦
          let next = version a2 b2 c2 [] [] [] in
          let on = less_of_Before a2 b2 c2 [] [] [] still in
          let step : with_next next path ≡ to_string next ∷ path =
            if_true (is_less_than next to || is_equal next to) _ _ (ground (arith, on)) in
          subst (λ l. last l ≡ some (to_string (version A B C [] [] []))) (sym step)
            (last-cons (to_string next) path _ (ends released still))
      | inr (ea, eb, ec) ↦
          let there : version a2 b2 c2 [] [] [] ≡ version A B C [] [] [] = cc in
          let on = (at_release [] [] released).1 in
          let empty = over released refl (ea, eb, ec) in
          let goal = version A B C [] [] [] in
          let step : with_next goal path ≡ to_string goal ∷ path =
            if_true (is_less_than goal to || is_equal goal to) _ _ (ground (arith, on)) in
          subst (λ v. last (with_next v path) ≡ some (to_string goal)) (sym there)
            (subst (λ l. last l ≡ some (to_string goal)) (sym step)
              (subst (λ l. last (to_string goal ∷ l) ≡ some (to_string goal)) (sym empty) refl))
    ],
    λ released plain (ea, eb, ec).
        let there : version a b c pre build raw ≡ version A B C [] build raw = cc in
        let off = (at_release build raw released).0 in
        let clash : true ≡ false = sym less ∙ ap (λ v. is_less_than v to) there ∙ off in
        absurd (ground (arith, clash)),
  )
