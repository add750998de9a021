-- ===== src/Version/Compared.antt =====
-- One row more in the loop of GetLatestVersion.
use net_llm.Prelude.{
  true, false, Option, none, some, List, [], ◌∷◌, ◌≡◌, ◌≢◌, ◌⊎◌, inl, inr, sym, ap, subst, ◌∙◌,
  arith,
}
use net_llm.Version.Semantic.{SemanticVersion, is_greater_than}
use net_llm.Version.Parse.{parse_version, Error, ok, err}
use net_llm.Version.Order.{is_greater_than_trans, is_greater_than_asym}
use net_llm.Version.Manager.{ModelVersion}
use net_llm.Version.Latest.{is_later}

abbrev pub Among : ModelVersion → List ModelVersion → Type 0
Among a [] = ⊥
Among a (b ∷ bs) = (a ≡ b) ⊎ Among a bs

abbrev pub Candidate : Type 0
Candidate = Option (ModelVersion × SemanticVersion)

abbrev pub NotAbove : Candidate → SemanticVersion → Type 0
NotAbove none v = Unit
NotAbove (some (row, u)) v = is_greater_than u v ≡ false

abbrev pub Parses : Candidate → Type 0
Parses none = Unit
Parses (some (row, v)) = parse_version row.version ≡ ok v

-- No row of a version that parses is above `v`.
abbrev pub NoneAbove : List ModelVersion → SemanticVersion → Type 0
NoneAbove rows v =
    (row : ModelVersion)
    → Among row rows
    → (w : SemanticVersion) → parse_version row.version ≡ ok w
    → is_greater_than w v ≡ false

abbrev pub NoneParses : List ModelVersion → Type 0
NoneParses rows =
    (row : ModelVersion) → Among row rows → (w : SemanticVersion) → parse_version row.version ≢ ok w

-- What the loop makes of the latest row so far.
abbrev pub Left : List ModelVersion → Candidate → Candidate → Type 0
Left rows latest none = (latest ≡ none) × NoneParses rows
Left rows latest (some (row, v)) =
    (parse_version row.version ≡ ok v)
    × (Among row rows ⊎ (latest ≡ some (row, v)))
    × NoneAbove rows v
    × NotAbove latest v

pub Left-skip :
    (row : ModelVersion) (rows : List ModelVersion) (latest : Candidate) (e : Error)
    → parse_version row.version ≡ err e
    → (r : Candidate) → Left rows latest r
    → Left (row ∷ rows) latest r
Left-skip row rows latest e off none (same, none_parse) = (
  same,
  λ y i w at. elim i [
    | inl is ↦
        let clash : err e ≡ ok w = sym off ∙ ap (λ x. parse_version x.version) (sym is) ∙ at in
        absurd (ground (arith, clash))
    | inr j ↦ none_parse y j w at
  ],
)
Left-skip row rows latest e off (some (l, v)) (parses, from, below, not_above) = (
  parses,
  elim from [ inl i ↦ inl (inr i) | inr same ↦ inr same ],
  λ y i w at. elim i [
    | inl is ↦
        let clash : err e ≡ ok w = sym off ∙ ap (λ x. parse_version x.version) (sym is) ∙ at in
        absurd (ground (arith, clash))
    | inr j ↦ below y j w at
  ],
  not_above,
)

ok_inj : {A : Type 0} {a b : A} → ok a ≡ ok b → a ≡ b
ok_inj h = cc

some_inj : {A : Type 0} {a b : A} → some a ≡ some b → a ≡ b
some_inj h = cc

-- The version of the first row is not above the result.
NoneAbove-add :
    (row : ModelVersion) (rows : List ModelVersion) (u v : SemanticVersion)
    → parse_version row.version ≡ ok u
    → is_greater_than u v ≡ false
    → NoneAbove rows v
    → NoneAbove (row ∷ rows) v
NoneAbove-add row rows u v at le below y (inl is) w at_y =
    let same : u ≡ w = ok_inj (sym at ∙ ap (λ x. parse_version x.version) (sym is) ∙ at_y) in
    subst (λ x. is_greater_than x v ≡ false) same le
NoneAbove-add row rows u v at le below y (inr i) w at_y = below y i w at_y

pub Left-taken :
    (row : ModelVersion) (rows : List ModelVersion) (latest : Candidate) (u : SemanticVersion)
    → parse_version row.version ≡ ok u
    → is_later u latest ≡ true
    → (r : Candidate) → Left rows (some (row, u)) r
    → Left (row ∷ rows) latest r
Left-taken row rows latest u at later none (same, _) = absurd (ground (arith, same))
Left-taken row rows latest u at later (some (l, v)) (parses, from, below, not_above) = (
  parses,
  elim from [ inl i ↦ inl (inr i) | inr same ↦ inl (inl (ap (λ p. p.0) (sym (some_inj same)))) ],
  NoneAbove-add row rows u v at not_above below,
  above latest later,
)
  where
    above : (c : Candidate) → is_later u c ≡ true → NotAbove c v
    above none h = tt
    above (some (l0, v0)) h = is_greater_than_trans v0 u v (is_greater_than_asym u v0 h) not_above

pub Left-kept :
    (row : ModelVersion) (rows : List ModelVersion) (latest : Candidate) (u : SemanticVersion)
    → parse_version row.version ≡ ok u
    → is_later u latest ≡ false
    → (r : Candidate) → Left rows latest r
    → Left (row ∷ rows) latest r
Left-kept row rows none u at early r h = absurd (ground (arith, early))
Left-kept row rows (some (l0, v0)) u at early none (same, _) = absurd (ground (arith, same))
Left-kept row rows (some (l0, v0)) u at early (some (l, v)) (parses, from, below, not_above) = (
  parses,
  elim from [ inl i ↦ inl (inr i) | inr same ↦ inr same ],
  NoneAbove-add row rows u v at (is_greater_than_trans u v0 v early not_above) below,
  not_above,
)
