-- ===== src/Version/Reading.antt =====
-- What ParseVersion gives can be printed, and read again.
use net_llm.Prelude.{
  ℕ, ◌-◌, ◌^◌, ◌<◌, Bool, Option, none, some, [], ◌∷◌, ◌≡◌, refl, sym, ap, subst, ◌∙◌, ltb,
  Bool-cases, Option-cases, inl, inr, arith,
}
use net_llm.Prelude.Int.{pos}
use net_llm.Version.Semantic.{Bytes, SemanticVersion, to_string}
use net_llm.Version.Parse.{
  ok, err, invalid_format, is_identifier, span, some_of, after, optional, followed_by, value_onto,
  atoi, trim_v, number, next_number, at_end, match_version, parse_version,
}
use net_llm.Version.Digits.{Each}
use net_llm.Version.RoundTrip.{IsVersion, parse_version-to_string}

followed_by-some :
    {A B : Type 0} (o : Option A) (f : A → Option B) (b : B)
    → followed_by o f ≡ some b
    → (a : A) × (o ≡ some a) × (f a ≡ some b)
followed_by-some none f b h = absurd (ground (arith, h))
followed_by-some (some a) f b h = (a, refl, h)

some_inj : {A : Type 0} {a b : A} → some a ≡ some b → a ≡ b
some_inj h = cc

ok_inj : {A : Type 0} {a b : A} → ok a ≡ ok b → a ≡ b
ok_inj h = cc

atoi_bounded : (s : Bytes) → (n : ℕ) × (atoi s ≡ pos n) × (n < 2 ^ 63)
unfolding atoi
atoi_bounded s = elim (Bool-cases (ltb (value_onto 0 s) (2 ^ 63))) [
  | inl fits ↦ (value_onto 0 s, rw (atoi, fits) refl, ground (arith, fits))
  | inr large ↦ (2 ^ 63 - 1, rw (atoi, large) refl, omega arith)
]

span-class : (class : ℕ → Bool) (s : Bytes) → Each class (span class s).0
span-class class [] = tt
span-class class (c ∷ s) = elim (Bool-cases (class c)) [
  | inl here ↦ rw here (here, span-class class s)
  | inr off ↦ rw off tt
]

kept_part :
    (class : ℕ → Bool) (part rest : Bytes) (p : Bytes × Bytes)
    → Each class part
    → elim part as (λ _. Option (Bytes × Bytes)) [ [] ↦ none | c ∷ cs ↦ some (c ∷ cs, rest) ]
      ≡ some p
    → Each class p.0
kept_part class [] rest p each h = absurd (ground (arith, h))
kept_part class (c ∷ cs) rest p each h =
    let same : (c ∷ cs, rest) ≡ p = some_inj h in subst (λ q. Each class q.0) same each

some_of-class :
    (class : ℕ → Bool) (s : Bytes) (p : Bytes × Bytes) → some_of class s ≡ some p → Each class p.0
some_of-class class s p h =
    kept_part class (span class s).0 (span class s).1 p (span-class class s) h

optional-identifier :
    (mark : ℕ) (s : Bytes) (p : Bytes × Bytes) → optional mark s ≡ some p → Each is_identifier p.0
optional-identifier mark s p h = elim (Option-cases (after mark s)) [
  | inl missing ↦
      let step : optional mark s ≡ some ([], s) =
        ap (λ o. elim o [ none ↦ some ([], s) | some r ↦ some_of is_identifier r ]) missing in
      subst (λ q. Each is_identifier q.0) (some_inj (sym step ∙ h)) tt
  | inr (rest, at) ↦
      let step : optional mark s ≡ some_of is_identifier rest =
        ap (λ o. elim o [ none ↦ some ([], s) | some r ↦ some_of is_identifier r ]) at in
      some_of-class is_identifier rest p (sym step ∙ h)
]

at_end-some :
    (v : SemanticVersion) (rest : Bytes) (w : SemanticVersion) → at_end (v, rest) ≡ some w → v ≡ w
at_end-some v [] w h = some_inj h
at_end-some v (c ∷ s) w h = absurd (ground (arith, h))

match_version-IsVersion : (s : Bytes) (v : SemanticVersion) → match_version s ≡ some v → IsVersion v
unfolding match_version
match_version-IsVersion s v h =
    let (major, e1, h1) = followed_by-some (number s) _ v h in
    let (minor, e2, h2) = followed_by-some (next_number major.1) _ v h1 in
    let (patch, e3, h3) = followed_by-some (next_number minor.1) _ v h2 in
    let (pre, e4, h4) = followed_by-some (optional b'-' patch.1) _ v h3 in
    let (build, e5, h5) = followed_by-some (optional b'+' pre.1) _ v h4 in
    subst IsVersion (at_end-some _ build.1 v h5) (record {
      major = atoi_bounded major.0;
      minor = atoi_bounded minor.0;
      patch = atoi_bounded patch.0;
      pre_release = optional-identifier b'-' patch.1 pre e4;
      build = optional-identifier b'+' pre.1 build e5;
    })

parse_version-IsVersion : (s : Bytes) (v : SemanticVersion) → parse_version s ≡ ok v → IsVersion v
unfolding parse_version
parse_version-IsVersion [] v h = absurd (ground (arith, h))
parse_version-IsVersion (c ∷ s) v h = elim (Option-cases (match_version (trim_v (c ∷ s)))) [
  | inl missing ↦
      let step : parse_version (c ∷ s) ≡ err invalid_format =
        ap (λ o. elim o [ none ↦ err invalid_format | some w ↦ ok w ]) missing in
      absurd (ground (arith, sym step ∙ h))
  | inr (w, at) ↦
      let step : parse_version (c ∷ s) ≡ ok w =
        ap (λ o. elim o [ none ↦ err invalid_format | some x ↦ ok x ]) at in
      subst IsVersion (ok_inj (sym step ∙ h)) (match_version-IsVersion (trim_v (c ∷ s)) w at)
]

-- Whatever text ParseVersion accepts: the version that it gives has numbers from 0 to 2 ^ 63 - 1 and a
-- pre-release and a build of letters, digits and hyphens, and parsing its printed form gives the same
-- version, with the printed form as its raw form.
pub parse_version-to_string-parse_version :
    (s : Bytes) (v : SemanticVersion)
    → parse_version s ≡ ok v
    → IsVersion v × (parse_version (to_string v) ≡ ok (record v { raw = to_string v }))
parse_version-to_string-parse_version s v h =
    let is_version = parse_version-IsVersion s v h in
    (is_version, parse_version-to_string v is_version)
