-- ===== src/Version/RoundTrip.antt =====
-- Parsing a printed version, piece by piece, with any rest behind the piece.
use mathlib.Core.List.{append-nil}
use net_llm.Prelude.{
  ℕ, ◌^◌, ◌<◌, Bool, true, false, none, some, [], ◌∷◌, ◌++◌, ◌≡◌, refl, sym, ap, subst, ◌∙◌, ◌==◌,
  arith,
}
use net_llm.Prelude.Int.{ℤ, pos}
use net_llm.Version.Semantic.{Bytes, SemanticVersion, decimal, marked, to_string}
use net_llm.Version.Parse.{
  ok, err, invalid_format, is_digit, is_identifier, some_of, after, optional, followed_by, atoi,
  trim_v, number, next_number, match_version, parse_version,
}
use net_llm.Version.Digits.{Each, Stops, digits-is_digit, digits_not_nil, atoi-decimal, span-Each}

some_of-Each :
    (class : ℕ → Bool) (c : ℕ) (s rest : Bytes)
    → Each class (c ∷ s)
    → Stops class rest
    → some_of class ((c ∷ s) ++ rest) ≡ some (c ∷ s, rest)
some_of-Each class c s rest h stop =
    ap (λ p. elim p.0 [ [] ↦ none | c' ∷ cs ↦ some (c' ∷ cs, p.1) ])
      (span-Each class (c ∷ s) rest h stop)

number-decimal :
    (n : ℕ) (rest : Bytes)
    → Stops is_digit rest
    → number (decimal (pos n) ++ rest) ≡ some (decimal (pos n), rest)
unfolding decimal
number-decimal n rest stop =
    let (d, t, is) = digits_not_nil 19 n in
    subst (λ s. number (s ++ rest) ≡ some (s, rest)) (sym is)
      (some_of-Each is_digit d t rest (subst (Each is_digit) is (digits-is_digit 20 n)) stop)

after_mark : (mark : ℕ) (s : Bytes) → after mark (mark ∷ s) ≡ some s
after_mark mark s = ground arith

after_other : (mark c : ℕ) (s : Bytes) → (c == mark) ≡ false → after mark (c ∷ s) ≡ none
after_other mark c s other = rw other refl

-- A part after its mark, which the rest cannot go on with.
optional-marked :
    (mark : ℕ) (part rest : Bytes)
    → Each is_identifier part
    → Stops is_identifier rest
    → Stops (λ c. c == mark) rest
    → optional mark (marked mark part ++ rest) ≡ some (part, rest)
optional-marked mark [] [] h stop other = refl
optional-marked mark [] (c ∷ rest) h stop other =
    ap (λ o. elim o [ none ↦ some ([], c ∷ rest) | some r ↦ some_of is_identifier r ])
      (after_other mark c rest other)
optional-marked mark (c ∷ part) rest h stop other =
    ap
      (λ o. elim o [
        | none ↦ some ([], marked mark (c ∷ part) ++ rest)
        | some r ↦ some_of is_identifier r
      ])
      (after_mark mark (c ∷ (part ++ rest)))
    ∙ some_of-Each is_identifier c part rest h stop

match_version_pieces :
    (s d1 r1 d2 r2 d3 r3 pre r4 build : Bytes)
    → number s ≡ some (d1, r1)
    → next_number r1 ≡ some (d2, r2)
    → next_number r2 ≡ some (d3, r3)
    → optional b'-' r3 ≡ some (pre, r4)
    → optional b'+' r4 ≡ some (build, [])
    → match_version s
      ≡ some (record {
        major = atoi d1;
        minor = atoi d2;
        patch = atoi d3;
        pre_release = pre;
        build = build;
        raw = s;
      })
unfolding match_version
match_version_pieces s d1 r1 d2 r2 d3 r3 pre r4 build e1 e2 e3 e4 e5 =
    rw (match_version, e1, e2, e3, e4, e5) refl

-- A version that ParseVersion may give.
pub record IsVersion (v : SemanticVersion) : Type 0 where
  pub major : (n : ℕ) × (v.major ≡ pos n) × (n < 2 ^ 63)
  pub minor : (n : ℕ) × (v.minor ≡ pos n) × (n < 2 ^ 63)
  pub patch : (n : ℕ) × (v.patch ≡ pos n) × (n < 2 ^ 63)
  pub pre_release : Each is_identifier v.pre_release
  pub build : Each is_identifier v.build

number_of :
    (z : ℤ) (rest : Bytes)
    → (n : ℕ) × (z ≡ pos n) × (n < 2 ^ 63)
    → Stops is_digit rest
    → number (decimal z ++ rest) ≡ some (decimal z, rest)
number_of z rest (n, is, h) stop =
    subst (λ y. number (decimal y ++ rest) ≡ some (decimal y, rest)) (sym is)
      (number-decimal n rest stop)

atoi-decimal_of : (z : ℤ) → (n : ℕ) × (z ≡ pos n) × (n < 2 ^ 63) → atoi (decimal z) ≡ z
atoi-decimal_of z (n, is, h) = subst (λ y. atoi (decimal y) ≡ y) (sym is) (atoi-decimal n h)

-- What comes after the patch does not go on with a digit, nor what comes after the pre-release with an
-- identifier.
Stops-marked :
    (class : ℕ → Bool) (mark : ℕ) (part rest : Bytes)
    → class mark ≡ false
    → Stops class rest
    → Stops class (marked mark part ++ rest)
Stops-marked class mark [] rest off stop = stop
Stops-marked class mark (c ∷ part) rest off stop = off

Stops-marked_last :
    (class : ℕ → Bool) (mark : ℕ) (part : Bytes)
    → class mark ≡ false
    → Stops class (marked mark part)
Stops-marked_last class mark [] off = tt
Stops-marked_last class mark (c ∷ part) off = off

optional-marked_last :
    (mark : ℕ) (part : Bytes)
    → Each is_identifier part
    → optional mark (marked mark part) ≡ some (part, [])
optional-marked_last mark part h =
    subst (λ s. optional mark s ≡ some (part, [])) (append-nil (marked mark part))
      (optional-marked mark part [] h tt tt)

next_number_of :
    (z : ℤ) (rest : Bytes)
    → (n : ℕ) × (z ≡ pos n) × (n < 2 ^ 63)
    → Stops is_digit rest
    → next_number (b'.' ∷ (decimal z ++ rest)) ≡ some (decimal z, rest)
next_number_of z rest h stop =
    ap (λ o. followed_by o number) (after_mark b'.' (decimal z ++ rest)) ∙ number_of z rest h stop

match_version-to_string :
    (v : SemanticVersion)
    → IsVersion v
    → match_version (to_string v) ≡ some (record v { raw = to_string v })
unfolding to_string
match_version-to_string v h =
    let build = marked b'+' v.build in
    let after_patch = marked b'-' v.pre_release ++ build in
    let after_minor = b'.' ∷ (decimal v.patch ++ after_patch) in
    let after_major = b'.' ∷ (decimal v.minor ++ after_minor) in
    match_version_pieces (to_string v) (decimal v.major) after_major (decimal v.minor) after_minor
      (decimal v.patch) after_patch v.pre_release build v.build
      (number_of v.major after_major h.major refl) (next_number_of v.minor after_minor h.minor refl)
      (next_number_of v.patch after_patch h.patch (
        Stops-marked is_digit b'-' v.pre_release build refl
          (Stops-marked_last is_digit b'+' v.build refl)))
      (optional-marked b'-' v.pre_release build h.pre_release
        (Stops-marked_last is_identifier b'+' v.build refl)
        (Stops-marked_last (λ c. c == b'-') b'+' v.build refl))
      (optional-marked_last b'+' v.build h.build)
    ∙ rw
        (
          atoi-decimal_of v.major h.major,
          atoi-decimal_of v.minor h.minor,
          atoi-decimal_of v.patch h.patch,
        )
        refl

trim_v-digit : (c : ℕ) (s : Bytes) → is_digit c ≡ true → trim_v (c ∷ s) ≡ c ∷ s
trim_v-digit c s h = ground (arith, h)

decimal_starts :
    (z : ℤ)
    → (n : ℕ) × (z ≡ pos n) × (n < 2 ^ 63)
    → (c : ℕ) × (s : Bytes) × (decimal z ≡ c ∷ s) × (is_digit c ≡ true)
unfolding decimal
decimal_starts z (n, is, h) =
    let (c, s, starts) = digits_not_nil 19 n in
    (c, s, ap decimal is ∙ starts, (subst (Each is_digit) starts (digits-is_digit 20 n)).0)

parse_version_of :
    (s : Bytes) (c : ℕ) (rest : Bytes) (v : SemanticVersion)
    → s ≡ c ∷ rest
    → is_digit c ≡ true
    → match_version s ≡ some v
    → parse_version s ≡ ok v
unfolding parse_version
parse_version_of s c rest v starts digit matches =
    ap parse_version starts
    ∙ ap (λ t. elim (match_version t) [ none ↦ err invalid_format | some w ↦ ok w ])
        (trim_v-digit c rest digit ∙ sym starts)
    ∙ rw matches refl

-- Where the numbers are from 0 to 2 ^ 63 - 1, and the pre-release and the build are of letters, digits
-- and hyphens, or empty: ParseVersion reads a printed version back, with the text as its raw form.
pub parse_version-to_string :
    (v : SemanticVersion)
    → IsVersion v
    → parse_version (to_string v) ≡ ok (record v { raw = to_string v })
unfolding to_string
parse_version-to_string v h =
    let (c, s, starts, digit) = decimal_starts v.major h.major in
    let rest =
      b'.'
      ∷ (decimal v.minor
          ++ (b'.' ∷ (decimal v.patch ++ (marked b'-' v.pre_release ++ marked b'+' v.build)))) in
    parse_version_of (to_string v) c (s ++ rest) _ (ap (λ t. t ++ rest) starts) digit
      (match_version-to_string v h)
