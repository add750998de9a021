-- ===== src/Version/Semantic.antt =====
-- The methods of SemanticVersion. A text is the list of its bytes; an `int` has 64 bits.
use net_llm.Prelude.{
  ℕ, zero, suc, ◌+◌, ◌-◌, ◌/◌, ◌%◌, ◌^◌, Bool, true, false, List, [], ◌∷◌, ◌++◌, if◌then◌else◌, ltb,
  ◌==◌,
}
use net_llm.Prelude.Int.{ℤ, pos, negsuc, ltb_ℤ, eqb_ℤ}

abbrev pub Bytes : Type 0
Bytes = List ℕ

pub record SemanticVersion : Type 0 where
  pub major : ℤ
  pub minor : ℤ
  pub patch : ℤ
  pub pre_release : Bytes
  pub build : Bytes
  pub raw : Bytes

-- The order of Go on strings, by bytes.
abbrev pub ltb_bytes : Bytes → Bytes → Bool
ltb_bytes [] [] = false
ltb_bytes [] (d ∷ t) = true
ltb_bytes (c ∷ s) [] = false
ltb_bytes (c ∷ s) (d ∷ t) = let rest = ltb_bytes s t in if c == d then rest else ltb c d

abbrev pub eqb_bytes : Bytes → Bytes → Bool
eqb_bytes [] [] = true
eqb_bytes [] (d ∷ t) = false
eqb_bytes (c ∷ s) [] = false
eqb_bytes (c ∷ s) (d ∷ t) = let rest = eqb_bytes s t in if c == d then rest else false

-- The end of `Compare`, for two pre-releases.
unfoldable pub compare_pre_release : Bytes → Bytes → ℤ
compare_pre_release p q =
    if eqb_bytes p q
    then pos 0
    else if eqb_bytes p []
    then pos 1
    else if eqb_bytes q []
    then negsuc 0
    else if ltb_bytes q p
    then pos 1
    else negsuc 0

abbrev pub compare_int : ℤ → ℤ → ℤ → ℤ
compare_int a b rest = if eqb_ℤ a b then rest else if ltb_ℤ b a then pos 1 else negsuc 0

unfoldable pub compare : SemanticVersion → SemanticVersion → ℤ
unfolding compare_pre_release
compare v other = compare_int v.major other.major (
    compare_int v.minor other.minor
      (compare_int v.patch other.patch (compare_pre_release v.pre_release other.pre_release)))

unfoldable pub is_greater_than : SemanticVersion → SemanticVersion → Bool
unfolding compare
is_greater_than v other = ltb_ℤ (pos 0) (compare v other)

unfoldable pub is_less_than : SemanticVersion → SemanticVersion → Bool
unfolding compare
is_less_than v other = ltb_ℤ (compare v other) (pos 0)

unfoldable pub is_equal : SemanticVersion → SemanticVersion → Bool
unfolding compare
is_equal v other = eqb_ℤ (compare v other) (pos 0)

-- `+ 1` wraps.
unfoldable pub next_int : ℤ → ℤ
next_int (pos n) = if n == 2 ^ 63 - 1 then negsuc (2 ^ 63 - 1) else pos (suc n)
next_int (negsuc zero) = pos 0
next_int (negsuc (suc n)) = negsuc n

unfoldable pub increment_major : SemanticVersion → SemanticVersion
unfolding next_int
increment_major v = record {
  major = next_int v.major;
  minor = pos 0;
  patch = pos 0;
  pre_release = [];
  build = [];
  raw = [];
}

unfoldable pub increment_minor : SemanticVersion → SemanticVersion
unfolding next_int
increment_minor v = record {
  major = v.major;
  minor = next_int v.minor;
  patch = pos 0;
  pre_release = [];
  build = [];
  raw = [];
}

unfoldable pub increment_patch : SemanticVersion → SemanticVersion
unfolding next_int
increment_patch v = record {
  major = v.major;
  minor = v.minor;
  patch = next_int v.patch;
  pre_release = [];
  build = [];
  raw = [];
}

-- The digits of a number, on fuel for one digit more than it has.
unfoldable pub digits : ℕ → ℕ → Bytes
digits zero n = []
digits (suc fuel) n = elim (ltb n 10) [
  | true ↦ (b'0' + n) ∷ []
  | false ↦ digits fuel (n / 10) ++ ((b'0' + n % 10) ∷ [])
]

-- `%d`. An `int` has at most 19 digits.
unfoldable pub decimal : ℤ → Bytes
unfolding digits
decimal (pos n) = digits 20 n
decimal (negsuc n) = b'-' ∷ digits 20 (suc n)

-- A part that is left out where it is empty.
abbrev pub marked : ℕ → Bytes → Bytes
marked mark part = if eqb_bytes part [] then [] else mark ∷ part

unfoldable pub to_string : SemanticVersion → Bytes
unfolding decimal
to_string v =
    decimal v.major
    ++ (b'.'
        ∷ (decimal v.minor
            ++ (b'.' ∷ (decimal v.patch ++ (marked b'-' v.pre_release ++ marked b'+' v.build)))))
