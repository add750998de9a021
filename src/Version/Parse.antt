-- ===== src/Version/Parse.antt =====
-- ParseVersion. The regular expression is read as the one way in which it can match: no two of its
-- parts next to each other share a character.
use net_llm.Prelude.{
  ℕ, ◌+◌, ◌-◌, ◌*◌, ◌^◌, Bool, ◌||◌, ◌&&◌, Option, none, some, [], ◌∷◌, if◌then◌else◌, ltb, leb,
  ◌==◌,
}
use net_llm.Prelude.Int.{ℤ, pos}
use net_llm.Version.Semantic.{Bytes, SemanticVersion}

pub data Error : Type 0 where
  empty_version invalid_format : Error

pub data Result {ℓ} (A : Type ℓ) : Type ℓ where
  ok : A → Result A
  err : Error → Result A

-- `\d`.
abbrev pub is_digit : ℕ → Bool
is_digit c = leb b'0' c && leb c b'9'

-- `[a-zA-Z0-9-]`.
abbrev pub is_identifier : ℕ → Bool
is_identifier c =
    (leb b'a' c && leb c b'z') || ((leb b'A' c && leb c b'Z') || (is_digit c || c == b'-'))

-- The longest part in a class, and the rest.
abbrev pub span : (ℕ → Bool) → Bytes → Bytes × Bytes
span class [] = ([], [])
span class (c ∷ s) =
    let rest = span class s in if class c then (c ∷ rest.0, rest.1) else ([], c ∷ s)

-- One part or more.
abbrev pub some_of : (ℕ → Bool) → Bytes → Option (Bytes × Bytes)
some_of class s =
    let (part, rest) = span class s in elim part [ [] ↦ none | c ∷ cs ↦ some (c ∷ cs, rest) ]

-- A character, and what comes after it.
abbrev pub after : ℕ → Bytes → Option Bytes
after mark [] = none
after mark (c ∷ s) = if c == mark then some s else none

-- A mark and a part, or nothing.
abbrev pub optional : ℕ → Bytes → Option (Bytes × Bytes)
optional mark s = elim (after mark s) [
  | none ↦ some ([], s)
  | some rest ↦ some_of is_identifier rest
]

abbrev pub followed_by : {A B : Type 0} → Option A → (A → Option B) → Option B
followed_by none f = none
followed_by (some a) f = f a

abbrev pub value_onto : ℕ → Bytes → ℕ
value_onto n [] = n
value_onto n (c ∷ s) = value_onto (n * 10 + (c - b'0')) s

-- `strconv.Atoi`, whose error is not looked at: a number out of range is the greatest one.
unfoldable pub atoi : Bytes → ℤ
atoi s = let n = value_onto 0 s in if ltb n (2 ^ 63) then pos n else pos (2 ^ 63 - 1)

abbrev pub trim_v : Bytes → Bytes
trim_v [] = []
trim_v (c ∷ s) = if c == b'v' then s else c ∷ s

-- A number, and the rest.
abbrev pub number : Bytes → Option (Bytes × Bytes)
number s = some_of is_digit s

-- A number after a point.
abbrev pub next_number : Bytes → Option (Bytes × Bytes)
next_number s = followed_by (after b'.' s) number

abbrev pub at_end : SemanticVersion × Bytes → Option SemanticVersion
at_end (v, []) = some v
at_end (v, c ∷ s) = none

-- `FindStringSubmatch`, and the version of its five parts.
unfoldable pub match_version : Bytes → Option SemanticVersion
unfolding atoi
match_version s = followed_by (number s) (λ major. followed_by (next_number major.1) (λ minor.
    followed_by (next_number minor.1) (λ patch. followed_by (optional b'-' patch.1) (λ pre.
      followed_by (optional b'+' pre.1) (λ build. at_end (
        record {
          major = atoi major.0;
          minor = atoi minor.0;
          patch = atoi patch.0;
          pre_release = pre.0;
          build = build.0;
          raw = s;
        },
        build.1,
      ))))))

unfoldable pub parse_version : Bytes → Result SemanticVersion
unfolding match_version
parse_version [] = err empty_version
parse_version (c ∷ s) = elim (match_version (trim_v (c ∷ s))) [
  | none ↦ err invalid_format
  | some v ↦ ok v
]
