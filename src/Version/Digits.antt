-- ===== src/Version/Digits.antt =====
-- Printed numbers, and the longest part of a text in a class.
use net_llm.Prelude.{
  ℕ, zero, suc, ◌+◌, ◌-◌, ◌*◌, ◌/◌, ◌%◌, ◌^◌, ◌<◌, Bool, true, false, [], ◌∷◌, ◌++◌, ◌≡◌, refl, sym,
  ap, subst, ◌∙◌, ltb, All, Bool-cases, inl, inr, arith,
}
use net_llm.Prelude.Int.{pos}
use net_llm.Version.Semantic.{Bytes, digits, decimal}
use net_llm.Version.Parse.{is_digit, span, value_onto, atoi}

abbrev pow10 : ℕ → ℕ
pow10 zero = 1
pow10 (suc k) = pow10 k * 10

abbrev pub Each : (ℕ → Bool) → Bytes → Type 0
Each class s = All (λ c. class c ≡ true) s

-- The text is over, or goes on with a character that is not in the class.
abbrev pub Stops : (ℕ → Bool) → Bytes → Type 0
Stops class [] = Unit
Stops class (c ∷ s) = class c ≡ false

Each-append : (class : ℕ → Bool) (s t : Bytes) → Each class s → Each class t → Each class (s ++ t)
Each-append class [] t h k = k
Each-append class (c ∷ s) t (here, h) k = (here, Each-append class s t h k)

digits_small : (k n : ℕ) → ltb n 10 ≡ true → digits (suc k) n ≡ (b'0' + n) ∷ []
unfolding digits
digits_small k n small = rw (digits, small) refl

digits_large :
    (k n : ℕ) → ltb n 10 ≡ false → digits (suc k) n ≡ digits k (n / 10) ++ ((b'0' + n % 10) ∷ [])
unfolding digits
digits_large k n large = rw (digits, large) refl

is_digit_of : (n : ℕ) → n < 10 → is_digit (b'0' + n) ≡ true
is_digit_of n h = ground (arith, h)

pub digits-is_digit : (k n : ℕ) → Each is_digit (digits k n)
unfolding digits
digits-is_digit zero n = tt
digits-is_digit (suc k) n = elim (Bool-cases (ltb n 10)) [
  | inl small ↦
      subst (Each is_digit) (sym (digits_small k n small))
        (is_digit_of n (ground (arith, small)), tt)
  | inr large ↦ subst (Each is_digit) (sym (digits_large k n large)) (
      Each-append is_digit (digits k (n / 10)) _ (digits-is_digit k (n / 10))
        (is_digit_of (n % 10) (omega arith), tt))
]

append_not_nil : (s : Bytes) (c : ℕ) → (d : ℕ) × (t : Bytes) × (s ++ (c ∷ []) ≡ d ∷ t)
append_not_nil [] c = (c, [], refl)
append_not_nil (d ∷ s) c = (d, s ++ (c ∷ []), refl)

pub digits_not_nil : (k n : ℕ) → (d : ℕ) × (t : Bytes) × (digits (suc k) n ≡ d ∷ t)
digits_not_nil k n = elim (Bool-cases (ltb n 10)) [
  | inl small ↦ (b'0' + n, [], digits_small k n small)
  | inr large ↦
      let (d, t, is) = append_not_nil (digits k (n / 10)) (b'0' + n % 10) in
      (d, t, digits_large k n large ∙ is)
]

value-append : (n : ℕ) (s t : Bytes) → value_onto n (s ++ t) ≡ value_onto (value_onto n s) t
value-append n [] t = refl
value-append n (c ∷ s) t = value-append (n * 10 + (c - b'0')) s t

value-digits : (k n : ℕ) → n < pow10 k → value_onto 0 (digits k n) ≡ n
unfolding digits
value-digits zero n h = omega arith
value-digits (suc k) n h = elim (Bool-cases (ltb n 10)) [
  | inl small ↦ ap (value_onto 0) (digits_small k n small) ∙ omega arith
  | inr large ↦
      let rest = value-digits k (n / 10) (omega arith) in
      ap (value_onto 0) (digits_large k n large)
      ∙ value-append 0 (digits k (n / 10)) ((b'0' + n % 10) ∷ [])
      ∙ ap (λ m. m * 10 + ((b'0' + n % 10) - b'0')) rest
      ∙ omega arith
]

atoi_value : (s : Bytes) (n : ℕ) → value_onto 0 s ≡ n → n < 2 ^ 63 → atoi s ≡ pos n
unfolding atoi
atoi_value s n is h =
    let fits : ltb (value_onto 0 s) (2 ^ 63) ≡ true = ground (arith, is, h) in
    rw (atoi, fits) (ap pos is)

pub atoi-decimal : (n : ℕ) → n < 2 ^ 63 → atoi (decimal (pos n)) ≡ pos n
unfolding decimal
atoi-decimal n h = atoi_value (digits 20 n) n (value-digits 20 n (omega (arith, h))) h

pub span-Each :
    (class : ℕ → Bool) (s rest : Bytes)
    → Each class s
    → Stops class rest
    → span class (s ++ rest) ≡ (s, rest)
span-Each class [] [] h stop = refl
span-Each class [] (c ∷ rest) h stop = rw stop refl
span-Each class (c ∷ s) rest (here, h) stop = rw (here, span-Each class s rest h stop) refl
