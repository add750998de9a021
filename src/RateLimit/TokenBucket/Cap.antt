-- ===== src/RateLimit/TokenBucket/Cap.antt =====
-- The token bucket never holds more than its burst size.
use net_llm.Prelude.{ℕ, ◌-◌, false, List, [], ◌∷◌, ◌≡◌, inl, inr, Bool-cases, All, arith}
use net_llm.Prelude.Int.{ℤ, pos, negsuc, ◌≤ℤ◌}
use net_llm.RateLimit.TokenBucket.{Float64, TokenBucket, new, refilled, allow_n}

-- What IEEE 754 says of the operations: no number is above itself, and taking an integer that is not
-- negative from a number that is not above a bound leaves one that is not above it.
pub record IsIeee (F : Float64) : Type 1 where
  pub gt_irrefl : (a : F.Carrier) → F.gt a a ≡ false
  pub gt-sub :
      (a b : F.Carrier) (n : ℕ) → F.gt a b ≡ false → F.gt (F.sub a (F.of_int (pos n))) b ≡ false

-- A call, with its time, that asks for a number of requests that is not negative.
abbrev pub AsksNoLess : ℕ × ℤ → Type 0
AsksNoLess (now, n) = pos 0 ≤ℤ n

module _ (F : Float64) where
  abbrev pub IsCapped : TokenBucket F → Type 0
  IsCapped tb = F.gt tb.tokens (F.of_int tb.burst) ≡ false

  unfoldable pub run : TokenBucket F → List (ℕ × ℤ) → TokenBucket F
  run tb [] = tb
  run tb ((now, n) ∷ cs) = run (allow_n F tb n now).0 cs

module _ (F : Float64) (ieee : IsIeee F) where
  refilled_capped :
      (tb : TokenBucket F) (now : ℕ) → F.gt (refilled F tb now) (F.of_int tb.burst) ≡ false
  unfolding refilled
  refilled_capped tb now =
      let tokens = F.add tb.tokens (F.mul (F.seconds (now - tb.last_update)) tb.rate) in
      elim (Bool-cases (F.gt tokens (F.of_int tb.burst))) [
        | inl over ↦ rw over (ieee.gt_irrefl (F.of_int tb.burst))
        | inr within ↦ rw within within
      ]

  allow_n-IsCapped :
      (tb : TokenBucket F) (n : ℤ) (now : ℕ) → pos 0 ≤ℤ n → IsCapped F (allow_n F tb n now).0
  unfolding allow_n
  allow_n-IsCapped tb (negsuc n) now h = absurd (omega arith)
  allow_n-IsCapped tb (pos n) now h =
      elim (Bool-cases (F.ge (refilled F tb now) (F.of_int (pos n)))) [
        | inl enough ↦ rw enough (ieee.gt-sub _ _ n (refilled_capped tb now))
        | inr few ↦ rw few (refilled_capped tb now)
      ]

  run-IsCapped :
      (tb : TokenBucket F) (cs : List (ℕ × ℤ))
      → All AsksNoLess cs
      → IsCapped F tb
      → IsCapped F (run F tb cs)
  unfolding run
  run-IsCapped tb [] ok h = h
  run-IsCapped tb ((now, n) ∷ cs) ok h =
      run-IsCapped (allow_n F tb n now).0 cs ok.1 (allow_n-IsCapped tb n now ok.0)

  -- For IEEE numbers: after any calls, at any times, of which none asks for a negative number of
  -- requests, a bucket that was created full is not above its burst size.
  pub run-new-IsCapped :
      (rate : F.Carrier) (burst : ℤ) (start : ℕ) (cs : List (ℕ × ℤ))
      → All AsksNoLess cs
      → IsCapped F (run F (new F rate burst start) cs)
  unfolding new
  run-new-IsCapped rate burst start cs ok =
      run-IsCapped (new F rate burst start) cs ok (ieee.gt_irrefl (F.of_int burst))
