-- ===== src/RateLimit/FixedWindow/Counted.antt =====
-- What the fixed window limiter keeps of one key, against the calls that it granted: the count of the
-- key's window, over one call.
use net_llm.Prelude.{
  ℕ, ◌+◌, ◌≤◌, ◌<◌, String, Bool, true, false, ◌&&◌, Option, none, some, List, [], ◌∷◌, ◌≡◌, refl,
  sym, subst, if◌then◌else◌, leb, str_eq, arith,
}
use net_llm.Prelude.Int.{ℤ, pos, pos_part, leb_ℤ, ◌+ℤ◌, parts-add, ext_ℤ, max_int, wrap_int}
use net_llm.RateLimit.FixedWindow.{FixedWindow}

-- A call: its time, key and number of requests, which is not negative.
pub record Call : Type 0 where
  pub at : ℕ
  pub key : String
  pub n : ℕ

-- The requests granted to a key at a time or later.
unfoldable pub granted_since : String → ℕ → List Call → ℕ
granted_since key t [] = 0
granted_since key t (c ∷ cs) =
    (if str_eq c.key key && leb t c.at then c.n else 0) + granted_since key t cs

abbrev pub Before : String → ℕ → List Call → Type 0
Before key t [] = Unit
Before key t (c ∷ cs) = (str_eq c.key key ≡ true → c.at < t) × Before key t cs

-- For one key: what it was granted in its window is counted and within the limit; what it was
-- granted at all precedes the end of that window, and the window has begun; the count is a number of at
-- most `most`.
abbrev pub KeyInv : ℕ → ℕ → ℕ → String → ℕ → List Call → Option FixedWindow → Type 0
KeyInv most limit size key t log none = Before key 0 log
KeyInv most limit size key t log (some w) =
    (w.start_time ≤ t)
    × (granted_since key w.start_time log ≤ pos_part w.count)
    × (granted_since key w.start_time log ≤ limit)
    × Before key (w.start_time + size) log
    × (w.count ≡ pos (pos_part w.count))
    × (pos_part w.count ≤ most)

Before-mono :
    (key : String) (s t : ℕ) (log : List Call) → s ≤ t → Before key s log → Before key t log
Before-mono key s t [] h b = tt
Before-mono key s t (c ∷ cs) h b = (λ e. omega (arith, b.0 e), Before-mono key s t cs h b.1)

granted_since-Before :
    (key : String) (t : ℕ) (log : List Call) → Before key t log → granted_since key t log ≡ 0
unfolding granted_since
granted_since-Before key t [] b = refl
granted_since-Before key t (c ∷ cs) b = ground (arith, granted_since-Before key t cs b.1, b.0)

-- A count and a number that are small enough are added without wrapping.
pub add-exact :
    (most n : ℕ) (count : ℤ)
    → most + most ≤ max_int
    → n ≤ most
    → count ≡ pos (pos_part count)
    → pos_part count ≤ most
    → wrap_int (count +ℤ pos n) ≡ pos (pos_part count + n)
unfolding wrap_int
add-exact most n count fits few is_pos small =
    subst (λ x. wrap_int (x +ℤ pos n) ≡ pos (pos_part count + n)) (sym is_pos)
      (rw sum (ground arith))
  where
    sum : pos (pos_part count) +ℤ pos n ≡ pos (pos_part count + n)
    sum = ext_ℤ _ _ (omega (arith, parts-add (pos (pos_part count)) (pos n)))

module _ (most limit size : ℕ) (key : String) (t : ℕ) (log : List Call) (c : Call) where
  abbrev logged : Bool → List Call
  logged ok = if ok then c ∷ log else log

  -- The key's window is absent or over at the time of the call.
  abbrev Over : Option FixedWindow → Type 0
  Over none = Unit
  Over (some w) = w.start_time + size ≤ c.at

  pub Before-call :
      (o : Option FixedWindow) → Over o → KeyInv most limit size key t log o → Before key c.at log
  Before-call none h inv = Before-mono key 0 c.at log (omega arith) inv
  Before-call (some w) h inv = Before-mono key (w.start_time + size) c.at log h inv.3

  pub other-KeyInv :
      (o : Option FixedWindow) (ok : Bool)
      → str_eq c.key key ≡ false
      → t ≤ c.at
      → KeyInv most limit size key t log o
      → KeyInv most limit size key c.at (logged ok) o
  unfolding granted_since
  other-KeyInv none ok ne later inv = ground arith
  other-KeyInv (some w) ok ne later inv = ground arith

  pub opened-KeyInv :
      0 < size
      → c.n ≤ most
      → str_eq c.key key ≡ true
      → Before key c.at log
      → KeyInv most limit size key c.at
          (logged (leb_ℤ (pos c.n) (pos limit)))
          (some (record { count = pos c.n; start_time = c.at }))
  unfolding granted_since
  opened-KeyInv some_size few same b = ground (
    arith,
    granted_since-Before key c.at log b,
    Before-mono key c.at (c.at + size) log (omega arith) b,
  )

  pub counted-KeyInv :
      (w : FixedWindow)
      → str_eq c.key key ≡ true
      → t ≤ c.at
      → c.at < w.start_time + size
      → pos_part w.count + c.n ≤ limit
      → limit ≤ most
      → KeyInv most limit size key t log (some w)
      → KeyInv most limit size key c.at
          (logged true)
          (some (record w { count = pos (pos_part w.count + c.n) }))
  unfolding granted_since
  counted-KeyInv w same later inside fits bound inv = ground arith
