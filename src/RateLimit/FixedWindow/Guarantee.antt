-- ===== src/RateLimit/FixedWindow/Guarantee.antt =====
-- What the fixed window limiter promises to a key over any history of calls that ask for numbers which
-- are not negative and whose sums do not wrap.
use net_llm.Prelude.{
  ℕ, ◌+◌, ◌≤◌, ◌<◌, String, Bool, true, false, Option, none, some, List, [], ◌∷◌, ◌≡◌, refl, sym,
  subst, ◌∙◌, if◌then◌else◌, str_eq, eq_iff, arith, inl, inr, leb→le, not_leb→lt, not_ltb→le,
  Bool-cases, All,
}
use net_llm.Prelude.Int.{ℤ, pos, pos_part, ltb_ℤ, leb_ℤ, ◌+ℤ◌, max_int, wrap_int}
use text.Mathlib.TextPositions.{eq_refl}
use net_llm.Prelude.Dict.{lookup, lookup-insert, lookup-insert_self}
use net_llm.RateLimit.FixedWindow.{
  FixedWindow, FixedWindowRateLimiter, new, is_over, admit, allow_n,
}
use net_llm.RateLimit.FixedWindow.Counted.{
  Call, granted_since, Before, KeyInv, add-exact, Before-call, other-KeyInv, opened-KeyInv,
  counted-KeyInv,
}

-- A limiter with the calls that it granted, newest first.
pub record History : Type 0 where
  pub limiter : FixedWindowRateLimiter
  pub granted : List Call

unfoldable pub serve : History → Call → History
serve h c =
    let r = allow_n h.limiter c.key (pos c.n) c.at in
    record { limiter = r.0; granted = if r.1 then c ∷ h.granted else h.granted }

unfoldable pub serve_all : History → List Call → History
serve_all h [] = h
serve_all h (c ∷ cs) = serve_all (serve h c) cs

-- The clock does not run backwards.
abbrev pub Ordered : ℕ → List Call → Type 0
Ordered t [] = Unit
Ordered t (c ∷ cs) = (t ≤ c.at) × Ordered c.at cs

-- No number asked for is larger than `most`.
abbrev pub AsksAtMost : ℕ → Call → Type 0
AsksAtMost most c = c.n ≤ most

abbrev KeyState : ℕ → History → String → ℕ → Type 0
KeyState most h key t =
    KeyInv most h.limiter.limit h.limiter.window_size key t h.granted (lookup key h.limiter.windows)

abbrev after : History → Call → FixedWindowRateLimiter × Bool → History
after h c r = record { limiter = r.0; granted = if r.1 then c ∷ h.granted else h.granted }

-- What the bound asks of a limiter: its windows are not empty, and twice `most` is an `int`, which its
-- limit is within.
pub record Fits (most : ℕ) (limit size : ℕ) : Type 0 where
  pub some_size : 0 < size
  pub no_wrap : most + most ≤ max_int
  pub bound : limit ≤ most

module _ (most : ℕ) (h : History) (c : Call) (t : ℕ) (later : t ≤ c.at) (few : c.n ≤ most)
    (fit : Fits most h.limiter.limit h.limiter.window_size) where
  abbrev SelfState : Option FixedWindow → Type 0
  SelfState = KeyInv most h.limiter.limit h.limiter.window_size c.key t h.granted

  opened_self :
      Before c.key c.at h.granted
      → KeyState most (after h c (admit h.limiter c.key (pos c.n) c.at none)) c.key c.at
  unfolding admit
  opened_self b = rw lookup-insert_self (
      opened-KeyInv most h.limiter.limit h.limiter.window_size c.key t h.granted c fit.some_size few
        (eq_refl c.key) b)

  within_limit :
      (w : FixedWindow)
      → ltb_ℤ (pos h.limiter.limit) (wrap_int (w.count +ℤ pos c.n)) ≡ false
      → w.count ≡ pos (pos_part w.count)
      → pos_part w.count ≤ most
      → pos_part w.count + c.n ≤ h.limiter.limit
  within_limit w fits is_pos small =
      let sum = add-exact most c.n w.count fit.no_wrap few is_pos small in
      let fits' = subst (λ x. ltb_ℤ (pos h.limiter.limit) x ≡ false) sum fits in
      omega (arith, not_ltb→le _ _ fits')

  admit_self :
      (o : Option FixedWindow)
      → lookup c.key h.limiter.windows ≡ o
      → SelfState o
      → KeyState most (after h c (admit h.limiter c.key (pos c.n) c.at o)) c.key c.at
  unfolding admit
  admit_self none e inv =
      opened_self
        (Before-call most h.limiter.limit h.limiter.window_size c.key t h.granted c none tt inv)
  admit_self (some w) e inv = elim (Bool-cases (is_over h.limiter w c.at)) [
    | inl over ↦
        rw (over, admit)
          (opened_self (
            Before-call most h.limiter.limit h.limiter.window_size c.key t h.granted c (some w)
              (leb→le _ _ over) inv))
    | inr within ↦ elim (Bool-cases (ltb_ℤ (pos h.limiter.limit) (wrap_int (w.count +ℤ pos c.n)))) [
      | inl full ↦
          rw (within, admit)
            (rw full (rw e (omega (arith, inv), inv.1, inv.2, inv.3, inv.4, inv.5)))
      | inr fits ↦
          rw (within, admit)
            (rw fits (
              rw (lookup-insert_self, add-exact most c.n w.count fit.no_wrap few inv.4 inv.5)
                (counted-KeyInv most h.limiter.limit h.limiter.window_size c.key t h.granted c w
                  (eq_refl c.key) later (not_leb→lt _ _ within) (within_limit w fits inv.4 inv.5)
                  fit.bound inv)))
    ]
  ]

  kept :
      (key : String) (ok : Bool)
      → str_eq c.key key ≡ false
      → KeyState most h key t
      → KeyInv most h.limiter.limit h.limiter.window_size key c.at
          (if ok then c ∷ h.granted else h.granted)
          (lookup key h.limiter.windows)
  kept key ok ne inv =
      other-KeyInv most h.limiter.limit h.limiter.window_size key t h.granted c
        (lookup key h.limiter.windows) ok ne later inv

  admit_other :
      (key : String) (o : Option FixedWindow)
      → str_eq c.key key ≡ false
      → KeyState most h key t
      → KeyState most (after h c (admit h.limiter c.key (pos c.n) c.at o)) key c.at
  unfolding admit
  admit_other key none ne inv =
      rw (lookup-insert, ne) (kept key (leb_ℤ (pos c.n) (pos h.limiter.limit)) ne inv)
  admit_other key (some w) ne inv = elim (Bool-cases (is_over h.limiter w c.at)) [
    | inl over ↦
        rw (over, admit)
          (rw (lookup-insert, ne) (kept key (leb_ℤ (pos c.n) (pos h.limiter.limit)) ne inv))
    | inr within ↦ elim (Bool-cases (ltb_ℤ (pos h.limiter.limit) (wrap_int (w.count +ℤ pos c.n)))) [
      | inl full ↦ rw (within, admit) (rw full (kept key false ne inv))
      | inr fits ↦ rw (within, admit) (rw fits (rw (lookup-insert, ne) (kept key true ne inv)))
    ]
  ]

  serve-KeyState : (key : String) → KeyState most h key t → KeyState most (serve h c) key c.at
  unfolding serve allow_n
  serve-KeyState key inv = elim (Bool-cases (str_eq c.key key)) [
    | inl same ↦
        subst (λ k. KeyState most (serve h c) k c.at) ((eq_iff c.key key).0 same)
          (admit_self (lookup c.key h.limiter.windows) refl
            (subst (λ k. KeyState most h k t) (sym ((eq_iff c.key key).0 same)) inv))
    | inr ne ↦ admit_other key (lookup c.key h.limiter.windows) ne inv
  ]

admit_config :
    (rl : FixedWindowRateLimiter) (key : String) (n : ℤ) (now : ℕ) (o : Option FixedWindow)
    → ((admit rl key n now o).0.window_size ≡ rl.window_size)
      × ((admit rl key n now o).0.limit ≡ rl.limit)
unfolding admit
admit_config rl key n now none = (refl, refl)
admit_config rl key n now (some w) = (ground arith, ground arith)

module _ (most limit size : ℕ) (fit : Fits most limit size) (key : String) where
  abbrev StateOf : History → ℕ → Type 0
  StateOf h t = KeyInv most limit size key t h.granted (lookup key h.limiter.windows)

  serve_all-StateOf :
      (h : History) (t : ℕ) (cs : List Call)
      → h.limiter.window_size ≡ size
      → h.limiter.limit ≡ limit
      → Ordered t cs
      → All (AsksAtMost most) cs
      → StateOf h t
      → (t' : ℕ) × StateOf (serve_all h cs) t'
  unfolding serve_all serve admit allow_n
  serve_all-StateOf h t [] es el ord few inv = (t, inv)
  serve_all-StateOf h t (c ∷ cs) es el ord few inv =
      serve_all-StateOf (serve h c) c.at cs (same.0 ∙ es) (same.1 ∙ el) ord.1 few.1 (
        rw (← (same.0 ∙ es), ← (same.1 ∙ el))
          (serve-KeyState most h c t ord.0 few.0 (rw (es, el) fit) key (rw (es, el) inv)))
    where
      same :
          ((serve h c).limiter.window_size ≡ h.limiter.window_size)
          × ((serve h c).limiter.limit ≡ h.limiter.limit)
      same = admit_config h.limiter c.key (pos c.n) c.at (lookup c.key h.limiter.windows)

unfoldable pub started : ℕ → ℕ → History
unfolding new
started limit size = record { limiter = new limit size; granted = [] }

-- Over any calls, on any keys, at times that do not run backwards, for a window size that is not 0, and
-- where no call asks for a negative number, the limit and what each call asks for are at most some
-- `most`, and the sum of `most` and itself is an `int`: the requests granted to a key since its current
-- window began are at most the limit.
pub window_bound :
    (most limit size : ℕ) (cs : List Call) (key : String) (w : FixedWindow)
    → Fits most limit size
    → Ordered 0 cs
    → All (AsksAtMost most) cs
    → lookup key (serve_all (started limit size) cs).limiter.windows ≡ some w
    → granted_since key w.start_time (serve_all (started limit size) cs).granted ≤ limit
unfolding started
window_bound most limit size cs key w fit ord few e =
    let (t, inv) =
      serve_all-StateOf most limit size fit key (started limit size) 0 cs refl refl ord few tt in
    (subst (λ o. KeyInv most limit size key t (serve_all (started limit size) cs).granted o) e
      inv).2
