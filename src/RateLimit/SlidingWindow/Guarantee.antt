-- ===== src/RateLimit/SlidingWindow/Guarantee.antt =====
-- What the sliding window limiter promises to a key over any history of calls.
use net_llm.Prelude.{
  ℕ, ◌+◌, ◌≤◌, String, Bool, true, ◌&&◌, List, [], ◌∷◌, ◌++◌, ◌≡◌, refl, sym, ap, ◌∙◌,
  if◌then◌else◌, ltb, str_eq, eq_iff, arith, inl, inr, Bool-cases, length, replicate, select,
  length-append, length-replicate, length-select-le, not_ltb→le,
}
use net_llm.Prelude.Dict.{lookup, lookup-insert}
use net_llm.RateLimit.SlidingWindow.{
  SlidingWindowRateLimiter, new, is_recent, timestamps_of, admit, allow_n,
}

-- How many of the times fall in the window that ends at `now`.
abbrev pub recent : ℕ → ℕ → List ℕ → ℕ
recent size now ts = length (select (is_recent size now) ts)

-- Dropping the times that are old at `now` hides none of those that are recent later.
recent-select :
    (size now later : ℕ) (ts : List ℕ)
    → now ≤ later
    → recent size later (select (is_recent size now) ts) ≡ recent size later ts
recent-select size now later [] h = refl
recent-select size now later (x ∷ ts) h = ground (arith, recent-select size now later ts h)

recent-append :
    (size now : ℕ) (xs ys : List ℕ)
    → recent size now (xs ++ ys) ≡ recent size now xs + recent size now ys
recent-append size now [] ys = omega arith
recent-append size now (x ∷ xs) ys = ground (arith, recent-append size now xs ys)

recent-le-length : (size now : ℕ) (xs : List ℕ) → recent size now xs ≤ length xs
recent-le-length size now [] = omega arith
recent-le-length size now (x ∷ xs) = ground (arith, recent-le-length size now xs)

pub record Call : Type 0 where
  pub at : ℕ
  pub key : String
  pub n : ℕ

-- A limiter, with the times of the requests that it granted to one key.
pub record History : Type 0 where
  pub limiter : SlidingWindowRateLimiter
  pub granted : List ℕ

abbrev after : String → History → Call → SlidingWindowRateLimiter × Bool → History
after key h c r = record {
  limiter = r.0;
  granted = if str_eq c.key key && r.1 then h.granted ++ replicate c.n c.at else h.granted;
}

unfoldable pub serve : String → History → Call → History
serve key h c = after key h c (allow_n h.limiter c.key c.n c.at)

unfoldable pub serve_all : String → History → List Call → History
serve_all key h [] = h
serve_all key h (c ∷ cs) = serve_all key (serve key h c) cs

-- The clock does not run backwards.
abbrev pub Ordered : ℕ → List Call → ℕ → Type 0
Ordered t [] now = t ≤ now
Ordered t (c ∷ cs) now = (t ≤ c.at) × Ordered c.at cs now

-- At every time from `t` on, the limiter knows as many recent grants as there are, and holds at most
-- the limit.
abbrev StateOf : ℕ → ℕ → String → ℕ → History → Type 0
StateOf limit size key t h =
    ((later : ℕ)
      → t ≤ later
      → recent size later (timestamps_of (lookup key h.limiter.windows))
        ≡ recent size later h.granted)
    × (length (timestamps_of (lookup key h.limiter.windows)) ≤ limit)
    × (h.limiter.limit ≡ limit)
    × (h.limiter.window_size ≡ size)

module _ (limit size : ℕ) (key : String) (t : ℕ) (h : History) (c : Call) (later : t ≤ c.at) where
  abbrev valid : List ℕ
  valid =
      select (is_recent h.limiter.window_size c.at) (timestamps_of (lookup c.key h.limiter.windows))

  valid-recent :
      StateOf limit size key t h
      → str_eq c.key key ≡ true
      → (now : ℕ) → c.at ≤ now
      → recent size now valid ≡ recent size now h.granted
  valid-recent inv same now q = rw (inv.3) (
      recent-select size c.at now (timestamps_of (lookup c.key h.limiter.windows)) q
      ∙ rw ((eq_iff c.key key).0 same) (inv.0 now (omega arith)))

  serve-StateOf : StateOf limit size key t h → StateOf limit size key c.at (serve key h c)
  unfolding serve allow_n admit
  serve-StateOf inv = elim (Bool-cases (str_eq c.key key)) [
    | inl same ↦ elim (Bool-cases (ltb h.limiter.limit (length valid + c.n))) [
      | inl full ↦
          rw (same, full)
            (rw (lookup-insert, same)
              (
                valid-recent inv same,
                omega (
                  arith,
                  length-select-le (is_recent h.limiter.window_size c.at)
                      (timestamps_of (lookup c.key h.limiter.windows)),
                  ap (λ k. length (timestamps_of (lookup k h.limiter.windows)))
                      ((eq_iff c.key key).0 same),
                  inv.1,
                ),
                inv.2,
                inv.3,
              ))
      | inr fits ↦
          rw (same, fits)
            (rw (lookup-insert, same)
              (
                (λ now q.
                    recent-append size now valid (replicate c.n c.at)
                    ∙ ap (λ k. k + recent size now (replicate c.n c.at))
                        (valid-recent inv same now q)
                    ∙ sym (recent-append size now h.granted (replicate c.n c.at))),
                omega (
                  arith,
                  length-append valid (replicate c.n c.at),
                  length-replicate c.n c.at,
                  not_ltb→le _ _ fits,
                  inv.2,
                ),
                inv.2,
                inv.3,
              ))
    ]
    | inr ne ↦ elim (Bool-cases (ltb h.limiter.limit (length valid + c.n))) [
      | inl full ↦
          rw (ne, full)
            (rw (lookup-insert, ne) ((λ now q. inv.0 now (omega arith)), inv.1, inv.2, inv.3))
      | inr fits ↦
          rw (ne, fits)
            (rw (lookup-insert, ne) ((λ now q. inv.0 now (omega arith)), inv.1, inv.2, inv.3))
    ]
  ]

serve_all-StateOf :
    (limit size : ℕ) (key : String) (t : ℕ) (h : History) (cs : List Call) (now : ℕ)
    → Ordered t cs now
    → StateOf limit size key t h
    → StateOf limit size key now (serve_all key h cs)
unfolding serve_all
serve_all-StateOf limit size key t h [] now ord inv =
    ((λ later q. inv.0 later (omega arith)), inv.1, inv.2, inv.3)
serve_all-StateOf limit size key t h (c ∷ cs) now ord inv =
    serve_all-StateOf limit size key c.at (serve key h c) cs now ord.1
      (serve-StateOf limit size key t h c ord.0 inv)

unfoldable pub started : ℕ → ℕ → History
unfolding new
started limit size = record { limiter = new limit size; granted = [] }

-- Over any calls, on any keys, at times that do not run backwards: at the time of the last call and
-- at any later time, the requests granted to a key in the window that ends then are at most the
-- limit.
pub sliding_bound :
    (limit size : ℕ) (key : String) (cs : List Call) (now : ℕ)
    → Ordered 0 cs now
    → recent size now (serve_all key (started limit size) cs).granted ≤ limit
unfolding started
sliding_bound limit size key cs now ord =
    let h = serve_all key (started limit size) cs in
    let kept = timestamps_of (lookup key h.limiter.windows) in
    let inv =
      serve_all-StateOf limit size key 0 (started limit size) cs now ord
        ((λ later q. refl), omega arith, refl, refl) in
    omega (arith, inv.0 now (omega arith), recent-le-length size now kept, inv.1)
