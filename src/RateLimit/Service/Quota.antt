-- ===== src/RateLimit/Service/Quota.antt =====
-- A registered name enforces its configuration: the service refines the sliding window limiter.
use net_llm.Prelude.{
  ℕ, ◌≤◌, String, Bool, true, false, ◌&&◌, none, some, List, [], ◌∷◌, ◌++◌, ◌≡◌, refl, sym, subst,
  ap, ◌∙◌, if◌then◌else◌, str_eq, eq_iff, arith, inl, inr, Bool-cases, Option-cases, replicate,
}
use net_llm.Prelude.Dict.{lookup, insert, lookup-insert, lookup-insert_self}
use net_llm.RateLimit.SlidingWindow.{SlidingWindowRateLimiter}
use net_llm.RateLimit.SlidingWindow
use net_llm.RateLimit.SlidingWindow.Guarantee.{
  Call, History, serve, serve_all, started, recent, Ordered, sliding_bound,
}
use net_llm.RateLimit.TokenBucket.{Float64}
use net_llm.RateLimit.Universal.{
  RateLimitConfig, UniversalRateLimiter, Result, ok, err, sliding_window,
}
use net_llm.RateLimit.Universal
use net_llm.RateLimit.Service.{RateLimitService, register_limiter, allow_n}

module _ (F : Float64) where
  -- A call on a registered sliding limiter is a call of that limiter.
  allow_n-sliding :
      (s : RateLimitService F) (name key : String) (n now : ℕ) (u : UniversalRateLimiter F)
      → lookup name s.limiters ≡ some u
      → u.typ ≡ sliding_window
      → allow_n F s name key n now
        ≡ some (
          record s {
            limiters =
                insert name
                  (record u { sliding = (SlidingWindow.allow_n u.sliding key n now).0 })
                  s.limiters;
          },
          (SlidingWindow.allow_n u.sliding key n now).1,
        )
  unfolding allow_n Universal.allow_n
  allow_n-sliding s name key n now u e t = ground arith

  -- A call on another name leaves the limiter alone.
  allow_n-other :
      (s s' : RateLimitService F) (name other key : String) (n now : ℕ) (granted : Bool)
      → str_eq other name ≡ false
      → allow_n F s other key n now ≡ some (s', granted)
      → lookup name s'.limiters ≡ lookup name s.limiters
  unfolding allow_n
  allow_n-other s s' name other key n now granted ne e =
      elim (Option-cases (lookup other s.limiters)) [
        | inl absent ↦ ground arith
        | inr (u, found) ↦ elim (Option-cases (Universal.allow_n F u key n now)) [
          | inl panic ↦ ground arith
          | inr (r, run) ↦ ground (arith, lookup-insert other name r.0 s.limiters)
        ]
      ]

  -- A call by name, and the service with the times of the requests granted to one key under one name.
  pub record NamedCall : Type 0 where
    pub name : String
    pub call : Call

  pub record State : Type 0 where
    pub service : RateLimitService F
    pub granted : List ℕ

  abbrev count_answer : String → String → State → NamedCall → RateLimitService F × Bool → State
  count_answer name key s c (service, granted) = record {
    service = service;
    granted =
        if str_eq c.name name && (str_eq c.call.key key && granted)
        then s.granted ++ replicate c.call.n c.call.at
        else s.granted;
  }

  -- A call that panics leaves the state as it was.
  unfoldable pub serve_named : String → String → State → NamedCall → State
  serve_named name key s c = elim (allow_n F s.service c.name c.call.key c.call.n c.call.at) [
    | none ↦ s
    | some r ↦ count_answer name key s c r
  ]

  unfoldable pub serve_all_named : String → String → State → List NamedCall → State
  serve_all_named name key s [] = s
  serve_all_named name key s (c ∷ cs) = serve_all_named name key (serve_named name key s c) cs

  -- The calls that go to one name.
  abbrev pub to_name : String → List NamedCall → List Call
  to_name name [] = []
  to_name name (c ∷ cs) =
      let rest = to_name name cs in if str_eq c.name name then c.call ∷ rest else rest

  module _ (name key : String) where
    abbrev Refines : State → History → Type 0
    Refines s h =
        (u : UniversalRateLimiter F) × (lookup name s.service.limiters ≡ some u)
        × (u.typ ≡ sliding_window)
        × (u.sliding ≡ h.limiter)
        × (s.granted ≡ h.granted)

    serve_self :
        (s : State) (h : History) (c : NamedCall)
        → str_eq c.name name ≡ true
        → Refines s h
        → Refines (serve_named name key s c) (serve key h c.call)
    unfolding serve_named serve
    serve_self s h c same (u, found, typ, sliding, granted) =
        let used =
          allow_n-sliding s.service c.name c.call.key c.call.n c.call.at u
            (subst (λ k. lookup k s.service.limiters ≡ some u) (sym ((eq_iff c.name name).0 same))
              found)
            typ in
        rw (used, serve_named)
          (rw same (
            record u {
              sliding = (SlidingWindow.allow_n u.sliding c.call.key c.call.n c.call.at).0;
            },
            rw (lookup-insert, same) refl,
            typ,
            ap (λ l. (SlidingWindow.allow_n l c.call.key c.call.n c.call.at).0) sliding,
            rw (sliding, granted) refl,
          ))

    serve_other :
        (s : State) (h : History) (c : NamedCall)
        → str_eq c.name name ≡ false
        → Refines s h
        → Refines (serve_named name key s c) h
    unfolding serve_named
    serve_other s h c ne (u, found, typ, sliding, granted) =
        elim (Option-cases (allow_n F s.service c.name c.call.key c.call.n c.call.at)) [
          | inl panic ↦ rw (panic, serve_named) (u, found, typ, sliding, granted)
          | inr ((s', b), e) ↦
              rw (e, serve_named)
                (rw ne (
                  u,
                  allow_n-other s.service s' name c.name c.call.key c.call.n c.call.at b ne e
                      ∙ found,
                  typ,
                  sliding,
                  granted,
                ))
        ]

    serve_all-Refines :
        (s : State) (h : History) (cs : List NamedCall)
        → Refines s h
        → Refines (serve_all_named name key s cs) (serve_all key h (to_name name cs))
    unfolding serve_all_named serve_all
    serve_all-Refines s h [] r = r
    serve_all-Refines s h (c ∷ cs) r = elim (Bool-cases (str_eq c.name name)) [
      | inl same ↦ rw same (
          serve_all-Refines (serve_named name key s c) (serve key h c.call) cs
            (serve_self s h c same r))
      | inr ne ↦ rw ne (serve_all-Refines (serve_named name key s c) h cs (serve_other s h c ne r))
    ]

  registered-Refines :
      (s s' : RateLimitService F) (name key : String) (config : RateLimitConfig F)
      → register_limiter F s name (some config) ≡ ok s'
      → Refines name key
          (record { service = s'; granted = [] })
          (started config.burst_size config.window_duration)
  unfolding register_limiter started Universal.new
  registered-Refines s s' name key config e =
      let u = Universal.bare F sliding_window config in
      (u, ground (arith, lookup-insert_self name u s.limiters), refl, refl, refl)

  -- Once a configuration is registered under a name, over any calls on any names and keys, where
  -- those on this name are at times that do not run backwards: at the time of the last of them and
  -- later, the requests granted to a key in the window that ends then are at most the burst size.
  pub service_quota :
      (s s' : RateLimitService F) (name key : String) (config : RateLimitConfig F)
      (cs : List NamedCall) (now : ℕ)
      → register_limiter F s name (some config) ≡ ok s'
      → Ordered 0 (to_name name cs) now
      → recent config.window_duration now
          (serve_all_named name key (record { service = s'; granted = [] }) cs).granted
        ≤ config.burst_size
  service_quota s s' name key config cs now e ord =
      let start : State = record { service = s'; granted = [] } in
      let (u, found, typ, sliding, granted) =
        serve_all-Refines name key start (started config.burst_size config.window_duration) cs
          (registered-Refines s s' name key config e) in
      rw granted
        (sliding_bound config.burst_size config.window_duration key (to_name name cs) now ord)
