-- ===== src/Scheduler/Order.antt =====
-- Requests leave by priority, and within a priority in the order in which they came.
use net_llm.Prelude.{
  ℕ, zero, suc, ◌≤◌, ◌<◌, true, false, Option, none, some, List, [], ◌∷◌, ◌≡◌, refl, sym, ap, ◌∙◌,
  if◌then◌else◌, arith, Bool-cases, ◌==◌, inl, inr,
}
use net_llm.Prelude.Int.{ℤ, pos, eqb_ℤ}
use net_llm.Scheduler.{
  InferenceRequest, ResourceScheduler, set_queue, dequeue, next_from, get_next_request,
}

-- The outcome of a search from priority `top` downwards.
abbrev pub Next : ℕ → ResourceScheduler → ResourceScheduler × Option InferenceRequest → Type 0
Next top s (s', none) = (s' ≡ s) × ((q : ℕ) → 0 < q → q ≤ top → s.priority_queues (pos q) ≡ [])
Next top s (s', some req) =
    (p : ℕ) × (0 < p)
    × (p ≤ top)
    × (s.priority_queues (pos p) ≡ req ∷ s'.priority_queues (pos p))
    × ((q : ℕ) → p < q → q ≤ top → s.priority_queues (pos q) ≡ [])
    × ((z : ℤ) → eqb_ℤ (pos p) z ≡ false → s'.priority_queues z ≡ s.priority_queues z)

-- A priority whose queue is empty is passed over.
Next-suc :
    (k : ℕ) (s : ResourceScheduler) (r : ResourceScheduler × Option InferenceRequest)
    → s.priority_queues (pos (suc k)) ≡ []
    → Next k s r
    → Next (suc k) s r
Next-suc k s (s', none) empty (same, h) = (
  same,
  λ q positive below. elim (Bool-cases (q == suc k)) [
    | inl top ↦
        let at : q ≡ suc k = ground (arith, top) in ap (λ n. s.priority_queues (pos n)) at ∙ empty
    | inr under ↦ h q positive (ground (arith, under))
  ],
)
Next-suc k s (s', some req) empty (p, positive, low, first, above, others) = (
  p,
  positive,
  omega arith,
  first,
  λ q over below. elim (Bool-cases (q == suc k)) [
    | inl top ↦
        let at : q ≡ suc k = ground (arith, top) in ap (λ n. s.priority_queues (pos n)) at ∙ empty
    | inr under ↦ above q over (ground (arith, under))
  ],
  others,
)

pub eqb_self : (a : ℤ) → eqb_ℤ a a ≡ true
eqb_self a = ground arith

dequeue-Next :
    (k : ℕ) (s : ResourceScheduler) (now : ℕ) (queue : List InferenceRequest)
    (lower : ResourceScheduler × Option InferenceRequest)
    → s.priority_queues (pos (suc k)) ≡ queue
    → Next k s lower
    → Next (suc k) s (dequeue s (pos (suc k)) now queue lower)
unfolding dequeue
dequeue-Next k s now [] lower e h = Next-suc k s lower e h
dequeue-Next k s now (req ∷ queue) lower e h =
    let here = pos (suc k) in
    let first : s.priority_queues here ≡ req ∷ set_queue here queue s.priority_queues here =
      e ∙ ap (λ c. req ∷ (if c then queue else s.priority_queues here)) (sym (eqb_self here)) in
    (
      suc k,
      omega arith,
      omega arith,
      first,
      λ q over below. absurd (omega arith),
      λ z other. ap (λ c. if c then queue else s.priority_queues z) other,
    )

next_from-Next : (k : ℕ) (s : ResourceScheduler) (now : ℕ) → Next k s (next_from k s now)
unfolding next_from
next_from-Next zero s now = (refl, λ q positive below. absurd (omega arith))
next_from-Next (suc k) s now =
    dequeue-Next k s now (s.priority_queues (pos (suc k))) (next_from k s now) refl
      (next_from-Next k s now)

-- Either GetNextRequest gives no request and changes nothing, and the queues of all priorities from 1
-- to 15 are empty; or it takes the first request of a queue of which all queues of higher priority
-- are empty, and leaves the other queues as they are.
pub get_next_request-Next : (s : ResourceScheduler) (now : ℕ) → Next 15 s (get_next_request s now)
unfolding get_next_request
get_next_request-Next s now = next_from-Next 15 s now
