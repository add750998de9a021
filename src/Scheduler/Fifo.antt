-- ===== src/Scheduler/Fifo.antt =====
-- Histories: within a priority, requests leave in the order in which they came, and none is lost.
use mathlib.Core.List.{append_assoc, append-nil}
use net_llm.Prelude.{
  ℕ, String, Option, none, some, List, [], ◌∷◌, ◌++◌, ◌≡◌, sym, ap, subst, ◌∙◌, if◌then◌else◌,
  if_cases, All, Bool-cases, inl, inr,
}
use net_llm.Prelude.Int.{ℤ, pos, eqb_ℤ, eqb-eq}
use net_llm.Scheduler.{
  InferenceRequest, ResourceScheduler, set_queue, is_invalid, queue_request, get_next_request,
  complete_request,
}
use net_llm.Gpu.{ResourceAllocation}
use net_llm.Scheduler.Resources.{ModelInstance, ResourceQuota, track, untrack}
use net_llm.Scheduler.Allocate.{Sort, select_instance, set_resource_quota}
use net_llm.Scheduler.Untouched.{select_instance-queues, set_resource_quota-queues}
use net_llm.Scheduler.Order.{Next, get_next_request-Next}

-- A call, with the time at which it is made. Of AllocateResources, where it succeeds, and of
-- ReleaseResources it is what they do to the scheduler.
pub data Call : Type 0 where
  queues : InferenceRequest → ℕ → Call
  takes : ℕ → Call
  completes : InferenceRequest → Option String → ℕ → Call
  tracks : ResourceAllocation → ℕ → Call
  untracks : ResourceAllocation → ℕ → Call
  selects : String → List ModelInstance → Sort → Call
  limits : String → ResourceQuota → Call

unfoldable pub step : ResourceScheduler → Call → ResourceScheduler
step s (queues req now) = (queue_request s req now).0
step s (takes now) = (get_next_request s now).0
step s (completes req error now) = complete_request s req error now
step s (tracks a now) = track s a now
step s (untracks a now) = untrack s a now
step s (selects model_id instances sort) = (select_instance s model_id instances sort).0
step s (limits id quota) = (set_resource_quota s id quota).0

unfoldable pub run : ResourceScheduler → List Call → ResourceScheduler
run s [] = s
run s (x ∷ xs) = run (step s x) xs

abbrev pub of_priority : ℤ → Option InferenceRequest → List InferenceRequest
of_priority z none = []
of_priority z (some req) = if eqb_ℤ req.priority z then req ∷ [] else []

-- The requests of a priority that a history took out.
unfoldable pub taken : ℤ → ResourceScheduler → List Call → List InferenceRequest
taken z s [] = []
taken z s (queues req now ∷ xs) = taken z (step s (queues req now)) xs
taken z s (takes now ∷ xs) =
    of_priority z (get_next_request s now).1 ++ taken z (step s (takes now)) xs
taken z s (x ∷ xs) = taken z (step s x) xs

-- The valid requests of a priority that a history put in.
abbrev pub put_in : ℤ → List Call → List InferenceRequest
put_in z [] = []
put_in z (queues req now ∷ xs) =
    (if is_invalid req then [] else of_priority z (some req)) ++ put_in z xs
put_in z (_ ∷ xs) = put_in z xs

-- Each request stands in the queue of its own priority.
abbrev pub IsPlaced : ResourceScheduler → Type 0
IsPlaced s = (z : ℤ) → All (λ req. req.priority ≡ z) (s.priority_queues z)

-- What one call does to the queue of a priority: `out` leaves in front, `new` comes in at the end.
abbrev Moves :
    ℤ
    → ResourceScheduler
    → ResourceScheduler
    → List InferenceRequest
    → List InferenceRequest
    → Type 0
Moves z s s' out new = out ++ s'.priority_queues z ≡ s.priority_queues z ++ new

grown_queue :
    (p z : ℤ) (req : InferenceRequest) (qs : ℤ → List InferenceRequest)
    → set_queue p (qs p ++ (req ∷ [])) qs z ≡ qs z ++ (if eqb_ℤ p z then req ∷ [] else [])
grown_queue p z req qs = elim (Bool-cases (eqb_ℤ p z)) [
  | inl here ↦ rw here (ap (λ w. qs w ++ (req ∷ [])) (eqb-eq p z here))
  | inr there ↦ rw there (sym (append-nil (qs z)))
]

queue_request-Moves :
    (z : ℤ) (s : ResourceScheduler) (req : InferenceRequest) (now : ℕ)
    → Moves z s
        (queue_request s req now).0
        []
        (if is_invalid req then [] else of_priority z (some req))
unfolding queue_request
queue_request-Moves z s req now = elim (Bool-cases (is_invalid req)) [
  | inl bad ↦ rw bad (sym (append-nil (s.priority_queues z)))
  | inr good ↦ rw good (grown_queue req.priority z req s.priority_queues)
]

abbrev AllOf : ℤ → List InferenceRequest → Type 0
AllOf z = All (λ req. req.priority ≡ z)

AllOf-append :
    (z : ℤ) (xs ys : List InferenceRequest) → AllOf z xs → AllOf z ys → AllOf z (xs ++ ys)
AllOf-append z [] ys h k = k
AllOf-append z (x ∷ xs) ys h k = (h.0, AllOf-append z xs ys h.1 k)

queue_request-IsPlaced :
    (s : ResourceScheduler) (req : InferenceRequest) (now : ℕ)
    → IsPlaced s
    → IsPlaced (queue_request s req now).0
unfolding queue_request
queue_request-IsPlaced s req now h = elim (Bool-cases (is_invalid req)) [
  | inl bad ↦ rw bad h
  | inr good ↦ rw good λ z.
      subst (AllOf z) (sym (grown_queue req.priority z req s.priority_queues)) (
        AllOf-append z (s.priority_queues z) _ (h z) (
          if_cases (AllOf z) (eqb_ℤ req.priority z) (req ∷ []) []
            (λ here. (eqb-eq req.priority z here, tt)) (λ _. tt)))
]

Next-Moves :
    (z : ℤ) (s : ResourceScheduler) (r : ResourceScheduler × Option InferenceRequest)
    → IsPlaced s
    → Next 15 s r
    → Moves z s r.0 (of_priority z r.1) []
Next-Moves z s (s', none) h (same, empty) =
    ap (λ t. t.priority_queues z) same ∙ sym (append-nil (s.priority_queues z))
Next-Moves z s (s', some req) h (p, positive, low, first, above, others) =
    let own : req.priority ≡ pos p = (subst (AllOf (pos p)) first (h (pos p))).0 in
    let same : of_priority z (some req) ≡ (if eqb_ℤ (pos p) z then req ∷ [] else []) =
      ap (λ w. if eqb_ℤ w z then req ∷ [] else []) own in
    let moved : (if eqb_ℤ (pos p) z then req ∷ [] else []) ++ s'.priority_queues z
        ≡ s.priority_queues z ++ [] =
      elim (Bool-cases (eqb_ℤ (pos p) z)) [
        | inl here ↦ rw here (
            subst (λ w. req ∷ s'.priority_queues w ≡ s.priority_queues w ++ [])
              (eqb-eq (pos p) z here) (sym first ∙ sym (append-nil (s.priority_queues (pos p)))))
        | inr there ↦ rw there (others z there ∙ sym (append-nil (s.priority_queues z)))
      ] in
    ap (λ l. l ++ s'.priority_queues z) same ∙ moved

Next-IsPlaced :
    (s : ResourceScheduler) (r : ResourceScheduler × Option InferenceRequest)
    → IsPlaced s
    → Next 15 s r
    → IsPlaced r.0
Next-IsPlaced s (s', none) h (same, empty) = subst IsPlaced (sym same) h
Next-IsPlaced s (s', some req) h (p, positive, low, first, above, others) = λ z.
    elim (Bool-cases (eqb_ℤ (pos p) z)) [
      | inl here ↦
          subst (λ w. AllOf w (s'.priority_queues w)) (eqb-eq (pos p) z here)
            (subst (AllOf (pos p)) first (h (pos p))).1
      | inr there ↦ subst (AllOf z) (sym (others z there)) (h z)
    ]

same_queues-IsPlaced :
    (s t : ResourceScheduler) → t.priority_queues ≡ s.priority_queues → IsPlaced s → IsPlaced t
same_queues-IsPlaced s t same h = λ z. subst (λ q. AllOf z (q z)) (sym same) (h z)

step-IsPlaced : (s : ResourceScheduler) (x : Call) → IsPlaced s → IsPlaced (step s x)
unfolding step complete_request
step-IsPlaced s (queues req now) h = queue_request-IsPlaced s req now h
step-IsPlaced s (takes now) h =
    Next-IsPlaced s (get_next_request s now) h (get_next_request-Next s now)
step-IsPlaced s (completes req error now) h = h
step-IsPlaced s (tracks a now) h = h
step-IsPlaced s (untracks a now) h = h
step-IsPlaced s (selects model_id instances sort) h =
    same_queues-IsPlaced s (select_instance s model_id instances sort).0
      (select_instance-queues s model_id instances sort) h
step-IsPlaced s (limits id quota) h =
    same_queues-IsPlaced s (set_resource_quota s id quota).0 (set_resource_quota-queues s id quota)
      h

-- Two moves in turn.
Moves-trans :
    (z : ℤ) (s t u : ResourceScheduler) (out out' new new' : List InferenceRequest)
    → Moves z s t out new
    → Moves z t u out' new'
    → Moves z s u (out ++ out') (new ++ new')
Moves-trans z s t u out out' new new' h k =
    append_assoc out out' (u.priority_queues z)
    ∙ ap (λ l. out ++ l) k
    ∙ sym (append_assoc out (t.priority_queues z) new')
    ∙ ap (λ l. l ++ new') h
    ∙ append_assoc (s.priority_queues z) new new'

-- From a scheduler whose requests stand in the queues of their own priorities (as in a new one, whose
-- queues are empty), after any history of calls and for every priority: the requests of it that were
-- taken out, followed by those still queued, are those that were queued before, followed by the valid
-- ones that were put in, in the order in which they came.
pub run-fifo :
    (z : ℤ) (s : ResourceScheduler) (xs : List Call)
    → IsPlaced s
    → taken z s xs ++ (run s xs).priority_queues z ≡ s.priority_queues z ++ put_in z xs
unfolding run taken step complete_request
run-fifo z s [] h = sym (append-nil (s.priority_queues z))
run-fifo z s (queues req now ∷ xs) h =
    let next = step s (queues req now) in
    Moves-trans z s next (run next xs) [] (taken z next xs)
      (if is_invalid req then [] else of_priority z (some req)) (put_in z xs)
      (queue_request-Moves z s req now) (run-fifo z next xs (step-IsPlaced s (queues req now) h))
run-fifo z s (takes now ∷ xs) h =
    let next = step s (takes now) in
    Moves-trans z s next (run next xs) (of_priority z (get_next_request s now).1) (taken z next xs)
      [] (put_in z xs) (Next-Moves z s (get_next_request s now) h (get_next_request-Next s now))
      (run-fifo z next xs (step-IsPlaced s (takes now) h))
run-fifo z s (completes req error now ∷ xs) h =
    run-fifo z (step s (completes req error now)) xs (step-IsPlaced s (completes req error now) h)
run-fifo z s (tracks a now ∷ xs) h = run-fifo z (step s (tracks a now)) xs h
run-fifo z s (untracks a now ∷ xs) h = run-fifo z (step s (untracks a now)) xs h
run-fifo z s (selects model_id instances sort ∷ xs) h =
    run-fifo z (step s (selects model_id instances sort)) xs
      (step-IsPlaced s (selects model_id instances sort) h)
    ∙ ap (λ q. q z ++ put_in z xs) (select_instance-queues s model_id instances sort)
run-fifo z s (limits id quota ∷ xs) h =
    run-fifo z (step s (limits id quota)) xs (step-IsPlaced s (limits id quota) h)
    ∙ ap (λ q. q z ++ put_in z xs) (set_resource_quota-queues s id quota)
