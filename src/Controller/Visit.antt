-- ===== src/Controller/Visit.antt =====
-- pkg/disruptors/controller.go: PodController.Visit, which visits all the targets at the same time and
-- waits. The order in which its channels deliver is a list of events.
use xk6_disruptor.Prelude.{
  ℕ, zero, suc, ◌-◌, ◌≤◌, ◌≡◌, refl, ◌↔◌, false, Option, none, some, List, [], ◌∷◌, arith, Error,
  ◌==◌, if◌then◌else◌, length, take, All,
}

pub data VisitEvent : Type 0 where
  -- a target's visit ended, with its error
  done : Option Error → VisitEvent
  -- the caller's context ended, with its error
  context_done : Error → VisitEvent

-- The loop, with the number of pending visits: none while it still waits.
unfoldable pub visit_loop : ℕ → List VisitEvent → Option (Option Error)
visit_loop pending [] = none
visit_loop pending (done (some e) ∷ events) = some (some e)
visit_loop pending (done none ∷ events) =
    let rest = visit_loop (pending - 1) events in if pending - 1 == 0 then some none else rest
visit_loop pending (context_done e ∷ events) = some (some e)

unfoldable pub visit_all {ℓ} : {A : Type ℓ} → List A → List VisitEvent → Option (Option Error)
unfolding visit_loop
visit_all targets events =
    if length targets == 0 then some none else visit_loop (length targets) events

abbrev pub IsSuccess : VisitEvent → Type 0
IsSuccess event = event ≡ done none

pub visit_loop_step :
    (n : ℕ) (events : List VisitEvent)
    → visit_loop (suc (suc n)) (done none ∷ events) ≡ visit_loop (suc n) events
unfolding visit_loop
visit_loop_step n events =
    let e : suc (suc n) - 1 ≡ suc n = omega arith in
    let f : (suc n == 0) ≡ false = ground arith in rw (e, f) refl

visit_loop_returns_nil :
    (pending : ℕ) (events : List VisitEvent)
    → 1 ≤ pending
    → (visit_loop pending events ≡ some none)
      ↔ ((pending ≤ length events) × All IsSuccess (take pending events))
unfolding visit_loop
visit_loop_returns_nil zero events h = elim h [ ]
visit_loop_returns_nil (suc zero) [] h = (λ e. absurd cc, λ p. elim p.0 [ ])
visit_loop_returns_nil (suc zero) (done none ∷ events) h =
    (λ e. (omega arith, (refl, tt)), λ p. refl)
visit_loop_returns_nil (suc (suc n)) [] h = (λ e. absurd cc, λ p. absurd (omega (arith, p.0)))
visit_loop_returns_nil (suc (suc n)) (done none ∷ events) h =
    let rest = visit_loop_returns_nil (suc n) events (omega arith) in
    rw (visit_loop_step n events) (
      λ e. let r = rest.0 e in (omega (arith, r.0), (refl, r.1)),
      λ p. rest.1 (omega (arith, p.0), p.1.1),
    )
visit_loop_returns_nil (suc n) (done (some e) ∷ events) h =
    (λ f. absurd cc, λ p. absurd (let f = p.1.0 in cc))
visit_loop_returns_nil (suc n) (context_done e ∷ events) h =
    (λ f. absurd cc, λ p. absurd (let f = p.1.0 in cc))

-- The visit of at least one target returns with no error exactly when the first events, as many as
-- there are targets, are all ends of a target's visit with no error.
pub visit_all_returns_nil {ℓ} :
    {A : Type ℓ} (targets : List A) (events : List VisitEvent)
    → 1 ≤ length targets
    → (visit_all targets events ≡ some none)
      ↔ ((length targets ≤ length events) × All IsSuccess (take (length targets) events))
unfolding visit_all
visit_all_returns_nil [] events h = elim h [ ]
visit_all_returns_nil (t ∷ targets) events h =
    let e : (suc (length targets) == 0) ≡ false = ground arith in
    rw e (visit_loop_returns_nil (suc (length targets)) events h)
