-- ===== src/Grpc/Pumps.antt =====
-- pkg/agent/protocol/grpc/handler.go: the goroutines as functions are runs of the steps.
use xk6_disruptor.Prelude.{
  ℕ, suc, ◌≡◌, refl, sym, ◌∙◌, inl, inr, Option, none, some, List, [], ◌∷◌, ◌++◌, append-nil,
  append_assoc, Option-cases,
}
use xk6_disruptor.Grpc.Handler.{StreamError}
use xk6_disruptor.Grpc.Relay.{
  forward_requests, forward_answers, Pump, pump, sends, ends, fails, PumpReach, here, then_step,
}

module _ {M : Type 0} where
  -- The state in which a run ends, and what it did before.
  Runs : Pump M → List M × StreamError → Type 0
  Runs p r = (q : Pump M) × PumpReach p q × (q.sent ≡ p.sent ++ r.0) × (q.stopped ≡ some r.1)

  reach_trans : {p q r : Pump M} → PumpReach p q → PumpReach q r → PumpReach p r
  reach_trans a here = a
  reach_trans a (then_step b st) = then_step (reach_trans a b) st

  forward-Runs :
      (send : ℕ → Option StreamError) (i : ℕ) (ms : List M) (p : Pump M)
      → p.left ≡ ms
      → p.stopped ≡ none
      → Runs p (forward_requests send i ms p.ending)
  unfolding Runs forward_requests
  forward-Runs send i [] p l n = (
    record p { stopped = some p.ending },
    then_step here (ends p l n),
    sym (append-nil p.sent),
    refl,
  )
  forward-Runs send i (m ∷ ms) p l n = elim (Option-cases (send i)) [
    | inr (x, e) ↦
        rw (forward_requests, e)
          (
            record p { stopped = some x },
            then_step here (fails p m ms x l n),
            sym (append-nil p.sent),
            refl,
          )
    | inl e ↦
        let p' : Pump M = record p { left = ms; sent = p.sent ++ m ∷ [] } in
        let (q, reach, out, stop) = forward-Runs send (suc i) ms p' refl n in
        rw (forward_requests, e)
          (
            q,
            reach_trans (then_step here (sends p m ms l n)) reach,
            out ∙ append_assoc p.sent (m ∷ []) _,
            stop,
          )
  ]

  -- The goroutine that relays the client's messages is a run of the steps of its relay.
  pub forward_requests_runs :
      (send : ℕ → Option StreamError) (ms : List M) (e : StreamError)
      → let (out, x) = forward_requests send 0 ms e in
        (q : Pump M) × PumpReach (pump ms e) q × (q.sent ≡ out) × (q.stopped ≡ some x)
  unfolding Runs
  forward_requests_runs send ms e = forward-Runs send 0 ms (pump ms e) refl refl

  fails_at_once : (m : M) (ms : List M) (e x : StreamError) → Runs (pump (m ∷ ms) e) ([], x)
  unfolding Runs
  fails_at_once m ms e x =
      let p = pump (m ∷ ms) e in
      (record p { stopped = some x }, then_step here (fails p m ms x refl refl), refl, refl)

  -- The goroutine that relays the server's answers, with its header and whatever its calls answer,
  -- is a run of the steps of the relay that sends on the same messages and ends with the same
  -- error.
  pub forward_answers_runs :
      (header send_header : Option StreamError) (send : ℕ → Option StreamError) (ms : List M)
      (e : StreamError)
      → let (out, x) = forward_answers header send_header send ms e in
        (q : Pump M) × PumpReach (pump ms e) q × (q.sent ≡ out) × (q.stopped ≡ some x)
  unfolding Runs forward_answers forward_requests
  forward_answers_runs header send_header send [] e = forward_requests_runs send [] e
  forward_answers_runs (some x) send_header send (m ∷ ms) e = fails_at_once m ms e x
  forward_answers_runs none (some x) send (m ∷ ms) e = fails_at_once m ms e x
  forward_answers_runs none none send (m ∷ ms) e = forward_requests_runs send (m ∷ ms) e
