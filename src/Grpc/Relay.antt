-- ===== src/Grpc/Relay.antt =====
-- pkg/agent/protocol/grpc/handler.go: the two goroutines that relay messages, as functions of what the
-- streams answer, and as steps that interleave with the loop of transparentForward.
use xk6_disruptor.Prelude.{ℕ, suc, ◌≡◌, Bool, true, false, Option, none, some, List, [], ◌∷◌, ◌++◌}
use xk6_disruptor.Grpc.Handler.{
  StreamError, eof, RelayEvent, requests_end, answers_end, Forwarded, select_loop,
}

module _ {M : Type 0} where
  -- forwardServerToClient: the messages that SendMsg took, and the error for the channel. SendMsg of
  -- the i-th message may fail.
  unfoldable pub forward_requests :
      (ℕ → Option StreamError) → ℕ → List M → StreamError → List M × StreamError
  forward_requests send i [] e = ([], e)
  forward_requests send i (m ∷ ms) e =
      let rest = forward_requests send (suc i) ms e in
      elim (send i) [ some x ↦ ([], x) | none ↦ (m ∷ rest.0, rest.1) ]

  -- forwardClientToServer: the header is received and sent on with the first message.
  unfoldable pub forward_answers :
      Option StreamError
      → Option StreamError
      → (ℕ → Option StreamError)
      → List M
      → StreamError
      → List M × StreamError
  unfolding forward_requests
  forward_answers header send_header send [] e = ([], e)
  forward_answers (some x) send_header send (m ∷ ms) e = ([], x)
  forward_answers none (some x) send (m ∷ ms) e = ([], x)
  forward_answers none none send (m ∷ ms) e = forward_requests send 0 (m ∷ ms) e

-- One of the goroutines: what its source has left and how it ends, what was sent on, the error that
-- it put in its channel.
pub record Pump (M : Type 0) : Type 0 where
  pub left : List M
  pub ending : StreamError
  pub sent : List M
  pub stopped : Option StreamError

module _ {M : Type 0} where
  abbrev pub pump : List M → StreamError → Pump M
  pump ms e = record { left = ms; ending = e; sent = []; stopped = none }

  -- It sends a message on, ends with its source, or fails to send.
  pub data PumpStep : Pump M → Pump M → Type 0 where
    sends :
        (p : Pump M) (m : M) (rest : List M)
        → p.left ≡ m ∷ rest
        → p.stopped ≡ none
        → PumpStep p (record p { left = rest; sent = p.sent ++ m ∷ [] })
    ends :
        (p : Pump M)
        → p.left ≡ []
        → p.stopped ≡ none
        → PumpStep p (record p { stopped = some p.ending })
    fails :
        (p : Pump M) (m : M) (rest : List M) (e : StreamError)
        → p.left ≡ m ∷ rest
        → p.stopped ≡ none
        → PumpStep p (record p { stopped = some e })

  pub data PumpReach (p : Pump M) : Pump M → Type 0 where
    here : PumpReach p p
    then_step : {q r : Pump M} → PumpReach p q → PumpStep q r → PumpReach p r

-- The call: both goroutines, and the events that the loop took from their channels.
pub record Relay (M : Type 0) : Type 0 where
  pub requests : Pump M
  pub answers : Pump M
  pub requests_taken : Bool
  pub answers_taken : Bool
  pub events : List RelayEvent

module _ {M : Type 0} where
  abbrev pub relay : List M → StreamError → List M → StreamError → Relay M
  relay ms e ns f = record {
    requests = pump ms e;
    answers = pump ns f;
    requests_taken = false;
    answers_taken = false;
    events = [];
  }

  -- What transparentForward returns, if it does by now.
  abbrev pub result_of : Relay M → Option Forwarded
  result_of r = select_loop 2 false r.events

  -- The goroutines run on; the loop takes an error from a channel while it has not returned.
  pub data RelayStep : Relay M → Relay M → Type 0 where
    requests_step :
        (r : Relay M) (p : Pump M) → PumpStep r.requests p → RelayStep r (record r { requests = p })
    -- SendMsg of a server's stream fails with the status of the call, not with io.EOF.
    answers_step :
        (r : Relay M) (p : Pump M)
        → PumpStep r.answers p
        → (p.stopped ≡ some eof → p.left ≡ [])
        → RelayStep r (record r { answers = p })
    take_requests :
        (r : Relay M) (e : StreamError)
        → r.requests.stopped ≡ some e
        → r.requests_taken ≡ false
        → result_of r ≡ none
        → RelayStep r (record r { requests_taken = true; events = r.events ++ requests_end e ∷ [] })
    take_answers :
        (r : Relay M) (e : StreamError)
        → r.answers.stopped ≡ some e
        → r.answers_taken ≡ false
        → result_of r ≡ none
        → RelayStep r (record r { answers_taken = true; events = r.events ++ answers_end e ∷ [] })

  pub data RelayReach (r : Relay M) : Relay M → Type 0 where
    at_start : RelayReach r r
    step : {s t : Relay M} → RelayReach r s → RelayStep s t → RelayReach r t
