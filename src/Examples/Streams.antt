-- ===== src/Examples/Streams.antt =====
-- The theorems on the gRPC relay and on the proxy that resets connections.
use xk6_disruptor.Prelude.{
  ℕ, ◌≡◌, refl, true, false, Option, none, some, [], ◌∷◌, ◌++◌, ltb, leb, pos,
}
use xk6_disruptor.Prelude.Floats.{Floats}
use xk6_disruptor.Http.ResetPeer.{ResetPeerDisruption, ResetPeerProxy, reset_metrics}
use xk6_disruptor.Protocol.MetricMap.{new_metric_map}
use xk6_disruptor.Grpc.Handler.{StreamError, eof, answers_end, Forwarded, select_loop, success}
use xk6_disruptor.Grpc.Relay.{
  Pump, pump, sends, ends, Relay, relay, answers_step, take_answers, RelayReach, at_start, step,
}
use xk6_disruptor.Grpc.Forwarding.{relay_in_order, relay_success}

-- The client sends nothing; the server answers 5, and ends.
abbrev idle : Pump ℕ
idle = pump [] eof

abbrev reply : Pump ℕ
reply = pump (5 ∷ []) eof

abbrev replied : Pump ℕ
replied = record { left = []; ending = eof; sent = 5 ∷ []; stopped = none }

abbrev stopped : Pump ℕ
stopped = record replied { stopped = some eof }

abbrev settled : Relay ℕ
settled = record {
  requests = idle;
  answers = stopped;
  requests_taken = false;
  answers_taken = true;
  events = answers_end eof ∷ [];
}

reached : RelayReach (relay [] eof (5 ∷ []) eof) settled
unfolding select_loop
reached =
    let r : Relay ℕ = relay [] eof (5 ∷ []) eof in
    let a = step at_start (answers_step r replied (sends reply 5 [] refl refl) (λ e. refl)) in
    let b = step a (
      answers_step (record r { answers = replied }) stopped (ends replied refl refl) (λ e. refl)) in
    step b (take_answers (record r { answers = stopped }) eof refl refl refl)

abbrev answered : Forwarded
answered = record {
  answer = success;
  send_closed = false;
  client_cancelled = true;
  trailer_set = true;
}

relay_in_order_example :
    (settled.requests.sent ++ settled.requests.left ≡ [])
    × (settled.answers.sent ++ settled.answers.left ≡ 5 ∷ [])
relay_in_order_example = relay_in_order reached

relay_success_example : settled.answers.sent ≡ 5 ∷ []
unfolding select_loop
relay_success_example = relay_success answered reached refl refl

abbrev no_failure : ℕ → Option StreamError
no_failure i = none

abbrev percent_floats : Floats ℕ
percent_floats = record { less = ltb; at_most = leb; zero_f = 0; one_f = 100 }

abbrev half : ResetPeerDisruption ℕ
half = record { reset_timeout = pos 0; toxicity = 50 }

abbrev half_proxy : ResetPeerProxy ℕ
half_proxy = record { disruption = half; metrics = new_metric_map reset_metrics; stopped = false }
