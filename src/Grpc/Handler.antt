-- ===== src/Grpc/Handler.antt =====
-- pkg/agent/protocol/grpc/proxy.go and handler.go: the handler of a stream. What the library grpc does is a
-- parameter: the streams' answers, and the order in which the two relays end.
use xk6_disruptor.Prelude.{
  ℕ, zero, suc, ◌*◌, Bool, true, false, ◌&&◌, ◌||◌, Option, none, some, List, [], ◌∷◌, Text, codes,
  text_eq, is_empty, split, Error, message, wrap, Result, ok, err, ◌>>◌, fail_if, if◌then◌else◌, ℤ,
  pos, ◌+ℤ◌, ◌-ℤ◌, ltb_ℤ, eq_ℤ, to_int64,
}
use xk6_disruptor.Prelude.Floats.{Floats}
use xk6_disruptor.Protocol.Disruptor.{
  metric_requests, metric_requests_excluded, metric_requests_disrupted,
}
use xk6_disruptor.Protocol.MetricMap.{MetricMap, new_metric_map, inc}

pub record GrpcDisruption (F : Type 0) : Type 0 where
  pub average_delay : ℤ
  pub delay_variation : ℤ
  pub error_rate : F
  pub status_code : ℤ
  pub status_message : Text
  pub excluded : List Text

pub record GrpcHandler (F : Type 0) : Type 0 where
  pub disruption : GrpcDisruption F
  pub metrics : MetricMap

abbrev pub supported_metrics : List Text
supported_metrics = metric_requests ∷ metric_requests_excluded ∷ metric_requests_disrupted ∷ []

-- NewProxy, with the error that grpc.DialContext gives.
unfoldable pub new_grpc_proxy :
    {F : Type 0} → Floats F → Text → GrpcDisruption F → Option Error → Result (GrpcHandler F)
unfolding new_metric_map
new_grpc_proxy floats upstream d dial =
    fail_if (is_empty upstream) (message "proxy's forwarding address must be provided")
    >> fail_if (ltb_ℤ d.average_delay d.delay_variation)
        (message "variation must be less that average delay")
    >> fail_if (floats.less d.error_rate floats.zero_f || floats.less floats.one_f d.error_rate)
        (message "error rate must be in the range [0.0, 1.0]")
    >> fail_if (floats.less floats.zero_f d.error_rate && eq_ℤ d.status_code (pos 0))
        (message "status code cannot be 0 (OK)")
    >> elim dial [
      | some e ↦ err (wrap "error dialing %s: %w" e)
      | none ↦ ok (record { disruption = d; metrics = new_metric_map supported_metrics })
    ]

-- How a stream stops: with io.EOF, or with another error.
pub data StreamError : Type 0 where
  eof : StreamError
  broken : Error → StreamError

-- What a call on the stream comes to for the client.
pub data Answer : Type 0 where
  success : Answer
  failure : Error → Answer
  status : ℤ → Text → Answer

-- codes.Internal
abbrev pub internal : ℤ
internal = pos 13

-- The first of the two relays that sends its error: the one that reads what the client sends (s2c in the
-- source), and the one that reads what the server answers (c2s).
pub data RelayEvent : Type 0 where
  requests_end answers_end : StreamError → RelayEvent

-- What transparentForward does to the two streams.
pub record Forwarded : Type 0 where
  pub answer : Answer
  pub send_closed : Bool
  pub client_cancelled : Bool
  pub trailer_set : Bool

-- The answer that ends the relay of the server's messages.
unfoldable pub end_answer : StreamError → Answer
end_answer eof = success
end_answer (broken e) = failure e

-- The loop of two rounds over the select; none while it waits for an event.
unfoldable pub select_loop : ℕ → Bool → List RelayEvent → Option Forwarded
unfolding end_answer
select_loop zero closed events = some (record {
  answer = status internal (codes "gRPC proxy should never reach this stage.");
  send_closed = closed;
  client_cancelled = true;
  trailer_set = false;
})
select_loop (suc n) closed [] = none
select_loop (suc n) closed (requests_end eof ∷ events) = select_loop n true events
select_loop (suc n) closed (requests_end (broken e) ∷ events) = some (record {
  answer = status internal (codes "failed forwarding response to client: %v");
  send_closed = closed;
  client_cancelled = true;
  trailer_set = false;
})
select_loop (suc n) closed (answers_end e ∷ events) = some (record {
  answer = end_answer e;
  send_closed = closed;
  client_cancelled = true;
  trailer_set = true;
})

-- drainServerStream: the client's messages are read up to the error that ends them.
unfoldable pub drain_server_stream : {M : Type 0} → List M → StreamError → Option Error
drain_server_stream [] eof = none
drain_server_stream [] (broken e) = some e
drain_server_stream (m ∷ ms) e = drain_server_stream ms e

-- What the client sends: its messages, and how they end.
pub record Requests (M : Type 0) : Type 0 where
  pub messages : List M
  pub end_of_messages : StreamError

unfoldable pub inject_grpc_error : {F M : Type 0} → GrpcDisruption F → Requests M → Answer
unfolding drain_server_stream
inject_grpc_error d requests =
    elim (drain_server_stream requests.messages requests.end_of_messages) [
      | some e ↦ failure (wrap "error receiving request from client %w" e)
      | none ↦ status d.status_code d.status_message
    ]

-- What the handler decides: to forward the stream after a delay, or to answer.
pub data Decision : Type 0 where
  forwards : ℤ → Decision
  answers : Answer → Decision

unfoldable pub contains : List Text → Text → Bool
contains [] target = false
contains (element ∷ list) target = text_eq element target || contains list target

-- strings.Split(name, "/")[1]; none where there is no such word.
unfoldable pub service_of : Text → Option Text
unfolding split
service_of name = elim (split b'/' name) [ [] ↦ none | w ∷ [] ↦ none | w ∷ (v ∷ ws) ↦ some v ]

module _ {F : Type 0} where
  -- The delay is an int64: the sum wraps.
  unfoldable pub grpc_delay : GrpcDisruption F → ℕ → ℤ
  grpc_delay d int63n =
      if ltb_ℤ (pos 0) d.delay_variation
      then to_int64 (d.average_delay +ℤ (d.delay_variation -ℤ pos (2 * int63n)))
      else d.average_delay

  abbrev pub grpc_counted : GrpcHandler F → Text → GrpcHandler F
  grpc_counted h name = record h { metrics = inc h.metrics name }

abbrev pub no_method : Answer
no_method = status internal (codes "ServerTransportStream not exists in context")

module _ {F M : Type 0} (floats : Floats F) where
  -- streamHandler after the service is known.
  unfoldable pub handle_service :
      GrpcHandler F → Text → ℕ → F → Requests M → GrpcHandler F × Decision
  unfolding inject_grpc_error grpc_delay
  handle_service h service int63n float32 requests =
      if contains h.disruption.excluded service
      then (grpc_counted h metric_requests_excluded, forwards (pos 0))
      else if floats.less float32 h.disruption.error_rate
      then (
        grpc_counted h metric_requests_disrupted,
        answers (inject_grpc_error h.disruption requests),
      )
      else if ltb_ℤ (pos 0) h.disruption.average_delay
      then (grpc_counted h metric_requests_disrupted, forwards (grpc_delay h.disruption int63n))
      else (h, forwards (pos 0))

  -- streamHandler at the name of the method, if the stream has one, and the numbers drawn; none where
  -- the name has no service and the handler panics.
  unfoldable pub stream_handler :
      GrpcHandler F → Option Text → ℕ → F → Requests M → Option (GrpcHandler F × Decision)
  unfolding handle_service service_of
  stream_handler h none int63n float32 requests =
      some (grpc_counted h metric_requests, answers no_method)
  stream_handler h (some name) int63n float32 requests = elim (service_of name) [
    | none ↦ none
    | some service ↦
        some (handle_service (grpc_counted h metric_requests) service int63n float32 requests)
  ]
