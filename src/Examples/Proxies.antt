-- ===== src/Examples/Proxies.antt =====
-- The theorems on the agent's protocol disruptor, its counters and its HTTP proxy at work.
use xk6_disruptor.Prelude.{
  ℕ, ◌+◌, ◌≤◌, ◌<◌, ◌≡◌, refl, ◌⊎◌, Bool, false, none, some, List, [], ◌∷◌, arith, Text, codes,
  text_eq, words_eq, split, show_ℕ, is_some, ok, ltb, leb, if◌then◌else◌, count_if, ℤ, pos,
}
use xk6_disruptor.Prelude.Floats.{Floats}
use xk6_disruptor.Iptables
use xk6_disruptor.Iptables.Rule.{words}
use xk6_disruptor.Protocol.MetricMap.{new_metric_map}
use xk6_disruptor.Protocol.Counters.{counter}
use xk6_disruptor.Protocol.Redirector
use xk6_disruptor.Protocol.Redirector.{TrafficRedirectionSpec}
use xk6_disruptor.Protocol.Disruptor
use xk6_disruptor.Protocol.Disruptor.{
  Disruptor, Proxy, Event, traffic, proxy_ended, timer, context_done, noop_traffic_redirector,
  metric_requests, metric_requests_excluded, metric_requests_disrupted,
}
use xk6_disruptor.Protocol.Lifecycle.{
  some_ends, iptables_redirector, Returns, apply_returns_iff, apply_restores,
  failed_start_leaves_rule,
}
use xk6_disruptor.Http.Proxy.{Disruption, Url, HttpHandler, supported_metrics, new_proxy}
use xk6_disruptor.Http.Handler.{
  Env, Request, Response, Draws, request_delay, upstream_request, values_of,
}
use xk6_disruptor.Http.Counting.{serve, serve_all, passes, fails, counters_exact}
use xk6_disruptor.Http.Delays.{accepted_delay_bounds}
use xk6_disruptor.Http.Responses.{
  forwarded_response, injected_response, Shows, override, last_value, IsStatus,
}
use xk6_disruptor.Examples.Machine.{
  Machine, copies, machine, machine-Netfilter, machine-DeletesPresent,
}

abbrev two_seconds : ℤ
two_seconds = pos 2000000000

abbrev to_proxy : TrafficRedirectionSpec
to_proxy = record { destination_port = 80; redirect_port = 8000 }

-- A proxy that leaves the machine alone and has counted one request.
abbrev quiet_proxy : Proxy Machine
quiet_proxy = record {
  launch = λ w. w;
  stop = λ w. (none, w);
  metrics = λ w. (metric_requests, 1) ∷ [];
}

abbrev accept_all : List Text → Bool
accept_all key = false

abbrev refuse_second : List Text → Bool
refuse_second = words_eq (words (Redirector.redirect_external_rule to_proxy))

abbrev wait_events : List (Event Machine)
wait_events = traffic (λ w. w) ∷ proxy_ended none ∷ timer ∷ []

abbrev kept_rule : List Text
kept_rule = codes "filter" ∷ codes "INPUT" ∷ codes "-j" ∷ codes "ACCEPT" ∷ []

apply_returns_iff_example :
    is_some (
      Disruptor.apply
        (record { proxy = quiet_proxy; redirector = noop_traffic_redirector })
        []
        two_seconds
        wait_events)
    ≡ some_ends wait_events
apply_returns_iff_example =
    apply_returns_iff (record { proxy = quiet_proxy; redirector = noop_traffic_redirector }) []
      two_seconds wait_events (omega arith) refl

apply_restores_example :
    Returns
      (λ w'. copies w' kept_rule ≡ copies (kept_rule ∷ []) kept_rule)
      (Disruptor.apply
        (record {
          proxy = quiet_proxy;
          redirector = iptables_redirector (machine accept_all) to_proxy;
        })
        (kept_rule ∷ [])
        two_seconds
        wait_events)
unfolding Redirector.start Redirector.rules Iptables.add machine split words
    Redirector.reset_proxy_rule
apply_restores_example =
    apply_restores (machine-Netfilter accept_all) (machine-DeletesPresent accept_all) quiet_proxy
      to_proxy (kept_rule ∷ []) two_seconds wait_events (omega arith) (λ w k. refl) (λ w k. refl)
      ((λ w k. refl), tt) refl refl kept_rule refl

failed_start_leaves_rule_example :
    Returns
      (λ w'.
        copies (kept_rule ∷ []) (words (Redirector.redirect_local_rule to_proxy)) + 1
        ≤ copies w' (words (Redirector.redirect_local_rule to_proxy)))
      (Disruptor.apply
        (record {
          proxy = quiet_proxy;
          redirector = iptables_redirector (machine refuse_second) to_proxy;
        })
        (kept_rule ∷ [])
        two_seconds
        wait_events)
unfolding Iptables.add machine split Redirector.redirect_local_rule words
    Redirector.redirect_external_rule Redirector.start Redirector.rules show_ℕ
failed_start_leaves_rule_example =
    failed_start_leaves_rule (machine-Netfilter refuse_second) quiet_proxy to_proxy (kept_rule ∷ [])
      two_seconds wait_events (omega arith) (λ w k. refl) (λ w k. refl) refl refl

-- Rates in percent stand for the floating-point numbers.
abbrev percent_floats : Floats ℕ
percent_floats = record { less = ltb; at_most = leb; zero_f = 0; one_f = 100 }

abbrev upstream_answer : Response
upstream_answer = record {
  status_code = pos 200;
  header = (codes "Server", codes "test" ∷ []) ∷ [];
  body = codes "hello";
}

abbrev env : Env ℕ
env = record {
  floats = percent_floats;
  equal_fold = text_eq;
  canonical = λ name. name;
  error_text = λ e. codes "error";
  upstream = λ request. ok upstream_answer;
}

abbrev disruption : Disruption ℕ
disruption = record {
  average_delay = pos 100;
  delay_variation = pos 20;
  error_rate = 50;
  error_code = pos 500;
  error_body = codes "broken";
  excluded = codes "/health" ∷ [];
  modify_response_body = [];
  modify_response_headers = (codes "Server", codes "other") ∷ [];
}

abbrev target : Url
target = record { scheme = codes "http"; host = codes "10.0.0.1:80" }

abbrev handler : HttpHandler ℕ
handler = record {
  upstream_url = target;
  disruption = disruption;
  metrics = new_metric_map supported_metrics;
}

abbrev request_to : Text → Request
request_to path = record {
  host = codes "service";
  url_scheme = [];
  url_host = [];
  url_path = path;
  request_uri = path;
  header = [];
  body = [];
}

-- A request that gets an error, one that is excluded, and one that is forwarded after its delay.
abbrev broken : Request × Draws ℕ
broken = (request_to (codes "/a"), record { int63n = 3; float32 = 10 })

abbrev excluded : Request × Draws ℕ
excluded = (request_to (codes "/health"), record { int63n = 3; float32 = 10 })

abbrev forwarded : Request × Draws ℕ
forwarded = (request_to (codes "/a"), record { int63n = 3; float32 = 90 })

counters_exact_example :
    let m = serve_all env handler (broken ∷ excluded ∷ forwarded ∷ []) in
    (counter m metric_requests ≡ 3)
    × (counter m metric_requests_excluded
        ≡ count_if (passes env disruption) (broken ∷ excluded ∷ forwarded ∷ []))
    × (counter m metric_requests_disrupted
        ≡ count_if (fails env disruption) (broken ∷ excluded ∷ forwarded ∷ []))
    × (counter m metric_requests_excluded + counter m metric_requests_disrupted
        ≤ counter m metric_requests)
counters_exact_example =
    counters_exact env handler (broken ∷ excluded ∷ forwarded ∷ []) refl (omega arith)

accepted_delay_bounds_example :
    (m : ℕ) × (request_delay handler.disruption 3 ≡ pos m) × (100 < m + 20) × (m ≤ 100 + 20)
unfolding new_proxy
accepted_delay_bounds_example =
    accepted_delay_bounds percent_floats (λ address. ok target) (codes "http://10.0.0.1:80")
      disruption {h = handler} 100 20 3 refl refl refl (omega arith) (omega arith)

forwarded_response_example :
    let o = serve env handler forwarded in
    (o.delay ≡ (if passes env disruption forwarded then pos 0 else request_delay disruption 3))
    × (o.sent ≡ some (upstream_request target forwarded.0))
    × Shows o.response
        (pos 200)
        (λ j.
          override
            (λ name. name)
            (last_value (λ name. name) j disruption.modify_response_headers)
            (values_of j upstream_answer.header))
        (codes "hello")
unfolding xk6_disruptor.Http.Handler.is_excluded text_eq values_of
forwarded_response_example =
    forwarded_response env handler forwarded upstream_answer refl refl (omega arith)
      (refl, refl, tt)

injected_response_example :
    let o = serve env handler broken in
    (o.sent ≡ none)
    × (o.delay ≡ request_delay disruption 3)
    × ((IsStatus (pos 500)
          × (o.response
              ≡ some (record { status_code = pos 500; header = []; body = codes "broken" })))
        ⊎ ((¬ IsStatus (pos 500)) × (o.response ≡ none)))
unfolding new_proxy xk6_disruptor.Http.Handler.is_excluded text_eq
injected_response_example =
    injected_response env (λ address. ok target) (codes "http://10.0.0.1:80") disruption
      {h = handler} broken refl refl
