-- ===== src/Protocol/Disruptor.antt =====
-- pkg/agent/protocol/protocol.go: the disruptor that runs a proxy behind a redirector. The state of
-- the machine, which the proxy, the redirector and the clients change, is passed along; the proxy's
-- counters are read from it. What happens while the disruptor waits is a list of events.
use xk6_disruptor.Prelude.{
  ℕ, Option, none, some, List, [], ◌∷◌, Text, codes, Error, message, wrap, wrap_err, is_some,
  Result, ok, err, ◌==◌, if◌then◌else◌, ℤ, ltb_ℤ,
}
use mathlib.Core.Option
use xk6_disruptor.Network.Wait.{second}
use xk6_disruptor.Protocol.MetricMap.{lookup}

abbrev pub no_requests : Error
no_requests = message "disruptor did not receive any request"

abbrev pub duration_below_second : Error
duration_below_second = message "duration must be at least one second"

abbrev pub proxy_null : Error
proxy_null = message "proxy cannot be null"

abbrev pub metric_requests : Text
metric_requests = codes "requests_total"

abbrev pub metric_requests_excluded : Text
metric_requests_excluded = codes "requests_excluded"

abbrev pub metric_requests_disrupted : Text
metric_requests_disrupted = codes "requests_disrupted"

-- The interface TrafficRedirector.
pub record TrafficRedirector (W : Type 0) : Type 0 where
  pub start : W → Option Error × W
  pub stop : W → Option Error × W

-- The interface Proxy. `Start` runs until the proxy ends: its result is an event of the wait.
pub record Proxy (W : Type 0) : Type 0 where
  pub launch : W → W
  pub stop : W → Option Error × W
  pub metrics : W → List (Text × ℕ)

-- noop
abbrev pub noop_traffic_redirector : {W : Type 0} → TrafficRedirector W
noop_traffic_redirector = record { start = λ w. (none, w); stop = λ w. (none, w) }

pub record Disruptor (W : Type 0) : Type 0 where
  pub proxy : Proxy W
  pub redirector : TrafficRedirector W

unfoldable pub new_disruptor :
    {W : Type 0} → Option (Proxy W) → TrafficRedirector W → Result (Disruptor W)
new_disruptor none redirector = err proxy_null
new_disruptor (some proxy) redirector = ok (record { proxy = proxy; redirector = redirector })

-- What happens while `Apply` waits: requests change the state, the proxy ends, the timer of the
-- current round fires, or the context is done.
pub data Event (W : Type 0) : Type 0 where
  traffic : (W → W) → Event W
  proxy_ended : Option Error → Event W
  timer : Event W
  context_done : Error → Event W

module _ {W : Type 0} where
  -- The case of the timer: a proxy that counts requests must have seen one.
  unfoldable pub on_timer : Proxy W → W → Option Error
  on_timer p w = elim (lookup metric_requests (p.metrics w)) [
    | none ↦ none
    | some requests ↦ if requests == 0 then some no_requests else none
  ]

  -- The for loop with its select; `none` where the events end before the loop does.
  unfoldable pub wait_loop : Proxy W → W → List (Event W) → Option (Option Error × W)
  unfolding on_timer
  wait_loop p w [] = none
  wait_loop p w (traffic act ∷ events) = wait_loop p (act w) events
  wait_loop p w (proxy_ended none ∷ events) = wait_loop p w events
  wait_loop p w (proxy_ended (some e) ∷ events) =
      some (some (wrap " proxy ended with error: %w" e), w)
  wait_loop p w (timer ∷ events) = some (on_timer p w, w)
  wait_loop p w (context_done e ∷ events) = some (some e, w)

  -- The deferred calls of `Apply`, last deferred first: the redirector, then the proxy.
  unfoldable pub shut_down : Disruptor W → W → W
  shut_down d w = (d.proxy.stop (d.redirector.stop w).1).1

  unfoldable pub apply : Disruptor W → W → ℤ → List (Event W) → Option (Option Error × W)
  unfolding wait_loop shut_down
  apply d w duration events =
      if ltb_ℤ duration second
      then some (some duration_below_second, w)
      else (let (e, w') = d.redirector.start (d.proxy.launch w) in
          if is_some e
          then some (wrap_err " failed traffic redirection: %w" e, (d.proxy.stop w').1)
          else Option.map (λ r. (r.0, shut_down d r.1)) (wait_loop d.proxy w' events))
