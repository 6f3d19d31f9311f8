-- ===== src/Http/ResetPeer.antt =====
-- pkg/agent/protocol/http/resetpeer.go: the proxy that resets a part of the TCP connections.
use xk6_disruptor.Prelude.{
  Bool, true, false, ◌&&◌, ◌||◌, Option, none, some, List, [], ◌∷◌, Text, Error, message, Result,
  ok, ◌>>◌, fail_if, if◌then◌else◌, ℤ, pos, ltb_ℤ,
}
use xk6_disruptor.Prelude.Floats.{Floats}
use xk6_disruptor.Protocol.Disruptor.{
  metric_requests, metric_requests_excluded, metric_requests_disrupted,
}
use xk6_disruptor.Protocol.MetricMap.{MetricMap, new_metric_map, inc}

pub record ResetPeerDisruption (F : Type 0) : Type 0 where
  pub reset_timeout : ℤ
  pub toxicity : F

pub record ResetPeerProxy (F : Type 0) : Type 0 where
  pub disruption : ResetPeerDisruption F
  pub metrics : MetricMap
  -- whether the channel stop is closed
  pub stopped : Bool

unfoldable pub reset_metrics : List Text
reset_metrics = metric_requests ∷ metric_requests_disrupted ∷ metric_requests_excluded ∷ []

-- What becomes of a connection: it is reset after a wait, or copied to the upstream and back.
pub data Connection : Type 0 where
  resets : ℤ → Connection
  forwards : Connection

-- How Accept ends the loop of Start: the error is dropped once the proxy is stopped.
unfoldable pub accept_error : Bool → Error → Option Error
accept_error stopped e = if stopped then none else some e

module _ {F : Type 0} where
  -- resetConn: how long it waits.
  unfoldable pub reset_conn : ResetPeerDisruption F → Connection
  reset_conn d = resets (if ltb_ℤ (pos 0) d.reset_timeout then d.reset_timeout else pos 0)

  -- Stop, and Force, which is Stop: closing a channel that is closed panics, which is none. The error
  -- is that of closing the listener.
  unfoldable pub stop_reset :
      ResetPeerProxy F → Option Error → Option (Option Error × ResetPeerProxy F)
  stop_reset p close_error =
      if p.stopped then none else some (close_error, record p { stopped = true })

module _ {F : Type 0} (floats : Floats F) where
  -- x == 0 for a number that is not NaN
  abbrev is_zero_f : F → Bool
  is_zero_f x = floats.at_most x floats.zero_f && floats.at_most floats.zero_f x

  unfoldable pub new_reset_peer_proxy : ResetPeerDisruption F → Result (ResetPeerProxy F)
  unfolding new_metric_map reset_metrics
  new_reset_peer_proxy d =
      let toxicity = if is_zero_f d.toxicity then floats.one_f else d.toxicity in
      fail_if (floats.less d.toxicity floats.zero_f || floats.less floats.one_f d.toxicity)
        (message "toxicity must be in the range [0.0, 1.0]")
      >> ok (record {
        disruption = record d { toxicity = toxicity };
        metrics = new_metric_map reset_metrics;
        stopped = false;
      })

  -- The handler of a connection, at the number that it draws.
  unfoldable pub handle : ResetPeerProxy F → F → ResetPeerProxy F × Connection
  unfolding reset_conn
  handle p float32 =
      let m = inc p.metrics metric_requests in
      if floats.at_most float32 p.disruption.toxicity
      then (record p { metrics = inc m metric_requests_disrupted }, reset_conn p.disruption)
      else (record p { metrics = inc m metric_requests_excluded }, forwards)

  -- The connections that Start accepts, each with the number drawn for it, until Accept fails.
  unfoldable pub handle_all : ResetPeerProxy F → List F → ResetPeerProxy F
  unfolding handle
  handle_all p [] = p
  handle_all p (x ∷ xs) = handle_all (handle p x).0 xs
