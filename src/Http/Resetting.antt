-- ===== src/Http/Resetting.antt =====
-- pkg/agent/protocol/http/resetpeer.go: the counters over any sequence of connections.
use xk6_disruptor.Prelude.{Bool, not, ◌&&◌, ◌||◌, Text, text_eq}
use xk6_disruptor.Prelude.Floats.{Floats}
use xk6_disruptor.Protocol.Disruptor.{
  metric_requests, metric_requests_excluded, metric_requests_disrupted,
}
use xk6_disruptor.Http.ResetPeer.{ResetPeerDisruption}

module _ {F : Type 0} (floats : Floats F) where
  -- The connection is selected for a reset.
  abbrev selected : ResetPeerDisruption F → F → Bool
  selected d x = floats.at_most x d.toxicity

  abbrev counts : Text → ResetPeerDisruption F → F → Bool
  counts j d x =
      (text_eq j metric_requests_disrupted && selected d x)
      || (text_eq j metric_requests_excluded && not (selected d x))
      || text_eq j metric_requests
