-- ===== src/Http/Proxy.antt =====
-- pkg/agent/protocol/http/proxy.go: the disruption, and the checks of NewProxy.
use xk6_disruptor.Prelude.{
  ◌&&◌, ◌||◌, List, [], ◌∷◌, Text, is_empty, Error, message, Result, ok, ◌>>=◌, ◌>>◌, fail_if, ℤ,
  pos, ltb_ℤ, eq_ℤ,
}
use xk6_disruptor.Prelude.Floats.{Floats}
use xk6_disruptor.Protocol.Disruptor.{
  metric_requests, metric_requests_excluded, metric_requests_disrupted,
}
use xk6_disruptor.Protocol.MetricMap.{MetricMap, new_metric_map}

pub record Disruption (F : Type 0) : Type 0 where
  pub average_delay : ℤ
  pub delay_variation : ℤ
  pub error_rate : F
  pub error_code : ℤ
  pub error_body : Text
  pub excluded : List Text
  pub modify_response_body : Text
  pub modify_response_headers : List (Text × Text)

-- What the handler uses of the URL of the upstream.
pub record Url : Type 0 where
  pub scheme : Text
  pub host : Text

pub record HttpHandler (F : Type 0) : Type 0 where
  pub upstream_url : Url
  pub disruption : Disruption F
  pub metrics : MetricMap

abbrev pub no_upstream : Error
no_upstream = message "proxy's forwarding address must be provided"

abbrev pub bad_variation : Error
bad_variation = message "variation must be less that average delay"

abbrev pub bad_error_rate : Error
bad_error_rate = message "error rate must be in the range [0.0, 1.0]"

abbrev pub bad_error_code : Error
bad_error_code = message "error code must be a valid http error code"

unfoldable pub supported_metrics : List Text
supported_metrics = metric_requests ∷ metric_requests_excluded ∷ metric_requests_disrupted ∷ []

module _ {F : Type 0} (floats : Floats F) (parse_url : Text → Result Url) where
  open floats use {less, zero_f, one_f}

  unfoldable pub new_proxy : Text → Disruption F → Result (HttpHandler F)
  unfolding supported_metrics new_metric_map
  new_proxy upstream_address d = do
    fail_if (is_empty upstream_address) no_upstream
    fail_if (ltb_ℤ d.average_delay d.delay_variation) bad_variation
    fail_if (less d.error_rate zero_f || less one_f d.error_rate) bad_error_rate
    fail_if (less zero_f d.error_rate && eq_ℤ d.error_code (pos 0)) bad_error_code
    url ← parse_url upstream_address
    ok (record { upstream_url = url; disruption = d; metrics = new_metric_map supported_metrics })
