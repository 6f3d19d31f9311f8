-- ===== src/Http/Handler.antt =====
-- pkg/agent/protocol/http/proxy.go: the handler of a request. The upstream, the random numbers and
-- what net/http does of its own accord (comparing paths without regard to case, spelling header
-- names in one way, printing an error) are parameters.
use xk6_disruptor.Prelude.{
  ℕ, ◌*◌, Bool, false, ◌&&◌, ◌||◌, Option, none, some, List, [], ◌∷◌, ◌++◌, Text, text_eq, is_empty,
  Error, Result, ok, err, if◌then◌else◌, ℤ, pos, ◌+ℤ◌, ◌-ℤ◌, ltb_ℤ, to_int64,
}
use xk6_disruptor.Prelude.Floats.{Floats}
use xk6_disruptor.Protocol.Disruptor.{
  metric_requests, metric_requests_excluded, metric_requests_disrupted,
}
use xk6_disruptor.Protocol.MetricMap.{MetricMap, inc}
use xk6_disruptor.Http.Proxy.{Disruption, HttpHandler, Url}

-- http.Header: the values of each name.
abbrev pub Header : Type 0
Header = List (Text × List Text)

pub record Request : Type 0 where
  pub host : Text
  pub url_scheme : Text
  pub url_host : Text
  pub url_path : Text
  pub request_uri : Text
  pub header : Header
  pub body : Text

pub record Response : Type 0 where
  pub status_code : ℤ
  pub header : Header
  pub body : Text

-- A handled request: the counters, the time waited before the answer, the request that was sent
-- upstream, and what the handler hands to its http.ResponseWriter: the header as it is when WriteHeader is
-- called, the code, and the bytes given to Write. There is none where WriteHeader panics. What net/http
-- then sends is not modelled: it leaves out the body for some codes and for the method HEAD, takes a code
-- below 200 for an informational one, and refuses bytes beyond a Content-Length in the header.
pub record Outcome : Type 0 where
  pub metrics : MetricMap
  pub delay : ℤ
  pub sent : Option Request
  pub response : Option Response

-- The numbers that the handler draws: rand.Int63n(variation) and rand.Float32().
pub record Draws (F : Type 0) : Type 0 where
  pub int63n : ℕ
  pub float32 : F

-- The calls WriteHeader and Write, as they are handed to net/http, of which WriteHeader panics at a code that
-- has not three digits.
abbrev pub write_response : ℤ → Header → Text → Option Response
write_response code header body =
    if ltb_ℤ code (pos 100) || ltb_ℤ (pos 999) code
    then none
    else some (record { status_code = code; header = header; body = body })

-- http.StatusBadGateway
abbrev pub status_bad_gateway : ℤ
status_bad_gateway = pos 502

-- The values of a header name, replaced; and one value more.
unfoldable pub set_values : Text → List Text → Header → Header
set_values key values [] = (key, values) ∷ []
set_values key values ((k, vs) ∷ h) =
    if text_eq key k then (k, values) ∷ h else (k, vs) ∷ set_values key values h

unfoldable pub values_of : Text → Header → List Text
values_of key [] = []
values_of key ((k, vs) ∷ h) = if text_eq key k then vs else values_of key h

-- What the handler takes from outside of the repository.
pub record Env (F : Type 0) : Type 0 where
  pub floats : Floats F
  -- strings.EqualFold, and textproto.CanonicalMIMEHeaderKey
  pub equal_fold : Text → Text → Bool
  pub canonical : Text → Text
  -- fmt.Fprint of an error
  pub error_text : Error → Text
  -- http.DefaultClient.Do
  pub upstream : Request → Result Response

unfoldable pub is_excluded : (Text → Text → Bool) → List Text → Request → Bool
is_excluded equal_fold [] r = false
is_excluded equal_fold (excluded ∷ rest) r =
    equal_fold r.url_path excluded || is_excluded equal_fold rest r

module _ (canonical : Text → Text) where
  -- Header.Add and Header.Set
  unfoldable pub header_add : Header → Text → Text → Header
  unfolding set_values values_of
  header_add h key value = set_values (canonical key) (values_of (canonical key) h ++ value ∷ []) h

  unfoldable pub header_set : Header → Text → Text → Header
  unfolding set_values
  header_set h key value = set_values (canonical key) (value ∷ []) h

  -- The loops that mirror the headers of the response, and that apply the modifications.
  unfoldable pub mirror_values : Header → Text → List Text → Header
  unfolding header_add
  mirror_values h key [] = h
  mirror_values h key (value ∷ values) = mirror_values (header_add h key value) key values

  unfoldable pub mirror_headers : Header → Header → Header
  unfolding mirror_values
  mirror_headers h [] = h
  mirror_headers h ((key, values) ∷ rest) = mirror_headers (mirror_values h key values) rest

  unfoldable pub modify_headers : Header → List (Text × Text) → Header
  unfolding header_set
  modify_headers h [] = h
  modify_headers h ((key, value) ∷ rest) = modify_headers (header_set h key value) rest

unfoldable pub upstream_request : Url → Request → Request
upstream_request url req = record req {
  host = url.host;
  url_host = url.host;
  url_scheme = url.scheme;
  request_uri = [];
}

module _ {F : Type 0} where
  -- The time.Duration is an int64: the sum wraps.
  unfoldable pub request_delay : Disruption F → ℕ → ℤ
  request_delay d int63n =
      if ltb_ℤ (pos 0) d.delay_variation
      then to_int64 (d.average_delay +ℤ (d.delay_variation -ℤ pos (2 * int63n)))
      else d.average_delay

  -- h.metrics.Inc(name)
  abbrev pub counted : HttpHandler F → Text → HttpHandler F
  counted h name = record h { metrics = inc h.metrics name }

  -- The test of the error rate against a draw.
  abbrev pub injects : Floats F → Disruption F → F → Bool
  injects floats d x = floats.less floats.zero_f d.error_rate && floats.at_most x d.error_rate

module _ {F : Type 0} (env : Env F) where
  unfoldable pub forward : HttpHandler F → Request → ℤ → Outcome
  unfolding upstream_request mirror_headers modify_headers
  forward h req delay =
      let upstream_req = upstream_request h.upstream_url req in
      record {
        metrics = h.metrics;
        delay = delay;
        sent = some upstream_req;
        response = elim (env.upstream upstream_req) [
          | err e ↦ write_response status_bad_gateway [] (env.error_text e)
          | ok response ↦
              write_response response.status_code
                (modify_headers env.canonical (mirror_headers env.canonical [] response.header)
                  h.disruption.modify_response_headers)
                (if is_empty h.disruption.modify_response_body
                  then response.body
                  else h.disruption.modify_response_body)
        ];
      }

  unfoldable pub inject_error : HttpHandler F → ℤ → Outcome
  inject_error h delay = record {
    metrics = h.metrics;
    delay = delay;
    sent = none;
    response = write_response h.disruption.error_code [] h.disruption.error_body;
  }

  unfoldable pub serve_http : HttpHandler F → Request → Draws F → Outcome
  unfolding is_excluded forward inject_error request_delay
  serve_http h req draws =
      let h₁ = counted h metric_requests in
      let delay = request_delay h.disruption draws.int63n in
      if is_excluded env.equal_fold h.disruption.excluded req
      then forward (counted h₁ metric_requests_excluded) req (pos 0)
      else if injects env.floats h.disruption draws.float32
      then inject_error (counted h₁ metric_requests_disrupted) delay
      else forward h₁ req delay
