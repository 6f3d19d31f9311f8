-- ===== src/Http/Counting.antt =====
-- pkg/agent/protocol/http/proxy.go: the counters over any sequence of requests. The requests are
-- served at once in the program; each counter is increased under a lock, so the order of the
-- increments, which the list gives, does not show in the sums.
use xk6_disruptor.Prelude.{
  ◌+◌, ◌≤◌, ◌<◌, ◌≡◌, ◌∙◌, inl, inr, Bool, not, ◌&&◌, ◌||◌, List, [], ◌∷◌, arith, Text, text_eq,
  text_eq_iff, Bool-cases, length, count_if, count_if_ext, count_if_all, count_if_disjoint,
}
use xk6_disruptor.Protocol.Disruptor.{
  metric_requests, metric_requests_excluded, metric_requests_disrupted,
}
use xk6_disruptor.Protocol.MetricMap.{MetricMap, uint_mod, new_metric_map}
use xk6_disruptor.Protocol.Counters.{counter, counter-inc, counter-new_metric_map, bump}
use xk6_disruptor.Http.Proxy.{Disruption, HttpHandler, supported_metrics}
use xk6_disruptor.Http.Handler.{Request, Draws, Outcome, Env, is_excluded, injects, serve_http}

module _ {F : Type 0} (env : Env F) where
  -- One request, with the numbers drawn for it.
  abbrev pub serve : HttpHandler F → Request × Draws F → Outcome
  serve h p = serve_http env h p.0 p.1

  -- The request is passed through by an exclusion; an error is injected into it.
  abbrev pub passes : Disruption F → Request × Draws F → Bool
  passes d p = is_excluded env.equal_fold d.excluded p.0

  abbrev pub fails : Disruption F → Request × Draws F → Bool
  fails d p = not (passes d p) && injects env.floats d p.1.float32

  -- Each request is counted once in the total, once in the excluded if its path is excluded, once
  -- in the disrupted if an error is injected; no other counter changes.
  pub counter-serve_http :
      (h : HttpHandler F) (p : Request × Draws F) (j : Text)
      → counter (serve h p).metrics j
        ≡ bump (text_eq j metric_requests_disrupted && fails h.disruption p) (
            bump
              (text_eq j metric_requests_excluded && passes h.disruption p)
              (bump (text_eq j metric_requests) (counter h.metrics j)))
  unfolding serve_http
  counter-serve_http h p j = elim (Bool-cases (passes h.disruption p)) [
    | inl out ↦ rw out (simp counter-inc (ground arith))
    | inr within ↦ rw within (elim (Bool-cases (injects env.floats h.disruption p.1.float32)) [
      | inl hit ↦ rw hit (simp counter-inc (ground arith))
      | inr miss ↦ rw miss (simp counter-inc (ground arith))
    ])
  ]

  -- The handler's counters after a sequence of requests.
  unfoldable pub serve_all : HttpHandler F → List (Request × Draws F) → MetricMap
  serve_all h [] = h.metrics
  serve_all h (p ∷ ps) = serve_all (record h { metrics = (serve h p).metrics }) ps

  -- Whether the counter of a name counts the request.
  abbrev counts : Text → Disruption F → Request × Draws F → Bool
  counts j d p =
      (text_eq j metric_requests_disrupted && fails d p)
      || (text_eq j metric_requests_excluded && passes d p)
      || text_eq j metric_requests

  counter-serve :
      (h : HttpHandler F) (p : Request × Draws F) (j : Text)
      → counter (serve h p).metrics j ≡ bump (counts j h.disruption p) (counter h.metrics j)
  unfolding text_eq
  counter-serve h p j = rw (counter-serve_http h p j) (
      ground (
        arith,
        text_eq_iff j metric_requests,
        text_eq_iff j metric_requests_excluded,
        text_eq_iff j metric_requests_disrupted,
      ))

  counter-serve_all :
      (h : HttpHandler F) (ps : List (Request × Draws F)) (j : Text)
      → counter h.metrics j + length ps < uint_mod
      → counter (serve_all h ps) j ≡ counter h.metrics j + count_if (counts j h.disruption) ps
  unfolding serve_all
  counter-serve_all h [] j room = omega arith
  counter-serve_all h (p ∷ ps) j room = ground (
    arith,
    counter-serve h p j,
    counter-serve_all (record h { metrics = (serve h p).metrics }) ps j,
  )

  -- After any number of requests below 2^64 to a handler with new counters, the total counts them
  -- all, the excluded counts those with an excluded path, the disrupted counts those that got an
  -- error, and the last two together are at most the total.
  pub counters_exact :
      (h : HttpHandler F) (ps : List (Request × Draws F))
      → h.metrics ≡ new_metric_map supported_metrics
      → length ps < uint_mod
      → let m = serve_all h ps in
        (counter m metric_requests ≡ length ps)
        × (counter m metric_requests_excluded ≡ count_if (passes h.disruption) ps)
        × (counter m metric_requests_disrupted ≡ count_if (fails h.disruption) ps)
        × (counter m metric_requests_excluded + counter m metric_requests_disrupted
            ≤ counter m metric_requests)
  unfolding text_eq
  counters_exact h ps new room =
      let d = h.disruption in
      let start : (j : Text) → counter h.metrics j ≡ 0 =
        λ j. rw new (counter-new_metric_map supported_metrics j) in
      let total = count_if_all (counts metric_requests d) (λ p. ground arith) ps in
      let passed =
        count_if_ext (counts metric_requests_excluded d) (passes d) (λ p. ground arith) ps in
      let failed =
        count_if_ext (counts metric_requests_disrupted d) (fails d) (λ p. ground arith) ps in
      let apart = count_if_disjoint (passes d) (fails d) (λ p. ground arith) ps in
      let sum : (j : Text) → counter (serve_all h ps) j ≡ count_if (counts j d) ps =
        λ j. ground (arith, start j, counter-serve_all h ps j) in
      (
        sum metric_requests ∙ total,
        sum metric_requests_excluded ∙ passed,
        sum metric_requests_disrupted ∙ failed,
        rw
            (
              sum metric_requests_excluded,
              sum metric_requests_disrupted,
              sum metric_requests,
              total,
              passed,
              failed,
            )
            apart,
      )
