-- ===== src/Http/Responses.antt =====
-- pkg/agent/protocol/http/proxy.go: what the handler hands to its ResponseWriter.
use xk6_disruptor.Prelude.{
  ◌≡◌, refl, sym, ap, ◌∙◌, ◌⊎◌, inl, inr, Bool, true, false, not, ◌||◌, Option, none, some, List,
  [], ◌∷◌, ◌++◌, append-nil, append_assoc, arith, Text, text_eq, text_eq_iff, is_empty, is_some,
  Result, ok, if◌then◌else◌, &&_iff, Bool-cases, ℤ, pos, ◌≤ℤ◌, ltb_ℤ,
}
use xk6_disruptor.Http.Proxy.{Disruption, HttpHandler, Url, new_proxy}
use xk6_disruptor.Http.Handler.{
  Header, Request, Response, Draws, Env, injects, serve_http, values_of, set_values, header_add,
  header_set, mirror_values, mirror_headers, modify_headers, write_response, request_delay,
  upstream_request,
}
use xk6_disruptor.Http.Counting.{serve, passes, fails}
use xk6_disruptor.Http.Delays.{new_proxy_accepts}

values_of-set_values :
    (j k : Text) (vs : List Text) (h : Header)
    → values_of j (set_values k vs h) ≡ (if text_eq j k then vs else values_of j h)
unfolding values_of set_values
values_of-set_values j k vs [] = refl
values_of-set_values j k vs ((i, us) ∷ h) =
    ground (arith, text_eq_iff j k, text_eq_iff k i, text_eq_iff j i, values_of-set_values j k vs h)

module _ (canonical : Text → Text) where
  values_of-header_add :
      (j : Text) (h : Header) (key value : Text)
      → values_of j (header_add canonical h key value)
        ≡ values_of j h ++ (if text_eq j (canonical key) then value ∷ [] else [])
  unfolding header_add
  values_of-header_add j h key value = ground (
    arith,
    values_of-set_values j (canonical key) (values_of (canonical key) h ++ value ∷ []) h,
    text_eq_iff j (canonical key),
    append-nil (values_of j h),
  )

  values_of-mirror_values :
      (j : Text) (h : Header) (key : Text) (values : List Text)
      → values_of j (mirror_values canonical h key values)
        ≡ values_of j h ++ (if text_eq j (canonical key) then values else [])
  unfolding mirror_values
  values_of-mirror_values j h key [] = ground (arith, append-nil (values_of j h))
  values_of-mirror_values j h key (value ∷ values) =
      rw
        (
          values_of-mirror_values j (header_add canonical h key value) key values,
          values_of-header_add j h key value,
        )
        (elim (Bool-cases (text_eq j (canonical key))) [
          | inl same ↦ rw same (append_assoc (values_of j h) (value ∷ []) values)
          | inr other ↦ rw other (append-nil (values_of j h ++ []))
        ])

  -- Every name of the header is spelled the canonical way, and stands in it once.
  abbrev pub IsCanonical : Header → Type 0
  IsCanonical [] = Unit
  IsCanonical ((key, values) ∷ h) = (canonical key ≡ key) × (values_of key h ≡ []) × IsCanonical h

  values_of-mirror_headers :
      (j : Text) (out h : Header)
      → IsCanonical h
      → values_of j (mirror_headers canonical out h) ≡ values_of j out ++ values_of j h
  unfolding mirror_headers values_of
  values_of-mirror_headers j out [] c = sym (append-nil (values_of j out))
  values_of-mirror_headers j out ((key, values) ∷ h) c =
      rw
        (
          values_of-mirror_headers j (mirror_values canonical out key values) h c.2,
          values_of-mirror_values j out key values,
          c.0,
        )
        (elim (Bool-cases (text_eq j key)) [
          | inl same ↦
              rw (same, (text_eq_iff j key).0 same, c.1) (append-nil (values_of key out ++ values))
          | inr other ↦ rw other (append_assoc (values_of j out) [] (values_of j h))
        ])

  -- The value that the modifications give a name: the last that is set.
  unfoldable pub last_value : Text → List (Text × Text) → Option Text
  last_value name [] = none
  last_value name ((key, value) ∷ rest) =
      let later = last_value name rest in
      if is_some later then later else (if text_eq name (canonical key) then some value else none)

  abbrev pub override : Option Text → List Text → List Text
  override none values = values
  override (some value) values = value ∷ []

  values_of-modify_headers :
      (j : Text) (h : Header) (ms : List (Text × Text))
      → values_of j (modify_headers canonical h ms) ≡ override (last_value j ms) (values_of j h)
  unfolding modify_headers last_value
  values_of-modify_headers j h [] = refl
  values_of-modify_headers j h ((key, value) ∷ rest) =
      rw (values_of-modify_headers j (header_set canonical h key value) rest)
        (ground (arith, values_of-set_values j (canonical key) (value ∷ []) h))

-- A status code that WriteHeader takes.
abbrev pub IsStatus : ℤ → Type 0
IsStatus code = (pos 100 ≤ℤ code) × (code ≤ℤ pos 999)

write_response_status :
    (code : ℤ) (header : Header) (body : Text)
    → IsStatus code
    → write_response code header body
      ≡ some (record { status_code = code; header = header; body = body })
write_response_status code header body h = ground arith

in_range : (code : ℤ) → ltb_ℤ code (pos 100) || ltb_ℤ (pos 999) code ≡ false → IsStatus code
in_range code h = ground arith

refused :
    (code : ℤ) (header : Header) (body : Text)
    → ¬ IsStatus code
    → write_response code header body ≡ none
refused code header body h = elim (Bool-cases (ltb_ℤ code (pos 100) || ltb_ℤ (pos 999) code)) [
  | inl bad ↦ rw bad
  | inr good ↦ absurd (h (in_range code good))
]

answered :
    (code : ℤ) (header : Header) (body : Text)
    → (IsStatus code
        × (write_response code header body
            ≡ some (record { status_code = code; header = header; body = body })))
      ⊎ ((¬ IsStatus code) × (write_response code header body ≡ none))
answered code header body = elim (Bool-cases (ltb_ℤ code (pos 100) || ltb_ℤ (pos 999) code)) [
  | inl out ↦ let bad : ¬ IsStatus code = ground arith in inr (bad, refused code header body bad)
  | inr inside ↦
      inl (in_range code inside, write_response_status code header body (in_range code inside))
]

not-true : (b : Bool) → not b ≡ true → b ≡ false
not-true b h = ground arith

-- What was handed to the ResponseWriter: the code, the values of each header name, and the body.
pub record Shows (o : Option Response) (code : ℤ) (values : Text → List Text) (body : Text)
    : Type 0 where
  pub response : Response
  pub answered : o ≡ some response
  pub shown_code : response.status_code ≡ code
  pub shown_values : (j : Text) → values_of j response.header ≡ values j
  pub shown_body : response.body ≡ body

module _ {F : Type 0} (env : Env F) where
  mirrored :
      (r : Response) (ms : List (Text × Text)) (body : Text)
      → IsStatus r.status_code
      → IsCanonical env.canonical r.header
      → Shows
          (write_response r.status_code
            (modify_headers env.canonical (mirror_headers env.canonical [] r.header) ms)
            body)
          r.status_code
          (λ j. override env.canonical (last_value env.canonical j ms) (values_of j r.header))
          body
  unfolding values_of
  mirrored r ms body status names =
      let header = modify_headers env.canonical (mirror_headers env.canonical [] r.header) ms in
      record {
        response = record { status_code = r.status_code; header = header; body = body };
        answered = write_response_status r.status_code header body status;
        shown_code = refl;
        shown_values = λ j.
            values_of-modify_headers env.canonical j (mirror_headers env.canonical [] r.header) ms
            ∙ ap (override env.canonical (last_value env.canonical j ms))
                (values_of-mirror_headers env.canonical j [] r.header names);
        shown_body = refl;
      }

  -- A request that gets no error, excluded or not, is sent upstream, and the handler hands to its
  -- ResponseWriter the status of the upstream's answer, its headers with the configured ones set
  -- over them, and its body or the configured one in place of it; an excluded request waits for
  -- nothing, another for its delay. For an upstream that answers with a status of three digits and
  -- canonical header names.
  pub forwarded_response :
      (h : HttpHandler F) (p : Request × Draws F) (r : Response)
      → fails env h.disruption p ≡ false
      → env.upstream (upstream_request h.upstream_url p.0) ≡ ok r
      → IsStatus r.status_code
      → IsCanonical env.canonical r.header
      → let o = serve env h p in
        let d = h.disruption in
        (o.delay ≡ (if passes env d p then pos 0 else request_delay d p.1.int63n))
        × (o.sent ≡ some (upstream_request h.upstream_url p.0))
        × Shows o.response r.status_code
            (λ j.
              override env.canonical
                (last_value env.canonical j d.modify_response_headers)
                (values_of j r.header))
            (if is_empty d.modify_response_body then r.body else d.modify_response_body)
  unfolding serve_http
  forwarded_response h p r clean answered status names =
      elim (Bool-cases (passes env h.disruption p)) [
        | inl out ↦
            rw (out, answered)
              (refl, refl, mirrored r h.disruption.modify_response_headers _ status names)
        | inr within ↦
            let quiet : injects env.floats h.disruption p.1.float32 ≡ false = rw within at clean in
            rw (within, quiet, answered)
              (refl, refl, mirrored r h.disruption.modify_response_headers _ status names)
      ]

  -- For a disruption that NewProxy accepts, a request that gets an error is not sent upstream;
  -- after its delay the handler hands the configured code and body, with no header, to its
  -- ResponseWriter if the code has three digits, and panics in WriteHeader if it has not.
  pub injected_response :
      (parse_url : Text → Result Url) (address : Text) (d : Disruption F) {h : HttpHandler F}
      (p : Request × Draws F)
      → new_proxy env.floats parse_url address d ≡ ok h
      → fails env h.disruption p ≡ true
      → let o = serve env h p in
        (o.sent ≡ none)
        × (o.delay ≡ request_delay d p.1.int63n)
        × ((IsStatus d.error_code
              × (o.response
                  ≡ some (record { status_code = d.error_code; header = []; body = d.error_body })))
            ⊎ ((¬ IsStatus d.error_code) × (o.response ≡ none)))
  unfolding serve_http
  injected_response parse_url address d {h = h} p accepted hit =
      let same = (new_proxy_accepts env.floats parse_url address d accepted).0 in
      let both =
        (&&_iff (not (passes env h.disruption p)) (injects env.floats h.disruption p.1.float32)).0
          hit in
      rw (not-true (passes env h.disruption p) both.0, both.1, same)
        (refl, refl, answered d.error_code [] d.error_body)
