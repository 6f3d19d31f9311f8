-- ===== src/Http/Delays.antt =====
-- pkg/agent/protocol/http/proxy.go: the delay of a request, for a disruption that NewProxy accepts.
use xk6_disruptor.Prelude.{
  ℕ, ◌+◌, ◌-◌, ◌*◌, ◌≤◌, ◌<◌, ◌≡◌, true, false, arith, Text, Result, ok, pos, ◌+ℤ◌, ◌-ℤ◌, ltb_ℤ,
  int64_max, to_int64_in_range,
}
use xk6_disruptor.Prelude.Floats.{Floats}
use xk6_disruptor.Http.Proxy.{Disruption, HttpHandler, Url, new_proxy}
use xk6_disruptor.Http.Handler.{request_delay}

module _ {F : Type 0} (floats : Floats F) (parse_url : Text → Result Url) where
  -- What NewProxy has checked of a disruption that it accepts.
  pub new_proxy_accepts :
      (address : Text) (d : Disruption F) {h : HttpHandler F}
      → new_proxy floats parse_url address d ≡ ok h
      → (h.disruption ≡ d) × (ltb_ℤ d.average_delay d.delay_variation ≡ false)
  unfolding new_proxy
  new_proxy_accepts address d {h = h} e = ground arith

delay_value : (a v r : ℕ) → v ≤ a → r < v → pos a +ℤ (pos v -ℤ pos (2 * r)) ≡ pos (a + v - 2 * r)
unfolding ◌+ℤ◌ ◌-ℤ◌
delay_value a v r h k = ground arith

pos_is_positive : (v : ℕ) → 0 < v → ltb_ℤ (pos 0) (pos v) ≡ true
pos_is_positive v h = ground arith

-- With a variation v up to the average a, and a draw r below v, the delay is a + v - 2r: more than
-- a - v and at most a + v, where a + v is an int64. With no variation it is the average.
request_delay_bounds :
    {F : Type 0} (d : Disruption F) (a v r : ℕ)
    → d.average_delay ≡ pos a
    → d.delay_variation ≡ pos v
    → v ≤ a
    → a + v ≤ int64_max
    → (r < v → (m : ℕ) × (request_delay d r ≡ pos m) × (a < m + v) × (m ≤ a + v))
      × (v ≡ 0 → request_delay d r ≡ pos a)
unfolding request_delay
request_delay_bounds d a v r ea ev h small = (
  λ k. (
    a + v - 2 * r,
    rw (ea, ev, pos_is_positive v (omega arith), delay_value a v r h k)
        (to_int64_in_range (pos (a + v - 2 * r)) (omega arith, omega arith)),
    omega arith,
    omega arith,
  ),
  λ k. rw (ea, ev, k),
)

in_order : (a v : ℕ) → ltb_ℤ (pos a) (pos v) ≡ false → v ≤ a
in_order a v h = ground arith

-- For a disruption that NewProxy accepts, with an average a and a variation v that are not negative
-- and whose sum is an int64: the delay for a draw below v, which is what Int63n(v) gives, is more
-- than a - v and at most a + v, so not negative.
pub accepted_delay_bounds :
    {F : Type 0} (floats : Floats F) (parse_url : Text → Result Url) (address : Text)
    (d : Disruption F) {h : HttpHandler F} (a v r : ℕ)
    → new_proxy floats parse_url address d ≡ ok h
    → d.average_delay ≡ pos a
    → d.delay_variation ≡ pos v
    → a + v ≤ int64_max
    → r < v
    → (m : ℕ) × (request_delay h.disruption r ≡ pos m) × (a < m + v) × (m ≤ a + v)
accepted_delay_bounds floats parse_url address d {h = h} a v r accepted ea ev small drawn =
    let (same, ordered) = new_proxy_accepts floats parse_url address d accepted in
    rw same
      ((request_delay_bounds d a v r ea ev (in_order a v (rw (ea, ev) at ordered)) small).0 drawn)
