-- ===== src/Protocol/Lifecycle.antt =====
-- pkg/agent/protocol/protocol.go over redirector.go: how a disruption ends, and what it leaves.
use mathlib.Core.Option
use xk6_disruptor.Prelude.{
  ℕ, ◌+◌, ◌≤◌, ◌≡◌, refl, ◌∙◌, Bool, true, false, ◌||◌, Option, none, some, List, [], ◌∷◌, arith,
  Text, words_eq, Error, is_some, ℤ, ◌≤ℤ◌, ltb_ℤ,
}
use xk6_disruptor.Iptables
use xk6_disruptor.Iptables.{Executor}
use xk6_disruptor.Iptables.Rule.{words}
use xk6_disruptor.Iptables.Netfilter.{Netfilter, DeletesPresent}
use xk6_disruptor.Network.Wait.{second}
use xk6_disruptor.Protocol.Redirector
use xk6_disruptor.Protocol.Redirector.{TrafficRedirectionSpec}
use xk6_disruptor.Protocol.Redirection.{stop-start, start_keeps_first}
use xk6_disruptor.Protocol.Disruptor
use xk6_disruptor.Protocol.Disruptor.{
  Disruptor, Proxy, TrafficRedirector, Event, traffic, proxy_ended, timer, context_done,
  metric_requests, wait_loop, on_timer, shut_down,
}

-- The redirector that the agent uses in transparent mode.
abbrev pub iptables_redirector :
    {W : Type 0} → Executor W → TrafficRedirectionSpec → TrafficRedirector W
iptables_redirector executor tr = record {
  start = λ w. Redirector.start executor w tr;
  stop = λ w. Redirector.stop executor w tr;
}

not_short : (duration : ℤ) → second ≤ℤ duration → ltb_ℤ duration second ≡ false
not_short duration h = ground arith

module _ {W : Type 0} where
  -- The event ends the wait.
  abbrev pub ends : Event W → Bool
  ends (traffic act) = false
  ends (proxy_ended none) = false
  ends (proxy_ended (some e)) = true
  ends timer = true
  ends (context_done e) = true

  abbrev pub some_ends : List (Event W) → Bool
  some_ends [] = false
  some_ends (e ∷ es) = ends e || some_ends es

  wait_loop_ends :
      (p : Proxy W) (w : W) (events : List (Event W))
      → is_some (wait_loop p w events) ≡ some_ends events
  unfolding wait_loop
  wait_loop_ends p w [] = refl
  wait_loop_ends p w (traffic act ∷ events) = wait_loop_ends p (act w) events
  wait_loop_ends p w (proxy_ended none ∷ events) = wait_loop_ends p w events
  wait_loop_ends p w (proxy_ended (some e) ∷ events) = refl
  wait_loop_ends p w (timer ∷ events) = refl
  wait_loop_ends p w (context_done e ∷ events) = refl

  -- Apply returns exactly when, among what happens, the timer fires, the context is done or the
  -- proxy ends with an error; a proxy that ends without an error does not end it. For a duration of
  -- at least a second and a redirector that starts.
  pub apply_returns_iff :
      (d : Disruptor W) (w : W) (duration : ℤ) (events : List (Event W))
      → second ≤ℤ duration
      → is_some (d.redirector.start (d.proxy.launch w)).0 ≡ false
      → is_some (Disruptor.apply d w duration events) ≡ some_ends events
  unfolding Disruptor.apply
  apply_returns_iff d w duration events long started =
      let w' = (d.redirector.start (d.proxy.launch w)).1 in
      ground (arith, wait_loop_ends d.proxy w' events)

  -- The state in which a call returns satisfies the predicate, where it returns.
  abbrev pub IfReturns : (W → Type 0) → Option (Option Error × W) → Type 0
  IfReturns P none = Unit
  IfReturns P (some (e, w)) = P w

  -- The call returns, and the state in which it does satisfies the predicate.
  abbrev pub Returns : (W → Type 0) → Option (Option Error × W) → Type 0
  Returns P o = (r : Option Error × W) × (o ≡ some r) × P r.1

  if_returns→returns :
      (P : W → Type 0) (o : Option (Option Error × W))
      → is_some o ≡ true
      → IfReturns P o
      → Returns P o
  if_returns→returns P none h p = absurd cc
  if_returns→returns P (some (e, w)) h p = ((e, w), refl, p)

  -- What every request keeps holds when the wait ends.
  abbrev pub Keeps : (W → Type 0) → List (Event W) → Type 0
  Keeps P [] = Unit
  Keeps P (traffic act ∷ es) = ((w : W) → P w → P (act w)) × Keeps P es
  Keeps P (proxy_ended e ∷ es) = Keeps P es
  Keeps P (timer ∷ es) = Keeps P es
  Keeps P (context_done e ∷ es) = Keeps P es

  wait_loop-Keeps :
      (P : W → Type 0) (p : Proxy W) (w : W) (events : List (Event W))
      → Keeps P events
      → P w
      → IfReturns P (wait_loop p w events)
  unfolding wait_loop
  wait_loop-Keeps P p w [] k h = tt
  wait_loop-Keeps P p w (traffic act ∷ events) k h =
      wait_loop-Keeps P p (act w) events k.1 (k.0 w h)
  wait_loop-Keeps P p w (proxy_ended none ∷ events) k h = wait_loop-Keeps P p w events k h
  wait_loop-Keeps P p w (proxy_ended (some e) ∷ events) k h = h
  wait_loop-Keeps P p w (timer ∷ events) k h = h
  wait_loop-Keeps P p w (context_done e ∷ events) k h = h

  IfReturns-map :
      (P Q : W → Type 0) (f : W → W) (o : Option (Option Error × W))
      → ((w : W) → P w → Q (f w))
      → IfReturns P o
      → IfReturns Q (Option.map (λ r. (r.0, f r.1)) o)
  IfReturns-map P Q f none step h = tt
  IfReturns-map P Q f (some (e, w)) step h = step w h

  -- The whole of a disruption as a bracket: what the requests keep holds in the state in which the
  -- redirector and then the proxy are stopped, and the call returns the state after both.
  pub apply-bracket :
      (P Q : W → Type 0) (d : Disruptor W) (w : W) (duration : ℤ) (events : List (Event W))
      → second ≤ℤ duration
      → is_some (d.redirector.start (d.proxy.launch w)).0 ≡ false
      → Keeps P events
      → P (d.redirector.start (d.proxy.launch w)).1
      → ((w' : W) → P w' → Q (d.proxy.stop (d.redirector.stop w').1).1)
      → IfReturns Q (Disruptor.apply d w duration events)
  unfolding Disruptor.apply
  apply-bracket P Q d w duration events long started keep start finish =
      let w' = (d.redirector.start (d.proxy.launch w)).1 in
      let mapped : IfReturns Q
          (Option.map (λ r. (r.0, shut_down d r.1)) (wait_loop d.proxy w' events)) =
        IfReturns-map P Q (shut_down d) (wait_loop d.proxy w' events) finish
          (wait_loop-Keeps P d.proxy w' events keep start) in
      rw (not_short duration long, started) mapped

module _ {W : Type 0} {executor : Executor W} {copies : W → List Text → ℕ}
    (net : Netfilter executor copies) where
  -- The step leaves every rule of the machine as it is.
  abbrev pub LeavesRules : (W → W) → Type 0
  LeavesRules f = (w : W) (k : List Text) → copies (f w) k ≡ copies w k

  abbrev pub TrafficLeavesRules : List (Event W) → Type 0
  TrafficLeavesRules [] = Unit
  TrafficLeavesRules (traffic act ∷ es) = LeavesRules act × TrafficLeavesRules es
  TrafficLeavesRules (proxy_ended e ∷ es) = TrafficLeavesRules es
  TrafficLeavesRules (timer ∷ es) = TrafficLeavesRules es
  TrafficLeavesRules (context_done e ∷ es) = TrafficLeavesRules es

  abbrev SameRules : W → W → Type 0
  SameRules w w' = (k : List Text) → copies w' k ≡ copies w k

  traffic-Keeps :
      (w : W) (events : List (Event W)) → TrafficLeavesRules events → Keeps (SameRules w) events
  traffic-Keeps w [] h = tt
  traffic-Keeps w (traffic act ∷ es) h = ((λ w' same k. h.0 w' k ∙ same k), traffic-Keeps w es h.1)
  traffic-Keeps w (proxy_ended e ∷ es) h = traffic-Keeps w es h
  traffic-Keeps w (timer ∷ es) h = traffic-Keeps w es h
  traffic-Keeps w (context_done e ∷ es) h = traffic-Keeps w es h

  apply_restores_if :
      DeletesPresent executor copies
      → (proxy : Proxy W) (tr : TrafficRedirectionSpec) (w : W) (duration : ℤ)
        (events : List (Event W))
      → second ≤ℤ duration
      → LeavesRules proxy.launch
      → LeavesRules (λ v. (proxy.stop v).1)
      → TrafficLeavesRules events
      → is_some (Redirector.start executor (proxy.launch w) tr).0 ≡ false
      → (k : List Text) → words_eq k (words (Redirector.reset_proxy_rule tr)) ≡ false
      → IfReturns
          (λ w'. copies w' k ≡ copies w k)
          (Disruptor.apply
            (record { proxy = proxy; redirector = iptables_redirector executor tr })
            w
            duration
            events)
  apply_restores_if deletes proxy tr w duration events long launched stopped kept started k other =
      let w₁ = (Redirector.start executor (proxy.launch w) tr).1 in
      apply-bracket (SameRules w₁) (λ w'. copies w' k ≡ copies w k)
        (record { proxy = proxy; redirector = iptables_redirector executor tr }) w duration events
        long started (traffic-Keeps w₁ events kept) (λ j. refl)
        λ w' same.
          stopped (Redirector.stop executor w' tr).1 k
          ∙ stop-start net deletes (proxy.launch w) tr w' k started same other
          ∙ launched w k

  -- A disruption whose redirection started, and whose wait ends by an error of the proxy, the timer
  -- or the context, returns and leaves every rule as it was, the reset rule of the proxy excepted:
  -- where the iptables binary obeys Netfilter and deletes what is there, neither the proxy nor the
  -- requests touch the rules, and the duration is at least a second.
  pub apply_restores :
      DeletesPresent executor copies
      → (proxy : Proxy W) (tr : TrafficRedirectionSpec) (w : W) (duration : ℤ)
        (events : List (Event W))
      → second ≤ℤ duration
      → LeavesRules proxy.launch
      → LeavesRules (λ v. (proxy.stop v).1)
      → TrafficLeavesRules events
      → is_some (Redirector.start executor (proxy.launch w) tr).0 ≡ false
      → some_ends events ≡ true
      → (k : List Text) → words_eq k (words (Redirector.reset_proxy_rule tr)) ≡ false
      → Returns
          (λ w'. copies w' k ≡ copies w k)
          (Disruptor.apply
            (record { proxy = proxy; redirector = iptables_redirector executor tr })
            w
            duration
            events)
  apply_restores deletes proxy tr w duration events long launched stopped kept started ended k
        other =
      let d : Disruptor W = record {
        proxy = proxy;
        redirector = iptables_redirector executor tr;
      } in
      if_returns→returns (λ w'. copies w' k ≡ copies w k) (Disruptor.apply d w duration events)
        (apply_returns_iff d w duration events long started ∙ ended)
        (apply_restores_if deletes proxy tr w duration events long launched stopped kept started k
          other)

  -- Where the redirection does not start although its first rule was added, Apply returns and the
  -- first rule stays: where the iptables binary obeys Netfilter, for a proxy that leaves the rules
  -- alone and a duration of at least a second.
  pub failed_start_leaves_rule :
      (proxy : Proxy W) (tr : TrafficRedirectionSpec) (w : W) (duration : ℤ)
      (events : List (Event W))
      → second ≤ℤ duration
      → LeavesRules proxy.launch
      → LeavesRules (λ v. (proxy.stop v).1)
      → is_some
          (Iptables.add executor
            (Iptables.remove executor (proxy.launch w) (Redirector.reset_proxy_rule tr)).1
            (Redirector.redirect_local_rule tr)).0
        ≡ false
      → is_some (Redirector.start executor (proxy.launch w) tr).0 ≡ true
      → Returns
          (λ w'.
            copies w (words (Redirector.redirect_local_rule tr)) + 1
            ≤ copies w' (words (Redirector.redirect_local_rule tr)))
          (Disruptor.apply
            (record { proxy = proxy; redirector = iptables_redirector executor tr })
            w
            duration
            events)
  unfolding Disruptor.apply
  failed_start_leaves_rule proxy tr w duration events long launched stopped accepted failed =
      let v = proxy.launch w in
      let first = Redirector.redirect_local_rule tr in
      rw (not_short duration long, failed)
        (
          _,
          refl,
          omega (
            arith,
            launched w (words first),
            stopped (Redirector.start executor v tr).1 (words first),
            start_keeps_first net v tr accepted,
          ),
        )
