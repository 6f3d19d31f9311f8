-- ===== src/Controller/Outcomes.antt =====
-- pkg/disruptors/controller.go and pkg/disruptors/commads.go: which pods get a command, with which
-- port, and what a visit leaves in a pod.
use xk6_disruptor.Prelude.{
  ℕ, ◌≡◌, refl, sym, ap, ◌↔◌, inl, inr, Bool, true, false, Option, none, some, List, [], ◌∷◌, Text,
  codes, is_empty, Error, wrap, is_canceled, is_some, Result, ok, err, Result-cases, Bool-cases,
  Option-cases, take, drop, ℤ,
}
use xk6_disruptor.Prelude.Floats.{Floats}
use xk6_disruptor.IntOrString.{IntOrString, from_int32}
use xk6_disruptor.IntOrString.RoundTrip.{from_int32_full}
use xk6_disruptor.Pods.Ports.{Listed, find_port-Listed}
use xk6_disruptor.Pods.{Pod, ContainerPort, first_in, has_host_network, find_port, pod_ip}
use xk6_disruptor.Controller.Faults.{ProxyOptions, HttpFault, GrpcFault}
use xk6_disruptor.Controller.Arguments.{
  FloatText, build_cleanup_cmd, build_grpc_fault_cmd, build_http_fault_cmd,
}
use xk6_disruptor.Controller.Commands.{
  VisitCommands, with_cleanup, at_port_and_ip, http_fault_commands, grpc_fault_commands,
}
use xk6_disruptor.Controller.Visitor.{
  PodHelper, VisitorOptions, agent_name, report, inject_disruptor_agent, clean_after, run_commands,
  visit,
}

at_port_and_ip_ok :
    (port : IntOrString) (pod : Pod) (build : IntOrString → Text → List Text)
    (commands : VisitCommands)
    → at_port_and_ip port pod build ≡ some (ok commands)
    → (found : IntOrString) × (address : Text) × (find_port port pod ≡ some (ok found))
      × (pod_ip pod ≡ ok address)
      × (with_cleanup (build found address) ≡ commands)
unfolding at_port_and_ip
at_port_and_ip_ok port pod build commands h = elim (Option-cases (find_port port pod)) [
  | inl e ↦ absurd (let f : none ≡ some (ok commands) = rw (at_port_and_ip, e) at h in cc)
  | inr (r, e) ↦ elim (Result-cases r) [
    | inr (f, g) ↦
        absurd (let k : some (err f) ≡ some (ok commands) = rw (at_port_and_ip, e, g) at h in cc)
    | inl (found, g) ↦ elim (Result-cases (pod_ip pod)) [
      | inr (f, i) ↦
          absurd
            (let k : some (err f) ≡ some (ok commands) = rw (at_port_and_ip, e, g, i) at h in cc)
      | inl (address, i) ↦
          let k : some (ok (with_cleanup (build found address))) ≡ some (ok commands) =
            rw (at_port_and_ip, e, g, i) at h in
          (found, address, rw e (ap some g), i, cc)
    ]
  ]
]

module _ {F : Type 0} (floats : Floats F) (texts : FloatText F) where
  -- When the HTTP fault gets a command for a pod, the pod does not use the host's network, the
  -- command's fifth and sixth words are the flag -t and the number of a port that the pod lists,
  -- and the cleanup command comes with it.
  pub http_fault_port :
      (fault : HttpFault F) (duration : ℤ) (options : ProxyOptions) (pod : Pod)
      (commands : VisitCommands)
      → http_fault_commands floats texts fault duration options pod ≡ some (ok commands)
      → (has_host_network pod ≡ false)
        × ((test : ContainerPort → Bool) × (p : ContainerPort) × (first_in test pod.containers
              ≡ some p)
            × (take 2 (drop 4 commands.exec) ≡ codes "-t" ∷ from_int32 p.container_port ∷ []))
        × (commands.cleanup ≡ some build_cleanup_cmd)
  unfolding http_fault_commands build_http_fault_cmd
  http_fault_port fault duration options pod commands h = elim (Bool-cases (has_host_network pod)) [
    | inl host ↦
        absurd
          (let f : some (err _) ≡ some (ok commands) = rw (http_fault_commands, host) at h in cc)
    | inr own ↦
        let (found, address, hit, ip, e) =
          at_port_and_ip_ok fault.port pod _ commands (rw (http_fault_commands, own) at h) in
        let (test, p, listed, same) = find_port-Listed fault.port found pod hit in
        (
          own,
          (test, p, listed, rw (sym e, same, from_int32_full p.container_port) refl),
          rw (sym e) refl,
        )
  ]

  -- When the gRPC fault, with a port that is not empty, gets a command for a pod, the command's
  -- target port is the port as the fault gives it, twice, although FindPort found the number of a
  -- port that the pod lists for it.
  pub grpc_fault_port :
      (fault : GrpcFault F) (duration : ℤ) (proxy_port : ℕ) (pod : Pod) (commands : VisitCommands)
      → grpc_fault_commands floats texts fault duration proxy_port pod ≡ some (ok commands)
      → is_empty fault.port ≡ false
      → (take 4 (drop 4 commands.exec) ≡ codes "-t" ∷ fault.port ∷ codes "-t" ∷ fault.port ∷ [])
        × ((found : IntOrString) × (find_port fault.port pod ≡ some (ok found)) × Listed pod found)
  unfolding grpc_fault_commands build_grpc_fault_cmd
  grpc_fault_port fault duration proxy_port pod commands h named =
      elim (Bool-cases (has_host_network pod)) [
        | inl host ↦
            absurd (
              let f : some (err _) ≡ some (ok commands) = rw (grpc_fault_commands, host) at h in cc)
        | inr own ↦
            let (found, address, hit, ip, e) =
              at_port_and_ip_ok fault.port pod _ commands (rw (grpc_fault_commands, own) at h) in
            (rw (sym e, named) refl, (found, hit, find_port-Listed fault.port found pod hit))
      ]

report_iff :
    (o : Option Error)
    → (is_some (report o) ≡ true) ↔ ((e : Error) × (o ≡ some e) × (is_canceled e ≡ false))
unfolding report
report_iff none = (λ h. absurd cc, λ p. absurd (let e = p.2 in let f = p.1 in cc))
report_iff (some e) = elim (Bool-cases (is_canceled e)) [
  | inl gone ↦
      rw gone (
        λ h. absurd cc,
        λ (f, same, not_gone). absurd (let g : e ≡ f = cc in cc (ap is_canceled g)),
      )
  | inr live ↦ rw live (λ h. (e, refl, live), λ p. refl)
]

module _ {W : Type 0} (helper : PodHelper W) (default_image : Text) (options : VisitorOptions) where
  run_error_iff :
      (w : W) (pod : Pod) (commands : VisitCommands)
      → (is_some (run_commands helper default_image options w pod (ok commands)).0 ≡ true) ↔ (
          (e : Error) × ((helper.exec_in w pod.pod_name agent_name commands.exec).0 ≡ some e)
          × (is_canceled e ≡ false))
  unfolding run_commands
  run_error_iff w pod commands =
      report_iff (helper.exec_in w pod.pod_name agent_name commands.exec).0

  visit_attached :
      (command : Pod → Result VisitCommands) (w : W) (pod : Pod)
      → (inject_disruptor_agent helper default_image options w pod).0 ≡ none
      → visit helper default_image options command w pod
        ≡ run_commands helper default_image options
            (inject_disruptor_agent helper default_image options w pod).1
            pod
            (command pod)
  unfolding visit
  visit_attached command w pod h = rw (visit, h) refl

  visit_detached :
      (command : Pod → Result VisitCommands) (w : W) (pod : Pod) (e : Error)
      → (inject_disruptor_agent helper default_image options w pod).0 ≡ some e
      → visit helper default_image options command w pod ≡ (
        some (wrap "injecting agent in the pod %q: %w" e),
        (inject_disruptor_agent helper default_image options w pod).1,
      )
  unfolding visit
  visit_detached command w pod e h = rw (visit, h) refl

  -- When the agent is attached and the pod gets commands, the visit reports an error exactly when
  -- the command fails with an error that is no cancellation.
  pub visit_error_iff :
      (command : Pod → Result VisitCommands) (w : W) (pod : Pod) (commands : VisitCommands)
      → (inject_disruptor_agent helper default_image options w pod).0 ≡ none
      → command pod ≡ ok commands
      → (is_some (visit helper default_image options command w pod).0 ≡ true) ↔ (
          (e : Error) × ((helper.exec_in
              (inject_disruptor_agent helper default_image options w pod).1
              pod.pod_name
              agent_name
              commands.exec).0
            ≡ some e)
          × (is_canceled e ≡ false))
  visit_error_iff command w pod commands attached given =
      rw (visit_attached command w pod attached, given)
        (run_error_iff (inject_disruptor_agent helper default_image options w pod).1 pod commands)

  -- Let attaching the agent keep a pod clean, the command leave it clean when it succeeds, and the
  -- cleanup command make it clean. Then a visit with a cleanup command, of a clean pod, leaves it
  -- clean, whether the visit fails or not.
  pub visit_leaves_clean :
      (Clean : W → Type 0) (command : Pod → Result VisitCommands) (w : W) (pod : Pod)
      (commands : VisitCommands)
      → command pod ≡ ok commands
      → commands.cleanup ≡ some build_cleanup_cmd
      → ((v : W) → Clean v → Clean (inject_disruptor_agent helper default_image options v pod).1)
      → ((v : W)
          → Clean v
          → (helper.exec_in v pod.pod_name agent_name commands.exec).0 ≡ none
          → Clean (helper.exec_in v pod.pod_name agent_name commands.exec).1)
      → ((v : W) → Clean (helper.exec_in v pod.pod_name agent_name build_cleanup_cmd).1)
      → Clean w
      → Clean (visit helper default_image options command w pod).1
  unfolding run_commands clean_after
  visit_leaves_clean Clean command w pod commands given cleanup attaching running cleaning clean =
      let w' = (inject_disruptor_agent helper default_image options w pod).1 in
      elim (Option-cases (inject_disruptor_agent helper default_image options w pod).0) [
        | inr (e, h) ↦ rw (visit_detached command w pod e h) (attaching w clean)
        | inl h ↦
            rw (visit_attached command w pod h, given)
              (elim (Option-cases (helper.exec_in w' pod.pod_name agent_name commands.exec).0) [
                | inl e ↦ rw e (running w' (attaching w clean) e)
                | inr (f, e) ↦
                    rw (e, cleanup)
                      (cleaning (helper.exec_in w' pod.pod_name agent_name commands.exec).1)
              ])
      ]
