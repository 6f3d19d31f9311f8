-- ===== src/PodDisruptor/Services.antt =====
-- pkg/disruptors/service.go: the injections of a service disruptor, which map a port of the service to one of
-- the pods.
use xk6_disruptor.Prelude.{ℕ, ◌≡◌, refl, false, Option, none, some, List, Text, Result, ok, err, ℤ}
use xk6_disruptor.Prelude.Floats.{Floats}
use xk6_disruptor.IntOrString.{IntOrString, is_null, is_zero}
use xk6_disruptor.Pods.{Pod, ServicePort, get_target_port}
use xk6_disruptor.Controller.Faults.{ProxyOptions, HttpFault, HttpResetPeerFault, GrpcFault}
use xk6_disruptor.Controller.Arguments.{FloatText}
use xk6_disruptor.Controller.Commands.{
  http_fault_commands, grpc_fault_commands, http_reset_peer_commands,
}
use xk6_disruptor.Controller.Visitor.{PodHelper, VisitorOptions}
use xk6_disruptor.PodDisruptor.Injections.{
  Injection, Happening, panicked, returned, inject, default_target_port, at_port,
  inject_http_faults,
}

-- What is done with the mapped port, if the mapping gives one.
unfoldable pub at_mapped :
    {W : Type 0} → Option (Result IntOrString) → W → (IntOrString → Injection W) → Injection W
at_mapped none w next = panicked
at_mapped (some (err e)) w next = returned (some e) w
at_mapped (some (ok port)) w next = next port

module _ {W F : Type 0} (floats : Floats F) (texts : FloatText F) (helper : PodHelper W)
    (default_image : Text) (options : VisitorOptions) (targets : Result (List Pod))
    (happenings : List (Happening W)) (ports : List ServicePort) where
  unfoldable pub service_http_faults : HttpFault F → ℤ → ProxyOptions → W → Injection W
  unfolding at_mapped get_target_port inject
  service_http_faults fault duration proxy w =
      at_mapped (get_target_port ports fault.port) w (λ port.
        inject floats texts helper default_image options targets happenings
          (http_fault_commands floats texts (record fault { port = port }) duration proxy) w)

  unfoldable pub service_http_reset_peer_faults :
      HttpResetPeerFault F → ℤ → ProxyOptions → W → Injection W
  unfolding at_mapped get_target_port inject
  service_http_reset_peer_faults fault duration proxy w =
      at_mapped (get_target_port ports fault.port) w (λ port.
        inject floats texts helper default_image options targets happenings
          (http_reset_peer_commands floats texts (record fault { port = port }) duration proxy) w)

  -- The mapped port is stored in podFault, which is not used.
  unfoldable pub service_grpc_faults : GrpcFault F → ℤ → ℕ → W → Injection W
  unfolding at_mapped get_target_port inject
  service_grpc_faults fault duration proxy_port w =
      at_mapped (get_target_port ports fault.port) w (λ port.
        inject floats texts helper default_image options targets happenings
          (grpc_fault_commands floats texts fault duration proxy_port) w)

  kept_port :
      (port : IntOrString)
      → is_null port ≡ false
      → is_zero port ≡ some false
      → default_target_port port ≡ some port
  unfolding default_target_port
  kept_port port named nonzero = rw (named, nonzero) refl

  -- When the service's port maps to a pod's port that is given and not 0, the injection of an HTTP fault in
  -- the service is the injection of the fault with that port in the pods.
  pub service_http_mapped :
      (fault : HttpFault F) (duration : ℤ) (proxy : ProxyOptions) (w : W) (port : IntOrString)
      → get_target_port ports fault.port ≡ some (ok port)
      → is_null port ≡ false
      → is_zero port ≡ some false
      → service_http_faults fault duration proxy w
        ≡ inject_http_faults floats texts helper default_image options targets happenings
            (record fault { port = port })
            duration
            proxy
            w
  unfolding service_http_faults inject_http_faults at_mapped at_port
  service_http_mapped fault duration proxy w port mapped named nonzero =
      rw (mapped, kept_port port named nonzero) refl
