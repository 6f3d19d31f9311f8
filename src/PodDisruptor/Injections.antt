-- ===== src/PodDisruptor/Injections.antt =====
-- pkg/disruptors/pod.go and terminate.go: the injections of a pod disruptor, each a command, a visitor and a
-- visit of all the targets. A visit that ends before the call returns is one step at its end; the others
-- change the cluster as they like.
use xk6_disruptor.Prelude.{
  ℕ, ◌-◌, ◌==◌, length, Option, none, some, List, [], ◌∷◌, Text, Error, wrap, Result, ok, err,
  ◌>>=◌, if◌then◌else◌, ℤ, pos, eq_ℤ,
}
use xk6_disruptor.Prelude.Floats.{Floats}
use xk6_disruptor.IntOrString.{IntOrString, is_null, is_zero, from_int32}
use xk6_disruptor.Pods.{Pod, sample, pod_names, pod_ips}
use xk6_disruptor.Controller.Faults.{
  ProxyOptions, NetworkFault, NetworkPartitionFault, CpuStressFault, MemoryStressFault,
  DiskFillFault, IoStressFault, HttpFault, HttpResetPeerFault, GrpcFault, NetworkShapingFault,
  DnsFault,
}
use xk6_disruptor.Controller.Arguments.{FloatText, build_cleanup_cmd}
use xk6_disruptor.Controller.Commands.{
  VisitCommands, http_fault_commands, grpc_fault_commands, http_reset_peer_commands,
  network_fault_commands, network_shaping_commands, network_partition_commands, cpu_stress_commands,
  memory_stress_commands, dns_fault_commands, disk_fill_commands, io_stress_commands,
}
use xk6_disruptor.Controller.Visitor.{
  PodHelper, VisitorOptions, agent_name, new_pod_agent_visitor, inject_disruptor_agent,
  run_commands,
}

-- How a call on all the targets ends: Visit waits for ever, or returns.
pub data Injection (W : Type 0) : Type 0 where
  panicked : Injection W
  waiting : W → Injection W
  returned : Option Error → W → Injection W

-- What happens while Visit waits: the visit of a target ends, one that does not end before the call returns
-- changes the cluster, or the caller's context ends.
pub data Happening (W : Type 0) : Type 0 where
  visited : Pod → Happening W
  unfinished : Pod → (W → W) → Happening W
  context_ended : Error → Happening W

-- What Visit does with the end of a visit, where rest is what it does with the visits that are left.
unfoldable pub on_visited :
    {W : Type 0} → ℕ → Option (Option Error × W) → (W → Injection W) → Injection W
on_visited left none rest = panicked
on_visited left (some (some e, w)) rest = returned (some e) w
on_visited left (some (none, w)) rest = if left == 0 then returned none w else rest w

-- The wait for the pending visits: it ends with the first error, the end of the context, or the last visit.
unfoldable pub await_visits :
    {W : Type 0} → (W → Pod → Option (Option Error × W)) → ℕ → W → List (Happening W) → Injection W
unfolding on_visited
await_visits visit_one pending w [] = waiting w
await_visits visit_one pending w (visited pod ∷ hs) =
    on_visited (pending - 1) (visit_one w pod) (λ w'. await_visits visit_one (pending - 1) w' hs)
await_visits visit_one pending w (unfinished pod change ∷ hs) =
    await_visits visit_one pending (change w) hs
await_visits visit_one pending w (context_ended e ∷ hs) = returned (some e) w

-- The targets and the visits: what all the injections end with.
unfoldable pub visit_targets :
    {W : Type 0}
    → (W → Pod → Option (Option Error × W))
    → Result (List Pod)
    → List (Happening W)
    → W
    → Injection W
unfolding await_visits
visit_targets visit_one (err e) happenings w = returned (some e) w
visit_targets visit_one (ok pods) happenings w =
    if length pods == 0 then returned none w else await_visits visit_one (length pods) w happenings

-- The port of a fault, or 80; none where IsZero panics.
unfoldable pub default_target_port : IntOrString → Option IntOrString
default_target_port port =
    if is_null port then some (from_int32 (pos 80)) else (elim (is_zero port) [
      | none ↦ none
      | some zero_port ↦ some (if zero_port then from_int32 (pos 80) else port)
    ])

-- What is done with the port, if it is there.
unfoldable pub at_port :
    {W : Type 0} → Option IntOrString → (IntOrString → Injection W) → Injection W
at_port none next = panicked
at_port (some port) next = next port

module _ {W F : Type 0} (floats : Floats F) (texts : FloatText F) (helper : PodHelper W)
    (default_image : Text) (options : VisitorOptions) (targets : Result (List Pod))
    (happenings : List (Happening W)) where
  -- PodAgentVisitor.Visit with a command that may panic.
  unfoldable pub visit_pod :
      (Pod → Option (Result VisitCommands)) → W → Pod → Option (Option Error × W)
  unfolding inject_disruptor_agent run_commands
  visit_pod command w pod =
      let visitor = new_pod_agent_visitor options in
      let (e, w') = inject_disruptor_agent helper default_image visitor w pod in
      elim e [
        | some f ↦ some (some (wrap "injecting agent in the pod %q: %w" f), w')
        | none ↦ (elim (command pod) [
          | none ↦ none
          | some commands ↦ some (run_commands helper default_image visitor w' pod commands)
        ])
      ]

  unfoldable pub inject : (Pod → Option (Result VisitCommands)) → W → Injection W
  unfolding visit_targets visit_pod
  inject command w = visit_targets (visit_pod command) targets happenings w

  unfoldable pub inject_http_faults : HttpFault F → ℤ → ProxyOptions → W → Injection W
  unfolding at_port inject
  inject_http_faults fault duration proxy w = at_port (default_target_port fault.port) (λ port.
      inject (http_fault_commands floats texts (record fault { port = port }) duration proxy) w)

  unfoldable pub inject_http_reset_peer_faults :
      HttpResetPeerFault F → ℤ → ProxyOptions → W → Injection W
  unfolding at_port inject
  inject_http_reset_peer_faults fault duration proxy w =
      at_port (default_target_port fault.port) (λ port.
        inject (http_reset_peer_commands floats texts (record fault { port = port }) duration proxy)
          w)

  unfoldable pub inject_grpc_faults : GrpcFault F → ℤ → ℕ → W → Injection W
  unfolding inject
  inject_grpc_faults fault duration proxy_port w =
      inject (grpc_fault_commands floats texts fault duration proxy_port) w

  -- A command that is the same for every pod.
  unfoldable pub inject_same : Result VisitCommands → W → Injection W
  unfolding inject
  inject_same commands w = inject (λ pod. some commands) w

  unfoldable pub inject_network_shaping_faults : NetworkShapingFault F → ℤ → W → Injection W
  unfolding inject_same
  inject_network_shaping_faults fault duration w =
      inject_same (network_shaping_commands floats texts fault duration) w

  unfoldable pub inject_network_partition : NetworkPartitionFault → ℤ → W → Injection W
  unfolding inject_same
  inject_network_partition fault duration w =
      inject_same (network_partition_commands floats texts fault duration) w

  unfoldable pub inject_cpu_stress : CpuStressFault → ℤ → W → Injection W
  unfolding inject_same
  inject_cpu_stress fault duration w =
      inject_same (cpu_stress_commands floats texts fault duration) w

  unfoldable pub inject_memory_stress : MemoryStressFault → ℤ → W → Injection W
  unfolding inject_same
  inject_memory_stress fault duration w =
      inject_same (memory_stress_commands floats texts fault duration) w

  unfoldable pub inject_dns_faults : DnsFault F → ℤ → W → Injection W
  unfolding inject_same
  inject_dns_faults fault duration w =
      inject_same (dns_fault_commands floats texts fault duration) w

  unfoldable pub inject_disk_fill : DiskFillFault → ℤ → W → Injection W
  unfolding inject_same
  inject_disk_fill fault duration w = inject_same (disk_fill_commands floats texts fault duration) w

  unfoldable pub inject_io_stress : IoStressFault → ℤ → W → Injection W
  unfolding inject_same
  inject_io_stress fault duration w = inject_same (io_stress_commands floats texts fault duration) w

  unfoldable pub inject_network_faults : NetworkFault → ℤ → W → Injection W
  unfolding inject_same
  inject_network_faults fault duration w =
      inject_same (network_fault_commands floats texts fault duration) w

-- The pods by name and by address.
unfoldable pub target_names : Result (List Pod) → Result (List Text)
unfolding pod_names
target_names targets = targets >>= λ pods. ok (pod_names pods)

unfoldable pub target_ips : Result (List Pod) → Result (List Text)
unfolding pod_ips
target_ips targets = targets >>= λ pods. ok (pod_ips pods)

-- The loop of Cleanup: errors of the command are dropped.
unfoldable pub clean_pods : {W : Type 0} → PodHelper W → W → List Pod → W
clean_pods helper w [] = w
clean_pods helper w (pod ∷ pods) =
    clean_pods helper (helper.exec_in w pod.pod_name agent_name build_cleanup_cmd).1 pods

unfoldable pub clean_targets : {W : Type 0} → PodHelper W → Result (List Pod) → W → Option Error × W
unfolding clean_pods
clean_targets helper (err e) w = (some e, w)
clean_targets helper (ok pods) w = (none, clean_pods helper w pods)

pub record PodTerminationFault : Type 0 where
  pub count : IntOrString
  pub timeout : ℤ

-- PodTerminationVisitor.Visit, with Terminate of the pod helper as a parameter.
unfoldable pub terminate_pod :
    {W : Type 0} → (W → Text → ℤ → Option Error × W) → ℤ → W → Pod → Option (Option Error × W)
terminate_pod terminate timeout w pod =
    some (terminate w pod.pod_name (if eq_ℤ timeout (pos 0) then pos 10000000000 else timeout))

unfoldable pub terminate_sampled :
    {W : Type 0}
    → (W → Text → ℤ → Option Error × W)
    → ℤ
    → Option (Result (List Pod))
    → List (Happening W)
    → W
    → List Text × Injection W
unfolding visit_targets terminate_pod pod_names
terminate_sampled terminate timeout none happenings w = ([], panicked)
terminate_sampled terminate timeout (some (err e)) happenings w = ([], returned (some e) w)
terminate_sampled terminate timeout (some (ok pods)) happenings w =
    (pod_names pods, visit_targets (terminate_pod terminate timeout) (ok pods) happenings w)

-- TerminatePods: the names of the pods, and how the visit ends.
unfoldable pub terminate_pods :
    {W : Type 0}
    → (W → Text → ℤ → Option Error × W)
    → Result (List Pod)
    → PodTerminationFault
    → List (Happening W)
    → W
    → List Text × Injection W
unfolding terminate_sampled sample
terminate_pods terminate (err e) fault happenings w = ([], returned (some e) w)
terminate_pods terminate (ok pods) fault happenings w =
    terminate_sampled terminate fault.timeout (sample pods fault.count) happenings w
