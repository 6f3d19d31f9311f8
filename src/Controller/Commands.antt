-- ===== src/Controller/Commands.antt =====
-- pkg/disruptors/commads.go: the Commands methods, which give the command to run in a pod and the one
-- that cleans up after it. The outer option of a result is none where the source panics.
use xk6_disruptor.Prelude.{
  ℕ, not, Option, none, some, List, Text, is_empty, Error, message, Result, ok, err, ◌>>=◌, ◌>>◌,
  fail_if, ◌==◌, if◌then◌else◌, length, ℤ,
}
use xk6_disruptor.Prelude.Floats.{Floats}
use xk6_disruptor.IntOrString.{IntOrString}
use xk6_disruptor.Pods.{Pod, has_host_network, find_port, pod_ip}
use xk6_disruptor.Controller.Faults.{
  ProxyOptions, NetworkFault, NetworkPartitionFault, CpuStressFault, MemoryStressFault,
  DiskFillFault, IoStressFault, HttpFault, HttpResetPeerFault, GrpcFault, NetworkShapingFault,
  DnsFault,
}
use xk6_disruptor.Controller.Arguments.{
  FloatText, positive, build_cleanup_cmd, build_grpc_fault_cmd, build_http_fault_cmd,
  build_http_reset_peer_cmd, build_network_fault_cmd, build_dns_fault_cmd,
  build_network_shaping_cmd, build_network_partition_cmd, build_cpu_stress_cmd,
  build_memory_stress_cmd, build_disk_fill_cmd, build_io_stress_cmd,
}

-- A nil Cleanup is none.
pub record VisitCommands : Type 0 where
  pub exec : List Text
  pub cleanup : Option (List Text)

-- The commands with the agent's cleanup, which all but the cleanup command itself have.
abbrev pub with_cleanup : List Text → VisitCommands
with_cleanup words = record { exec = words; cleanup = some build_cleanup_cmd }

-- FindPort, PodIP, and the command built from what they give.
unfoldable pub at_port_and_ip :
    IntOrString → Pod → (IntOrString → Text → List Text) → Option (Result VisitCommands)
unfolding find_port pod_ip
at_port_and_ip port pod build = elim (find_port port pod) [
  | none ↦ none
  | some found ↦
      some
        (found >>= λ pod_port. pod_ip pod >>= λ address. ok (with_cleanup (build pod_port address)))
]

abbrev pub host_network_error : Error
host_network_error = message "fault cannot be safely injected because pod %q uses hostNetwork"

abbrev pub direction_error : Error
direction_error = message "direction is required for network partition fault"

abbrev pub hosts_error : Error
hosts_error = message "at least one host is required for network partition fault"

module _ {F : Type 0} (floats : Floats F) (texts : FloatText F) where
  unfoldable pub http_fault_commands :
      HttpFault F → ℤ → ProxyOptions → Pod → Option (Result VisitCommands)
  unfolding has_host_network at_port_and_ip build_http_fault_cmd
  http_fault_commands fault duration options pod =
      if has_host_network pod
      then some (err host_network_error)
      else at_port_and_ip fault.port pod (λ pod_port address.
        build_http_fault_cmd floats texts address (record fault { port = pod_port }) duration
          options)

  -- The command is built from the fault as it is given, not from the one with the pod's port.
  unfoldable pub grpc_fault_commands : GrpcFault F → ℤ → ℕ → Pod → Option (Result VisitCommands)
  unfolding has_host_network at_port_and_ip build_grpc_fault_cmd
  grpc_fault_commands fault duration proxy_port pod =
      if has_host_network pod
      then some (err host_network_error)
      else at_port_and_ip fault.port pod
          (λ pod_port address. build_grpc_fault_cmd floats texts address fault duration proxy_port)

  unfoldable pub http_reset_peer_commands :
      HttpResetPeerFault F → ℤ → ProxyOptions → Pod → Option (Result VisitCommands)
  unfolding at_port_and_ip build_http_reset_peer_cmd
  http_reset_peer_commands fault duration options pod =
      at_port_and_ip fault.port pod (λ pod_port address.
        build_http_reset_peer_cmd floats texts address (record fault { port = pod_port }) duration
          options)

  unfoldable pub network_fault_commands : NetworkFault → ℤ → Result VisitCommands
  unfolding build_network_fault_cmd
  network_fault_commands fault duration =
      ok (with_cleanup (build_network_fault_cmd floats texts fault duration))

  unfoldable pub network_shaping_commands : NetworkShapingFault F → ℤ → Result VisitCommands
  unfolding build_network_shaping_cmd
  network_shaping_commands fault duration =
      ok (with_cleanup (build_network_shaping_cmd floats texts fault duration))

  unfoldable pub network_partition_commands : NetworkPartitionFault → ℤ → Result VisitCommands
  unfolding build_network_partition_cmd
  network_partition_commands fault duration =
      fail_if (is_empty fault.direction) direction_error
      >> fail_if (length fault.hosts == 0) hosts_error
      >> ok (with_cleanup (build_network_partition_cmd floats texts fault duration))

  unfoldable pub cpu_stress_commands : CpuStressFault → ℤ → Result VisitCommands
  unfolding build_cpu_stress_cmd
  cpu_stress_commands fault duration =
      ok (with_cleanup (build_cpu_stress_cmd floats texts fault duration))

  unfoldable pub memory_stress_commands : MemoryStressFault → ℤ → Result VisitCommands
  unfolding build_memory_stress_cmd
  memory_stress_commands fault duration =
      ok (with_cleanup (build_memory_stress_cmd floats texts fault duration))

  unfoldable pub dns_fault_commands : DnsFault F → ℤ → Result VisitCommands
  unfolding build_dns_fault_cmd
  dns_fault_commands fault duration =
      ok (with_cleanup (build_dns_fault_cmd floats texts fault duration))

  unfoldable pub disk_fill_commands : DiskFillFault → ℤ → Result VisitCommands
  unfolding build_disk_fill_cmd
  disk_fill_commands fault duration =
      fail_if (not (positive fault.bytes))
        (message "bytes must be greater than zero for disk fill fault")
      >> ok (with_cleanup (build_disk_fill_cmd floats texts fault duration))

  unfoldable pub io_stress_commands : IoStressFault → ℤ → Result VisitCommands
  unfolding build_io_stress_cmd
  io_stress_commands fault duration =
      ok (with_cleanup (build_io_stress_cmd floats texts fault duration))

unfoldable pub cleanup_commands : Result VisitCommands
unfolding build_cleanup_cmd
cleanup_commands = ok (record { exec = build_cleanup_cmd; cleanup = none })
