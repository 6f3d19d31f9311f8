-- ===== src/Controller/Arguments.antt =====
-- pkg/disruptors/commads.go: the functions that build the agent's command line for a fault, with the
-- durations of pkg/utils/strings.go. What fmt prints for a floating-point number is a parameter.
use xk6_disruptor.Prelude.{
  ℕ, Bool, not, ◌&&◌, List, [], ◌∷◌, ◌++◌, Text, codes, is_empty, show_ℕ, ◌==◌, if◌then◌else◌, ℤ,
  pos, quot_ℤ, ltb_ℤ,
}
use xk6_disruptor.Prelude.Floats.{Floats}
use xk6_disruptor.IntOrString.{from_int32}
use xk6_disruptor.Controller.Faults.{
  ProxyOptions, NetworkFault, NetworkPartitionFault, CpuStressFault, MemoryStressFault,
  DiskFillFault, IoStressFault, HttpFault, HttpResetPeerFault, GrpcFault, NetworkShapingFault,
  DnsFault,
}

-- fmt.Sprint(x) at a float32, and fmt.Sprintf("%.2f", d.Seconds()).
pub record FloatText (F : Type 0) : Type 0 where
  pub sprint : F → Text
  pub two_decimals : ℤ → Text

-- fmt.Sprint at a signed integer prints the numeral that %d prints.
abbrev pub show_ℤ : ℤ → Text
show_ℤ = from_int32

-- strings.TrimRight(s, c) at a cutset of one character.
unfoldable pub trim_right : ℕ → Text → Text
trim_right c [] = []
trim_right c (d ∷ s) = let rest = trim_right c s in if is_empty rest && d == c then [] else d ∷ rest

-- The words that an `if` appends to a command.
abbrev pub when : Bool → List Text → List Text
when test words = if test then words else []

abbrev pub positive : ℤ → Bool
positive v = ltb_ℤ (pos 0) v

-- A flag with a value for every entry of a map, and for every host.
unfoldable pub entries : Text → List (Text × Text) → List Text
entries flag [] = []
entries flag ((key, value) ∷ rest) = flag ∷ (key ++ b'=' ∷ value) ∷ entries flag rest

unfoldable pub host_flags : List Text → List Text
host_flags [] = []
host_flags (host ∷ rest) = codes "--host" ∷ host ∷ host_flags rest

unfoldable pub duration_milliseconds : ℤ → Text
duration_milliseconds d = show_ℤ (quot_ℤ d 1000000) ++ codes "ms"

unfoldable pub build_cleanup_cmd : List Text
build_cleanup_cmd = codes "xk6-disruptor-agent" ∷ codes "cleanup" ∷ []

module _ {F : Type 0} (floats : Floats F) (texts : FloatText F) where
  abbrev pub positive_f : F → Bool
  positive_f x = floats.less floats.zero_f x

  unfoldable pub duration_seconds : ℤ → Text
  unfolding trim_right
  duration_seconds d = trim_right b'.' (trim_right b'0' (texts.two_decimals d)) ++ codes "s"

  -- The program, the agent's command, and the duration of the fault.
  abbrev pub command_head : Text → ℤ → List Text
  command_head name duration =
      codes "xk6-disruptor-agent" ∷ name ∷ codes "-d" ∷ duration_seconds duration ∷ []

  abbrev pub delay_words : ℤ → ℤ → List Text
  delay_words average variation = when (positive average) (
      codes "-a"
      ∷ duration_milliseconds average
      ∷ codes "-v"
      ∷ duration_milliseconds variation
      ∷ [])

  unfoldable pub build_grpc_fault_cmd : Text → GrpcFault F → ℤ → ℕ → List Text
  unfolding duration_seconds duration_milliseconds
  build_grpc_fault_cmd target_address fault duration proxy_port =
      command_head (codes "grpc") duration
      ++ (codes "-t" ∷ fault.port ∷ [])
      ++ when (not (is_empty fault.port)) (codes "-t" ∷ fault.port ∷ [])
      ++ delay_words fault.average_delay fault.delay_variation
      ++ when (positive_f fault.error_rate) (
          (codes "-s" ∷ show_ℤ fault.status_code ∷ codes "-r" ∷ texts.sprint fault.error_rate ∷ [])
          ++ when (not (is_empty fault.status_message)) (codes "-m" ∷ fault.status_message ∷ []))
      ++ when (not (is_empty fault.exclude)) (codes "-x" ∷ fault.exclude ∷ [])
      ++ when (not (proxy_port == 0)) (codes "-p" ∷ show_ℕ proxy_port ∷ [])
      ++ (codes "--upstream-host" ∷ target_address ∷ [])

  unfoldable pub build_http_fault_cmd : Text → HttpFault F → ℤ → ProxyOptions → List Text
  unfolding duration_seconds duration_milliseconds entries
  build_http_fault_cmd target_address fault duration options =
      command_head (codes "http") duration
      ++ when (not (is_empty fault.port)) (codes "-t" ∷ fault.port ∷ [])
      ++ delay_words fault.average_delay fault.delay_variation
      ++ when (positive_f fault.error_rate) (
          (codes "-e" ∷ show_ℕ fault.error_code ∷ codes "-r" ∷ texts.sprint fault.error_rate ∷ [])
          ++ when (not (is_empty fault.error_body)) (codes "-b" ∷ fault.error_body ∷ []))
      ++ when (not (is_empty fault.exclude)) (codes "-x" ∷ fault.exclude ∷ [])
      ++ when (not (is_empty fault.modify_response_body))
          (codes "--modify-body" ∷ fault.modify_response_body ∷ [])
      ++ entries (codes "--modify-header") fault.modify_response_headers
      ++ when (not (options.proxy_port == 0)) (codes "-p" ∷ show_ℕ options.proxy_port ∷ [])
      ++ when options.non_transparent (codes "--transparent=false" ∷ [])
      ++ (codes "--upstream-host" ∷ target_address ∷ [])

  unfoldable pub build_http_reset_peer_cmd :
      Text → HttpResetPeerFault F → ℤ → ProxyOptions → List Text
  unfolding duration_seconds duration_milliseconds
  build_http_reset_peer_cmd target_address fault duration options =
      command_head (codes "http-reset-peer") duration
      ++ when (not (is_empty fault.port)) (codes "-t" ∷ fault.port ∷ [])
      ++ when (positive fault.reset_timeout)
          (codes "--reset-timeout" ∷ duration_milliseconds fault.reset_timeout ∷ [])
      ++ when (positive_f fault.toxicity) (codes "--toxicity" ∷ texts.sprint fault.toxicity ∷ [])
      ++ when (not (options.proxy_port == 0)) (codes "-p" ∷ show_ℕ options.proxy_port ∷ [])
      ++ when options.non_transparent (codes "--transparent=false" ∷ [])
      ++ (codes "--upstream-host" ∷ target_address ∷ [])

  unfoldable pub build_network_fault_cmd : NetworkFault → ℤ → List Text
  unfolding duration_seconds
  build_network_fault_cmd fault duration =
      command_head (codes "network-drop") duration
      ++ when (not (fault.port == 0)) (codes "-p" ∷ show_ℕ fault.port ∷ [])
      ++ when (not (is_empty fault.protocol)) (codes "-P" ∷ fault.protocol ∷ [])

  unfoldable pub build_dns_fault_cmd : DnsFault F → ℤ → List Text
  unfolding duration_seconds entries
  build_dns_fault_cmd fault duration =
      command_head (codes "dns") duration
      ++ when (positive_f fault.error_rate) (codes "-r" ∷ texts.sprint fault.error_rate ∷ [])
      ++ when (not (is_empty fault.upstream_dns)) (codes "--upstream" ∷ fault.upstream_dns ∷ [])
      ++ entries (codes "--spoof") fault.spoof

  unfoldable pub build_network_shaping_cmd : NetworkShapingFault F → ℤ → List Text
  unfolding duration_seconds duration_milliseconds
  build_network_shaping_cmd fault duration =
      command_head (codes "network-shape") duration
      ++ when (not (is_empty fault.interface_name))
          (codes "--interface" ∷ fault.interface_name ∷ [])
      ++ when (positive fault.delay) (codes "--delay" ∷ duration_milliseconds fault.delay ∷ [])
      ++ when (positive fault.jitter) (codes "--jitter" ∷ duration_milliseconds fault.jitter ∷ [])
      ++ when (positive_f fault.loss) (codes "--loss" ∷ texts.sprint fault.loss ∷ [])
      ++ when (positive_f fault.corrupt) (codes "--corrupt" ∷ texts.sprint fault.corrupt ∷ [])
      ++ when (positive_f fault.duplicate) (codes "--duplicate" ∷ texts.sprint fault.duplicate ∷ [])
      ++ when (not (is_empty fault.rate)) (codes "--rate" ∷ fault.rate ∷ [])

  unfoldable pub build_network_partition_cmd : NetworkPartitionFault → ℤ → List Text
  unfolding duration_seconds host_flags
  build_network_partition_cmd fault duration =
      command_head (codes "network-partition") duration
      ++ (codes "--direction" ∷ fault.direction ∷ [])
      ++ host_flags fault.hosts

  unfoldable pub build_cpu_stress_cmd : CpuStressFault → ℤ → List Text
  unfolding duration_seconds
  build_cpu_stress_cmd fault duration =
      command_head (codes "stress") duration
      ++ (codes "-l" ∷ show_ℤ fault.load ∷ codes "-c" ∷ show_ℤ fault.cpus ∷ [])

  unfoldable pub build_memory_stress_cmd : MemoryStressFault → ℤ → List Text
  unfolding duration_seconds
  build_memory_stress_cmd fault duration =
      command_head (codes "memory-stress") duration ++ (codes "--bytes" ∷ show_ℤ fault.bytes ∷ [])

  unfoldable pub build_disk_fill_cmd : DiskFillFault → ℤ → List Text
  unfolding duration_seconds
  build_disk_fill_cmd fault duration =
      command_head (codes "disk-fill") duration
      ++ (codes "--bytes" ∷ show_ℤ fault.bytes ∷ [])
      ++ when (not (is_empty fault.path)) (codes "--path" ∷ fault.path ∷ [])
      ++ when (positive fault.block_size) (codes "--block-size" ∷ show_ℤ fault.block_size ∷ [])

  unfoldable pub build_io_stress_cmd : IoStressFault → ℤ → List Text
  unfolding duration_seconds
  build_io_stress_cmd fault duration =
      command_head (codes "io-stress") duration
      ++ when (not (is_empty fault.path)) (codes "--path" ∷ fault.path ∷ [])
      ++ when (positive fault.workers) (codes "--workers" ∷ show_ℤ fault.workers ∷ [])
      ++ when (positive fault.bytes_per_worker)
          (codes "--bytes-per-worker" ∷ show_ℤ fault.bytes_per_worker ∷ [])
