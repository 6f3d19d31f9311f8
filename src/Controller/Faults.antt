-- ===== src/Controller/Faults.antt =====
-- pkg/disruptors/protocol.go, network.go, dns.go, stress.go and disk.go: the faults as the scripts
-- describe them. A duration is in nanoseconds, a map is the list of its entries in the order in which
-- a range visits them, and F stands for float32.
use xk6_disruptor.Prelude.{ℕ, Bool, List, Text, ℤ}
use xk6_disruptor.IntOrString.{IntOrString}

pub record ProxyOptions : Type 0 where
  pub proxy_port : ℕ
  pub non_transparent : Bool

pub record NetworkFault : Type 0 where
  pub port : ℕ
  pub protocol : Text

pub record NetworkPartitionFault : Type 0 where
  pub direction : Text
  pub hosts : List Text

pub record CpuStressFault : Type 0 where
  pub load : ℤ
  pub cpus : ℤ

pub record MemoryStressFault : Type 0 where
  pub bytes : ℤ

pub record DiskFillFault : Type 0 where
  pub bytes : ℤ
  pub path : Text
  pub block_size : ℤ

pub record IoStressFault : Type 0 where
  pub path : Text
  pub workers : ℤ
  pub bytes_per_worker : ℤ

pub record HttpFault (F : Type 0) : Type 0 where
  pub port : IntOrString
  pub average_delay : ℤ
  pub delay_variation : ℤ
  pub error_rate : F
  pub error_code : ℕ
  pub error_body : Text
  pub exclude : Text
  pub modify_response_body : Text
  pub modify_response_headers : List (Text × Text)

pub record HttpResetPeerFault (F : Type 0) : Type 0 where
  pub port : IntOrString
  pub reset_timeout : ℤ
  pub toxicity : F

pub record GrpcFault (F : Type 0) : Type 0 where
  pub port : IntOrString
  pub average_delay : ℤ
  pub delay_variation : ℤ
  pub error_rate : F
  pub status_code : ℤ
  pub status_message : Text
  pub exclude : Text

pub record NetworkShapingFault (F : Type 0) : Type 0 where
  pub interface_name : Text
  pub delay : ℤ
  pub jitter : ℤ
  pub loss : F
  pub corrupt : F
  pub duplicate : F
  pub rate : Text

pub record DnsFault (F : Type 0) : Type 0 where
  pub error_rate : F
  pub spoof : List (Text × Text)
  pub upstream_dns : Text
