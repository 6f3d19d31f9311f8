-- ===== src/Examples/Pods.antt =====
-- The theorems on texts for integers, pods and the controller at work on a pod.
use xk6_disruptor.Prelude.{
  ℕ, ◌+◌, ◌*◌, ◌≤◌, ◌≡◌, refl, ◌↔◌, ◌⊎◌, Bool, true, false, Option, none, some, List, [], ◌∷◌, ◌++◌,
  arith, Text, codes, text_eq, words_eq, show_ℕ, external, Result, ok, ltb, leb, if◌then◌else◌,
  take, drop, All, ℤ, pos,
}
use xk6_disruptor.Prelude.Floats.{Floats}
use xk6_disruptor.IntOrString.{from_int32}
use xk6_disruptor.Pods.{
  ServicePort, ContainerPort, Pod, sample, find_port, first_in, has_host_network,
}
use xk6_disruptor.Pods.Sampling.{sample_percentage}
use xk6_disruptor.Pods.Ports.{Listed}
use xk6_disruptor.PodWaits.Conditions.{
  WatchedPod, wait_container_restart, other, modified, Watched, pod_running, wait_pod_running,
}
use xk6_disruptor.PodWaits.Restarts.{IsSeen, CountedAbove, wait_container_restart-IsSeen}
use xk6_disruptor.PodWaits.Waits.{ComesToRun, wait_pod_running_iff}
use xk6_disruptor.Controller.Faults.{ProxyOptions, HttpFault, GrpcFault}
use xk6_disruptor.Controller.Arguments.{
  FloatText, build_cleanup_cmd, build_http_fault_cmd, build_grpc_fault_cmd,
}
use xk6_disruptor.Controller.Commands.{
  VisitCommands, with_cleanup, http_fault_commands, grpc_fault_commands,
}
use xk6_disruptor.Controller.Visitor.{PodHelper, VisitorOptions}
use xk6_disruptor.Controller.Visit.{VisitEvent, IsSuccess, visit_all, visit_all_returns_nil}
use xk6_disruptor.Controller.Outcomes.{http_fault_port, grpc_fault_port}

abbrev web_port : ContainerPort
web_port = record { container_port_name = codes "web"; container_port = pos 8080 }

abbrev pod : Pod
pod = record {
  pod_name = codes "shop-1";
  pod_namespace = codes "default";
  pod_ip_address = codes "10.0.0.7";
  host_network = false;
  containers = [] ∷ (web_port ∷ []) ∷ [];
}

sample_percentage_example :
    (k : ℕ) × (sample (pod ∷ pod ∷ []) (from_int32 (pos 25) ++ b'%' ∷ [])
      ≡ some (ok (take k (pod ∷ pod ∷ []))))
    × (1 ≤ k)
    × (k ≤ 2)
    × ((k ≡ 1) ⊎ (100 * k ≤ 2 * 25 + 50))
    × (2 * 25 ≤ 100 * k + 50)
sample_percentage_example =
    sample_percentage (pod ∷ pod ∷ []) 25 (omega arith) (omega arith) (omega arith)

abbrev percent_floats : Floats ℕ
percent_floats = record { less = ltb; at_most = leb; zero_f = 0; one_f = 100 }

abbrev percent_texts : FloatText ℕ
percent_texts = record { sprint = show_ℕ; two_decimals = λ d. codes "60.00" }

abbrev http_fault : HttpFault ℕ
http_fault = record {
  port = codes "web";
  average_delay = pos 100000000;
  delay_variation = pos 0;
  error_rate = 10;
  error_code = 500;
  error_body = [];
  exclude = codes "/health";
  modify_response_body = [];
  modify_response_headers = (codes "Server", codes "other") ∷ [];
}

abbrev grpc_fault : GrpcFault ℕ
grpc_fault = record {
  port = codes "web";
  average_delay = pos 0;
  delay_variation = pos 0;
  error_rate = 10;
  status_code = pos 14;
  status_message = [];
  exclude = [];
}

abbrev plain : ProxyOptions
plain = record { proxy_port = 0; non_transparent = false }

abbrev agent_http : List Text
agent_http = codes "xk6-disruptor-agent" ∷ codes "http" ∷ []

-- The cluster of a visit: the agent's command that was run last and not cleaned up, if there is one. The
-- command fails when the test says so.
abbrev Agents : Type 0
Agents = Option (List Text)

abbrev helper : Bool → PodHelper Agents
helper fails = record {
  attach_ephemeral_container = λ w name container options. (none, w);
  exec_in = λ w name container words.
      if words_eq words (codes "xk6-disruptor-agent" ∷ codes "cleanup" ∷ [])
      then (none, none)
      else if fails
      then (some (external 1), some words)
      else (none, none);
}

abbrev options : VisitorOptions
options = record { inject_timeout = pos 0; agent_image = [] }

abbrev command : Pod → Result VisitCommands
command p = ok (with_cleanup agent_http)

-- The commands that the pod gets for the two faults.
abbrev http_commands : VisitCommands
http_commands = with_cleanup (
    build_http_fault_cmd percent_floats percent_texts (codes "10.0.0.7")
      (record http_fault { port = codes "8080" }) (pos 60000000000) plain)

abbrev grpc_commands : VisitCommands
grpc_commands = with_cleanup (
    build_grpc_fault_cmd percent_floats percent_texts (codes "10.0.0.7") grpc_fault
      (pos 60000000000) 0)

http_fault_port_example :
    (has_host_network pod ≡ false)
    × ((test : ContainerPort → Bool) × (p : ContainerPort) × (first_in test pod.containers ≡ some p)
        × (take 2 (drop 4 http_commands.exec) ≡ codes "-t" ∷ from_int32 p.container_port ∷ []))
    × (http_commands.cleanup ≡ some build_cleanup_cmd)
unfolding http_fault_commands text_eq show_ℕ
http_fault_port_example =
    http_fault_port percent_floats percent_texts http_fault (pos 60000000000) plain pod
      http_commands refl

grpc_fault_port_example :
    (take 4 (drop 4 grpc_commands.exec) ≡ codes "-t" ∷ codes "web" ∷ codes "-t" ∷ codes "web" ∷ [])
    × ((found : Text) × (find_port (codes "web") pod ≡ some (ok found)) × Listed pod found)
unfolding grpc_fault_commands text_eq
grpc_fault_port_example =
    grpc_fault_port percent_floats percent_texts grpc_fault (pos 60000000000) 0 pod grpc_commands
      refl refl

visit_all_returns_nil_example :
    (visit_all (pod ∷ pod ∷ []) (VisitEvent.done none ∷ VisitEvent.done none ∷ []) ≡ some none)
    ↔ ((2 ≤ 2) × All IsSuccess (VisitEvent.done none ∷ VisitEvent.done none ∷ []))
visit_all_returns_nil_example =
    visit_all_returns_nil (pod ∷ pod ∷ []) (VisitEvent.done none ∷ VisitEvent.done none ∷ [])
      (omega arith)

abbrev service_ports : List ServicePort
service_ports =
    record { service_port_name = codes "http"; service_port = pos 80; target_port = codes "web" }
    ∷ record {
      service_port_name = codes "admin";
      service_port = pos 81;
      target_port = codes "9000";
    }
    ∷ []

abbrev in_phase : Text → WatchedPod
in_phase phase = record {
  name = codes "shop-1";
  phase = phase;
  container_statuses = [];
  ephemeral_statuses = [];
  ephemeral_containers = [];
}

abbrev watched : Watched
watched = record {
  start = none;
  pod = ok (in_phase (codes "Pending"));
  events = other ∷ modified (in_phase pod_running) ∷ [];
}

wait_pod_running_iff_example : (wait_pod_running watched ≡ some (true, none)) ↔ (
    (watched.start ≡ none)
    × ((seen : WatchedPod) × (watched.pod ≡ ok seen) × ComesToRun seen watched.events))
wait_pod_running_iff_example = wait_pod_running_iff watched

pending_pod_runs : wait_pod_running watched ≡ some (true, none)
unfolding wait_pod_running text_eq
pending_pod_runs = refl

abbrev restarted : ℤ → WatchedPod
restarted n = record (in_phase pod_running) {
  container_statuses = record { name = codes "web"; running = true; restart_count = n } ∷ [];
}

-- The container has restarted once, and the second event shows one restart more.
abbrev restarting : Watched
restarting = record {
  start = none;
  pod = ok (restarted (pos 1));
  events = modified (restarted (pos 1)) ∷ modified (restarted (pos 2)) ∷ [];
}

wait_container_restart-IsSeen_example :
    (seen : WatchedPod) × ((restarting.pod ≡ ok seen) ⊎ IsSeen seen restarting.events)
    × CountedAbove (codes "web") (pos 1) (pos 2) seen
unfolding wait_container_restart text_eq
wait_container_restart-IsSeen_example =
    wait_container_restart-IsSeen (codes "web") (pos 1) (pos 2) restarting refl
