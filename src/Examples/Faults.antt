-- ===== src/Examples/Faults.antt =====
-- The theorems on the crash loop, the injections of a pod disruptor and of a service, DNS entries and
-- TCP connections.
use xk6_disruptor.Prelude.{
  ℕ, ◌%◌, ◌≤◌, ◌≡◌, refl, ◌⊎◌, Bool, true, false, Option, none, some, List, [], ◌∷◌, arith, Text,
  codes, text_eq, words_eq, show_ℕ, Error, deadline_exceeded, external, is_some, ok, err, ltb, leb,
  ◌==◌, if◌then◌else◌, pos,
}
use xk6_disruptor.Prelude.Floats.{Floats}
use xk6_disruptor.Pods.{Pod}
use xk6_disruptor.Controller.Faults.{ProxyOptions, HttpFault}
use xk6_disruptor.Controller.Arguments.{FloatText, build_cleanup_cmd}
use xk6_disruptor.Controller.Visitor.{PodHelper, VisitorOptions}
use xk6_disruptor.PodDisruptor.CrashLoop.{CrashLoopFault, Round, crash_loop}
use xk6_disruptor.PodDisruptor.Crashes.{crash_loop_ends, crash_loop_exact}
use xk6_disruptor.PodDisruptor.Injections.{
  Injection, Happening, visited, unfinished, panicked, waiting, returned, inject_http_faults,
}
use xk6_disruptor.Dns.Proxy.{lookup}
use xk6_disruptor.Dns.Spoof.{parse_spoof_entries, bad_entry}
use xk6_disruptor.Dns.Entries.{all_entries, last_address, spoof_entries_exact}
use xk6_disruptor.TcpConn.Disruptor.{Queue, context_done, apply}
use xk6_disruptor.TcpConn.Safety.{tcp_apply_fails}
use xk6_disruptor.Examples.Machine.{machine}

abbrev fault : CrashLoopFault
fault = record { count = pos 3; restart_timeout = pos 0 }

-- The container restarts in every round.
abbrev healthy : Round
healthy = record {
  cancelled = false;
  after_deadline = false;
  remaining = pos 60;
  wait_running = λ t. ok true;
  restart_count = ok 4;
  kill = none;
  remaining_again = pos 50;
  wait_restart = λ n t. ok true;
}

-- Every second round the kill command fails.
abbrev rounds : ℕ → Round
rounds i = record healthy { kill = if i % 2 == 0 then none else some (external 1) }

crash_loop_ends_example :
    (c : ℕ) × (e : Option Error) × (crash_loop 16 fault rounds 0 0 ≡ some (c, e)) × (c ≤ 3)
crash_loop_ends_example = crash_loop_ends fault 3 refl (omega arith) rounds

crash_loop_exact_example : crash_loop 3 fault (λ i. healthy) 1 0 ≡ some (3, none)
crash_loop_exact_example =
    crash_loop_exact fault (λ i. healthy) 2 1 refl (omega arith)
      (λ i. record {
        runs = refl;
        early = refl;
        time = refl;
        up = λ t. refl;
        counted = (4, refl);
        killed = refl;
        time_again = refl;
        up_again = λ n t. refl;
      })

abbrev percent_floats : Floats ℕ
percent_floats = record { less = ltb; at_most = leb; zero_f = 0; one_f = 100 }

abbrev percent_texts : FloatText ℕ
percent_texts = record { sprint = show_ℕ; two_decimals = λ d. codes "60.00" }

abbrev pod : Text → Pod
pod name = record {
  pod_name = name;
  pod_namespace = codes "default";
  pod_ip_address = codes "10.0.0.7";
  host_network = false;
  containers = (record { container_port_name = codes "web"; container_port = pos 8080 } ∷ []) ∷ [];
}

abbrev pods : List Pod
pods = pod (codes "shop-1") ∷ pod (codes "shop-2") ∷ []

-- The state holds which pods have an active fault. The agent fails in the second pod, and leaves its fault.
abbrev State : Type 0
State = Text → Bool

abbrev ran : State → Text → List Text → Option Error × State
ran w name words =
    if words_eq words build_cleanup_cmd
    then (none, λ s. if text_eq s name then false else w s)
    else if text_eq name (codes "shop-2")
    then (some (external 1), λ s. if text_eq s name then true else w s)
    else (none, w)

abbrev helper : PodHelper State
helper = record {
  attach_ephemeral_container = λ w name container options. (none, w);
  exec_in = λ w name container words. ran w name words;
}

abbrev Clean : Text → State → Type 0
Clean p w = w p ≡ false

abbrev options : VisitorOptions
options = record { inject_timeout = pos 0; agent_image = [] }

abbrev http_fault : HttpFault ℕ
http_fault = record {
  port = codes "web";
  average_delay = pos 0;
  delay_variation = pos 0;
  error_rate = 10;
  error_code = 500;
  error_body = [];
  exclude = [];
  modify_response_body = [];
  modify_response_headers = [];
}

abbrev proxy : ProxyOptions
proxy = record { proxy_port = 0; non_transparent = false }

abbrev quiet : State
quiet p = false

-- The visit of the second pod fails while that of the first one has begun.
abbrev happenings : List (Happening State)
happenings =
    unfinished (pod (codes "shop-1")) (λ w s. if text_eq s (codes "shop-1") then true else w s)
    ∷ visited (pod (codes "shop-2"))
    ∷ []

abbrev injection : Injection State
injection =
    inject_http_faults percent_floats percent_texts helper (codes "image") options (ok pods)
      happenings http_fault (pos 60000000000) proxy quiet

abbrev error_of : Injection State → Option Error
error_of panicked = none
error_of (waiting w) = none
error_of (returned e w) = e

abbrev state_of : Injection State → State
state_of panicked = quiet
state_of (waiting w) = w
state_of (returned e w) = w

abbrev spoofs : List Text
spoofs = codes "a.org=10.0.0.1" ∷ codes "a.org.=10.0.0.2" ∷ []

spoof_entries_exact_example :
    ((all_entries spoofs ≡ false) × (parse_spoof_entries spoofs ≡ err bad_entry))
    ⊎ ((m : List (Text × Text)) × (all_entries spoofs ≡ true)
        × (parse_spoof_entries spoofs ≡ ok m)
        × ((d : Text) → lookup d m ≡ last_address d spoofs))
spoof_entries_exact_example = spoof_entries_exact spoofs

abbrev queue : Queue
queue = record { open_error = none; register_error = none; wake = context_done deadline_exceeded }

tcp_apply_fails_example :
    is_some
      (apply
        (machine (λ key. false))
        []
        80
        (record { queue_id = 3; reject_mark = 5 })
        (pos 2000000000)
        queue).0
    ≡ true
tcp_apply_fails_example =
    tcp_apply_fails (machine (λ key. false)) [] 80 (record { queue_id = 3; reject_mark = 5 })
      (pos 2000000000) queue
