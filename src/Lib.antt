-- ===== src/Lib.antt =====
-- xk6-disruptor: fault injection for Kubernetes. A controller, driven by a test script, picks target
-- pods and workloads through the Kubernetes API; in a pod it attaches an agent and runs the agent's
-- command there, in a workload it changes the replica count. The agent puts iptables rules in place,
-- alone or around a proxy that disturbs requests, waits for the duration of the fault, and undoes what
-- it did.
--
-- Which file models which part, with paths from the repository's root:
--   Iptables, Iptables/*        pkg/iptables/iptables.go: Rule, RuleSet and the exec of a command line
--   Network, Network/*          pkg/agent/network/disruptor.go, partition.go and shaping.go
--   Protocol, Protocol/*        pkg/agent/protocol/protocol.go (Apply), redirector.go, metricmap.go
--   Http, Http/*                pkg/agent/protocol/http/proxy.go: NewProxy and the handler of a request
--                               and resetpeer.go
--   Grpc, Grpc/*                pkg/agent/protocol/grpc/proxy.go and handler.go
--   Dns, Dns/*                  pkg/agent/dns/proxy.go and cmd/agent/commands/dns.go
--   TcpConn, TcpConn/*          pkg/agent/tcpconn/disruptor.go and dropper.go
--   Runtime, Runtime/*          pkg/runtime/lock.go
--   Agent, Agent/*              pkg/agent/agent.go and pkg/runtime/profiler
--   Workload, Workload/*        pkg/disruptors/replica.go, workload.go, workload_selector.go and
--                               pkg/kubernetes/helpers/workloads.go
--   IntOrString, IntOrString/*  pkg/types/intstr/intstr.go
--   Pods, Pods/*                pkg/utils/kubernetes.go
--   PodWaits, PodWaits/*        pkg/kubernetes/helpers/pods.go
--   Controller, Controller/*    pkg/disruptors/controller.go, commads.go and the faults of protocol.go,
--                               network.go, dns.go, stress.go and disk.go; pkg/utils/strings.go
--   PodDisruptor, PodDisruptor/*
--                               pkg/disruptors/pod.go, selector.go, terminate.go, crashloop.go and
--                               service.go
--   Nodes, Nodes/*              pkg/disruptors/node.go and pkg/kubernetes/helpers/nodes.go
--   Prelude, Prelude/*          shared tests, lists, integers, text and errors
--   Examples, Examples/*        the concrete inputs at which the theorems are applied
-- A definition has the name of the function that it models, in lower case with underscores; a type has
-- the name of the Go type.
--
-- State is passed along. W is the state of a machine, of a cluster or of the pods, and everything that
-- changes it from outside of the repository is a parameter: the iptables binary (Executor, with what
-- the code relies on in the record Netfilter and in DeletesPresent), tc (TrafficControl), the
-- Kubernetes API (Api, with ApiLaws, NodeApi, with NodeLaws, and PodClient), the helper that runs
-- commands in pods (PodHelper, with CleanLaws), the upstream server, the random numbers and the
-- spelling rules of net/http (Env), floating-point numbers (Floats). An error is a value of Error, in
-- which the text of a message is the format that the source writes. A call that can panic gives an
-- option.
--
-- What several goroutines do is a list of events or an order of whole calls: the wait of Apply takes a
-- list of events, a scaling or the work on several nodes an order of whole calls. An injection takes a
-- list of what happens in the pods while it waits: a visit that ends before the call returns is one
-- step, at its end, and one that does not end by then changes the cluster by a function. The lock is
-- modelled twice: with each call of Acquire and Release as one step of a system in which agents start
-- and die, and with the parts of Acquire as steps, each of which groups a few system calls, so that
-- two calls interleave; the two relays of a gRPC call and the loop that waits for them are steps too.
-- A relay's step may fail at any time, with any error: there are more runs than the code has. A wait
-- on a channel reads the list of what the channel delivers. Integers are native numbers; where the
-- source computes in int32 or int64 the conversion is written out, and a counter wraps at 2 ^ 64. The
-- printing of a numeral takes fuel, one unit more than the number's value, and a number has no more
-- digits than that. The crash loop takes fuel for its rounds: with a count of n, 5 n + 1 rounds are
-- enough, since five failures in a row end the loop; with no count it ends with the first round after
-- the deadline.
--
-- Not modelled: what net/http makes of the header, code and body that a handler hands to it; the rest
-- of the agent's command line, which declares flags; the stressors, which loop over the clock, memory
-- and files of the machine; the bytes that the reset-peer proxy copies; what a profiling probe
-- measures; the node pool, Istio and webhook disruptors and the helper for services, which build
-- objects and send them; and the JavaScript API, which converts by reflection.
pub mod Prelude
pub mod Iptables
pub mod Network
pub mod Protocol
pub mod Http
pub mod Grpc
pub mod Dns
pub mod TcpConn
pub mod Workload
pub mod IntOrString
pub mod Pods
pub mod PodWaits
pub mod Controller
pub mod PodDisruptor
pub mod Nodes
pub mod Runtime
pub mod Agent
pub mod Examples
