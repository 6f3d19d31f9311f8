-- ===== src/Agent/Profiler.antt =====
-- pkg/runtime/profiler/profiler.go, cpu.go, memory.go, metrics.go and trace.go: the probes that a
-- configuration asks for, and the order in which they start and stop. What a probe measures is not
-- modelled: a probe runs from its start until it is closed.
use xk6_disruptor.Prelude.{
  ℕ, Bool, true, false, Option, none, some, List, [], ◌∷◌, ◌++◌, Text, is_empty, Error, message,
  wrap, wrap_err, Result, ok, err, ◌>>=◌, if◌then◌else◌, ℤ, pos, ltb_ℤ,
}
use xk6_disruptor.Runtime.Files.{set}

pub record ProbeConfig : Type 0 where
  pub enabled : Bool
  pub file_name : Text

pub record ProfilerConfig : Type 0 where
  pub cpu_config : ProbeConfig
  pub memory_config : ProbeConfig
  pub memory_rate : ℤ
  pub trace_config : ProbeConfig
  pub metrics_config : ProbeConfig

pub data Probe : Type 0 where
  cpu memory metrics trace : Text → Probe

-- What os.Create, pprof.StartCPUProfile and trace.Start answer.
pub record ProbeErrors : Type 0 where
  pub create : Text → Option Error
  pub start_cpu : Option Error
  pub start_trace : Option Error

unfoldable pub new_cpu_probe : ProbeConfig → Result Probe
new_cpu_probe c =
    if is_empty c.file_name
    then err (message "CPU profile file name cannot be empty")
    else ok (cpu c.file_name)

unfoldable pub new_memory_probe : ProbeConfig → ℤ → Result Probe
new_memory_probe c rate =
    if ltb_ℤ rate (pos 0)
    then err (message "memory rate must be non-negative: %d")
    else if is_empty c.file_name
    then err (message "memory profile file name cannot be empty")
    else ok (memory c.file_name)

unfoldable pub new_trace_probe : ProbeConfig → Result Probe
new_trace_probe c =
    if is_empty c.file_name
    then err (message "trace output file name cannot be empty")
    else ok (trace c.file_name)

unfoldable pub new_metrics_probe : ProbeConfig → Result Probe
new_metrics_probe c =
    if is_empty c.file_name
    then err (message "metrics output file name cannot be empty")
    else ok (metrics c.file_name)

-- One of the four parts of buildProbes: the probe is appended if it is enabled.
unfoldable pub add_probe : Bool → Result Probe → List Probe → Result (List Probe)
add_probe false probe probes = ok probes
add_probe true probe probes = probe >>= λ p. ok (probes ++ p ∷ [])

unfoldable pub build_probes : ProfilerConfig → Result (List Probe)
unfolding add_probe new_cpu_probe new_memory_probe new_trace_probe new_metrics_probe
build_probes c =
    add_probe c.cpu_config.enabled (new_cpu_probe c.cpu_config) []
    >>= add_probe c.memory_config.enabled (new_memory_probe c.memory_config c.memory_rate)
    >>= add_probe c.trace_config.enabled (new_trace_probe c.trace_config)
    >>= add_probe c.metrics_config.enabled (new_metrics_probe c.metrics_config)

-- The error of a probe's Start.
unfoldable pub start_probe : ProbeErrors → Probe → Option Error
start_probe os (cpu file) = elim (os.create file) [
  | some e ↦ some (wrap "error creating CPU profiling file %q" e)
  | none ↦ wrap_err "failed to start CPU profiling" os.start_cpu
]
start_probe os (memory file) = wrap_err "error creating memory profiling file %q" (os.create file)
start_probe os (trace file) = elim (os.create file) [
  | some e ↦ some (wrap "failed to create trace output file %q" e)
  | none ↦ wrap_err "failed to start trace" os.start_trace
]
start_probe os (metrics file) = wrap_err "failed to create metrics output file %q" (os.create file)

-- Which probe it is: a configuration has at most one of each.
unfoldable pub probe_id : Probe → ℕ
probe_id (cpu f) = 0
probe_id (memory f) = 1
probe_id (trace f) = 2
probe_id (metrics f) = 3

-- The profiler's closers, and the probes that collect in the process.
pub record Profiler : Type 0 where
  pub closers : List Probe
  pub running : ℕ → Bool

-- The loop of Start: the error or the closers, with the probes that run.
unfoldable pub start_probes :
    ProbeErrors → List Probe → List Probe → (ℕ → Bool) → Result (List Probe) × (ℕ → Bool)
unfolding start_probe probe_id
start_probes os [] closers running = (ok closers, running)
start_probes os (p ∷ ps) closers running = elim (start_probe os p) [
  | some e ↦ (err e, running)
  | none ↦ start_probes os ps (closers ++ p ∷ []) (set (probe_id p) true running)
]

unfoldable pub close_all : List Probe → (ℕ → Bool) → (ℕ → Bool)
unfolding probe_id
close_all [] running = running
close_all (c ∷ cs) running = close_all cs (set (probe_id c) false running)

unfoldable pub close_profiler : Profiler → Profiler
unfolding close_all
close_profiler p = record p { running = close_all p.closers p.running }

-- What Start does once the probes are built, and once they were started.
unfoldable pub started : Profiler → Result (List Probe) × (ℕ → Bool) → Option Error × Profiler
unfolding close_profiler
started p (err e, running) = (some e, close_profiler (record p { running = running }))
started p (ok closers, running) = (none, record p { closers = closers; running = running })

unfoldable pub start_profiler : ProbeErrors → ProfilerConfig → Profiler → Option Error × Profiler
unfolding start_probes started build_probes
start_profiler os c p = elim (build_probes c) [
  | err e ↦ (some e, p)
  | ok probes ↦ started p (start_probes os probes [] p.running)
]

abbrev pub new_profiler : Profiler
new_profiler = record { closers = []; running = λ i. false }
