-- ===== src/Agent/Lifecycle.antt =====
-- pkg/agent/agent.go: Start, ApplyDisruption and Stop, on the lock's files, the signal handler and the profiler.
use xk6_disruptor.Prelude.{
  ℕ, Bool, true, false, not, Option, none, some, Error, message, wrap, wrap_err, is_some, Result,
  ok, err, if◌then◌else◌,
}
use xk6_disruptor.Runtime.Files.{Files}
use xk6_disruptor.Runtime.Lock.{LockErrors, acquire, release}
use xk6_disruptor.Agent.Profiler.{
  ProfilerConfig, ProbeErrors, Profiler, start_profiler, close_profiler,
}

-- The process, what it asks for, and what the system answers to it.
pub record Setting : Type 0 where
  pub alive : ℕ → Bool
  pub me : ℕ
  pub config : ProfilerConfig
  pub lock_errors : LockErrors
  -- of os.ReadFile and os.Remove in Release
  pub release_read_error : Option Error
  pub release_error : Option Error
  pub probe_errors : ProbeErrors

-- What the process changes: the files, whether signals come to the agent's channel, the profiler.
pub record Environment : Type 0 where
  pub files : Files
  pub notified : Bool
  pub profiler : Profiler

-- The agent has a profileCloser.
pub record Agent : Type 0 where
  pub profiling : Bool

abbrev pub already_running : Error
already_running = message "another instance of the agent is already running"

-- The part of start that follows the lock, at what Acquire gave.
unfoldable pub start_locked :
    Setting → Environment → Result Bool → Option Error × Agent × Environment
unfolding start_profiler
start_locked s env (err e) =
    (some (wrap "could not acquire process lock" e), record { profiling = false }, env)
start_locked s env (ok false) = (some already_running, record { profiling = false }, env)
start_locked s env (ok true) =
    let (e, p) = start_profiler s.probe_errors s.config env.profiler in
    (
      wrap_err "could not create profiler" e,
      record { profiling = not (is_some e) },
      record env { profiler = p },
    )

unfoldable pub not_panicked :
    Option Error × Agent × Environment → Option (Option Error × Agent) × Environment
not_panicked (e, a, env) = (some (e, a), env)

-- The result is none for a panic of Acquire.
unfoldable pub start_agent : Setting → Environment → Option (Option Error × Agent) × Environment
unfolding acquire start_locked not_panicked
start_agent s env =
    let (acquired, f) = acquire s.alive s.lock_errors s.me env.files in
    let env' = record env { files = f; notified = true } in
    elim acquired [ none ↦ (none, env') | some r ↦ not_panicked (start_locked s env' r) ]

unfoldable pub stop : Setting → Agent → Environment → Environment
unfolding release close_profiler
stop s a env = record env {
  notified = false;
  files = (release s.release_read_error s.release_error s.me env.files).1;
  profiler = if a.profiling then close_profiler env.profiler else env.profiler;
}

-- An agent that could not start is stopped.
unfoldable pub started_or_stopped :
    Setting → Option (Option Error × Agent) × Environment → Option (Result Agent) × Environment
unfolding stop
started_or_stopped s (none, env) = (none, env)
started_or_stopped s (some (some e, a), env) = (some (err e), stop s a env)
started_or_stopped s (some (none, a), env) = (some (ok a), env)

-- Start, none for a panic.
unfoldable pub start : Setting → Environment → Option (Result Agent) × Environment
unfolding start_agent started_or_stopped
start s env = started_or_stopped s (start_agent s env)

-- What the select of ApplyDisruption receives first. In each case Apply has returned when the call does.
pub data Event : Type 0 where
  cancelled : Error → Event
  completed : Option Error → Event
  signalled : Event

unfoldable pub apply_disruption : Event → Option Error
apply_disruption (cancelled e) = some e
apply_disruption (completed e) = e
apply_disruption signalled = some (message "received signal %q")
