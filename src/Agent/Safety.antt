-- ===== src/Agent/Safety.antt =====
-- pkg/agent/agent.go with pkg/runtime/lock.go: an agent that starts beside another, and one that stops.
use xk6_disruptor.Prelude.{
  ℕ, ◌≡◌, refl, sym, ap, ◌∙◌, ◌≢◌, inl, inr, Bool, true, false, Option, none, some, arith, Error,
  wrap, Result, ok, err, ==_refl, Option-cases,
}
use xk6_disruptor.Runtime.Files.{Files, owner, read_owner, link}
use xk6_disruptor.Runtime.Lock.{LockErrors, is_me, create_temp_lock, link_lock, acquire, release}
use xk6_disruptor.Runtime.Temporary.{IsSound}
use xk6_disruptor.Runtime.Exclusion.{acquire_lem}
use xk6_disruptor.Agent.Profiler.{start_profiler, close_profiler, new_profiler}
use xk6_disruptor.Agent.Probes.{closed_profiler}
use xk6_disruptor.Agent.Lifecycle.{
  Setting, Environment, Agent, already_running, start_locked, not_panicked, start_agent, stop,
  started_or_stopped, start,
}

release_keeps :
    (read e : Option Error) (me p : ℕ) (f : Files)
    → owner f ≡ some p
    → p ≢ me
    → (release read e me f).1 ≡ f
unfolding release read_owner is_me
release_keeps (some x) e me p f o ne = refl
release_keeps none e me p f o ne = ground (arith, o)

-- Acquire does not give a process what a live process owns.
not_acquired :
    (alive : ℕ → Bool) (errors : LockErrors) (me p : ℕ) (f : Files)
    → IsSound f
    → owner f ≡ some p
    → alive p ≡ true
    → p ≢ me
    → errors.read ≡ none
    → errors.signal ≡ none
    → (acquire alive errors me f).0 ≢ some (ok true)
not_acquired alive errors me p f h o lives ne readable signalled r =
    let a = acquire_lem alive errors me f h readable signalled in
    let kept = a.kept p o (inr ne) (inr lives) in ne (cc (a.taken r, kept))

acquire_returns :
    (alive : ℕ → Bool) (errors : LockErrors) (me : ℕ) (f : Files)
    → errors.stat_temp ≡ none
    → (r : Result Bool) × ((acquire alive errors me f).0 ≡ some r)
unfolding acquire
acquire_returns alive errors me f found = elim (Option-cases (create_temp_lock errors me f).0) [
  | inr (e, n) ↦ (err e, rw (acquire, n) refl)
  | inl n ↦ (
    (link_lock alive errors me (link errors.link me (create_temp_lock errors me f).1)).0,
    rw (acquire, n, found) refl,
  )
]

-- Start where Acquire does not panic.
start_given :
    (s : Setting) (env : Environment) (r : Result Bool)
    → (acquire s.alive s.lock_errors s.me env.files).0 ≡ some r
    → let f = (acquire s.alive s.lock_errors s.me env.files).1 in
      start s env
      ≡ started_or_stopped s
          (not_panicked (start_locked s (record env { files = f; notified = true }) r))
unfolding start start_agent
start_given s env r given = rw (start, start_agent, given) refl

start_panicked :
    (s : Setting) (env : Environment)
    → (acquire s.alive s.lock_errors s.me env.files).0 ≡ none
    → (start s env).0 ≡ none
unfolding start start_agent started_or_stopped
start_panicked s env given = rw (start, start_agent, given) refl

-- What is left when the lock was not got.
record Refused (p : ℕ) (env : Environment) (r : Option (Result Agent)) (env' : Environment)
    : Type 0 where
  failure : (e : Error) × (r ≡ some (err e))
  owned : owner env'.files ≡ some p
  silent : env'.notified ≡ false
  unprofiled : env'.profiler ≡ env.profiler

refused_lem :
    (s : Setting) (p : ℕ) (env : Environment) (r : Result Bool)
    → r ≢ ok true
    → owner env.files ≡ some p
    → p ≢ s.me
    → let x = started_or_stopped s (not_panicked (start_locked s env r)) in Refused p env x.0 x.1
unfolding started_or_stopped start_locked not_panicked stop
refused_lem s p env (err e) no_lock o ne = record {
  failure = (wrap "could not acquire process lock" e, refl);
  owned = ap owner (release_keeps s.release_read_error s.release_error s.me p env.files o ne) ∙ o;
  silent = refl;
  unprofiled = refl;
}
refused_lem s p env (ok false) no_lock o ne = record {
  failure = (already_running, refl);
  owned = ap owner (release_keeps s.release_read_error s.release_error s.me p env.files o ne) ∙ o;
  silent = refl;
  unprofiled = refl;
}
refused_lem s p env (ok true) no_lock o ne = absurd (no_lock refl)

-- Start beside a live agent that owns the lock fails with an error and leaves that agent's lock, no
-- signal handler of its own, and the profiler as it was: for any files in which no two processes
-- share a temporary file, where Acquire can read the lock's file, signal the agent and find out
-- whether its own temporary file is there; whatever other errors the file system gives.
pub start_beside :
    (s : Setting) (env : Environment) (p : ℕ)
    → IsSound env.files
    → owner env.files ≡ some p
    → s.alive p ≡ true
    → p ≢ s.me
    → s.lock_errors.read ≡ none
    → s.lock_errors.signal ≡ none
    → s.lock_errors.stat_temp ≡ none
    → let (r, env') = start s env in
      ((e : Error) × (r ≡ some (err e)))
      × (owner env'.files ≡ some p)
      × (env'.notified ≡ false)
      × (env'.profiler ≡ env.profiler)
start_beside s env p h o lives ne readable signalled found =
    let f = (acquire s.alive s.lock_errors s.me env.files).1 in
    let a = acquire_lem s.alive s.lock_errors s.me env.files h readable signalled in
    let (r, given) = acquire_returns s.alive s.lock_errors s.me env.files found in
    let x =
      refused_lem s p (record env { files = f; notified = true }) r
        (λ e.
          not_acquired s.alive s.lock_errors s.me p env.files h o lives ne readable signalled
            (given ∙ ap some e))
        (a.kept p o (inr ne) (inr lives)) ne in
    rw (start_given s env r given) (x.failure, x.owned, x.silent, x.unprofiled)

owner-release :
    (read e : Option Error) (me : ℕ) (f : Files)
    → owner f ≡ some me
    → read ≡ none
    → e ≡ none
    → (release read e me f).1.lock ≡ none
unfolding release read_owner is_me
owner-release read e me f o r n = rw (r, read_owner, o, n, ==_refl me) refl

-- What stands when the lock was got and the profiler started, and what a stop leaves.
record Runs (s : Setting) (env : Environment) (a : Agent) : Type 0 where
  owned : owner env.files ≡ some s.me
  noisy : env.notified ≡ true
  profiled : a.profiling ≡ true
  closes : (i : ℕ) → (close_profiler env.profiler).running i ≡ false

-- A process that has not profiled yet.
abbrev pub fresh : Files → Bool → Environment
fresh f b = record { files = f; notified = b; profiler = new_profiler }

running_lem :
    (s : Setting) (f : Files) (r : Result Bool) (a : Agent)
    → (r ≡ ok true → owner f ≡ some s.me)
    → (started_or_stopped s (not_panicked (start_locked s (fresh f true) r))).0 ≡ some (ok a)
    → Runs s (started_or_stopped s (not_panicked (start_locked s (fresh f true) r))).1 a
unfolding started_or_stopped start_locked not_panicked
running_lem s f (err e) a own started = absurd (cc)
running_lem s f (ok false) a own started = absurd (cc)
running_lem s f (ok true) a own started =
    let p = start_profiler s.probe_errors s.config new_profiler in
    elim (Option-cases p.0) [
      | inr (e, n) ↦ absurd (
          let x : some (err (wrap "could not create profiler" e)) ≡ some (ok a) = rw n at started in
          cc)
      | inl n ↦
          let x : ◌≡◌ {A = Option (Result Agent)} (some (ok (record { profiling = true })))
              (some (ok a)) =
            rw n at started in
          rw n record {
            owned = own refl;
            noisy = refl;
            profiled = ground (arith, x);
            closes = closed_profiler s.probe_errors s.config n;
          }
    ]

after_start :
    (s : Setting) (f : Files) (b : Bool) (a : Agent)
    → IsSound f
    → s.lock_errors.read ≡ none
    → s.lock_errors.signal ≡ none
    → (start s (fresh f b)).0 ≡ some (ok a)
    → Runs s (start s (fresh f b)).1 a
after_start s f b a h readable signalled started =
    let taken = (acquire_lem s.alive s.lock_errors s.me f h readable signalled).taken in
    let f' = (acquire s.alive s.lock_errors s.me f).1 in
    elim (Option-cases (acquire s.alive s.lock_errors s.me f).0) [
      | inl n ↦
          absurd (let x : none ≡ some (ok a) = sym (start_panicked s (fresh f b) n) ∙ started in cc)
      | inr (r, n) ↦
          let given = start_given s (fresh f b) r n in
          rw given (running_lem s f' r a (λ e. taken (n ∙ ap some e)) (rw given at started))
    ]

-- An agent that started owns the lock and gets the signals; stopping it removes the lock, the
-- signal handler, and every profiling probe that runs: for a process that has not profiled before,
-- where Acquire can read the lock's file and signal a process that runs, and Release can read the
-- lock's file and remove it.
pub stop_after_start :
    (s : Setting) (f : Files) (b : Bool) (a : Agent)
    → IsSound f
    → s.lock_errors.read ≡ none
    → s.lock_errors.signal ≡ none
    → s.release_read_error ≡ none
    → s.release_error ≡ none
    → (start s (fresh f b)).0 ≡ some (ok a)
    → let env = (start s (fresh f b)).1 in
      let stopped = stop s a env in
      (owner env.files ≡ some s.me)
      × (env.notified ≡ true)
      × (stopped.files.lock ≡ none)
      × (stopped.notified ≡ false)
      × ((i : ℕ) → stopped.profiler.running i ≡ false)
unfolding start start_agent stop
stop_after_start s f b a h readable signalled seen free started =
    let x = after_start s f b a h readable signalled started in
    (
      x.owned,
      x.noisy,
      owner-release s.release_read_error s.release_error s.me (start s (fresh f b)).1.files x.owned
          seen free,
      refl,
      λ i. rw x.profiled (x.closes i),
    )
