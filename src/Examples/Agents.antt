-- ===== src/Examples/Agents.antt =====
-- The theorems on the lock, the agent and its profiler, at small file systems.
use xk6_disruptor.Prelude.{
  ℕ, ◌<◌, ◌≡◌, refl, sym, ◌∙◌, inl, Bool, true, false, none, some, [], ◌∷◌, arith, Text, codes,
  text_eq, Error, wrap, external, ok, err, ltb, if◌then◌else◌, pos,
}
use xk6_disruptor.Runtime.Files.{Files, owner}
use xk6_disruptor.Runtime.Lock.{acquire}
use xk6_disruptor.Runtime.Temporary.{IsSound}
use xk6_disruptor.Runtime.System.{
  System, Reach, here, next, acquires, initial, after_acquire, mutual_exclusion,
}
use xk6_disruptor.Runtime.Race.{no_errors, finished, run, unlucky, all_enter, both_acquire}
use xk6_disruptor.Runtime.Unreadable.{unreadable, unreadable_lock_taken}
use xk6_disruptor.Runtime.Outcome.{may_take, acquire_outcome}
use xk6_disruptor.Agent.Profiler.{
  cpu, memory, ProbeConfig, ProfilerConfig, ProbeErrors, build_probes, start_profiler,
  close_profiler, new_profiler,
}
use xk6_disruptor.Agent.Probes.{has_id, succeeding, failed_start_leaks}
use xk6_disruptor.Agent.Lifecycle.{Setting, Agent, start, stop}
use xk6_disruptor.Agent.Safety.{fresh, start_beside, stop_after_start}

-- The processes 1, 2 and 3 run; 7 is dead, and owns the lock.
abbrev alive : ℕ → Bool
alive p = ltb p 5

abbrev stale_files : Files
stale_files = record { next = 1; lock = some 0; temp = λ p. none; content = λ i. some 7 }

abbrev no_files : Files
no_files = record { next = 0; lock = none; temp = λ p. none; content = λ i. none }

abbrev owned_files : Files
owned_files = record { next = 1; lock = some 0; temp = λ p. none; content = λ i. some 2 }

bare-IsSound :
    (f : Files) → ((p : ℕ) → f.temp p ≡ none) → ((i : ℕ) → f.lock ≡ some i → i < f.next) → IsSound f
bare-IsSound f bare fresh_lock = record {
  fresh_lock = fresh_lock;
  fresh_temp = λ p i e. absurd (let x : none ≡ some i = sym (bare p) ∙ e in cc);
  apart = λ p q i e d. absurd (let x : none ≡ some i = sym (bare p) ∙ e in cc);
  signed = λ p i r e d. absurd (let x : none ≡ some i = sym (bare p) ∙ e in cc);
}

stale_files-IsSound : IsSound stale_files
stale_files-IsSound = bare-IsSound stale_files (λ p. refl) (λ i e. ground (arith, e))

owned_files-IsSound : IsSound owned_files
owned_files-IsSound = bare-IsSound owned_files (λ p. refl) (λ i e. ground (arith, e))

no_files-IsSound : IsSound no_files
no_files-IsSound = bare-IsSound no_files (λ p. refl) (λ i e. absurd (cc))

-- Process 2 takes the lock, then process 1 asks for it.
abbrev contended : System
contended = after_acquire no_errors 1 (after_acquire no_errors 2 (initial alive))

contended_reached : Reach (initial alive) contended
unfolding after_acquire
contended_reached =
    next (next here (acquires (initial alive) no_errors 2 refl refl refl (inl refl)))
      (acquires (after_acquire no_errors 2 (initial alive)) no_errors 1 refl refl refl (inl refl))

mutual_exclusion_example : (◌≡◌ {A = ℕ} 2 2) × (owner contended.files ≡ some 2)
unfolding after_acquire
mutual_exclusion_example = mutual_exclusion 2 2 contended_reached refl refl

acquire_outcome_example :
    (acquire alive no_errors 1 stale_files).0 ≡ some (ok (may_take alive 1 (owner stale_files)))
acquire_outcome_example = acquire_outcome alive 1 stale_files stale_files-IsSound

unreadable_lock_taken_example :
    ((acquire alive (unreadable (external 5)) 1 owned_files).0 ≡ some (ok true))
    × (owner (acquire alive (unreadable (external 5)) 1 owned_files).1 ≡ some 1)
unfolding owner
unreadable_lock_taken_example =
    unreadable_lock_taken alive 1 2 (external 5) owned_files owned_files-IsSound refl (ground arith)

both_acquire_example :
    ((run alive (unlucky 1 2) (all_enter stale_files)).0 1 ≡ finished (ok true))
    × ((run alive (unlucky 1 2) (all_enter stale_files)).0 2 ≡ finished (ok true))
    × (owner (run alive (unlucky 1 2) (all_enter stale_files)).1 ≡ some 2)
unfolding owner
both_acquire_example =
    both_acquire alive 1 2 7 stale_files stale_files-IsSound refl refl (ground arith) (ground arith)
      (ground arith)

abbrev asked : Text → ProbeConfig
asked file = record { enabled = true; file_name = file }

abbrev unasked : ProbeConfig
unasked = record { enabled = false; file_name = [] }

-- A CPU probe and a memory probe, the file of which cannot be made.
abbrev profile : ProfilerConfig
profile = record {
  cpu_config = asked (codes "cpu");
  memory_config = asked (codes "mem");
  memory_rate = pos 1;
  trace_config = unasked;
  metrics_config = unasked;
}

abbrev full_disk : ProbeErrors
full_disk = record {
  create = λ file. if text_eq file (codes "mem") then some (external 28) else none;
  start_cpu = none;
  start_trace = none;
}

failed_start_leaks_example :
    ((start_profiler full_disk profile new_profiler).1.running 0
      ≡ has_id 0 (succeeding full_disk (cpu (codes "cpu") ∷ memory (codes "mem") ∷ [])))
    × ((close_profiler (start_profiler full_disk profile new_profiler).1).running 0
        ≡ has_id 0 (succeeding full_disk (cpu (codes "cpu") ∷ memory (codes "mem") ∷ [])))
unfolding build_probes start_profiler text_eq
failed_start_leaks_example =
    failed_start_leaks full_disk profile (cpu (codes "cpu") ∷ memory (codes "mem") ∷ []) refl
      (wrap "error creating memory profiling file %q" (external 28)) refl 0

abbrev no_profile : ProfilerConfig
no_profile = record {
  cpu_config = unasked;
  memory_config = unasked;
  memory_rate = pos 0;
  trace_config = unasked;
  metrics_config = unasked;
}

abbrev setting : Setting
setting = record {
  alive = alive;
  me = 1;
  config = no_profile;
  lock_errors = no_errors;
  release_read_error = none;
  release_error = none;
  probe_errors = full_disk;
}

start_beside_example :
    ((e : Error) × ((start setting (fresh owned_files false)).0 ≡ some (err e)))
    × (owner (start setting (fresh owned_files false)).1.files ≡ some 2)
    × ((start setting (fresh owned_files false)).1.notified ≡ false)
    × ((start setting (fresh owned_files false)).1.profiler ≡ new_profiler)
unfolding owner
start_beside_example =
    start_beside setting (fresh owned_files false) 2 owned_files-IsSound refl refl (ground arith)
      refl refl refl

abbrev agent : Agent
agent = record { profiling = true }

stop_after_start_example :
    (owner (start setting (fresh no_files false)).1.files ≡ some 1)
    × ((start setting (fresh no_files false)).1.notified ≡ true)
    × ((stop setting agent (start setting (fresh no_files false)).1).files.lock ≡ none)
    × ((stop setting agent (start setting (fresh no_files false)).1).notified ≡ false)
    × ((i : ℕ)
        → (stop setting agent (start setting (fresh no_files false)).1).profiler.running i ≡ false)
unfolding start
stop_after_start_example =
    stop_after_start setting no_files false agent no_files-IsSound refl refl refl refl refl
