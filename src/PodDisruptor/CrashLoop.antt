-- ===== src/PodDisruptor/CrashLoop.antt =====
-- pkg/disruptors/pod.go: crashLoopPod, which kills a container again and again, and InjectCrashLoopFault,
-- which does so for all the targets. The clock, the context and the pod helper are parameters: what they
-- answer in each round of the loop. The rounds are counted by fuel.
use xk6_disruptor.Prelude.{
  ℕ, zero, suc, ◌+◌, Bool, true, false, ◌&&◌, Option, none, some, List, [], ◌∷◌, Text, Error,
  message, wrap, Result, ok, err, leb, ◌==◌, if◌then◌else◌, ℤ, pos, ltb_ℤ, leb_ℤ,
}

pub record CrashLoopFault : Type 0 where
  pub count : ℤ
  pub restart_timeout : ℤ

-- What one round of the loop is told. The two waits are given a timeout, the second one the old count.
pub record Round : Type 0 where
  pub cancelled : Bool
  pub after_deadline : Bool
  pub remaining : ℤ
  pub wait_running : ℤ → Result Bool
  pub restart_count : Result ℕ
  pub kill : Option Error
  pub remaining_again : ℤ
  pub wait_restart : ℕ → ℤ → Result Bool

-- How a round ends: the loop returns, or goes on with the crashes and the consecutive failures.
pub data Ended : Type 0 where
  return : ℕ → Option Error → Ended
  again : ℕ → ℕ → Ended

abbrev pub max_consecutive_failures : ℕ
max_consecutive_failures = 5

unfoldable pub wait_timeout : CrashLoopFault → ℤ → ℤ
wait_timeout fault remaining =
    let asked =
      if leb_ℤ fault.restart_timeout (pos 0) then pos 30000000000 else fault.restart_timeout in
    if ltb_ℤ remaining asked then remaining else asked

-- One more failure: the loop gives up, or goes on.
unfoldable pub failed_round : ℕ → ℕ → Error → Ended
failed_round crashes failures e =
    if leb max_consecutive_failures (suc failures)
    then return crashes (some e)
    else again crashes (suc failures)

abbrev pub not_running_error : Error
not_running_error = message "container not running after %d attempts"

abbrev pub not_restarted_error : Error
not_restarted_error =
    message "kill command succeeded but container did not restart after %d attempts"

unfoldable pub restarted : ℕ → ℕ → Result Bool → Ended
unfolding failed_round
restarted crashes failures (err e) =
    failed_round crashes failures (wrap "error waiting for container restart" e)
restarted crashes failures (ok true) = again (suc crashes) 0
restarted crashes failures (ok false) = failed_round crashes failures not_restarted_error

-- From the kill command to the end of the round.
unfoldable pub kill_round : CrashLoopFault → Round → ℕ → ℕ → ℕ → Ended
unfolding failed_round restarted wait_timeout
kill_round fault r crashes failures before = elim r.kill [
  | some e ↦ failed_round crashes failures (wrap "failed to kill process after %d attempts" e)
  | none ↦
      if leb_ℤ r.remaining_again (pos 0)
      then return crashes none
      else restarted crashes failures (r.wait_restart before (wait_timeout fault r.remaining_again))
]

unfoldable pub counted_round : CrashLoopFault → Round → ℕ → ℕ → Result ℕ → Ended
unfolding failed_round kill_round
counted_round fault r crashes failures (err e) =
    failed_round crashes failures (wrap "failed to get container restart count after %d attempts" e)
counted_round fault r crashes failures (ok before) = kill_round fault r crashes failures before

unfoldable pub running_round : CrashLoopFault → Round → ℕ → ℕ → Result Bool → Ended
unfolding failed_round counted_round
running_round fault r crashes failures (err e) =
    failed_round crashes failures
      (wrap "failed waiting for container to be running after %d attempts" e)
running_round fault r crashes failures (ok false) = failed_round crashes failures not_running_error
running_round fault r crashes failures (ok true) =
    counted_round fault r crashes failures r.restart_count

-- The count of crashes is reached.
unfoldable pub enough : CrashLoopFault → ℕ → Bool
enough fault crashes = ltb_ℤ (pos 0) fault.count && leb_ℤ fault.count (pos crashes)

unfoldable pub round : CrashLoopFault → Round → ℕ → ℕ → Ended
unfolding enough running_round wait_timeout
round fault r crashes failures =
    if r.cancelled
    then return crashes none
    else if r.after_deadline
    then return crashes none
    else if enough fault crashes
    then return crashes none
    else if leb_ℤ r.remaining (pos 0)
    then return crashes none
    else running_round fault r crashes failures (r.wait_running (wait_timeout fault r.remaining))

-- The loop from its i-th round on; none when the fuel is used up. The next rounds are given as a function.
unfoldable pub go_on : (ℕ → ℕ → Option (ℕ × Option Error)) → Ended → Option (ℕ × Option Error)
go_on rest (return crashes e) = some (crashes, e)
go_on rest (again crashes failures) = rest crashes failures

unfoldable pub crash_loop : ℕ → CrashLoopFault → (ℕ → Round) → ℕ → ℕ → Option (ℕ × Option Error)
unfolding round go_on
crash_loop zero fault rounds crashes failures = none
crash_loop (suc fuel) fault rounds crashes failures =
    go_on (crash_loop fuel fault (λ i. rounds (suc i))) (round fault (rounds 0) crashes failures)

-- What the loop comes to for a pod, with its name.
pub record PodCrashes : Type 0 where
  pub pod : Text
  pub crashes : ℕ
  pub failure : Option Error

unfoldable pub total_crashes : List PodCrashes → ℕ
total_crashes [] = 0
total_crashes (r ∷ rs) = r.crashes + total_crashes rs

unfoldable pub crash_errors : List PodCrashes → List Error
crash_errors [] = []
crash_errors (r ∷ rs) =
    let rest = crash_errors rs in elim r.failure [ none ↦ rest | some e ↦ wrap "pod %s" e ∷ rest ]

abbrev pub no_effect : Error
no_effect = message "crash loop fault had no effect: failed to kill any container processes."

abbrev pub is_empty_list : List Error → Bool
is_empty_list [] = true
is_empty_list (e ∷ es) = false

-- errors.Join gives the errors together, and nil for none.
abbrev pub join_errors : List Error → Option (List Error)
join_errors [] = none
join_errors (e ∷ es) = some (e ∷ es)

-- InjectCrashLoopFault at the targets and the results in the order in which they arrive: the errors.
unfoldable pub inject_crash_loop_fault : Result (List Text) → List PodCrashes → Option (List Error)
unfolding total_crashes crash_errors
inject_crash_loop_fault (err e) results = some (e ∷ [])
inject_crash_loop_fault (ok []) results =
    some (message "no target pods found matching selector" ∷ [])
inject_crash_loop_fault (ok (t ∷ ts)) results =
    let errors = crash_errors results in
    if total_crashes results == 0 && is_empty_list errors
    then some (no_effect ∷ [])
    else join_errors errors
