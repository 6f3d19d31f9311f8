-- ===== src/PodWaits/Conditions.antt =====
-- pkg/kubernetes/helpers/pods.go: waitForCondition, its conditions, and the waits that use it. What the
-- Kubernetes API answers, and the events of the watch and the timer in the order in which the code gets
-- them, are arguments; none stands for a wait that goes on when they are all read.
use xk6_disruptor.Prelude.{
  Bool, true, false, ◌||◌, Option, none, some, List, [], ◌∷◌, Text, codes, text_eq, Error, message,
  wrap, is_some, Result, ok, err, if◌then◌else◌, ℤ, pos, ltb_ℤ,
}

-- What the code reads of a container's status; running stands for State.Running being set.
pub record ContainerStatus : Type 0 where
  pub name : Text
  pub running : Bool
  pub restart_count : ℤ

-- A pod: metadata.name, status.phase, status.containerStatuses, status.ephemeralContainerStatuses, and the
-- names of spec.ephemeralContainers.
pub record WatchedPod : Type 0 where
  pub name : Text
  pub phase : Text
  pub container_statuses : List ContainerStatus
  pub ephemeral_statuses : List ContainerStatus
  pub ephemeral_containers : List Text

-- The timer, and the events of the watch; not_a_pod is a modification of another object, and other any
-- other event, also the empty one that a closed channel gives.
pub data WatchEvent : Type 0 where
  expired watch_error not_a_pod deleted other : WatchEvent
  modified : WatchedPod → WatchEvent

-- The start of the watch, the pod that Get gives, and the events.
pub record Watched : Type 0 where
  pub start : Option Error
  pub pod : Result WatchedPod
  pub events : List WatchEvent

abbrev pub Answer : Type 0
Answer = Bool × Option Error

-- A podConditionChecker, with the state S of the variables that it captures.
abbrev pub Checker : Type 0 → Type 0
Checker S = S → WatchedPod → S × Answer

unfoldable pub settles : Answer → Bool
settles (condition, e) = condition || is_some e

module _ {S : Type 0} (checker : Checker S) where
  unfoldable pub wait_loop : S → List WatchEvent → Option (S × Answer)
  unfolding settles
  wait_loop s [] = none
  wait_loop s (expired ∷ events) = some (s, (false, none))
  wait_loop s (watch_error ∷ events) =
      some (s, (false, some (message "error watching for pod: %v")))
  wait_loop s (not_a_pod ∷ events) =
      some (s, (false, some (message "received unknown object while watching for pods")))
  wait_loop s (deleted ∷ events) = wait_loop s events
  wait_loop s (other ∷ events) = wait_loop s events
  wait_loop s (modified pod ∷ events) =
      let (s', answer) = checker s pod in
      let rest = wait_loop s' events in if settles answer then some (s', answer) else rest

  unfoldable pub wait_from : S → WatchedPod → List WatchEvent → Option (S × Answer)
  unfolding settles wait_loop
  wait_from s pod events =
      let (s', answer) = checker s pod in
      if settles answer then some (s', answer) else wait_loop s' events

  unfoldable pub wait_for_condition : S → Watched → Option (S × Answer)
  unfolding wait_from
  wait_for_condition s w = elim w.start [
    | some e ↦ some (s, (false, some (wrap "starting pod watcher: %w" e)))
    | none ↦ elim w.pod [
      | err e ↦ some (s, (false, some (wrap "getting pod: %w" e)))
      | ok pod ↦ wait_from s pod w.events
    ]
  ]

abbrev pub pod_failed : Text
pod_failed = codes "Failed"

abbrev pub pod_running : Text
pod_running = codes "Running"

unfoldable pub check_running : Unit {0} → WatchedPod → Unit {0} × Answer
check_running s pod =
    if text_eq pod.phase pod_failed
    then (s, (false, some (message "pod has failed")))
    else if text_eq pod.phase pod_running
    then (s, (true, none))
    else (s, (false, none))

-- The first status of the container with the name.
unfoldable pub find_status : Text → List ContainerStatus → Option ContainerStatus
find_status name [] = none
find_status name (status ∷ statuses) =
    let rest = find_status name statuses in if text_eq status.name name then some status else rest

unfoldable pub check_container_running : Text → Unit {0} → WatchedPod → Unit {0} × Answer
unfolding find_status
check_container_running name s pod = elim (find_status name pod.container_statuses) [
  | none ↦ (s, (false, none))
  | some status ↦ (s, (status.running, none))
]

-- The state is the variable newCount.
unfoldable pub check_restarted : Text → ℤ → ℤ → WatchedPod → ℤ × Answer
unfolding find_status
check_restarted name current count pod = elim (find_status name pod.container_statuses) [
  | none ↦ (count, (false, none))
  | some status ↦ (status.restart_count, (ltb_ℤ current status.restart_count, none))
]

unfoldable pub any_running : List ContainerStatus → Bool
any_running [] = false
any_running (status ∷ statuses) =
    let rest = any_running statuses in if status.running then true else rest

unfoldable pub check_ephemeral_container_is_running : Unit {0} → WatchedPod → Unit {0} × Answer
unfolding any_running
check_ephemeral_container_is_running s pod =
    if any_running pod.ephemeral_statuses then (s, (true, none)) else (s, (false, none))

abbrev pub answer_of : Option (Unit {0} × Answer) → Option Answer
answer_of none = none
answer_of (some (s, answer)) = some answer

unfoldable pub wait_pod_running : Watched → Option Answer
unfolding wait_for_condition check_running
wait_pod_running w = answer_of (wait_for_condition check_running tt w)

unfoldable pub wait_container_running : Text → Watched → Option Answer
unfolding wait_for_condition check_container_running
wait_container_running name w = answer_of (wait_for_condition (check_container_running name) tt w)

unfoldable pub get_container_restart_count : Text → Result WatchedPod → Result ℤ
unfolding find_status
get_container_restart_count name (err e) = err (wrap "getting pod %s: %w" e)
get_container_restart_count name (ok pod) = elim (find_status name pod.container_statuses) [
  | none ↦ err (message "container %s not found in pod %s")
  | some status ↦ ok status.restart_count
]

abbrev pub restart_answer : Option (ℤ × Answer) → Option (ℤ × Answer)
restart_answer none = none
restart_answer (some (count, (restarted, some e))) = some (count, (false, some e))
restart_answer (some (count, (restarted, none))) = some (count, (restarted, none))

unfoldable pub wait_container_restart : Text → ℤ → Watched → Option (ℤ × Answer)
unfolding wait_for_condition check_restarted
wait_container_restart name current w =
    restart_answer (wait_for_condition (check_restarted name current) (pos 0) w)

-- WaitPodDeleted: the loop.
unfoldable pub deleted_loop : List WatchEvent → Option (Option Error)
deleted_loop [] = none
deleted_loop (expired ∷ events) = some (some (message "pod '%s/%s' not terminated after %fs"))
deleted_loop (watch_error ∷ events) = some (some (message "error watching for pod: %v"))
deleted_loop (deleted ∷ events) = some none
deleted_loop (not_a_pod ∷ events) = deleted_loop events
deleted_loop (other ∷ events) = deleted_loop events
deleted_loop (modified pod ∷ events) = deleted_loop events
