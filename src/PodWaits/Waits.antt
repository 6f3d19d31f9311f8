-- ===== src/PodWaits/Waits.antt =====
-- pkg/kubernetes/helpers/pods.go: what the waits come to.
use xk6_disruptor.Prelude.{
  ◌≡◌, refl, ap, ◌≢◌, ◌↔◌, ◌⊎◌, inl, inr, true, false, Option, none, some, List, [], ◌∷◌, ◌++◌,
  Text, text_eq, text_eq_refl, text_eq_iff, Error, ok, Result-cases, if◌then◌else◌, Bool-cases,
  Option-cases, All,
}
use xk6_disruptor.PodWaits.Conditions.{
  WatchedPod, WatchEvent, expired, watch_error, not_a_pod, deleted, other, modified, Watched,
  Answer, settles, wait_loop, wait_from, wait_for_condition, pod_failed, pod_running, check_running,
  answer_of, wait_pod_running,
}

-- The phase is neither failed nor running.
abbrev pub IsPending : WatchedPod → Type 0
IsPending pod = (pod.phase ≢ pod_failed) × (pod.phase ≢ pod_running)

-- The event leaves the wait for a running pod as it is.
abbrev pub IsQuiet : WatchEvent → Type 0
IsQuiet expired = false ≡ true
IsQuiet watch_error = false ≡ true
IsQuiet not_a_pod = false ≡ true
IsQuiet deleted = true ≡ true
IsQuiet other = true ≡ true
IsQuiet (modified pod) = IsPending pod

-- Among the events there is a pod that runs, and before it no event that ends the wait.
abbrev pub RunsIn : List WatchEvent → Type 0
RunsIn events =
    (before : List WatchEvent) × (pod : WatchedPod) × (after : List WatchEvent) × (events
      ≡ before ++ modified pod ∷ after)
    × All IsQuiet before
    × (pod.phase ≡ pod_running)

-- The pod runs at once, or is pending and one of the events shows that it runs.
abbrev pub ComesToRun : WatchedPod → List WatchEvent → Type 0
ComesToRun pod events = (pod.phase ≡ pod_running) ⊎ (IsPending pod × RunsIn events)

abbrev running_now : Unit {0} × Answer
running_now = (tt, (true, none))

abbrev undecided : Unit {0} × Answer
undecided = (tt, (false, none))

phases_differ : text_eq pod_running pod_failed ≡ false
unfolding text_eq
phases_differ = refl

running_answer : (pod : WatchedPod) → pod.phase ≡ pod_running → check_running tt pod ≡ running_now
unfolding check_running
running_answer pod e = rw (e, phases_differ, text_eq_refl) refl

pending_answer : (pod : WatchedPod) → IsPending pod → check_running tt pod ≡ undecided
unfolding check_running
pending_answer pod (not_failed, not_running) = elim (Bool-cases (text_eq pod.phase pod_failed)) [
  | inl f ↦ absurd (not_failed ((text_eq_iff pod.phase pod_failed).0 f))
  | inr f ↦ elim (Bool-cases (text_eq pod.phase pod_running)) [
    | inl r ↦ absurd (not_running ((text_eq_iff pod.phase pod_running).0 r))
    | inr r ↦ rw (f, r) refl
  ]
]

differs : (s t : Text) → text_eq s t ≡ false → s ≢ t
differs s t unequal e = let yes : text_eq s t ≡ true = (text_eq_iff s t).1 e in absurd cc

failure_is_no_success :
    {e : Option Error}
    → Path (Option (Unit {0} × Answer)) (some (tt, (false, e))) (some running_now)
    → ⊥
failure_is_no_success h = cc

-- The code after a check that does not settle the wait goes on.
abbrev next : (Unit {0} × Answer) → Option (Unit {0} × Answer) → Option (Unit {0} × Answer)
next (s, answer) rest = if settles answer then some (s, answer) else rest

-- What a check of a pod can come to, when the wait ends with success.
check_cases :
    (pod : WatchedPod) (rest : Option (Unit {0} × Answer))
    → next (check_running tt pod) rest ≡ some running_now
    → (pod.phase ≡ pod_running) ⊎ (IsPending pod × (rest ≡ some running_now))
unfolding check_running settles
check_cases pod rest h = elim (Bool-cases (text_eq pod.phase pod_failed)) [
  | inl f ↦ absurd (failure_is_no_success (rw f at h))
  | inr f ↦ elim (Bool-cases (text_eq pod.phase pod_running)) [
    | inl r ↦ inl ((text_eq_iff pod.phase pod_running).0 r)
    | inr r ↦
        inr ((differs pod.phase pod_failed f, differs pod.phase pod_running r), rw (f, r) at h)
  ]
]

loop_runs :
    (events : List WatchEvent)
    → RunsIn events
    → wait_loop check_running tt events ≡ some running_now
unfolding wait_loop settles
loop_runs events ([], pod, after, e, quiet, runs) = rw (e, wait_loop, running_answer pod runs) refl
loop_runs events (expired ∷ before, pod, after, e, (q, quiet), runs) = absurd cc
loop_runs events (watch_error ∷ before, pod, after, e, (q, quiet), runs) = absurd cc
loop_runs events (not_a_pod ∷ before, pod, after, e, (q, quiet), runs) = absurd cc
loop_runs events (deleted ∷ before, pod, after, e, (q, quiet), runs) =
    rw (e, wait_loop) (loop_runs _ (before, pod, after, refl, quiet, runs))
loop_runs events (other ∷ before, pod, after, e, (q, quiet), runs) =
    rw (e, wait_loop) (loop_runs _ (before, pod, after, refl, quiet, runs))
loop_runs events (modified p ∷ before, pod, after, e, (q, quiet), runs) =
    rw (e, wait_loop, pending_answer p q) (loop_runs _ (before, pod, after, refl, quiet, runs))

later :
    (x : WatchEvent) (events : List WatchEvent) → IsQuiet x → RunsIn events → RunsIn (x ∷ events)
later x events q (before, pod, after, e, quiet, runs) =
    (x ∷ before, pod, after, ap (λ l. x ∷ l) e, (q, quiet), runs)

loop_runs_only :
    (events : List WatchEvent)
    → wait_loop check_running tt events ≡ some running_now
    → RunsIn events
unfolding wait_loop
loop_runs_only [] h = absurd cc
loop_runs_only (expired ∷ events) h = absurd cc
loop_runs_only (watch_error ∷ events) h = absurd cc
loop_runs_only (not_a_pod ∷ events) h = absurd cc
loop_runs_only (deleted ∷ events) h = later deleted events refl (loop_runs_only events h)
loop_runs_only (other ∷ events) h = later other events refl (loop_runs_only events h)
loop_runs_only (modified pod ∷ events) h =
    elim (check_cases pod (wait_loop check_running tt events) h) [
      | inl runs ↦ ([], pod, events, refl, tt, runs)
      | inr (pending, rest) ↦ later (modified pod) events pending (loop_runs_only events rest)
    ]

from_runs :
    (pod : WatchedPod) (events : List WatchEvent)
    → ComesToRun pod events
    → wait_from check_running tt pod events ≡ some running_now
unfolding wait_from settles
from_runs pod events (inl runs) = rw (wait_from, running_answer pod runs) refl
from_runs pod events (inr (pending, runs)) =
    rw (wait_from, pending_answer pod pending) (loop_runs events runs)

from_runs_only :
    (pod : WatchedPod) (events : List WatchEvent)
    → wait_from check_running tt pod events ≡ some running_now
    → ComesToRun pod events
unfolding wait_from
from_runs_only pod events h = elim (check_cases pod (wait_loop check_running tt events) h) [
  | inl runs ↦ inl runs
  | inr (pending, rest) ↦ inr (pending, loop_runs_only events rest)
]

succeeded :
    (x : Option (Unit {0} × Answer)) → answer_of x ≡ some (true, none) → x ≡ some running_now
succeeded none h = absurd cc
succeeded (some (s, answer)) h = ap (λ x. elim x [ none ↦ none | some a ↦ some (tt, a) ]) h

-- WaitPodRunning answers that the pod runs exactly when the watch starts, Get gives the pod, and
-- the pod runs then, or is neither failed nor running and a later event shows it running, with
-- nothing before that event but events that are ignored and pods that are neither failed nor
-- running.
pub wait_pod_running_iff :
    (w : Watched)
    → (wait_pod_running w ≡ some (true, none))
      ↔ ((w.start ≡ none) × ((pod : WatchedPod) × (w.pod ≡ ok pod) × ComesToRun pod w.events))
unfolding wait_pod_running wait_for_condition
wait_pod_running_iff w = (
  λ h. elim (Option-cases w.start) [
    | inr (e, s) ↦ absurd (failure_is_no_success (succeeded _ (rw s at h)))
    | inl s ↦ elim (Result-cases w.pod) [
      | inr (e, p) ↦ absurd (failure_is_no_success (succeeded _ (rw (s, p) at h)))
      | inl (pod, p) ↦ (s, (pod, p, from_runs_only pod w.events (succeeded _ (rw (s, p) at h))))
    ]
  ],
  λ (s, (pod, p, runs)). rw (s, p, from_runs pod w.events runs) refl,
)
