-- ===== src/PodWaits/Restarts.antt =====
-- pkg/kubernetes/helpers/pods.go: what the waits come to.
use xk6_disruptor.Prelude.{
  ◌≡◌, refl, sym, ap, ◌⊎◌, inl, inr, Bool, true, false, Option, none, some, List, [], ◌∷◌, ◌++◌,
  Text, Error, ok, Result-cases, if◌then◌else◌, Bool-cases, Option-cases, ℤ, pos, ltb_ℤ,
}
use xk6_disruptor.PodWaits.Conditions.{
  WatchedPod, WatchEvent, expired, watch_error, not_a_pod, deleted, other, modified, Watched,
  Answer, settles, wait_loop, wait_from, wait_for_condition, find_status, check_restarted,
  restart_answer, get_container_restart_count, wait_container_restart,
}

-- The wait was told of the pod.
abbrev pub IsSeen : WatchedPod → List WatchEvent → Type 0
IsSeen pod events =
    (before : List WatchEvent) × (after : List WatchEvent) × (events
      ≡ before ++ modified pod ∷ after)

-- The pod has the count of restarts for the container, and it is greater than the old one.
abbrev pub CountedAbove : Text → ℤ → ℤ → WatchedPod → Type 0
CountedAbove name current count pod =
    (get_container_restart_count name (ok pod) ≡ ok count) × (ltb_ℤ current count ≡ true)

abbrev Found : Text → ℤ → ℤ → List WatchEvent → Type 0
Found name current count events =
    (pod : WatchedPod) × IsSeen pod events × CountedAbove name current count pod

count_of :
    {a b : ℤ} {r : Bool} {e : Option Error}
    → Path (Option (ℤ × Answer)) (some (a, (r, e))) (some (b, (true, none)))
    → a ≡ b
count_of h = cc

module _ (name : Text) (current count : ℤ) where
  later :
      (x : WatchEvent) (events : List WatchEvent)
      → Found name current count events
      → Found name current count (x ∷ events)
  later x events (pod, (before, after, e), restarted) =
      (pod, (x ∷ before, after, ap (λ l. x ∷ l) e), restarted)

  -- What a check of a pod can come to, when the wait ends with a restart.
  check_cases :
      (old : ℤ) (pod : WatchedPod) (rest : Option (ℤ × Answer))
      → (let (s, answer) = check_restarted name current old pod in
          if settles answer then some (s, answer) else rest)
        ≡ some (count, (true, none))
      → CountedAbove name current count pod ⊎ (rest ≡ some (count, (true, none)))
  unfolding check_restarted settles get_container_restart_count
  check_cases old pod rest h = elim (Option-cases (find_status name pod.container_statuses)) [
    | inl f ↦ inr (rw (check_restarted, f) at h)
    | inr (status, f) ↦ elim (Bool-cases (ltb_ℤ current status.restart_count)) [
      | inl above ↦
          let same : status.restart_count ≡ count =
            count_of (rw (check_restarted, f, above) at h) in
          inl (rw (get_container_restart_count, f, same) refl, rw (sym same) above)
      | inr below ↦ inr (rw (check_restarted, f, below) at h)
    ]
  ]

  loop_restarted :
      (events : List WatchEvent) (old : ℤ)
      → wait_loop (check_restarted name current) old events ≡ some (count, (true, none))
      → Found name current count events
  unfolding wait_loop
  loop_restarted [] old h = absurd cc
  loop_restarted (expired ∷ events) old h = absurd cc
  loop_restarted (watch_error ∷ events) old h = absurd cc
  loop_restarted (not_a_pod ∷ events) old h = absurd cc
  loop_restarted (deleted ∷ events) old h = later deleted events (loop_restarted events old h)
  loop_restarted (other ∷ events) old h = later other events (loop_restarted events old h)
  loop_restarted (modified pod ∷ events) old h = elim (check_cases old pod _ h) [
    | inl restarted ↦ (pod, ([], events, refl), restarted)
    | inr rest ↦ later (modified pod) events (loop_restarted events _ rest)
  ]

  from_restarted :
      (old : ℤ) (pod : WatchedPod) (events : List WatchEvent)
      → wait_from (check_restarted name current) old pod events ≡ some (count, (true, none))
      → CountedAbove name current count pod ⊎ Found name current count events
  unfolding wait_from
  from_restarted old pod events h = elim (check_cases old pod _ h) [
    | inl restarted ↦ inl restarted
    | inr rest ↦ inr (loop_restarted events _ rest)
  ]

  without_answer :
      (x : Option (ℤ × Answer))
      → restart_answer x ≡ some (count, (true, none))
      → x ≡ some (count, (true, none))
  without_answer none h = absurd cc
  without_answer (some (n, (r, none))) h = h
  without_answer (some (n, (r, some e))) h = absurd cc

  refused :
      {e : Error}
      → Path (Option (ℤ × Answer)) (some (pos 0, (false, some e))) (some (count, (true, none)))
      → ⊥
  refused h = cc

  waited :
      (w : Watched)
      → wait_for_condition (check_restarted name current) (pos 0) w ≡ some (count, (true, none))
      → (pod : WatchedPod) × ((w.pod ≡ ok pod) ⊎ IsSeen pod w.events)
        × CountedAbove name current count pod
  unfolding wait_for_condition
  waited w h = elim (Option-cases w.start) [
    | inr (e, s) ↦ absurd (refused (rw s at h))
    | inl s ↦ elim (Result-cases w.pod) [
      | inr (e, p) ↦ absurd (refused (rw (s, p) at h))
      | inl (pod, p) ↦ elim (from_restarted (pos 0) pod w.events (rw (s, p) at h)) [
        | inl restarted ↦ (pod, inl p, restarted)
        | inr (later_pod, seen, restarted) ↦ (later_pod, inr seen, restarted)
      ]
    ]
  ]

  -- When WaitContainerRestart reports a restart with a count, then the pod that Get gave, or one
  -- that a later event of the watch carried, has that count of restarts for the container, as
  -- GetContainerRestartCount reads it, and the count is greater than the old one.
  pub wait_container_restart-IsSeen :
      (w : Watched)
      → wait_container_restart name current w ≡ some (count, (true, none))
      → (pod : WatchedPod) × ((w.pod ≡ ok pod) ⊎ IsSeen pod w.events)
        × CountedAbove name current count pod
  unfolding wait_container_restart
  wait_container_restart-IsSeen w h =
      waited w (without_answer (wait_for_condition (check_restarted name current) (pos 0) w) h)
