-- ===== src/PodWaits/Helper.antt =====
-- pkg/kubernetes/helpers/pods.go: AttachEphemeralContainer, WaitPodDeleted and Terminate. The calls of the
-- Kubernetes API and the libraries for JSON and patches are parameters, over a state W of the cluster.
use xk6_disruptor.Prelude.{
  Bool, true, false, Option, none, some, List, [], ◌∷◌, ◌++◌, Text, text_eq, Error, message, wrap,
  wrap_err, is_some, Result, ok, err, if◌then◌else◌, ℤ, pos, eq_ℤ,
}
use xk6_disruptor.PodWaits.Conditions.{
  WatchedPod, Watched, Answer, wait_for_condition, check_ephemeral_container_is_running, answer_of,
  deleted_loop,
}

pub record PodClient (W : Type 0) : Type 0 where
  pub get : W → Text → Result WatchedPod
  -- json.Marshal of a pod
  pub marshal : WatchedPod → Result Text
  -- strategicpatch.CreateTwoWayMergePatch
  pub create_patch : Text → Text → WatchedPod → Result Text
  -- the name of the pod and the patch
  pub patch : W → Text → Text → Option Error × W
  pub delete : W → Text → Option Error × W
  pub is_not_found : Error → Bool

pub record AttachOptions : Type 0 where
  pub timeout : ℤ
  pub ignore_if_exists : Bool

unfoldable pub has_name : Text → List Text → Bool
has_name name [] = false
has_name name (n ∷ names) = let rest = has_name name names in if text_eq n name then true else rest

abbrev pub not_started : Error
not_started = message "ephemeral container for pod %q has not started after %fs"

-- The end of AttachEphemeralContainer: the wait for the container.
unfoldable pub started : Option Answer → Option (Option Error)
started none = none
started (some (running, some e)) =
    some (some (wrap "waiting for ephemeral container of %q to start: %w" e))
started (some (true, none)) = some none
started (some (false, none)) = some (some not_started)

module _ {W : Type 0} (client : PodClient W) where
  -- The patch that adds the container.
  unfoldable pub container_patch : WatchedPod → Text → Result Text
  container_patch pod container = elim (client.marshal pod) [
    | err e ↦ err (wrap "json marshalling pod %q: %w" e)
    | ok before ↦
        elim (client.marshal (record {
          name = pod.name;
          phase = pod.phase;
          container_statuses = pod.container_statuses;
          ephemeral_statuses = pod.ephemeral_statuses;
          ephemeral_containers = pod.ephemeral_containers ++ container ∷ [];
        })) [
          | err e ↦ err (wrap "json marshalling patched pod %q: %w" e)
          | ok after ↦ elim (client.create_patch before after pod) [
            | err e ↦ err (wrap "creating ephemeral container patch for %q: %w" e)
            | ok patch ↦ ok patch
          ]
        ]
  ]

  -- What is done once the pod was got. The wait is told what the API answers after the patch.
  unfoldable pub attach_to :
      W → WatchedPod → Text → AttachOptions → (W → Watched) → Option (Option Error) × W
  unfolding has_name container_patch started wait_for_condition check_ephemeral_container_is_running
  attach_to w pod container options watch =
      if has_name container pod.ephemeral_containers
      then (
        if options.ignore_if_exists
            then some none
            else some (some (message "ephemeral container %s already exists")),
        w,
      )
      else elim (container_patch pod container) [
        | err e ↦ (some (some e), w)
        | ok patch ↦
            (let (e, w') = client.patch w pod.name patch in
              (
                if is_some e
                    then some (wrap_err "patching ephemeral container into pod %q: %w" e)
                    else if eq_ℤ options.timeout (pos 0)
                    then some none
                    else started (
                        answer_of
                          (wait_for_condition check_ephemeral_container_is_running tt (watch w'))),
                w',
              ))
      ]

  unfoldable pub attach_ephemeral_container :
      W → Text → Text → AttachOptions → (W → Watched) → Option (Option Error) × W
  unfolding attach_to
  attach_ephemeral_container w pod_name container options watch = elim (client.get w pod_name) [
    | err e ↦ (some (some (wrap "retrieving pod %q in %q: %w" e)), w)
    | ok pod ↦ attach_to w pod container options watch
  ]

  unfoldable pub missing : Result WatchedPod → Bool
  missing (err e) = client.is_not_found e
  missing (ok pod) = false

  -- An error of Get that is not "not found" is not looked at.
  unfoldable pub wait_pod_deleted : Watched → Option (Option Error)
  unfolding missing deleted_loop
  wait_pod_deleted w = elim w.start [
    | some e ↦ some (some (wrap "starting pod watcher: %w" e))
    | none ↦ if missing w.pod then some none else deleted_loop w.events
  ]

  unfoldable pub terminate : W → Text → (W → Watched) → Option (Option Error) × W
  unfolding wait_pod_deleted
  terminate w pod watch =
      let (e, w') = client.delete w pod in
      let waited = wait_pod_deleted (watch w') in
      (if is_some e then some (wrap_err "deleting pod %w" e) else waited, w')
