-- ===== src/PodWaits/Attach.antt =====
-- pkg/kubernetes/helpers/pods.go: what AttachEphemeralContainer and Terminate come to.
use xk6_disruptor.Prelude.{
  ◌≡◌, refl, inl, inr, true, false, none, some, Text, message, ok, if◌then◌else◌, Bool-cases, pos,
  eq_ℤ,
}
use xk6_disruptor.PodWaits.Conditions.{
  WatchedPod, Watched, settles, wait_from, wait_for_condition, any_running,
  check_ephemeral_container_is_running,
}
use xk6_disruptor.PodWaits.Helper.{
  PodClient, AttachOptions, has_name, started, container_patch, attach_to,
  attach_ephemeral_container,
}

module _ {W : Type 0} (client : PodClient W) where
  -- A container that is there already is not added again.
  attach_existing :
      (w : W) (name container : Text) (options : AttachOptions) (watch : W → Watched)
      (pod : WatchedPod)
      → client.get w name ≡ ok pod
      → has_name container pod.ephemeral_containers ≡ true
      → attach_ephemeral_container client w name container options watch ≡ (
        if options.ignore_if_exists
            then some none
            else some (some (message "ephemeral container %s already exists")),
        w,
      )
  unfolding attach_ephemeral_container attach_to
  attach_existing w name container options watch pod got there =
      rw (attach_ephemeral_container, got, attach_to, there) refl

  -- After the patch the wait ends at once when any ephemeral container of the pod runs.
  attach_any_running :
      (w : W) (name container : Text) (options : AttachOptions) (watch : W → Watched)
      (pod seen : WatchedPod) (patch : Text)
      → client.get w name ≡ ok pod
      → has_name container pod.ephemeral_containers ≡ false
      → container_patch client pod container ≡ ok patch
      → (client.patch w pod.name patch).0 ≡ none
      → (watch (client.patch w pod.name patch).1).start ≡ none
      → (watch (client.patch w pod.name patch).1).pod ≡ ok seen
      → any_running seen.ephemeral_statuses ≡ true
      → attach_ephemeral_container client w name container options watch
        ≡ (some none, (client.patch w pod.name patch).1)
  unfolding attach_ephemeral_container attach_to wait_for_condition wait_from
      check_ephemeral_container_is_running settles started
  attach_any_running w name container options watch pod seen patch got absent made sent begun shown
        runs =
      elim (Bool-cases (eq_ℤ options.timeout (pos 0))) [
        | inl now ↦ rw (attach_ephemeral_container, got, attach_to, absent, made, sent, now) refl
        | inr wait ↦
            rw
              (
                attach_ephemeral_container, got, attach_to, absent, made, sent, wait,
                wait_for_condition, begun, shown, wait_from, check_ephemeral_container_is_running,
                runs,
              )
              refl
      ]
