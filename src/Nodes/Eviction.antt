-- ===== src/Nodes/Eviction.antt =====
-- pkg/kubernetes/helpers/nodes.go: which pods EvictPods evicts.
use xk6_disruptor.Prelude.{
  ℕ, ◌+◌, ◌≡◌, refl, ap, ◌∙◌, inl, inr, Bool, true, false, not, ◌&&◌, ◌||◌, Option, none, some,
  List, [], ◌∷◌, arith, Text, codes, text_eq, Error, message, is_some, ok, ltb, if◌then◌else◌,
  Bool-cases, Option-cases, length, length-append, count_if,
}
use xk6_disruptor.Nodes.Api.{NodePod, NodeApi}
use xk6_disruptor.Nodes.Helper.{
  NodeEvictOptions, is_daemon_set, has_local, evict_pod, evict_loop, evict_pods,
}

-- How many owners are daemon sets, and how many volumes are local.
abbrev pub daemon_sets : NodePod → ℕ
daemon_sets pod = count_if (λ kind. text_eq kind (codes "DaemonSet")) pod.owner_kinds

abbrev pub local_data : NodePod → ℕ
local_data pod = count_if (λ local. local) pod.local_volumes

is_daemon_set-count :
    (kinds : List Text)
    → is_daemon_set kinds ≡ ltb 0 (count_if (λ kind. text_eq kind (codes "DaemonSet")) kinds)
unfolding is_daemon_set
is_daemon_set-count [] = refl
is_daemon_set-count (kind ∷ kinds) = elim (Bool-cases (text_eq kind (codes "DaemonSet"))) [
  | inl daemon ↦ rw (is_daemon_set, daemon) (ground arith)
  | inr other ↦ rw (is_daemon_set, other) (is_daemon_set-count kinds)
]

has_local-count :
    (volumes : List Bool) → has_local volumes ≡ ltb 0 (count_if (λ local. local) volumes)
unfolding has_local
has_local-count [] = refl
has_local-count (true ∷ volumes) = ground arith
has_local-count (false ∷ volumes) = has_local-count volumes

-- A pod that neither belongs to a DaemonSet that is to be skipped nor has local data that is to be kept.
abbrev pub is_eligible : NodeEvictOptions → NodePod → Bool
is_eligible options pod =
    not (options.skip_daemon_sets && ltb 0 (daemon_sets pod))
    && (options.delete_local_data || not (ltb 0 (local_data pod)))

abbrev pub eligible : NodeEvictOptions → List NodePod → List NodePod
eligible options [] = []
eligible options (pod ∷ pods) =
    let rest = eligible options pods in if is_eligible options pod then pod ∷ rest else rest

any_error :
    (errors : List Error)
    → is_some {A = Error} (
        if ltb 0 (length errors)
        then some (message "errors evicting pods from node %s: %v")
        else none)
      ≡ ltb 0 (length errors)
any_error errors = ground arith

module _ {W : Type 0} (api : NodeApi W) where
  -- What the API answers to the eviction of every pod of a list, in order.
  abbrev pub evictions : W → List NodePod → List (Option Error) × W
  evictions w [] = ([], w)
  evictions w (pod ∷ pods) =
      let (e, w') = api.evict w pod.namespace pod.name in
      let (es, w'') = evictions w' pods in (e ∷ es, w'')

  -- A failure, but not of the eviction of a pod that is gone.
  abbrev pub is_failure : Option Error → Bool
  is_failure none = false
  is_failure (some e) = not (api.is_not_found e)

  -- The eviction of every pod of a list with the code's function.
  abbrev evict_each : W → List NodePod → List Error → List Error × W
  evict_each w [] errors = (errors, w)
  evict_each w (pod ∷ pods) errors =
      let (errors', w') = evict_pod api w pod errors in evict_each w' pods errors'

  evict_pod_lem :
      (w : W) (pod : NodePod) (errors : List Error)
      → let (e, w') = api.evict w pod.namespace pod.name in
        (length (evict_pod api w pod errors).0 ≡ length errors + (if is_failure e then 1 else 0))
        × ((evict_pod api w pod errors).1 ≡ w')
  unfolding evict_pod
  evict_pod_lem w pod errors = elim (Option-cases (api.evict w pod.namespace pod.name).0) [
    | inl n ↦ rw (evict_pod, n) (omega arith, refl)
    | inr (e, n) ↦ elim (Bool-cases (api.is_not_found e)) [
      | inl gone ↦ rw (evict_pod, n, gone) (omega arith, refl)
      | inr failed ↦ rw (evict_pod, n, failed) (length-append errors _, refl)
    ]
  ]

  counted :
      (errors : List Error) (e : Option Error) (es : List (Option Error))
      → length errors + (if is_failure e then 1 else 0) + count_if is_failure es
        ≡ length errors + count_if is_failure (e ∷ es)
  counted errors e es = elim (Bool-cases (is_failure e)) [
    | inl failed ↦ rw failed (omega arith)
    | inr fine ↦ rw fine (omega arith)
  ]

  evict_each-evictions :
      (w : W) (pods : List NodePod) (errors : List Error)
      → (length (evict_each w pods errors).0
          ≡ length errors + count_if is_failure (evictions w pods).0)
        × ((evict_each w pods errors).1 ≡ (evictions w pods).1)
  evict_each-evictions w [] errors = (omega arith, refl)
  evict_each-evictions w (pod ∷ pods) errors =
      let (long, same) = evict_pod_lem w pod errors in
      let w' = (evict_pod api w pod errors).1 in
      let (rest, end) = evict_each-evictions w' pods (evict_pod api w pod errors).0 in
      (
        rest
            ∙ ap (λ n. n + count_if is_failure (evictions w' pods).0) long
            ∙ ap
                (λ x.
                  length errors
                  + (if is_failure (api.evict w pod.namespace pod.name).0 then 1 else 0)
                  + count_if is_failure (evictions x pods).0)
                same
            ∙ counted errors (api.evict w pod.namespace pod.name).0
                (evictions (api.evict w pod.namespace pod.name).1 pods).0,
        end ∙ ap (λ x. (evictions x pods).1) same,
      )

  evict_loop-eligible :
      (options : NodeEvictOptions) (w : W) (pods : List NodePod) (errors : List Error)
      → evict_loop api options w pods errors ≡ evict_each w (eligible options pods) errors
  unfolding evict_loop
  evict_loop-eligible options w [] errors = refl
  evict_loop-eligible options w (pod ∷ pods) errors =
      let (errors', w') = evict_pod api w pod errors in
      elim (Bool-cases (options.skip_daemon_sets && ltb 0 (daemon_sets pod))) [
        | inl daemon ↦
            rw
              (
                is_daemon_set-count pod.owner_kinds,
                daemon,
                evict_loop-eligible options w pods errors,
              )
              refl
        | inr other ↦ elim (Bool-cases options.delete_local_data) [
          | inl deleted ↦
              rw (is_daemon_set-count pod.owner_kinds, other, deleted)
                (evict_loop-eligible options w' pods errors')
          | inr kept ↦ elim (Bool-cases (ltb 0 (local_data pod))) [
            | inl full ↦
                rw
                  (
                    is_daemon_set-count pod.owner_kinds,
                    has_local-count pod.local_volumes,
                    other,
                    kept,
                    full,
                  )
                  (evict_loop-eligible options w pods errors)
            | inr free ↦
                rw
                  (
                    is_daemon_set-count pod.owner_kinds,
                    has_local-count pod.local_volumes,
                    other,
                    kept,
                    free,
                  )
                  (evict_loop-eligible options w' pods errors')
          ]
        ]
      ]

  -- When the pods of a node can be listed, EvictPods asks the API for the eviction, in order, of
  -- exactly the pods that are neither owned by a DaemonSet that is to be skipped nor have local
  -- data that is to be kept, and it fails exactly when the API answers one of these with an error
  -- that does not say that the pod is gone.
  pub evict_pods-eligible :
      (options : NodeEvictOptions) (w : W) (node_name : Text) (pods : List NodePod)
      → api.list_pods w node_name ≡ ok pods
      → (is_some (evict_pods api w node_name options).0
          ≡ ltb 0 (count_if is_failure (evictions w (eligible options pods)).0))
        × ((evict_pods api w node_name options).1 ≡ (evictions w (eligible options pods)).1)
  unfolding evict_pods
  evict_pods-eligible options w node_name pods listed =
      rw (evict_pods, listed, evict_loop-eligible options w pods [])
        (let (long, same) = evict_each-evictions w (eligible options pods) [] in
          (
            any_error (evict_each w (eligible options pods) []).0
                ∙ ap (ltb 0) (long ∙ (omega arith)),
            same,
          ))
