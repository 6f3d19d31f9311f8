-- ===== src/PodDisruptor/Visits.antt =====
-- pkg/disruptors/controller.go with pkg/disruptors/pod.go: what the visits of all the targets keep.
use xk6_disruptor.Prelude.{
  ℕ, ◌-◌, ◌≡◌, refl, inl, inr, true, Option, none, some, List, [], ◌∷◌, Error, Result, ok, err,
  ◌==◌, Bool-cases, Option-cases, length, All,
}
use xk6_disruptor.Pods.{Pod}
use xk6_disruptor.PodDisruptor.Injections.{
  Injection, panicked, waiting, returned, Happening, visited, unfinished, context_ended, on_visited,
  await_visits, visit_targets,
}

-- An unfinished visit keeps the property.
abbrev pub Keeps : {W : Type 0} → (W → Type 0) → Happening W → Type 0
Keeps {W} P (visited pod) = true ≡ true
Keeps {W} P (unfinished pod change) = (w : W) → P w → P (change w)
Keeps {W} P (context_ended e) = true ≡ true

-- Where a call that returned leaves the cluster.
abbrev pub Leaves : {W : Type 0} → (W → Type 0) → Injection W → Type 0
Leaves P panicked = true ≡ true
Leaves P (waiting w) = true ≡ true
Leaves P (returned e w) = P w

module _ {W : Type 0} (visit_one : W → Pod → Option (Option Error × W)) (P : W → Type 0)
    (keep : (v v' : W) (pod : Pod) (e : Option Error)
      → visit_one v pod ≡ some (e, v')
      → P v
      → P v') where
  on_visited-Leaves :
      (left : ℕ) (w : W) (pod : Pod) (rest : W → Injection W)
      → ((v : W) → P v → Leaves P (rest v))
      → P w
      → Leaves P (on_visited left (visit_one w pod) rest)
  unfolding on_visited
  on_visited-Leaves left w pod rest next start = elim (Option-cases (visit_one w pod)) [
    | inl n ↦ rw n refl
    | inr ((some e, v), n) ↦ rw n (keep w v pod (some e) n start)
    | inr ((none, v), n) ↦ elim (Bool-cases (left == 0)) [
      | inl last ↦ rw (n, last) (keep w v pod none n start)
      | inr more ↦ rw (n, more) (next v (keep w v pod none n start))
    ]
  ]

  await_visits-Leaves :
      (hs : List (Happening W)) (pending : ℕ) (w : W)
      → All (Keeps P) hs
      → P w
      → Leaves P (await_visits visit_one pending w hs)
  unfolding await_visits
  await_visits-Leaves [] pending w kept start = refl
  await_visits-Leaves (visited pod ∷ hs) pending w (k, kept) start =
      on_visited-Leaves (pending - 1) w pod _ (λ v p. await_visits-Leaves hs (pending - 1) v kept p)
        start
  await_visits-Leaves (unfinished pod change ∷ hs) pending w (k, kept) start =
      await_visits-Leaves hs pending (change w) kept (k w start)
  await_visits-Leaves (context_ended e ∷ hs) pending w (k, kept) start = start

  -- A property that each visit keeps holds when the call returns.
  pub visit_targets-Leaves :
      (targets : Result (List Pod)) (hs : List (Happening W)) (w : W)
      → All (Keeps P) hs
      → P w
      → Leaves P (visit_targets visit_one targets hs w)
  unfolding visit_targets
  visit_targets-Leaves (err e) hs w kept start = start
  visit_targets-Leaves (ok pods) hs w kept start = elim (Bool-cases (length pods == 0)) [
    | inl empty ↦ rw empty start
    | inr full ↦ rw full (await_visits-Leaves hs (length pods) w kept start)
  ]
