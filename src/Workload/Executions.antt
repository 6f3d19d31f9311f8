-- ===== src/Workload/Executions.antt =====
-- pkg/disruptors/workload.go: whole calls of the disruptor, and executions of several.
use xk6_disruptor.Prelude.{
  ◌≡◌, refl, inl, inr, true, Option, none, List, [], ◌∷◌, Error, is_some, Result, Result-cases,
  Bool-cases, Option-cases, ℤ,
}
use xk6_disruptor.Workload.Replica.{ReplicaChangeFault, validate}
use xk6_disruptor.Workload.Helper
use xk6_disruptor.Workload.Helper.{Api, WorkloadRef, ref_eq, ref_eq_iff}
use xk6_disruptor.Workload.Selector
use xk6_disruptor.Workload.Selector.{WorkloadSelectorSpec}
use xk6_disruptor.Workload.Disruptor
use xk6_disruptor.Workload.Disruptor.{
  Originals, lookup, delete, record_original, join_errors, collect,
}
use xk6_disruptor.Workload.Restores.{ApiLaws}
use xk6_disruptor.Workload.Reverts.{
  Inv, NonNegative, scale_each-Inv, revert_all-Inv, revert_all_first, revert_all_restores,
}

module _ {W : Type 0} {api : Api W} (laws : ApiLaws api) where
  scale_replicas-Inv :
      (base : WorkloadRef → Result ℤ) (w : W) (m : Originals) (spec : WorkloadSelectorSpec)
      (fault : ReplicaChangeFault) (duration : ℤ) (order : List WorkloadRef → List WorkloadRef)
      → NonNegative base
      → Inv laws base w m
      → let (e, m', w') = Disruptor.scale_replicas api w m spec fault duration order in
        Inv laws base w' m'
  unfolding Disruptor.scale_replicas
  scale_replicas-Inv base w m spec fault duration order n h =
      elim (Option-cases (validate fault duration)) [
        | inr (e, invalid) ↦ rw (invalid, Disruptor.scale_replicas) h
        | inl valid ↦ elim (Result-cases (Selector.targets api w spec)) [
          | inr (e, failed) ↦ rw (valid, failed, Disruptor.scale_replicas) h
          | inl (refs, found) ↦
              let scaled = scale_each-Inv laws base w m (order refs) fault [] h in
              let (errs, m', w') = Disruptor.scale_each api w m (order refs) fault [] in
              rw (valid, found, Disruptor.scale_replicas)
                (elim (Bool-cases (is_some (join_errors errs))) [
                  | inl partial ↦ rw partial scaled
                  | inr whole ↦ rw whole (elim (Bool-cases fault.auto_revert) [
                    | inl automatic ↦ simp automatic (revert_all-Inv laws base w' m' n scaled)
                    | inr manual ↦ simp manual scaled
                  ])
                ])
        ]
      ]

  start-Inv : (w : W) → Inv laws (Helper.get_replicas api w) w []
  unfolding lookup
  start-Inv w = record { kept = λ r. refl; started = tt }

  -- A scaling with automatic revert that returns nil leaves every workload as it was before the
  -- call, whatever the order in which the targets are scaled: of a disruptor that has scaled
  -- nothing yet, for an API server whose reads show the last accepted update, and which holds no
  -- negative count.
  pub auto_revert_restores :
      (w : W) (spec : WorkloadSelectorSpec) (fault : ReplicaChangeFault) (duration : ℤ)
      (order : List WorkloadRef → List WorkloadRef)
      → NonNegative (Helper.get_replicas api w)
      → fault.auto_revert ≡ true
      → (Disruptor.scale_replicas api w [] spec fault duration order).0 ≡ none
      → (r : WorkloadRef)
      → Helper.get_replicas api (Disruptor.scale_replicas api w [] spec fault duration order).2 r
        ≡ Helper.get_replicas api w r
  unfolding Disruptor.scale_replicas
  auto_revert_restores w spec fault duration order n automatic =
      let base = Helper.get_replicas api w in
      elim (Option-cases (validate fault duration)) [
        | inr (e, invalid) ↦ rw (invalid, Disruptor.scale_replicas) (λ h. cc)
        | inl valid ↦ elim (Result-cases (Selector.targets api w spec)) [
          | inr (e, failed) ↦ rw (valid, failed, Disruptor.scale_replicas) (λ h. cc)
          | inl (refs, found) ↦
              let scaled = scale_each-Inv laws base w [] (order refs) fault [] (start-Inv w) in
              let (errs, m', w') = Disruptor.scale_each api w [] (order refs) fault [] in
              rw (valid, found, Disruptor.scale_replicas)
                (elim (Option-cases (join_errors errs)) [
                  | inr (e, partial) ↦ rw partial (λ h. cc)
                  | inl whole ↦
                      rw whole (simp automatic (revert_all_first laws base w' m' n scaled))
                ])
        ]
      ]

  -- The calls that change a disruptor's state, and an execution of some of them.
  pub data Call : Type 0 where
    scale :
        WorkloadSelectorSpec → ReplicaChangeFault → ℤ → (List WorkloadRef → List WorkloadRef) → Call
    clean : Call

  abbrev pub call : W → Originals → Call → Option Error × Originals × W
  call w m (scale spec fault duration order) =
      Disruptor.scale_replicas api w m spec fault duration order
  call w m clean = Disruptor.cleanup api w m

  abbrev pub run : W → Originals → List Call → Originals × W
  run w m [] = (m, w)
  run w m (c ∷ cs) = let (e, m', w') = call w m c in run w' m' cs

  run-Inv :
      (base : WorkloadRef → Result ℤ) (w : W) (m : Originals) (cs : List Call)
      → NonNegative base
      → Inv laws base w m
      → let (m', w') = run w m cs in Inv laws base w' m'
  unfolding Disruptor.cleanup
  run-Inv base w m [] n h = h
  run-Inv base w m (scale spec fault duration order ∷ cs) n h =
      let (e, m', w') = Disruptor.scale_replicas api w m spec fault duration order in
      run-Inv base w' m' cs n (scale_replicas-Inv base w m spec fault duration order n h)
  run-Inv base w m (clean ∷ cs) n h =
      let (e, m', w') = Disruptor.revert_all api w m in
      run-Inv base w' m' cs n (revert_all-Inv laws base w m n h)

  -- After any calls of a new disruptor, failed ones included, a cleanup that returns nil leaves
  -- every workload with the replica count that was read before the first call: for an API server
  -- whose reads show the last accepted update, and which holds no negative count.
  pub cleanup_restores :
      (w : W) (cs : List Call)
      → NonNegative (Helper.get_replicas api w)
      → (Disruptor.cleanup api (run w [] cs).1 (run w [] cs).0).0 ≡ none
      → (r : WorkloadRef)
      → Helper.get_replicas api (Disruptor.cleanup api (run w [] cs).1 (run w [] cs).0).2 r
        ≡ Helper.get_replicas api w r
  unfolding Disruptor.cleanup
  cleanup_restores w cs n h r =
      let base = Helper.get_replicas api w in
      let (m, w') = run w [] cs in
      (revert_all_restores laws base w' m n (run-Inv base w [] cs n (start-Inv w)) h r).0
