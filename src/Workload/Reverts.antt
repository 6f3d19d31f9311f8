-- ===== src/Workload/Reverts.antt =====
-- pkg/disruptors/workload.go: the invariant of the recorded replica counts, and what reverting does.
use Prim.Native.String.{String}
use xk6_disruptor.Prelude.{
  ◌+◌, ◌≤◌, ◌≡◌, refl, sym, ◌∙◌, inl, inr, Bool, false, ◌||◌, Option, none, some, List, [], ◌∷◌,
  arith, Error, wrap, is_some, Result, ok, Result-cases, if◌then◌else◌, Bool-cases, Option-cases,
  length, length-append, ℤ, pos, ◌≤ℤ◌, eq_ℤ,
}
use xk6_disruptor.Workload.Replica.{ReplicaChangeFault, resolve}
use xk6_disruptor.Workload.Helper
use xk6_disruptor.Workload.Helper.{Api, WorkloadRef, ref_eq, ref_eq_iff}
use xk6_disruptor.Workload.Disruptor
use xk6_disruptor.Workload.Disruptor.{
  Originals, lookup, delete, record_original, join_errors, collect,
}
use xk6_disruptor.Workload.Restores.{ApiLaws, Keeps, apply_scale-Keeps, delete-Keeps, lookup-delete}

-- Every entry of the map is what its workload read at the start.
abbrev pub AllStarted : (WorkloadRef → Result ℤ) → List (WorkloadRef × ℤ) → Type 0
AllStarted base [] = Unit
AllStarted base ((k, v) ∷ m) = (base k ≡ ok v) × AllStarted base m

-- The API server holds no negative count.
abbrev pub NonNegative : (WorkloadRef → Result ℤ) → Type 0
NonNegative base = (r : WorkloadRef) (v : ℤ) → base r ≡ ok v → pos 0 ≤ℤ v

delete-AllStarted :
    (base : WorkloadRef → Result ℤ) (r : WorkloadRef) (m : Originals)
    → AllStarted base m
    → AllStarted base (delete r m)
unfolding delete
delete-AllStarted base r [] h = tt
delete-AllStarted base r ((k, v) ∷ m) h = ground (arith, delete-AllStarted base r m h.1)

abbrev in_keys : WorkloadRef → List (WorkloadRef × ℤ) → Bool
in_keys r [] = false
in_keys r ((k, v) ∷ m) = ref_eq r k || in_keys r m

lookup_of_keys : (r : WorkloadRef) (m : Originals) → is_some (lookup r m) ≡ in_keys r m
unfolding lookup
lookup_of_keys r [] = refl
lookup_of_keys r ((k, v) ∷ m) = ground (arith, lookup_of_keys r m)

pub length-collect :
    (format : String) (e : Option Error) (errs : List Error)
    → length (collect format e errs) ≡ length errs + (if is_some e then 1 else 0)
length-collect format none errs = omega arith
length-collect format (some e) errs = length-append errs (wrap format e ∷ [])

module _ {W : Type 0} {api : Api W} (laws : ApiLaws api) where
  pub record Inv (base : WorkloadRef → Result ℤ) (w : W) (m : Originals) : Type 0 where
    pub kept : Keeps laws base w m
    pub started : AllStarted base m

  length-revert_each :
      (w : W) (m : Originals) (pending : List (WorkloadRef × ℤ)) (errs : List Error)
      → length errs ≤ length (Disruptor.revert_each api w m pending errs).0
  unfolding Disruptor.revert_each
  length-revert_each w m [] errs = omega arith
  length-revert_each w m ((ref, v) ∷ pending) errs =
      let (e, w') = Helper.scale api w ref v in
      omega (
        arith,
        length-revert_each w' (if is_some e then m else delete ref m) pending
            (collect "restoring %s to %d: %w" e errs),
        length-collect "restoring %s to %d: %w" e errs,
      )

  revert_each-Inv :
      (base : WorkloadRef → Result ℤ) (w : W) (m : Originals) (pending : List (WorkloadRef × ℤ))
      (errs : List Error)
      → NonNegative base
      → Inv base w m
      → AllStarted base pending
      → let (errs', m', w') = Disruptor.revert_each api w m pending errs in Inv base w' m'
  unfolding Disruptor.revert_each
  revert_each-Inv base w m [] errs n h p = h
  revert_each-Inv base w m ((ref, v) ∷ pending) errs n h p =
      let (e, w') = Helper.scale api w ref v in
      revert_each-Inv base w' (if is_some e then m else delete ref m) pending
        (collect "restoring %s to %d: %w" e errs) n
        (record {
          kept = delete-Keeps laws base w m ref v h.kept p.0 (n ref v p.0);
          started = ground (arith, delete-AllStarted base ref m h.started, h.started);
        })
        p.1

  -- Without an error every pending workload leaves the map.
  revert_each_clears :
      (w : W) (m : Originals) (pending : List (WorkloadRef × ℤ)) (errs : List Error)
      (r : WorkloadRef)
      → let (errs', m', w') = Disruptor.revert_each api w m pending errs in
        length errs' ≡ 0 → lookup r m' ≡ (if in_keys r pending then none else lookup r m)
  unfolding Disruptor.revert_each
  revert_each_clears w m [] errs r h = refl
  revert_each_clears w m ((ref, v) ∷ pending) errs r h =
      let (e, w') = Helper.scale api w ref v in
      ground (
        arith,
        length-revert_each w' (if is_some e then m else delete ref m) pending
            (collect "restoring %s to %d: %w" e errs),
        length-collect "restoring %s to %d: %w" e errs,
        revert_each_clears w' (if is_some e then m else delete ref m) pending
            (collect "restoring %s to %d: %w" e errs) r h,
        lookup-delete r ref m,
      )

  record-AllStarted :
      (base : WorkloadRef → Result ℤ) (w : W) (m : Originals) (ref : WorkloadRef) (c : ℤ)
      → Inv base w m
      → Helper.get_replicas api w ref ≡ ok c
      → AllStarted base (record_original ref c m)
  unfolding record_original
  record-AllStarted base w m ref c h read = elim (Option-cases (lookup ref m)) [
    | inl unknown ↦
        let start : Helper.get_replicas api w ref ≡ base ref = rw unknown at (h.kept ref) in
        rw unknown (sym start ∙ read, h.started)
    | inr (v, known) ↦ rw known h.started
  ]

  apply_scale-AllStarted :
      (base : WorkloadRef → Result ℤ) (w : W) (m : Originals) (ref : WorkloadRef)
      (fault : ReplicaChangeFault)
      → Inv base w m
      → AllStarted base (Disruptor.apply_scale api w m ref fault).1
  unfolding Disruptor.apply_scale
  apply_scale-AllStarted base w m ref fault h =
      elim (Result-cases (Helper.get_replicas api w ref)) [
        | inr (e, failed) ↦ rw (failed, Disruptor.apply_scale) h.started
        | inl (c, read) ↦
            rw (read, Disruptor.apply_scale)
              (elim (Bool-cases (eq_ℤ (resolve fault c) c)) [
                | inl there ↦ rw there (record-AllStarted base w m ref c h read)
                | inr away ↦ rw away (record-AllStarted base w m ref c h read)
              ])
      ]

  pub scale_each-Inv :
      (base : WorkloadRef → Result ℤ) (w : W) (m : Originals) (refs : List WorkloadRef)
      (fault : ReplicaChangeFault) (errs : List Error)
      → Inv base w m
      → let (errs', m', w') = Disruptor.scale_each api w m refs fault errs in Inv base w' m'
  unfolding Disruptor.scale_each
  scale_each-Inv base w m [] fault errs h = h
  scale_each-Inv base w m (ref ∷ refs) fault errs h =
      let (e, m', w') = Disruptor.apply_scale api w m ref fault in
      scale_each-Inv base w' m' refs fault (collect "%s: %w" e errs) (record {
        kept = apply_scale-Keeps laws base w m ref fault h.kept;
        started = apply_scale-AllStarted base w m ref fault h;
      })

  pub revert_all-Inv :
      (base : WorkloadRef → Result ℤ) (w : W) (m : Originals)
      → NonNegative base
      → Inv base w m
      → let (e, m', w') = Disruptor.revert_all api w m in Inv base w' m'
  unfolding Disruptor.revert_all
  revert_all-Inv base w m n h = revert_each-Inv base w m m [] n h h.started

  no_errors : (errs : List Error) → join_errors errs ≡ none → length errs ≡ 0
  no_errors [] h = refl
  no_errors (e ∷ es) h = cc

  -- A revert with no error brings every workload back to what it read at the start, and forgets it.
  pub revert_all_restores :
      (base : WorkloadRef → Result ℤ) (w : W) (m : Originals)
      → NonNegative base
      → Inv base w m
      → let (e, m', w') = Disruptor.revert_all api w m in
        e ≡ none
        → (r : WorkloadRef) → (Helper.get_replicas api w' r ≡ base r) × (lookup r m' ≡ none)
  unfolding Disruptor.revert_all
  revert_all_restores base w m n h done r =
      let (errs, m', w') = Disruptor.revert_each api w m m [] in
      let cleared = revert_each_clears w m m [] r (no_errors errs done) in
      let gone : lookup r m' ≡ none = ground (arith, cleared, lookup_of_keys r m) in
      let after = revert_each-Inv base w m m [] n h h.started in (rw gone at (after.kept r), gone)

  pub revert_all_first :
      (base : WorkloadRef → Result ℤ) (w : W) (m : Originals)
      → NonNegative base
      → Inv base w m
      → let (e, m', w') = Disruptor.revert_all api w m in
        e ≡ none → (r : WorkloadRef) → Helper.get_replicas api w' r ≡ base r
  revert_all_first base w m n h done r = (revert_all_restores base w m n h done r).0
