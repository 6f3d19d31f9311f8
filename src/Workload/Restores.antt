-- ===== src/Workload/Restores.antt =====
-- pkg/disruptors/workload.go: whatever is scaled, and whatever fails, the original counts are kept
-- until they are restored.
use xk6_disruptor.Prelude.{
  ◌≡◌, refl, sym, ap, ◌∙◌, inl, inr, Bool, true, false, Option, none, some, List, [], ◌∷◌, arith,
  Error, is_some, Result, ok, Result-cases, if◌then◌else◌, Bool-cases, Option-cases, ℤ, pos, ◌≤ℤ◌,
  eq_ℤ,
}
use xk6_disruptor.Workload.Replica.{ReplicaChangeFault, resolve}
use xk6_disruptor.Workload.Helper
use xk6_disruptor.Workload.Helper.{Api, WorkloadRef, ref_eq, ref_eq_iff, at_least_zero}
use xk6_disruptor.Workload.Disruptor
use xk6_disruptor.Workload.Disruptor.{
  Originals, lookup, delete, record_original, join_errors, collect,
}

-- What the code relies on of the API server: an update that succeeds is read back, and changes no
-- other workload; one that fails changes nothing.
pub record ApiLaws {W : Type 0} (api : Api W) : Type 0 where
  pub read_updated :
      (w : W) (r : WorkloadRef) (n : ℤ)
      → is_some (api.update w r n).0 ≡ false
      → api.get (api.update w r n).1 r ≡ ok (some n)
  pub read_other :
      (w : W) (r s : WorkloadRef) (n : ℤ)
      → ref_eq s r ≡ false
      → api.get (api.update w r n).1 s ≡ api.get w s
  pub read_refused :
      (w : W) (r s : WorkloadRef) (n : ℤ)
      → is_some (api.update w r n).0 ≡ true
      → api.get (api.update w r n).1 s ≡ api.get w s

pub lookup-record_original :
    (r s : WorkloadRef) (v : ℤ) (m : Originals)
    → lookup r (record_original s v m)
      ≡ (if is_some (lookup s m) then lookup r m else if ref_eq r s then some v else lookup r m)
unfolding record_original lookup
lookup-record_original r s v m = ground arith

pub lookup-delete :
    (r s : WorkloadRef) (m : Originals)
    → lookup r (delete s m) ≡ (if ref_eq r s then none else lookup r m)
unfolding delete lookup
lookup-delete r s [] = ground arith
lookup-delete r s ((k, v) ∷ m) =
    ground (arith, lookup-delete r s m, ref_eq_iff r s, ref_eq_iff s k, ref_eq_iff r k)

if_same {ℓ} : {A : Type ℓ} (b : Bool) (x : A) → (if b then x else x) ≡ x
if_same true x = refl
if_same false x = refl

kept : (v : ℤ) → pos 0 ≤ℤ v → at_least_zero v ≡ v
kept v h = ground arith

module _ {W : Type 0} {api : Api W} (laws : ApiLaws api) where
  abbrev pub current : W → WorkloadRef → Result ℤ
  current w r = Helper.get_replicas api w r

  current_of_get :
      (w w' : W) (r : WorkloadRef) → api.get w' r ≡ api.get w r → current w' r ≡ current w r
  unfolding Helper.get_replicas
  current_of_get w w' r h = rw h

  scale_other :
      (w : W) (r s : WorkloadRef) (n : ℤ)
      → ref_eq s r ≡ false
      → current (Helper.scale api w r n).1 s ≡ current w s
  unfolding Helper.scale
  scale_other w r s n h =
      current_of_get w (Helper.scale api w r n).1 s
        (ground (arith, laws.read_other w r s (at_least_zero n)))

  scale_refused :
      (w : W) (r s : WorkloadRef) (n : ℤ)
      → is_some (Helper.scale api w r n).0 ≡ true
      → current (Helper.scale api w r n).1 s ≡ current w s
  unfolding Helper.scale
  scale_refused w r s n h =
      current_of_get w (Helper.scale api w r n).1 s
        (ground (arith, laws.read_refused w r s (at_least_zero n)))

  scale_success :
      (w : W) (r : WorkloadRef) (n : ℤ)
      → is_some (Helper.scale api w r n).0 ≡ false
      → current (Helper.scale api w r n).1 r ≡ ok (at_least_zero n)
  unfolding Helper.scale Helper.get_replicas
  scale_success w r n h = ground (arith, laws.read_updated w r (at_least_zero n))

  -- A workload that is not recorded reads as it did at the start; one that is, is recorded with what
  -- it read at the start.
  abbrev pub Recorded : Option ℤ → Result ℤ → Result ℤ → Type 0
  Recorded none base now = now ≡ base
  Recorded (some v) base now = base ≡ ok v

  abbrev pub Keeps : (WorkloadRef → Result ℤ) → W → Originals → Type 0
  Keeps base w m = (r : WorkloadRef) → Recorded (lookup r m) (base r) (current w r)

  -- Only the workload of the reference may have changed.
  abbrev ChangesOnly : WorkloadRef → W → W → Type 0
  ChangesOnly ref w w' = (s : WorkloadRef) → ref_eq s ref ≡ false → current w' s ≡ current w s

  record_original_self :
      (base : WorkloadRef → Result ℤ) (w w' : W) (m : Originals) (ref : WorkloadRef) (c : ℤ)
      → Keeps base w m
      → current w ref ≡ ok c
      → Recorded (lookup ref (record_original ref c m)) (base ref) (current w' ref)
  record_original_self base w w' m ref c h read =
      rw (lookup-record_original ref ref c m, (ref_eq_iff ref ref).1 refl)
        (elim (Option-cases (lookup ref m)) [
          | inl unknown ↦
              let start : current w ref ≡ base ref = rw unknown at (h ref) in
              rw unknown (sym start ∙ read)
          | inr (v, known) ↦ let start : base ref ≡ ok v = rw known at (h ref) in rw known start
        ])

  record_original-Keeps :
      (base : WorkloadRef → Result ℤ) (w w' : W) (m : Originals) (ref : WorkloadRef) (c : ℤ)
      → Keeps base w m
      → current w ref ≡ ok c
      → ChangesOnly ref w w'
      → Keeps base w' (record_original ref c m)
  record_original-Keeps base w w' m ref c h read only r = elim (Bool-cases (ref_eq r ref)) [
    | inl same ↦ rw ((ref_eq_iff r ref).0 same) (record_original_self base w w' m ref c h read)
    | inr other ↦
        rw
          (
            lookup-record_original r ref c m,
            other,
            if_same (is_some (lookup ref m)) (lookup r m),
            only r other,
          )
          (h r)
  ]

  pub apply_scale-Keeps :
      (base : WorkloadRef → Result ℤ) (w : W) (m : Originals) (ref : WorkloadRef)
      (fault : ReplicaChangeFault)
      → Keeps base w m
      → let (e, m', w') = Disruptor.apply_scale api w m ref fault in Keeps base w' m'
  unfolding Disruptor.apply_scale
  apply_scale-Keeps base w m ref fault h = elim (Result-cases (Helper.get_replicas api w ref)) [
    | inr (e, failed) ↦ rw (failed, Disruptor.apply_scale) h
    | inl (c, read) ↦
        rw (read, Disruptor.apply_scale)
          (elim (Bool-cases (eq_ℤ (resolve fault c) c)) [
            | inl there ↦ rw there (record_original-Keeps base w w m ref c h read (λ s other. refl))
            | inr away ↦ rw away (
                record_original-Keeps base w (Helper.scale api w ref (resolve fault c)).1 m ref c h
                  read (λ s other. scale_other w ref s (resolve fault c) other))
          ])
  ]

  -- Every workload that is not in the map reads as at the start, after any scalings, in any order
  -- and whatever fails.
  pub scale_each-Keeps :
      (base : WorkloadRef → Result ℤ) (w : W) (m : Originals) (refs : List WorkloadRef)
      (fault : ReplicaChangeFault) (errs : List Error)
      → Keeps base w m
      → let (errs', m', w') = Disruptor.scale_each api w m refs fault errs in Keeps base w' m'
  unfolding Disruptor.scale_each
  scale_each-Keeps base w m [] fault errs h = h
  scale_each-Keeps base w m (ref ∷ refs) fault errs h =
      let (e, m', w') = Disruptor.apply_scale api w m ref fault in
      scale_each-Keeps base w' m' refs fault (collect "%s: %w" e errs)
        (apply_scale-Keeps base w m ref fault h)

  -- One restoration: if it succeeds the workload reads as at the start and leaves the map, and if it
  -- fails nothing changes. The recorded count must not be negative.
  pub delete-Keeps :
      (base : WorkloadRef → Result ℤ) (w : W) (m : Originals) (ref : WorkloadRef) (v : ℤ)
      → Keeps base w m
      → base ref ≡ ok v
      → pos 0 ≤ℤ v
      → let (e, w') = Helper.scale api w ref v in
        Keeps base w' (if is_some e then m else delete ref m)
  delete-Keeps base w m ref v h started nonneg r =
      elim (Bool-cases (is_some (Helper.scale api w ref v).0)) [
        | inl refused ↦ rw (refused, scale_refused w ref r v refused) (h r)
        | inr accepted ↦
            rw (accepted, lookup-delete r ref m)
              (elim (Bool-cases (ref_eq r ref)) [
                | inl same ↦
                    rw ((ref_eq_iff r ref).1 ((ref_eq_iff r ref).0 same), (ref_eq_iff r ref).0 same)
                      (scale_success w ref v accepted ∙ ap ok (kept v nonneg) ∙ sym started)
                | inr other ↦ rw (other, scale_other w ref r v other) (h r)
              ])
      ]
