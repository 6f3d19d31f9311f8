-- ===== src/Pods/Sampling.antt =====
-- pkg/utils/kubernetes.go: how many pods Sample takes.
use xk6_disruptor.Prelude.{
  ℕ, zero, suc, ◌+◌, ◌*◌, ◌≤◌, ◌≡◌, refl, ◌∙◌, ◌⊎◌, false, some, List, [], ◌∷◌, ◌++◌, arith, ok,
  length, take, pos, ◌*ℤ◌, eq_ℤ, int32_max,
}
use xk6_disruptor.Prelude.Lists.{length-take_of_le}
use xk6_disruptor.IntOrString.{from_int32}
use xk6_disruptor.IntOrString.RoundTrip.{
  int32-from_int32, is_int-from_int32, is_int_percent, as_percentage-from_int32,
}
use xk6_disruptor.Pods.{Pod, sample, percent_of, first_pods}

first_pods_fits :
    (pods : List Pod) (n : ℕ) → n ≤ length pods → first_pods pods (pos n) ≡ some (ok (take n pods))
unfolding first_pods
first_pods_fits pods n fits = ground arith

-- A count that is an int32 no greater than the number of pods gives that many pods, the first ones.
pub sample_count :
    (pods : List Pod) (n : ℕ)
    → n ≤ int32_max
    → n ≤ length pods
    → (sample pods (from_int32 (pos n)) ≡ some (ok (take n pods))) × (length (take n pods) ≡ n)
unfolding sample
sample_count pods n small fits =
    rw
      (
        is_int-from_int32 (pos n) (small, ground arith),
        (int32-from_int32 (pos n) (small, ground arith)).0,
      )
      (first_pods_fits pods n fits, length-take_of_le n pods fits)

pos_mul : (a b : ℕ) → pos a *ℤ pos b ≡ pos (a * b)
unfolding ◌*ℤ◌
pos_mul a b = ground arith

sample_percent :
    (pods : List Pod) (p : ℕ)
    → 1 ≤ p
    → p ≤ int32_max
    → sample pods (from_int32 (pos p) ++ b'%' ∷ [])
      ≡ first_pods pods (pos (percent_of (pos (length pods * p))))
unfolding sample percent_of
sample_percent pods zero lo hi = elim lo [ ]
sample_percent pods (suc p) lo hi =
    rw
      (
        as_percentage-from_int32 (pos (suc p)) (hi, omega arith),
        is_int_percent (from_int32 (pos (suc p))),
        pos_mul (length pods) (suc p),
      )
      (let nonzero : eq_ℤ (pos (suc p)) (pos 0) ≡ false = ground arith in rw nonzero refl)

mul_le : (n p : ℕ) → p ≤ 100 → n * p ≤ 100 * n
mul_le zero p h = omega arith
mul_le (suc n) p h = omega (arith, mul_le n p h)

percent_of_bounds :
    (n x : ℕ)
    → 1 ≤ n
    → x ≤ 100 * n
    → (1 ≤ percent_of (pos x))
      × (percent_of (pos x) ≤ n)
      × ((percent_of (pos x) ≡ 1) ⊎ (100 * percent_of (pos x) ≤ x + 50))
      × (x ≤ 100 * percent_of (pos x) + 50)
unfolding percent_of
percent_of_bounds n x some_pod h = ground arith

-- A percentage between 1% and 100% of at least one pod gives the first pods: at least one, at most
-- all of them, not less than the exact share by more than half a pod, and, unless it is one, not
-- more by more than half a pod.
pub sample_percentage :
    (pods : List Pod) (p : ℕ)
    → 1 ≤ p
    → p ≤ 100
    → 1 ≤ length pods
    → (k : ℕ) × (sample pods (from_int32 (pos p) ++ b'%' ∷ []) ≡ some (ok (take k pods)))
      × (1 ≤ k)
      × (k ≤ length pods)
      × ((k ≡ 1) ⊎ (100 * k ≤ length pods * p + 50))
      × (length pods * p ≤ 100 * k + 50)
sample_percentage pods p lo hi some_pod =
    let size = percent_of (pos (length pods * p)) in
    let bounds =
      percent_of_bounds (length pods) (length pods * p) some_pod (mul_le (length pods) p hi) in
    (
      size,
      sample_percent pods p lo (omega arith) ∙ first_pods_fits pods size bounds.1,
      bounds.0,
      bounds.1,
      bounds.2,
      bounds.3,
    )
