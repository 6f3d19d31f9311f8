-- ===== src/Workload/Resolve.antt =====
-- pkg/disruptors/replica.go: the count that a change asks for.
use xk6_disruptor.Prelude.{
  ℕ, suc, ◌+◌, ◌-◌, ◌*◌, ◌/◌, ◌≤◌, ◌<◌, ◌≡◌, refl, false, Option, none, some, arith, if◌then◌else◌,
  ℤ, pos, negsuc, pos_part, sub_ℕ, ◌+ℤ◌, ◌*ℤ◌, quot_ℤ, ◌≤ℤ◌, ltb_ℤ, int32_max, IsInt32, to_int32,
  to_int32_in_range,
}
use xk6_disruptor.Workload.Replica.{ReplicaChangeFault, validate, resolve, target_of, is_negative}

-- The count is never negative.
pub resolve_nonneg : (f : ReplicaChangeFault) (current : ℤ) → pos 0 ≤ℤ resolve f current
unfolding resolve
resolve_nonneg f current = ground arith

-- What a valid change asks for, with exact arithmetic: the absolute count, or the sum, or the share
-- rounded down; and 0 for what is negative.
abbrev pub asked : Option ℤ → Option ℤ → Option ℤ → ℕ → ℕ
asked (some replicas) delta percentage c = pos_part replicas
asked none (some (pos d)) percentage c = c + d
asked none (some (negsuc d)) percentage c = c - suc d
asked none none (some percentage) c = c * pos_part percentage / 100
asked none none none c = 0

sum_pos : (c d : ℕ) → pos c +ℤ pos d ≡ pos (c + d)
unfolding ◌+ℤ◌
sum_pos c d = ground arith

sum_neg : (c d : ℕ) → pos c +ℤ negsuc d ≡ sub_ℕ c (suc d)
unfolding ◌+ℤ◌
sum_neg c d = ground arith

share : (c p : ℕ) → quot_ℤ (pos c *ℤ pos p) 100 ≡ pos (c * p / 100)
unfolding ◌*ℤ◌ quot_ℤ
share c p = ground arith

abbrev clamp : ℤ → ℤ
clamp a = if ltb_ℤ a (pos 0) then pos 0 else a

in_int32 : (a : ℤ) (n : ℕ) → a ≡ pos n → n ≤ int32_max → to_int32 a ≡ pos n
in_int32 a n e h = rw e (to_int32_in_range (pos n) (h, omega arith))

-- The field, where it is set, holds an int32.
abbrev pub FitsInt32 : Option ℤ → Type 0
FitsInt32 none = Unit
FitsInt32 (some v) = IsInt32 v

below_zero :
    (c d : ℕ)
    → c ≤ int32_max
    → d ≤ int32_max
    → clamp (to_int32 (pos c +ℤ negsuc d)) ≡ pos (c - suc d)
below_zero c d hc hd =
    rw (sum_neg c d, to_int32_in_range (sub_ℕ c (suc d)) (ground arith)) (ground arith)

target_exact :
    (replicas delta percentage : Option ℤ) (c : ℕ)
    → c ≤ int32_max
    → FitsInt32 delta
    → is_negative percentage ≡ false
    → asked replicas delta percentage c ≤ int32_max
    → clamp (target_of replicas delta percentage (pos c)) ≡ pos (asked replicas delta percentage c)
unfolding target_of
target_exact (some (pos r)) delta percentage c hc hd hp small = ground arith
target_exact (some (negsuc r)) delta percentage c hc hd hp small = ground arith
target_exact none (some (pos d)) percentage c hc hd hp small =
    rw (in_int32 (pos c +ℤ pos d) (c + d) (sum_pos c d) small) (ground arith)
target_exact none (some (negsuc d)) percentage c hc hd hp small = below_zero c d hc (omega arith)
target_exact none none (some (pos p)) c hc hd hp small =
    rw (in_int32 (quot_ℤ (pos c *ℤ pos p) 100) (c * p / 100) (share c p) small) (ground arith)
target_exact none none (some (negsuc p)) c hc hd hp small = absurd (ground arith)
target_exact none none none c hc hd hp small = refl

percentage_checked :
    (f : ReplicaChangeFault) (duration : ℤ)
    → validate f duration ≡ none
    → is_negative f.percentage ≡ false
unfolding validate
percentage_checked f duration h = ground arith

-- A change that Validate accepts asks for the exact count, if that is an int32: for a workload of c
-- replicas, where c is an int32, and a delta that is an int32.
pub resolve_exact :
    (f : ReplicaChangeFault) (duration : ℤ) (c : ℕ)
    → validate f duration ≡ none
    → c ≤ int32_max
    → FitsInt32 f.delta
    → asked f.replicas f.delta f.percentage c ≤ int32_max
    → resolve f (pos c) ≡ pos (asked f.replicas f.delta f.percentage c)
unfolding resolve
resolve_exact f duration c valid hc hd small =
    target_exact f.replicas f.delta f.percentage c hc hd (percentage_checked f duration valid) small

wrapped :
    (c d : ℕ)
    → c ≤ int32_max
    → d ≤ int32_max
    → int32_max < c + d
    → clamp (to_int32 (pos (c + d))) ≡ pos 0
unfolding to_int32
wrapped c d hc hd over = ground arith

-- A relative increase that passes the greatest int32 wraps to a negative count, and so asks for 0
-- replicas.
pub resolve_overflow :
    (f : ReplicaChangeFault) (c d : ℕ)
    → f.replicas ≡ none
    → f.delta ≡ some (pos d)
    → c ≤ int32_max
    → d ≤ int32_max
    → int32_max < c + d
    → resolve f (pos c) ≡ pos 0
unfolding resolve target_of
resolve_overflow f c d er ed hc hd over = rw (er, ed, sum_pos c d) (wrapped c d hc hd over)
