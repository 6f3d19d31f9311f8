-- ===== src/IntOrString/RoundTrip.antt =====
-- pkg/types/intstr/intstr.go: what is printed is read back.
use xk6_disruptor.Prelude.{
  ℕ, zero, suc, ◌+◌, ◌-◌, ◌*◌, ◌/◌, ◌%◌, ◌≤◌, ◌<◌, ◌≡◌, refl, ap, ◌∙◌, inl, inr, true, false, ◌&&◌,
  none, some, [], ◌∷◌, ◌++◌, arith, Text, is_empty, IsFree, cut_word, digits, show_ℕ, IsFree-show_ℕ,
  ltb, leb, ◌==◌, Bool-cases, ℤ, pos, negsuc, IsInt32,
}
use xk6_disruptor.IntOrString.{
  value_type_int, read_digits, read_int, within, negate, atoi, parse_int32, type_of, is_int, int32,
  as_percentage, from_int32,
}

read_digits-append :
    (acc : ℕ) (s : Text) (c n : ℕ)
    → read_digits acc s ≡ some n
    → 48 ≤ c
    → c ≤ 57
    → read_digits acc (s ++ c ∷ []) ≡ some (n * 10 + (c - 48))
unfolding read_digits
read_digits-append acc [] c n h lo hi = ground arith
read_digits-append acc (d ∷ s) c n h lo hi = elim (Bool-cases (leb 48 d && leb d 57)) [
  | inl digit ↦ rw digit (read_digits-append (acc * 10 + (d - 48)) s c n (rw digit at h) lo hi)
  | inr other ↦ absurd (let e : none ≡ some n = rw other at h in cc)
]

read_digits-digits : (f n : ℕ) → n < f → read_digits 0 (digits f n) ≡ some n
unfolding digits read_digits
read_digits-digits zero n h = elim h [ ]
read_digits-digits (suc f) n h = elim (Bool-cases (ltb n 10)) [
  | inl small ↦ rw small (ground arith)
  | inr large ↦ rw large (
      read_digits-append 0 (digits f (n / 10)) (48 + n % 10) (n / 10)
        (read_digits-digits f (n / 10) (ground arith)) (omega arith) (omega arith)
      ∙ ap some (omega arith))
]

read_digits→read_int :
    (s : Text) (n : ℕ) → is_empty s ≡ false → read_digits 0 s ≡ some n → read_int s ≡ some (pos n)
unfolding read_int read_digits
read_digits→read_int [] n full h = absurd cc
read_digits→read_int (c ∷ s) n full h = elim (Bool-cases (leb 48 c && leb c 57)) [
  | inl digit ↦
      let unsigned : ((c == b'-') ≡ false) × ((c == b'+') ≡ false) = ground arith in
      rw (unsigned.0, unsigned.1, h)
  | inr other ↦ absurd (let e : none ≡ some n = rw other at h in cc)
]

append_full : (s : Text) (c : ℕ) → is_empty (s ++ c ∷ []) ≡ false
append_full [] c = refl
append_full (d ∷ s) c = refl

digits_full : (f n : ℕ) → n < f → is_empty (digits f n) ≡ false
unfolding digits
digits_full zero n h = elim h [ ]
digits_full (suc f) n h = elim (Bool-cases (ltb n 10)) [
  | inl small ↦ rw small refl
  | inr large ↦ rw large (append_full (digits f (n / 10)) (48 + n % 10))
]

read_int_negative :
    (s : Text) (n : ℕ)
    → is_empty s ≡ false
    → read_digits 0 s ≡ some n
    → read_int (b'-' ∷ s) ≡ some (negate n)
unfolding read_int
read_int_negative s n full h = rw (full, h) refl

show_full : (n : ℕ) → is_empty (show_ℕ n) ≡ false
unfolding show_ℕ
show_full n = digits_full (suc n) n (omega arith)

read_digits-show : (n : ℕ) → read_digits 0 (show_ℕ n) ≡ some n
unfolding show_ℕ
read_digits-show n = read_digits-digits (suc n) n (omega arith)

pub from_int32_full : (v : ℤ) → is_empty (from_int32 v) ≡ false
unfolding from_int32
from_int32_full (pos n) = show_full n
from_int32_full (negsuc n) = refl

read_int-from_int32 : (v : ℤ) → read_int (from_int32 v) ≡ some v
unfolding from_int32
read_int-from_int32 (pos n) = read_digits→read_int (show_ℕ n) n (show_full n) (read_digits-show n)
read_int-from_int32 (negsuc n) =
    read_int_negative (show_ℕ (suc n)) (suc n) (show_full (suc n)) (read_digits-show (suc n))

-- A printed int32 reads back as itself, and its type is the integer.
pub int32-from_int32 :
    (v : ℤ)
    → IsInt32 v
    → (int32 (from_int32 v) ≡ some v) × (type_of (from_int32 v) ≡ value_type_int)
unfolding int32 parse_int32 type_of atoi within
int32-from_int32 v h = rw (read_int-from_int32 v) (ground arith)

IsFree-from_int32 : (v : ℤ) → IsFree b'%' (from_int32 v)
unfolding from_int32
IsFree-from_int32 (pos n) = IsFree-show_ℕ n b'%' (omega arith)
IsFree-from_int32 (negsuc n) = (ground arith, IsFree-show_ℕ (suc n) b'%' (omega arith))

read_digits_percent : (acc : ℕ) (s : Text) → read_digits acc (s ++ b'%' ∷ []) ≡ none
unfolding read_digits
read_digits_percent acc [] = refl
read_digits_percent acc (c ∷ s) = rw (read_digits_percent (acc * 10 + (c - 48)) s) (ground arith)

read_int_percent : (s : Text) → read_int (s ++ b'%' ∷ []) ≡ none
unfolding read_int read_digits
read_int_percent [] = refl
read_int_percent (c ∷ s) =
    rw (read_digits_percent 0 s, read_digits_percent (0 * 10 + (c - 48)) s) (ground arith)

pub is_int_percent : (s : Text) → is_int (s ++ b'%' ∷ []) ≡ false
unfolding is_int type_of atoi within
is_int_percent s = rw (is_int, read_int_percent s) refl

pub is_int-from_int32 : (v : ℤ) → IsInt32 v → is_int (from_int32 v) ≡ true
unfolding is_int
is_int-from_int32 v h = rw (is_int, (int32-from_int32 v h).1) refl

-- A printed int32 followed by a percent sign is a percentage of that value.
pub as_percentage-from_int32 :
    (v : ℤ) → IsInt32 v → as_percentage (from_int32 v ++ b'%' ∷ []) ≡ some (v, true)
unfolding as_percentage
as_percentage-from_int32 v h =
    rw
      (
        is_int_percent (from_int32 v),
        cut_word b'%' (from_int32 v) [] (IsFree-from_int32 v),
        is_int-from_int32 v h,
        (int32-from_int32 v h).0,
      )
      refl
