-- ===== src/IntOrString.antt =====
-- pkg/types/intstr/intstr.go: a text that may stand for an integer, and what the code uses of Go's
-- package strconv. A call that may panic gives an option, with none for the panic.
pub mod RoundTrip
use xk6_disruptor.Prelude.{
  ℕ, zero, suc, ◌+◌, ◌-◌, ◌*◌, ◌/◌, ◌%◌, ◌≤◌, ◌<◌, ◌≡◌, refl, sym, ap, ◌∙◌, ◌≢◌, ◌↔◌, ◌⊎◌, inl, inr,
  Bool, true, false, not, ◌&&◌, ◌||◌, Option, none, some, List, [], ◌∷◌, ◌++◌, map, append-nil,
  append_assoc, arith, Text, codes, text_eq, text_eq_refl, text_eq_iff, words_eq, words_eq_refl,
  words_eq_iff, is_empty, IsFree, split, split_word, cut, cut_word, IsFree-append, digits, show_ℕ,
  IsFree-show_ℕ, Error, message, wrap, canceled, deadline_exceeded, external, is_canceled, wrap_err,
  is_some, Result, ok, err, ◌>>=◌, ◌>>◌, fail_if, Result-cases, ltb, leb, ◌==◌, if◌then◌else◌,
  ltb→lt, lt→ltb, ==_iff, ==_refl, &&_iff, Bool-cases, Option-cases, length, take, drop,
  length-append, All, All-append, list_eq, count_if, count_if_ext, count_if_all, count_if_disjoint,
  ℤ, pos, negsuc, pos_part, neg_part, sub_ℕ, ◌+ℤ◌, ◌-ℤ◌, ◌*ℤ◌, quot_ℤ, ◌≤ℤ◌, ltb_ℤ, eq_ℤ,
  eq_of_parts, eq_ℤ→eq, eq_ℤ_refl, int32_mod, int32_max, IsInt32, to_int32, to_int32_in_range,
  to_int32-IsInt32, int64_mod, int64_max, IsInt64, to_int64, to_int64_in_range,
}

abbrev pub IntOrString : Type 0
IntOrString = Text

abbrev pub null_value : IntOrString
null_value = []

pub data ValueType : Type 0 where
  value_type_int value_type_string : ValueType

-- A numeral with no sign, read from the left into an accumulator.
unfoldable pub read_digits : ℕ → Text → Option ℕ
read_digits acc [] = some acc
read_digits acc (c ∷ s) =
    let rest = read_digits (acc * 10 + (c - 48)) s in if leb 48 c && leb c 57 then rest else none

abbrev pub negate : ℕ → ℤ
negate zero = pos 0
negate (suc n) = negsuc n

-- A numeral with an optional sign.
unfoldable pub read_int : Text → Option ℤ
unfolding read_digits
read_int [] = none
read_int (c ∷ s) =
    if c == b'-'
    then (if is_empty s
        then none
        else (elim (read_digits 0 s) [ none ↦ none | some n ↦ some (negate n) ]))
    else if c == b'+'
    then (if is_empty s
        then none
        else (elim (read_digits 0 s) [ none ↦ none | some n ↦ some (pos n) ]))
    else (elim (read_digits 0 (c ∷ s)) [ none ↦ none | some n ↦ some (pos n) ])

-- strconv.Atoi, and strconv.ParseInt(s, 10, 32): an integer out of range is an error.
unfoldable pub within : ℕ → Option ℤ → Option ℤ
within greatest none = none
within greatest (some v) =
    if leb (pos_part v) greatest && leb (neg_part v) (greatest + 1) then some v else none

unfoldable pub atoi : Text → Option ℤ
unfolding read_int within
atoi s = within int64_max (read_int s)

unfoldable pub parse_int32 : Text → Option ℤ
unfolding read_int within
parse_int32 s = within int32_max (read_int s)

unfoldable pub type_of : IntOrString → ValueType
unfolding atoi
type_of value = if is_some (atoi value) then value_type_int else value_type_string

unfoldable pub is_int : IntOrString → Bool
unfolding type_of
is_int value = elim (type_of value) [ value_type_int ↦ true | value_type_string ↦ false ]

-- Int32 panics at a text that is no int32.
unfoldable pub int32 : IntOrString → Option ℤ
unfolding parse_int32
int32 value = parse_int32 value

unfoldable pub as_percentage : IntOrString → Option (ℤ × Bool)
unfolding is_int int32 cut
as_percentage value = if is_int value then some (pos 0, false) else (elim (cut b'%' value) [
  | none ↦ some (pos 0, false)
  | some (before, after) ↦
      if not (is_empty after)
      then some (pos 0, false)
      else if not (is_int before)
      then some (pos 0, false)
      else (elim (int32 before) [ none ↦ none | some percentage ↦ some (percentage, true) ])
])

unfoldable pub is_zero : IntOrString → Option Bool
unfolding is_int int32
is_zero value =
    if is_int value
    then (elim (int32 value) [ none ↦ none | some v ↦ some (eq_ℤ v (pos 0)) ])
    else some false

unfoldable pub is_null : IntOrString → Bool
is_null value = is_empty value

-- fmt.Sprintf("%d", value)
unfoldable pub from_int32 : ℤ → IntOrString
from_int32 (pos n) = show_ℕ n
from_int32 (negsuc n) = b'-' ∷ show_ℕ (suc n)
