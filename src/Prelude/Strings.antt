-- ===== src/Prelude/Strings.antt =====
-- Text as a list of code points, with what the program uses of Go's packages strings and fmt:
-- comparison, Split, Cut and the verb %d. Models no code of the repository.
use Prim.Native.Char.{code}
use Prim.Native.String.{String}
use Prim.Native.Nat.{ℕ, zero, suc, ◌+◌, ◌/◌, ◌%◌, ◌<◌}
use mathlib.Core.Path.{◌≡◌}
use mathlib.Core.Logic.{◌≢◌, ◌↔◌, ◌⊎◌, inl, inr}
use mathlib.Core.Bool.{Bool, true, false}
use mathlib.Core.Option.{Option, none, some}
use mathlib.Core.List.{List, [], ◌∷◌, ◌++◌}
use native.Mathlib.Omega.{arith}
use xk6_disruptor.Prelude.Tests.{Bool-cases, ltb, ◌==◌, ==_iff, ==_refl, if◌then◌else◌}
use xk6_disruptor.Prelude.Lists.{All, list_eq, list_eq_refl, list_eq_sound}

abbrev pub Text : Type 0
Text = List ℕ

abbrev pub codes : String → Text
codes String.[] = []
codes (String.◌∷◌ c s) = code c ∷ codes s

unfoldable pub text_eq : Text → Text → Bool
unfolding list_eq
text_eq = list_eq (λ a b. a == b)

pub text_eq_refl : (s : Text) → text_eq s s ≡ true
unfolding text_eq
text_eq_refl = list_eq_refl (λ a b. a == b) ==_refl

pub text_eq_iff : (s t : Text) → (text_eq s t ≡ true) ↔ (s ≡ t)
unfolding text_eq
text_eq_iff s t =
    (list_eq_sound (λ a b. a == b) (λ a b. (==_iff a b).0) s t, λ e. rw e (text_eq_refl t))

-- Equality of argument lists.
unfoldable pub words_eq : List Text → List Text → Bool
unfolding list_eq text_eq
words_eq = list_eq text_eq

pub words_eq_refl : (s : List Text) → words_eq s s ≡ true
unfolding words_eq
words_eq_refl = list_eq_refl text_eq text_eq_refl

pub words_eq_iff : (s t : List Text) → (words_eq s t ≡ true) ↔ (s ≡ t)
unfolding words_eq
words_eq_iff s t =
    (list_eq_sound text_eq (λ a b. (text_eq_iff a b).0) s t, λ e. rw e (words_eq_refl t))

abbrev pub is_empty : Text → Bool
is_empty [] = true
is_empty (c ∷ s) = false

-- The character does not occur in the text.
abbrev pub IsFree : ℕ → Text → Type 0
IsFree sep = All (λ c. c ≢ sep)

pub IsFree-append : (sep : ℕ) (s t : Text) → IsFree sep s → IsFree sep t → IsFree sep (s ++ t)
IsFree-append sep [] t h k = k
IsFree-append sep (c ∷ s) t h k = (h.0, IsFree-append sep s t h.1 k)

abbrev pub cons_head : ℕ → List Text → List Text
cons_head c [] = (c ∷ []) ∷ []
cons_head c (w ∷ ws) = (c ∷ w) ∷ ws

-- strings.Split(s, sep) at a separator of one character.
unfoldable pub split : ℕ → Text → List Text
split sep [] = [] ∷ []
split sep (c ∷ s) = let rest = split sep s in if c == sep then [] ∷ rest else cons_head c rest

pub split_word : (sep : ℕ) (w s : Text) → IsFree sep w → split sep (w ++ sep ∷ s) ≡ w ∷ split sep s
unfolding split
split_word sep [] s h = rw (==_refl sep)
split_word sep (c ∷ w) s h = rw (split_word sep w s h.1) (ground (arith, h.0))

-- strings.Cut(s, sep): what stands before and after the first separator, if there is one.
unfoldable pub cut : ℕ → Text → Option (Text × Text)
cut sep [] = none
cut sep (c ∷ s) =
    let rest = cut sep s in
    if c == sep
    then some ([], s)
    else elim rest [ none ↦ none | some (before, after) ↦ some (c ∷ before, after) ]

pub cut_word : (sep : ℕ) (w s : Text) → IsFree sep w → cut sep (w ++ sep ∷ s) ≡ some (w, s)
unfolding cut
cut_word sep [] s h = rw (==_refl sep)
cut_word sep (c ∷ w) s h = ground (arith, h.0, cut_word sep w s h.1)

-- The verb %d at an unsigned number, on fuel: a number has at most as many digits as its value.
unfoldable pub digits : ℕ → ℕ → Text
digits zero n = []
digits (suc f) n =
    let front = digits f (n / 10) in if ltb n 10 then (48 + n) ∷ [] else front ++ (48 + n % 10) ∷ []

unfoldable pub show_ℕ : ℕ → Text
unfolding digits
show_ℕ n = digits (suc n) n

-- A decimal numeral is made of digits, so it has no blank, comma, sign or percent sign.
IsFree-digits : (f n sep : ℕ) → (sep < 48) ⊎ (57 < sep) → IsFree sep (digits f n)
unfolding digits
IsFree-digits zero n sep h = tt
IsFree-digits (suc f) n sep h = elim (Bool-cases (ltb n 10)) [
  | inl small ↦ rw small (ground arith)
  | inr large ↦
      rw large
        (IsFree-append sep (digits f (n / 10)) _ (IsFree-digits f (n / 10) sep h) (ground arith))
]

pub IsFree-show_ℕ : (n sep : ℕ) → (sep < 48) ⊎ (57 < sep) → IsFree sep (show_ℕ n)
unfolding show_ℕ
IsFree-show_ℕ n sep h = IsFree-digits (suc n) n sep h
