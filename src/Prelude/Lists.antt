-- ===== src/Prelude/Lists.antt =====
-- Lists measured and indexed by native numbers, under the library's names, and the Boolean
-- equality of lists. Models no code.
use Prim.Native.Nat.{ℕ, zero, suc, ◌+◌, ◌≤◌}
use mathlib.Core.Path.{◌≡◌, refl, ap}
use mathlib.Core.Logic.{inl, inr}
use mathlib.Core.Bool.{Bool, true, false, ◌&&◌}
use mathlib.Core.List.{List, [], ◌∷◌, ◌++◌}
use native.Mathlib.Omega.{arith}
use xk6_disruptor.Prelude.Tests.{Bool-cases, if◌then◌else◌}

module _ {ℓ} {A : Type ℓ} where
  abbrev pub length : List A → ℕ
  length [] = 0
  length (x ∷ xs) = suc (length xs)

  abbrev pub take : ℕ → List A → List A
  take zero xs = []
  take (suc n) [] = []
  take (suc n) (x ∷ xs) = x ∷ take n xs

  abbrev pub drop : ℕ → List A → List A
  drop zero xs = xs
  drop (suc n) [] = []
  drop (suc n) (x ∷ xs) = drop n xs

  pub take-append-drop : (n : ℕ) (xs : List A) → take n xs ++ drop n xs ≡ xs
  take-append-drop zero xs = refl
  take-append-drop (suc n) [] = refl
  take-append-drop (suc n) (x ∷ xs) = rw (take-append-drop n xs)

  pub length-take_of_le : (n : ℕ) (xs : List A) → n ≤ length xs → length (take n xs) ≡ n
  length-take_of_le zero xs h = refl
  length-take_of_le (suc n) [] h = elim h [ ]
  length-take_of_le (suc n) (x ∷ xs) h = ap suc (length-take_of_le n xs (omega arith))

  pub length-append : (xs ys : List A) → length (xs ++ ys) ≡ length xs + length ys
  length-append [] ys = omega arith
  length-append (x ∷ xs) ys = omega (arith, length-append xs ys)

  -- The predicate holds of every entry, as a product.
  abbrev pub All {κ} : (A → Type κ) → List A → Type κ
  All P [] = Unit
  All P (x ∷ xs) = P x × All P xs

  pub All-append {κ} : (P : A → Type κ) (xs ys : List A) → All P xs → All P ys → All P (xs ++ ys)
  All-append P [] ys hx hy = hy
  All-append P (x ∷ xs) ys hx hy = (hx.0, All-append P xs ys hx.1 hy)

  -- Equality of lists from a test on the entries.
  unfoldable pub list_eq : (A → A → Bool) → List A → List A → Bool
  list_eq eq [] [] = true
  list_eq eq [] (y ∷ ys) = false
  list_eq eq (x ∷ xs) [] = false
  list_eq eq (x ∷ xs) (y ∷ ys) = eq x y && list_eq eq xs ys

  -- How many entries pass the test.
  abbrev pub count_if : (A → Bool) → List A → ℕ
  count_if p [] = 0
  count_if p (x ∷ xs) = let rest = count_if p xs in if p x then suc rest else rest

module _ {ℓ} {A : Type ℓ} where
  pub count_if_ext :
      (p q : A → Bool) → ((a : A) → p a ≡ q a) → (xs : List A) → count_if p xs ≡ count_if q xs
  count_if_ext p q h [] = refl
  count_if_ext p q h (x ∷ xs) = rw (h x, count_if_ext p q h xs)

  pub count_if_all :
      (p : A → Bool) → ((a : A) → p a ≡ true) → (xs : List A) → count_if p xs ≡ length xs
  count_if_all p h [] = refl
  count_if_all p h (x ∷ xs) = rw (h x) (ap suc (count_if_all p h xs))

  -- Two tests that no entry passes both.
  pub count_if_disjoint :
      (p q : A → Bool)
      → ((a : A) → p a && q a ≡ false)
      → (xs : List A) → count_if p xs + count_if q xs ≤ length xs
  count_if_disjoint p q h [] = omega arith
  count_if_disjoint p q h (x ∷ xs) = ground (arith, h x, count_if_disjoint p q h xs)

module _ {ℓ} {A : Type ℓ} (eq : A → A → Bool) where
  pub list_eq_refl : ((a : A) → eq a a ≡ true) → (xs : List A) → list_eq eq xs xs ≡ true
  unfolding list_eq
  list_eq_refl h [] = refl
  list_eq_refl h (x ∷ xs) = rw (h x) (list_eq_refl h xs)

  pub list_eq_sound :
      ((a b : A) → eq a b ≡ true → a ≡ b) → (xs ys : List A) → list_eq eq xs ys ≡ true → xs ≡ ys
  unfolding list_eq
  list_eq_sound h [] [] e = refl
  list_eq_sound h [] (y ∷ ys) e = cc
  list_eq_sound h (x ∷ xs) [] e = cc
  list_eq_sound h (x ∷ xs) (y ∷ ys) e = elim (Bool-cases (eq x y)) [
    | inl p ↦ cc (h x y p, list_eq_sound h xs ys (rw p at e))
    | inr p ↦ absurd (let f : false ≡ true = rw p at e in cc)
  ]
