-- ===== src/Prelude/Errors.antt =====
-- Go's error values, and the outcome of code that returns a value or an error. Models no code of
-- the repository: a text is the format of the message that the source writes, its arguments left
-- out.
use Prim.Native.String.{String}
use Prim.Native.Nat.{ℕ}
use mathlib.Core.Path.{◌≡◌, refl}
use mathlib.Core.Bool.{Bool, true, false}
use mathlib.Core.Option.{Option, none, some}
use mathlib.Core.Logic.{◌⊎◌, inl, inr}

pub data Error : Type 0 where
  -- errors.New, and fmt.Errorf with no %w
  message : String → Error
  -- fmt.Errorf with %w
  wrap : String → Error → Error
  -- context.Canceled and context.DeadlineExceeded
  canceled deadline_exceeded : Error
  -- an error that code outside of the repository returns
  external : ℕ → Error

-- errors.Is(err, context.Canceled)
abbrev pub is_canceled : Error → Bool
is_canceled (message m) = false
is_canceled (wrap m e) = is_canceled e
is_canceled canceled = true
is_canceled deadline_exceeded = false
is_canceled (external n) = false

abbrev pub wrap_err : String → Option Error → Option Error
wrap_err m none = none
wrap_err m (some e) = some (wrap m e)

abbrev pub is_some {ℓ} : {A : Type ℓ} → Option A → Bool
is_some none = false
is_some (some a) = true

pub data Result {ℓ} (T : Type ℓ) : Type ℓ where
  err : Error → Result T
  ok : T → Result T

-- What follows a call of which the code checks the error.
infixl 5 ◌>>=◌
abbrev pub ◌>>=◌ {ℓ κ} : {S : Type ℓ} {T : Type κ} → Result S → (S → Result T) → Result T
err e >>= next = err e
ok s >>= next = next s

infixl 5 ◌>>◌
abbrev pub ◌>>◌ {ℓ} : {T : Type ℓ} → Result (Unit {0}) → Result T → Result T
first >> second = first >>= λ done. second

-- An early return of the error when the test holds.
abbrev pub fail_if : Bool → Error → Result (Unit {0})
fail_if true e = err e
fail_if false e = ok tt

pub Result-cases {ℓ} :
    {A : Type ℓ} (r : Result A) → ((a : A) × (r ≡ ok a)) ⊎ ((e : Error) × (r ≡ err e))
Result-cases (ok a) = inl (a, refl)
Result-cases (err e) = inr (e, refl)
