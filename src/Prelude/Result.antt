-- ===== src/Prelude/Result.antt =====
-- A call that may raise: the value that it returns, or the exception.
use mathlib.Core.Path.{◌≡◌, refl}
use mathlib.Core.Bool.{Bool, true, false}
use mathlib.Core.Option.{Option, none, some}
use mathlib.Core.Logic.{◌⊎◌, inl, inr}

pub data Result {ε α} (Exception : Type ε) (Value : Type α) : Type (ε ⊔ α) where
  err : Exception → Result Exception Value
  ok : Value → Result Exception Value

module _ {ε} {Exception : Type ε} where
  -- `if not passed: raise exception`
  abbrev pub guard : Bool → Exception → Result Exception (Unit {0})
  guard false exception = err exception
  guard true exception = ok tt

  abbrev pub from_option {α} : {Value : Type α} → Exception → Option Value → Result Exception Value
  from_option exception (some value) = ok value
  from_option exception none = err exception

  pub Result-cases {α} :
      {Value : Type α} (call : Result Exception Value)
      → ((value : Value) × (call ≡ ok value)) ⊎ ((exception : Exception) × (call ≡ err exception))
  Result-cases (err exception) = inr (exception, refl)
  Result-cases (ok value) = inl (value, refl)

  -- What comes after a call, run on its value unless it has raised.
  infixl 5 ◌>>=◌ ◌>>◌
  abbrev pub ◌>>=◌ {α β} :
      {Value : Type α} {Next : Type β}
      → Result Exception Value
      → (Value → Result Exception Next)
      → Result Exception Next
  err exception >>= next = err exception
  ok value >>= next = next value

  abbrev pub ◌>>◌ {β} :
      {Next : Type β} → Result Exception (Unit {0}) → Result Exception Next → Result Exception Next
  check >> next = check >>= λ passed. next
