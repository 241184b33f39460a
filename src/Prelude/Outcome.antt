-- ===== src/Prelude/Outcome.antt =====
-- Fallible code: the error kinds of the source, and a result type with its `do` notation.
use Prim.Native.String.{String}
use mathlib.Core.Option.{Option, none, some}

-- The `io::ErrorKind`s that the code builds or passes on, and a boxed error with its fixed text
-- (the values that `format!` puts into a text are left out).
pub data Error : Type 0 where
  unexpected_eof invalid_data invalid_input broken_pipe : Error
  utf8_error base64_error : Error
  message : String → Error

pub data Result {ℓ} (A : Type ℓ) : Type ℓ where
  ok : A → Result A
  err : Error → Result A

-- `?`: the first error is the result.
infixl 5 ◌>>=◌
abbrev pub ◌>>=◌ {ℓ κ} : {X : Type ℓ} {Y : Type κ} → Result X → (X → Result Y) → Result Y
err reason >>= next = err reason
ok value >>= next = next value

-- `Option::ok_or`
abbrev pub ok_or {ℓ} : {A : Type ℓ} → Option A → Error → Result A
ok_or none e = err e
ok_or (some a) e = ok a
