-- ===== src/Base/Result.antt =====
-- Go's `error` values and the pair `(value, error)` of a fallible call.
use Prim.Native.String.{String}
use mathlib.Core.Path.{◌≡◌, refl}
use mathlib.Core.Logic.{◌⊎◌, inl, inr}
use heyfil.Base.Int.{ℤ}

-- What the program can tell of an `error`: whether it is an HTTP or an RPC error of the JSON-RPC
-- client, with its code, and its text (`Error()`).
pub data Error : Type 0 where
  http_error : ℤ → String → Error
  rpc_error : ℤ → String → Error
  other : String → Error

-- `err.Error()`
abbrev pub message : Error → String
message (http_error c m) = m
message (rpc_error c m) = m
message (other m) = m

-- `(a, nil)` or `(zero value, err)`
pub data Result {ℓ} (A : Type ℓ) : Type ℓ where
  ok : A → Result A
  err : Error → Result A

infixl 5 ◌>>=◌
abbrev pub ◌>>=◌ {ℓ κ} : {A : Type ℓ} {B : Type κ} → Result A → (A → Result B) → Result B
ok a >>= f = f a
err e >>= f = err e

pub Result-cases {ℓ} :
    {A : Type ℓ} (r : Result A) → ((a : A) × (r ≡ ok a)) ⊎ ((e : Error) × (r ≡ err e))
Result-cases (ok a) = inl (a, refl)
Result-cases (err e) = inr (e, refl)
