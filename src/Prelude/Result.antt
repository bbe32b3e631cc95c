-- ===== src/Prelude/Result.antt =====
-- A call that returns or raises. `Error` names the Python exceptions that the modelled code can
-- meet; an exception of Redis or Postgres is `client_error`, and
-- `system_exit` is SystemExit.
use mathlib.Core.Path.{◌≡◌}

pub data Error : Type 0 where
  type_error value_error key_error overflow_error attribute_error json_error index_error
        runtime_error system_exit client_error :
      Error

pub data Result {ℓ} (A : Type ℓ) : Type ℓ where
  ok : A → Result A
  err : Error → Result A

infixl 5 ◌>>=◌
abbrev pub ◌>>=◌ {ℓ κ} : {A : Type ℓ} {B : Type κ} → Result A → (A → Result B) → Result B
ok a >>= f = f a
err e >>= f = err e

-- `except (TypeError, ValueError): fallback`
abbrev pub catch_type_value {ℓ} : {A : Type ℓ} → Result A → Result A → Result A
catch_type_value (ok a) d = ok a
catch_type_value (err type_error) d = d
catch_type_value (err value_error) d = d
catch_type_value (err e) d = err e

-- Whatever a call returns satisfies `P`; a call that raises returns nothing.
abbrev pub Returns {ℓ κ} : {A : Type ℓ} → (A → Type κ) → Result A → Type κ
Returns P (ok x) = P x
Returns P (err e) = Unit

pub Returns-bind {ℓ κ μ} :
    {A : Type ℓ} {B : Type κ} (P : B → Type μ) (m : Result A) (k : A → Result B)
    → ((x : A) → Returns P (k x))
    → Returns P (m >>= k)
Returns-bind P (ok x) k h = h x
Returns-bind P (err e) k h = tt

pub ok_injective {ℓ} : {A : Type ℓ} {x y : A} → ok x ≡ ok y → x ≡ y
ok_injective e = cc
