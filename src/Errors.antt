-- ===== src/Errors.antt =====
-- The exceptions of include/redis_async/error.hpp and src/error.cpp, and code that may throw them.
use redis_async.Prelude.{◌≡◌, refl, ◌⊎◌, inl, inr, ◌++◌, Bytes, codes}

-- The classes under `rd_error`, each with its `what()`.
pub data RdError : Type 0 where
  connection_error query_error client_error : Bytes → RdError

-- What may be thrown: one of these, or the exception of the call of an empty `std::function`.
pub data Exception : Type 0 where
  rd_error : RdError → Exception
  bad_function_call : Exception

-- A call returns, or throws.
pub data Throws {ℓ} (A : Type ℓ) : Type ℓ where
  ok : A → Throws A
  raise : Exception → Throws A

abbrev pub throw {ℓ} : {A : Type ℓ} → RdError → Throws A
throw err = raise (rd_error err)

infixl 5 ◌>>=◌
abbrev pub ◌>>=◌ {ℓ κ} : {A : Type ℓ} {B : Type κ} → Throws A → (A → Throws B) → Throws B
ok a >>= f = f a
raise e >>= f = raise e

-- The code returns, and what it returns has the property.
abbrev pub Returns {ℓ} : {A : Type ℓ} → (A → Type 0) → Throws A → Type 0
Returns P (ok a) = P a
Returns P (raise e) = ⊥

pub bind-Returns {ℓ κ} :
    {A : Type ℓ} {B : Type κ} (P : A → Type 0) (Q : B → Type 0) (m : Throws A) (f : A → Throws B)
    → Returns P m
    → ((a : A) → P a → Returns Q (f a))
    → Returns Q (m >>= f)
bind-Returns P Q (ok a) f h k = k a h
bind-Returns P Q (raise e) f h k = absurd h

-- The same with what the first part returned.
pub bind-Returns_eq {ℓ κ} :
    {A : Type ℓ} {B : Type κ} (P : A → Type 0) (Q : B → Type 0) (m : Throws A) (f : A → Throws B)
    → Returns P m
    → ((a : A) → m ≡ ok a → P a → Returns Q (f a))
    → Returns Q (m >>= f)
bind-Returns_eq P Q (ok a) f h k = k a refl h
bind-Returns_eq P Q (raise e) f h k = absurd h

pub Returns-map {ℓ} :
    {A : Type ℓ} (P Q : A → Type 0) (m : Throws A)
    → ((a : A) → P a → Q a)
    → Returns P m
    → Returns Q m
Returns-map P Q (ok a) f h = f a h
Returns-map P Q (raise e) f h = absurd h

-- Where the code returns, what it returns has the property.
abbrev pub Ensures {ℓ} : {A : Type ℓ} → (A → Type 0) → Throws A → Type 0
Ensures P (ok a) = P a
Ensures P (raise e) = Unit

pub bind-Ensures {ℓ κ} :
    {A : Type ℓ} {B : Type κ} (P : A → Type 0) (Q : B → Type 0) (m : Throws A) (f : A → Throws B)
    → Ensures P m
    → ((a : A) → P a → Ensures Q (f a))
    → Ensures Q (m >>= f)
bind-Ensures P Q (ok a) f h k = k a h
bind-Ensures P Q (raise e) f h k = tt

pub Ensures-map {ℓ} :
    {A : Type ℓ} (P Q : A → Type 0) (m : Throws A)
    → ((a : A) → P a → Q a)
    → Ensures P m
    → Ensures Q m
Ensures-map P Q (ok a) f h = f a h
Ensures-map P Q (raise e) f h = tt

-- `client_error(const std::exception &)`: the text of the exception that a handler threw.
unfoldable pub client_error_of : Bytes → RdError
client_error_of what = client_error (codes "Client thrown exception: " ++ what)

-- To split on what code does and keep the equation.
pub Throws-cases {ℓ} :
    {A : Type ℓ} (m : Throws A) → ((a : A) × (m ≡ ok a)) ⊎ ((e : Exception) × (m ≡ raise e))
Throws-cases (ok a) = inl (a, refl)
Throws-cases (raise e) = inr (e, refl)
