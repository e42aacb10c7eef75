-- ===== src/Exception.antt =====
-- include/swirly/elm/Exception.hpp and src/elm/Exception.cpp: the exceptions that the service throws,
-- and the HTTP status with which each is answered. A message is not modelled.
use Prim.Native.String.{String}
use swirlyc.Common.{ℕ, ◌≡◌, ◌⊎◌, inl, inr, refl}

-- One constructor for each class, subclasses included. `other` is any exception of another library.
pub data Exception : Type 0 where
  bad_request already_exists ref_already_exists invalid invalid_lots invalid_ticks too_late :
      Exception
  forbidden internal method_not_allowed : Exception
  not_found market_closed market_not_found order_not_found trader_not_found : Exception
  service_unavailable unauthorized other : Exception

-- The classes that override `httpStatus` and `httpReason`.
pub data Kind : Type 0 where
  bad_request forbidden internal method_not_allowed not_found service_unavailable : Kind
  unauthorized : Kind

-- The class whose overrides an exception has. What is not a `ServException` is answered by 500.
unfoldable pub kind_of : Exception → Kind
kind_of Exception.bad_request = Kind.bad_request
kind_of Exception.already_exists = Kind.bad_request
kind_of Exception.ref_already_exists = Kind.bad_request
kind_of Exception.invalid = Kind.bad_request
kind_of Exception.invalid_lots = Kind.bad_request
kind_of Exception.invalid_ticks = Kind.bad_request
kind_of Exception.too_late = Kind.bad_request
kind_of Exception.forbidden = Kind.forbidden
kind_of Exception.internal = Kind.internal
kind_of Exception.method_not_allowed = Kind.method_not_allowed
kind_of Exception.not_found = Kind.not_found
kind_of Exception.market_closed = Kind.not_found
kind_of Exception.market_not_found = Kind.not_found
kind_of Exception.order_not_found = Kind.not_found
kind_of Exception.trader_not_found = Kind.not_found
kind_of Exception.service_unavailable = Kind.service_unavailable
kind_of Exception.unauthorized = Kind.unauthorized
kind_of Exception.other = Kind.internal

unfoldable pub http_status : Kind → ℕ
http_status Kind.bad_request = 400
http_status Kind.forbidden = 403
http_status Kind.internal = 500
http_status Kind.method_not_allowed = 405
http_status Kind.not_found = 404
http_status Kind.service_unavailable = 503
http_status Kind.unauthorized = 401

unfoldable pub http_reason : Kind → String
http_reason Kind.bad_request = "Bad Request"
http_reason Kind.forbidden = "Forbidden"
http_reason Kind.internal = "Internal Server Error"
http_reason Kind.method_not_allowed = "Method Not Allowed"
http_reason Kind.not_found = "Not Found"
http_reason Kind.service_unavailable = "Service Unavailable"
http_reason Kind.unauthorized = "Unauthorized"

-- A call that may throw.
pub data Result {ℓ} (A : Type ℓ) : Type ℓ where
  ok : A → Result A
  throw : Exception → Result A

infixl 5 ◌>>=◌ ◌>>◌
abbrev pub ◌>>=◌ {ℓ κ} : {A : Type ℓ} {B : Type κ} → Result A → (A → Result B) → Result B
ok a >>= f = f a
throw e >>= f = throw e

abbrev pub ◌>>◌ {ℓ} : {B : Type ℓ} → Result (Unit {0}) → Result B → Result B
m >> k = m >>= λ _. k

pub Result-cases {ℓ} :
    {A : Type ℓ} (m : Result A) → ((a : A) × (m ≡ ok a)) ⊎ ((x : Exception) × (m ≡ throw x))
Result-cases (ok a) = inl (a, refl)
Result-cases (throw x) = inr (x, refl)
