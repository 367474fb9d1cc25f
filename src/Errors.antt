-- ===== src/Errors.antt =====
-- app/exceptions/errors.py, and the other exceptions that the code raises or catches.
pub mod Handlers
use real_time_ai_chat_backen.Base.{
  ℕ, ◌≡◌, refl, ◌⊎◌, inl, inr, Bool, true, false, String, ◌<>◌, List, is_empty, if◌then◌else◌,
}

-- The classes below `AppError`, with the arguments of their constructors.
pub data AppError : Type 0 where
  not_found : String → String → AppError
  already_exists : String → String → String → AppError
  authentication : String → AppError

-- An entry of `exc.errors()` of a validation error of pydantic or FastAPI.
pub record Issue : Type 0 where
  pub loc : List String
  pub msg : String
  pub kind : String

-- What is raised: an `AppError`, SQLAlchemy's `IntegrityError`, any other error of the database
-- or of the session, a `RuntimeError`, a `ValueError`, an error of the Redis client, an error of a
-- WebSocket that is gone, python-jose's `JWTError`, an `OverflowError` of `datetime`, FastAPI's `RequestValidationError`, and pydantic's `ValidationError`.
pub data Error : Type 0 where
  app_error : AppError → Error
  integrity_error : Error
  database_error : Error
  runtime_error : String → Error
  value_error : String → Error
  redis_error : Error
  socket_error : Error
  jwt_error : Error
  overflow_error : Error
  request_validation_error : List Issue → Error
  validation_error : List Issue → Error

unfoldable pub status_code : AppError → ℕ
status_code (not_found _ _) = 404
status_code (already_exists _ _ _) = 409
status_code (authentication _) = 401

abbrev pub message : AppError → String
message (not_found resource identifier) = resource <> " '" <> identifier <> "' was not found"
message (already_exists resource field value) =
    resource <> " with " <> field <> "='" <> value <> "' already exists"
message (authentication text) = if is_empty text then "Authentication required" else text

pub data Result {ℓ} (A : Type ℓ) : Type ℓ where
  ok : A → Result A
  err : Error → Result A

module _ {A B : Type 0} where
  infixl 5 ◌>>=◌ ◌>>◌
  abbrev pub ◌>>=◌ : Result A → (A → Result B) → Result B
  ok a >>= f = f a
  err e >>= f = err e

  abbrev pub ◌>>◌ : Result A → Result B → Result B
  m >> k = m >>= λ _. k

abbrev pub raise_if : Bool → Error → Result (Unit {0})
raise_if true e = err e
raise_if false e = ok tt

pub Result-cases :
    {A : Type 0} (result : Result A)
    → ((value : A) × (result ≡ ok value)) ⊎ ((error : Error) × (result ≡ err error))
Result-cases (ok value) = inl (value, refl)
Result-cases (err error) = inr (error, refl)
