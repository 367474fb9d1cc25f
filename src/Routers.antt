-- ===== src/Routers.antt =====
-- app/routers, but for the WebSocket: what a request does to the database, and its response.
pub mod Auth
pub mod Conversations
pub mod Health
pub mod Readiness
pub mod Statuses
pub mod Refusals
pub mod Atomic
use real_time_ai_chat_backen.Base.{ℕ, String, Bool, Option, none, some, List, [], if◌then◌else◌}
use real_time_ai_chat_backen.Errors.{
  Issue, Error, runtime_error, request_validation_error, validation_error, Result, ok, err,
}
use real_time_ai_chat_backen.Errors.Handlers.{ErrorResponse, handle_error}
use real_time_ai_chat_backen.Platform.{Platform, ℤ}
use real_time_ai_chat_backen.Schemas.{PaginationParams, pagination_params}
use real_time_ai_chat_backen.Services.Auth.{Credentials}
use real_time_ai_chat_backen.Session.{Server, State, Action, pure, raise, ◌>>=◌, require, rollback}

-- The headers of a request, and what FastAPI or pydantic reports where it refuses a value.
pub record Request : Type 0 where
  pub request_id : Option String
  pub credentials : Option Credentials
  pub issues : List Issue

pub data Body (A : Type 0) : Type 0 where
  success : A → Body A
  no_content : Body A
  failure : ErrorResponse → Body A

pub record Response (A : Type 0) : Type 0 where
  pub status : ℕ
  pub body : Body A

abbrev pub created : {A : Type 0} → A → Response A
created a = record { status = 201; body = success a }

abbrev pub fine : {A : Type 0} → A → Response A
fine a = record { status = 200; body = success a }

-- A value of the path or the body that FastAPI has validated, or not.
abbrev pub valid : {A : Type 0} → Request → Option A → Action A
valid request given = require given (request_validation_error request.issues)

abbrev pub params_or_raise : Request → Option PaginationParams → Action PaginationParams
params_or_raise request params = require params (validation_error request.issues)

-- `PaginationDep`: the two numbers of the query, with the defaults filled in, where FastAPI could
-- read them. It reports those that it could not read after the other dependencies.
abbrev pub pagination : Request → Option (ℤ × ℤ) → Action (Option PaginationParams)
pagination request none = pure none
pagination request (some (page, page_size)) = do
  params ← params_or_raise request (pagination_params page page_size)
  pure (some params)

-- The body of a request whose route takes one: JSON, of which the handler sees what it needs, or
-- not. Bytes that are no text, which FastAPI answers with 400 of its own, are left out.
pub data Payload (A : Type 0) : Type 0 where
  json : A → Payload A
  malformed : Payload A

abbrev pub closed : State → State
closed s = record s { pending = [] }

abbrev pub after_yield : {A : Type 0} → Result A → State → Result A × State
unfolding rollback
after_yield (ok a) s = (ok a, closed s)
after_yield (err e) s = (err e, closed (rollback s).1)

-- `get_db` around what uses its session, which is closed in the end.
unfoldable pub get_db : {A : Type 0} → Bool → Action A → Action A
unfolding after_yield
get_db initialised use_session s =
    if initialised
    then (let (r, s') = use_session s in after_yield r s')
    else (err (runtime_error "AsyncSessionLocal is not initialised. Call init_db() first."), s)

module _ (platform : Platform) where
  unfoldable pub respond : {A : Type 0} → Request → Result (Response A) → Response A
  unfolding handle_error
  respond request (ok response) = response
  respond request (err e) =
      let body = handle_error platform request.request_id e in
      record { status = body.status_code; body = failure body }

  -- A request with its dependencies, its handler and the exception handlers.
  unfoldable pub serve :
      {A : Type 0} → Bool → Request → Action (Response A) → State → Response A × State
  unfolding get_db respond
  serve initialised request handler s =
      let (r, s') = get_db initialised handler s in (respond request r, s')

  -- FastAPI reads the body before it calls a dependency.
  unfoldable pub serve_body :
      {A B : Type 0}
      → Bool
      → Request
      → (B → Action (Response A))
      → Payload B
      → State
      → Response A × State
  unfolding serve respond
  serve_body initialised request handler (json body) s = serve initialised request (handler body) s
  serve_body initialised request handler malformed s =
      (respond request (err (request_validation_error request.issues)), s)
