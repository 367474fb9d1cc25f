-- ===== src/Errors/Handlers.antt =====
-- The exception handlers of app/exceptions/handlers.py, with `ErrorDetail` and `ErrorResponse` of
-- app/schemas/common.py. Log lines are left out.
use real_time_ai_chat_backen.Base.{ℕ, String, ◌<>◌, Option, none, some, List, [], ◌∷◌, map}
use real_time_ai_chat_backen.Errors.{
  Issue, Error, app_error, integrity_error, database_error, runtime_error, value_error, redis_error,
  socket_error, jwt_error, overflow_error, request_validation_error, validation_error, status_code,
  message,
}
use real_time_ai_chat_backen.Platform.{Platform}

pub record ErrorDetail : Type 0 where
  pub field : Option String
  pub message : String
  pub code : Option String

pub record ErrorResponse : Type 0 where
  pub status_code : ℕ
  pub message : String
  pub errors : List ErrorDetail
  pub request_id : Option String

-- `".".join(str(loc) for loc in e["loc"])`
abbrev pub dotted : List String → String
dotted [] = ""
dotted (x ∷ []) = x
dotted (x ∷ xs) = x <> "." <> dotted xs

module _ (platform : Platform) where
  -- An `AppBaseModel` strips its texts.
  abbrev pub trimmed : Option String → Option String
  trimmed none = none
  trimmed (some s) = some (platform.trim s)

  abbrev pub error_detail : Issue → ErrorDetail
  error_detail issue = record {
    field = some (platform.trim (dotted issue.loc));
    message = platform.trim issue.msg;
    code = some (platform.trim issue.kind);
  }

  abbrev pub error_body : Option String → ℕ → String → List ErrorDetail → ErrorResponse
  error_body request_id code text errors = record {
    status_code = code;
    message = platform.trim text;
    errors = errors;
    request_id = trimmed request_id;
  }

  -- `unhandled_error_handler`
  abbrev pub unhandled : Option String → ErrorResponse
  unhandled request_id = error_body request_id 500 "An unexpected error occurred" []

  -- The body of the handler that `register_exception_handlers` picks, which is also where the
  -- response has its status from. `request_id` is the header `X-Request-ID`.
  unfoldable pub handle_error : Option String → Error → ErrorResponse
  unfolding status_code
  handle_error request_id (app_error e) = error_body request_id (status_code e) (message e) []
  handle_error request_id (request_validation_error issues) =
      error_body request_id 422 "Request validation failed" (map error_detail issues)
  handle_error request_id (validation_error issues) =
      error_body request_id 422 "Schema validation failed" (map error_detail issues)
  handle_error request_id integrity_error = unhandled request_id
  handle_error request_id database_error = unhandled request_id
  handle_error request_id (runtime_error text) = unhandled request_id
  handle_error request_id (value_error text) = unhandled request_id
  handle_error request_id redis_error = unhandled request_id
  handle_error request_id socket_error = unhandled request_id
  handle_error request_id jwt_error = unhandled request_id
  handle_error request_id overflow_error = unhandled request_id
