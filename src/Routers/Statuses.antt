-- ===== src/Routers/Statuses.antt =====
-- The status of the responses of app/routers and app/exceptions/handlers.py.
use real_time_ai_chat_backen.Base.{
  ℕ, ◌≡◌, ◌≤◌, refl, ◌⊎◌, inl, inr, String, Bool, true, false, not, ◌==◌, Option, arith,
}
use real_time_ai_chat_backen.Errors.{
  not_found, already_exists, authentication, Error, app_error, integrity_error, database_error,
  runtime_error, value_error, redis_error, socket_error, jwt_error, overflow_error,
  request_validation_error, validation_error, Result, ok, err, status_code,
}
use real_time_ai_chat_backen.Errors.Handlers.{handle_error, unhandled}
use real_time_ai_chat_backen.Platform.{Platform}
use real_time_ai_chat_backen.Session.{State, Action, pure, ◌>>=◌, continue}
use real_time_ai_chat_backen.Routers.{Response, Body}

-- The errors that tell the client what was wrong.
abbrev pub is_explained : Error → Bool
is_explained (app_error e) = true
is_explained (request_validation_error issues) = true
is_explained (validation_error issues) = true
is_explained _ = false

-- The body for an error carries a status from 400 to 599. It is 500 for exactly the errors that are
-- neither the application's own nor of a validation, and the body then tells nothing of the error.
pub handle_error_lem :
    (platform : Platform) (request_id : Option String) (e : Error)
    → let body = handle_error platform request_id e in
      (400 ≤ body.status_code)
      × (body.status_code ≤ 599)
      × ((body.status_code == 500) ≡ not (is_explained e))
      × ((body ≡ unhandled platform request_id) ⊎ (is_explained e ≡ true))
unfolding handle_error status_code
handle_error_lem platform request_id (app_error (not_found resource identifier)) =
    (omega arith, omega arith, refl, inr refl)
handle_error_lem platform request_id (app_error (already_exists resource field value)) =
    (omega arith, omega arith, refl, inr refl)
handle_error_lem platform request_id (app_error (authentication text)) =
    (omega arith, omega arith, refl, inr refl)
handle_error_lem platform request_id (request_validation_error issues) =
    (omega arith, omega arith, refl, inr refl)
handle_error_lem platform request_id (validation_error issues) =
    (omega arith, omega arith, refl, inr refl)
handle_error_lem platform request_id integrity_error = (omega arith, omega arith, refl, inl refl)
handle_error_lem platform request_id database_error = (omega arith, omega arith, refl, inl refl)
handle_error_lem platform request_id (runtime_error text) =
    (omega arith, omega arith, refl, inl refl)
handle_error_lem platform request_id (value_error text) = (omega arith, omega arith, refl, inl refl)
handle_error_lem platform request_id redis_error = (omega arith, omega arith, refl, inl refl)
handle_error_lem platform request_id socket_error = (omega arith, omega arith, refl, inl refl)
handle_error_lem platform request_id jwt_error = (omega arith, omega arith, refl, inl refl)
handle_error_lem platform request_id overflow_error = (omega arith, omega arith, refl, inl refl)

-- When the action returns a response, it has the status.
pub record Answers {A : Type 0} (n : ℕ) (m : Action (Response A)) : Type 0 where
  pub at : (s : State) (response : Response A) → (m s).0 ≡ ok response → response.status ≡ n

continue-Answers :
    {A B : Type 0} (n : ℕ) (r : Result B) (f : B → Action (Response A)) (s : State)
    (response : Response A)
    → ((b : B) → Answers n (f b))
    → (continue r f s).0 ≡ ok response
    → response.status ≡ n
continue-Answers n (ok b) f s response k q = (k b).at s response q
continue-Answers n (err e) f s response k q = absurd (cc)

pub Answers-bind :
    {A B : Type 0} (n : ℕ) (m : Action B) (f : B → Action (Response A))
    → ((b : B) → Answers n (f b))
    → Answers n (m >>= f)
unfolding ◌>>=◌
Answers-bind n m f k = record {
  at = λ s response q. let (r, s') = m s in continue-Answers n r f s' response k q;
}

pub Answers-pure :
    {A : Type 0} (n : ℕ) (body : Body A) → Answers n (pure (record { status = n; body = body }))
unfolding pure
Answers-pure n body = record { at = λ s response q. ground arith }
