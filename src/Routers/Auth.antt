-- ===== src/Routers/Auth.antt =====
-- app/routers/auth.py, with the requests and responses of app/schemas/auth.py.
use real_time_ai_chat_backen.Base.{String, Bool, Option, none, some, is_empty, if◌then◌else◌}
use real_time_ai_chat_backen.Errors.{validation_error}
use real_time_ai_chat_backen.Models.{Uuid, Time, User}
use real_time_ai_chat_backen.Config.{Settings}
use real_time_ai_chat_backen.Platform.{Platform}
use real_time_ai_chat_backen.Schemas.{validate_new_password, validate_password}
use real_time_ai_chat_backen.Services.Auth
use real_time_ai_chat_backen.Services.Auth.{AuthTokens, get_current_user, refresh_access_token}
use real_time_ai_chat_backen.Session.{Server, Action, pure, ◌>>=◌, require}
use real_time_ai_chat_backen.Routers.{Request, Response, created, fine, valid}

pub record TokenResponse : Type 0 where
  pub access_token : String
  pub refresh_token : String
  pub token_type : String

pub record UserResponse : Type 0 where
  pub id : Uuid
  pub email : String
  pub is_active : Bool
  pub created_at : Time

-- `email_str` is pydantic's `EmailStr`: the address as it reads it, or nothing where it refuses it.
module _ (platform : Platform) (server : Server) (settings : Settings)
    (email_str : String → Option String) where
  abbrev pub both : Option String → Option String → Option (String × String)
  both (some email) (some password) = some (email, password)
  both _ _ = none

  -- `UserRegisterRequest`, `UserLoginRequest` and `RefreshTokenRequest` of the texts in the body.
  unfoldable pub register_request : Option (String × String) → Option (String × String)
  unfolding validate_new_password
  register_request none = none
  register_request (some (email, password)) =
      both (email_str email) (validate_new_password platform password)

  unfoldable pub login_request : Option (String × String) → Option (String × String)
  unfolding validate_password
  login_request none = none
  login_request (some (email, password)) =
      both (email_str email) (validate_password platform password)

  unfoldable pub refresh_request : Option String → Option String
  refresh_request none = none
  refresh_request (some token) =
      if is_empty (platform.trim token) then none else some (platform.trim token)

  -- `_token_response`
  unfoldable pub token_response : AuthTokens → TokenResponse
  token_response tokens = record {
    access_token = platform.trim tokens.access_token;
    refresh_token = platform.trim tokens.refresh_token;
    token_type = "bearer";
  }

  unfoldable pub register : Request → Option (String × String) → Action (Response TokenResponse)
  unfolding register_request token_response
  register request body = do
    (email, password) ← valid request (register_request body)
    tokens ← Auth.register_user platform server settings email password
    pure (created (token_response tokens))

  unfoldable pub login : Request → Option (String × String) → Action (Response TokenResponse)
  unfolding login_request token_response
  login request body = do
    (email, password) ← valid request (login_request body)
    tokens ← Auth.login platform server settings email password
    pure (fine (token_response tokens))

  unfoldable pub refresh : Request → Option String → Action (Response TokenResponse)
  unfolding refresh_request token_response
  refresh request body = do
    token ← valid request (refresh_request body)
    access_token ← refresh_access_token platform server settings token
    pure (fine (token_response (record { access_token = access_token; refresh_token = token })))

  abbrev pub user_with_email : User → Option String → Option UserResponse
  user_with_email user none = none
  user_with_email user (some email) = some (record {
    id = user.id;
    email = email;
    is_active = user.is_active;
    created_at = user.created_at;
  })

  -- `UserResponse.model_validate(user)`
  unfoldable pub user_response : User → Option UserResponse
  user_response user = user_with_email user (email_str user.email)

  unfoldable pub me : Request → Action (Response UserResponse)
  unfolding user_response
  me request = do
    current_user ← get_current_user platform server settings request.credentials
    user ← require (user_response current_user) (validation_error request.issues)
    pure (fine user)
