-- ===== src/Services/Auth.antt =====
-- `AuthService` of app/services/auth.py, and `get_current_user` of app/dependencies.py.
pub mod Issuing
pub mod Behaviour
pub mod Tokens
pub mod Register
pub mod Race
use real_time_ai_chat_backen.Base.{
  ℕ, String, Bool, true, false, not, ◌&&◌, ◌||◌, Option, none, some, str_eq, strip, is_empty,
  if◌then◌else◌,
}
use real_time_ai_chat_backen.Errors.{Error, app_error, already_exists}
use real_time_ai_chat_backen.Models.{Uuid, User}
use real_time_ai_chat_backen.Config.{Settings}
use real_time_ai_chat_backen.Platform.{Platform}
use real_time_ai_chat_backen.Session.{
  Server, State, Action, pure, raise, gets, lift, ◌>>=◌, ◌>>◌, raise_if, except_integrity, commit,
  rollback, read_clock,
}
use real_time_ai_chat_backen.Security.{
  access, refresh, authentication_error, hash_password, verify_password, create_access_token,
  create_refresh_token, get_user_id_from_token,
}
use real_time_ai_chat_backen.Repositories.Users

pub record AuthTokens : Type 0 where
  pub access_token : String
  pub refresh_token : String

-- What `HTTPBearer` reads from the Authorization header.
pub record Credentials : Type 0 where
  pub scheme : String
  pub credentials : String

module _ (platform : Platform) (server : Server) (settings : Settings) where
  -- `_normalize_email`
  unfoldable pub normalize_email : String → String
  normalize_email email = platform.lower (strip email)

  -- `_issue_tokens`
  unfoldable pub issue_tokens : Uuid → Action AuthTokens
  issue_tokens user_id = do
    now ← read_clock server
    access_token ← lift (create_access_token platform now user_id settings)
    later ← read_clock server
    refresh_token ← lift (create_refresh_token platform later user_id settings)
    pure (record { access_token = access_token; refresh_token = refresh_token })

  abbrev pub email_taken : String → Error
  email_taken email = app_error (already_exists "user" "email" email)

  -- The `try` block of `register_user`.
  unfoldable pub create_user : String → String → Action User
  create_user email password = do
    salt ← gets (λ s. s.tick)
    user ← Users.create server email (hash_password platform salt password) true false
    commit server
    pure user

  unfoldable pub register_user : String → String → Action AuthTokens
  register_user email password = do
    let normalized_email = normalize_email email
    exists ← Users.exists_by_email server normalized_email
    raise_if exists (email_taken normalized_email)
    user ←
        except_integrity (create_user normalized_email password)
          (rollback >> raise (email_taken normalized_email))
    issue_tokens user.id

  -- `user is None or not verify_password(password, user.password_hash)`, and the next test.
  unfoldable pub check_login : Option User → String → Action AuthTokens
  check_login none password = raise (authentication_error "Invalid email or password")
  check_login (some user) password = do
    raise_if (not (verify_password platform password user.password_hash))
        (authentication_error "Invalid email or password")
    raise_if (not user.is_active) (authentication_error "User account is inactive")
    issue_tokens user.id

  unfoldable pub login : String → String → Action AuthTokens
  login email password = do
    user ← Users.get_by_email server (normalize_email email)
    check_login user password

  -- The tests that `refresh_access_token` and `get_current_user` share in their text.
  unfoldable pub require_active : Option User → Action User
  require_active none = raise (authentication_error "Token subject no longer exists")
  require_active (some user) = do
    raise_if (not user.is_active) (authentication_error "User account is inactive")
    pure user

  unfoldable pub refresh_access_token : String → Action String
  refresh_access_token refresh_token = do
    now ← read_clock server
    user_id ← lift (get_user_id_from_token platform now refresh_token refresh settings)
    found ← Users.get_by_id server user_id
    user ← require_active found
    later ← read_clock server
    lift (create_access_token platform later user.id settings)

  unfoldable pub get_current_user : Option Credentials → Action User
  get_current_user none = raise (authentication_error "Authentication token is missing")
  get_current_user (some credentials) = do
    raise_if (not (str_eq (platform.lower credentials.scheme) "bearer"))
        (authentication_error "Authentication scheme must be Bearer")
    raise_if (is_empty credentials.credentials)
        (authentication_error "Authentication token is missing")
    now ← read_clock server
    user_id ← lift (get_user_id_from_token platform now credentials.credentials access settings)
    found ← Users.get_by_id server user_id
    require_active found
