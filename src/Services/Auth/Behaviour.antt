-- ===== src/Services/Auth/Behaviour.antt =====
-- Whom `login` of app/services/auth.py lets in, and what it says to the others.
use real_time_ai_chat_backen.Base.{◌≡◌, ◌↔◌, refl, String, true, false, Option, none, some, arith}
use real_time_ai_chat_backen.Errors.{ok, err}
use real_time_ai_chat_backen.Models.{User, user_by_email}
use real_time_ai_chat_backen.Config.{Settings}
use real_time_ai_chat_backen.Platform.{Platform}
use real_time_ai_chat_backen.Security.{authentication_error, verify_password}
use real_time_ai_chat_backen.Session.{Server, State, view, statement, session_actions}
use real_time_ai_chat_backen.Repositories.Users.{get_by_email}
use real_time_ai_chat_backen.Services.Auth.Issuing.{CanIssue, issue_tokens-IsTotal}
use real_time_ai_chat_backen.Services.Auth.{
  AuthTokens, normalize_email, issue_tokens, check_login, login,
}

module _ (platform : Platform) (server : Server) (settings : Settings) where
  -- The account that a login or a registration with this email is about, as the first statement
  -- of the session sees it.
  abbrev pub account : String → State → Option User
  account email s =
      user_by_email (normalize_email platform server settings email)
        (view (statement server s).1).users

  -- An active account whose hash verifies the password.
  abbrev pub Admits : Option User → String → Type 0
  Admits none password = ⊥
  Admits (some user) password =
      (verify_password platform password user.password_hash ≡ true) × (user.is_active ≡ true)

  -- An unknown email or a wrong password.
  abbrev pub Refuses : Option User → String → Type 0
  Refuses none password = Unit
  Refuses (some user) password = verify_password platform password user.password_hash ≡ false

  login-check_login :
      (email password : String) (s : State)
      → server.fault_at s.tick ≡ false
      → login platform server settings email password s
        ≡ check_login platform server settings (account email s) password (statement server s).1
  unfolding login get_by_email session_actions
  login-check_login email password s h = rw h

  check_login_ok :
      (found : Option User) (password : String) (s : State) (tokens : AuthTokens)
      → (check_login platform server settings found password s).0 ≡ ok tokens
      → Admits found password
  unfolding check_login session_actions issue_tokens
  check_login_ok none password s tokens h = absurd (cc)
  check_login_ok (some user) password s tokens h = ground arith

  check_login-Admits :
      CanIssue platform server settings
      → (found : Option User) (password : String) (s : State) → Admits found password
      → (tokens : AuthTokens) × ((check_login platform server settings found password s).0
          ≡ ok tokens)
  unfolding check_login session_actions
  check_login-Admits issuing none password s h = absurd h
  check_login-Admits issuing (some user) password s h =
      rw (h.0, h.1) ((issue_tokens-IsTotal platform server settings issuing user.id).returns s)

  check_login-Refuses :
      (found : Option User) (password : String) (s : State)
      → Refuses found password
      → (check_login platform server settings found password s).0
        ≡ err (authentication_error "Invalid email or password")
  unfolding check_login session_actions
  check_login-Refuses none password s h = refl
  check_login-Refuses (some user) password s h = rw h

  -- When its query does not fail and tokens can be issued, a login succeeds exactly if the normalised email has an account
  -- whose hash verifies the password and which is active.
  pub login_iff :
      CanIssue platform server settings
      → (email password : String) (s : State) → server.fault_at s.tick ≡ false
      → ((tokens : AuthTokens) × ((login platform server settings email password s).0 ≡ ok tokens))
        ↔ Admits (account email s) password
  login_iff issuing email password s h = rw (login-check_login email password s h) (
    λ t. check_login_ok (account email s) password (statement server s).1 t.0 t.1,
    check_login-Admits issuing (account email s) password (statement server s).1,
  )

  -- When its query does not fail, a login with an unknown email raises the same error as one with
  -- a wrong password, also for an inactive account.
  pub login-Refuses :
      (email password : String) (s : State)
      → server.fault_at s.tick ≡ false
      → Refuses (account email s) password
      → (login platform server settings email password s).0
        ≡ err (authentication_error "Invalid email or password")
  login-Refuses email password s h r =
      rw (login-check_login email password s h)
        (check_login-Refuses (account email s) password (statement server s).1 r)
