-- ===== src/Services/Auth/Register.antt =====
-- What `register_user` leaves behind.
use real_time_ai_chat_backen.Base.{
  ℕ, ◌≡◌, refl, String, true, false, none, some, [], arith, str_eq, ◌+◌, ◌==◌, find-snoc, counting,
  eq_refl,
}
use real_time_ai_chat_backen.Errors.{Error, ok, err}
use real_time_ai_chat_backen.Models.{
  User, Tables, user_by_id, user_by_email, insert_user, check_write, apply_write,
}
use real_time_ai_chat_backen.Config.{Settings}
use real_time_ai_chat_backen.Platform.{Platform, IsLawful}
use real_time_ai_chat_backen.Security.{
  create_access_token, create_refresh_token, hash_password, verify_password,
}
use real_time_ai_chat_backen.Session.{Server, State}
use real_time_ai_chat_backen.Session.Healthy.{IsHealthy, view-statement, view_of_empty}
use real_time_ai_chat_backen.Services.Auth.Issuing.{
  CanIssue, create_access_token_ok, create_refresh_token_ok,
}
use real_time_ai_chat_backen.Services.Auth.Behaviour.{account, login_iff}
use real_time_ai_chat_backen.Repositories.Users.{users_queries}
use real_time_ai_chat_backen.Services.Auth.{
  AuthTokens, normalize_email, issue_tokens, create_user, register_user, email_taken, login,
}

module _ (platform : Platform) (server : Server) (settings : Settings) (healthy : IsHealthy server)
    (email password : String) (t : Tables) (tick : ℕ) where
  -- A session that has written nothing yet.
  abbrev pub fresh : State
  fresh = record { committed = t; pending = []; tick = tick }

  -- The row that a registration inserts.
  abbrev pub registered : User
  registered = record {
    id = server.uuid_at (tick + 1);
    email = normalize_email platform server settings email;
    password_hash = hash_password platform (tick + 1) password;
    is_active = true;
    is_superuser = false;
    created_at = server.now_at (tick + 1);
    updated_at = server.now_at (tick + 1);
  }

  inserted :
      check_write (insert_user registered) t ≡ ok tt
      → user_by_id registered.id (apply_write (insert_user registered) t).users ≡ some registered
  unfolding check_write apply_write
  inserted fits =
      find-snoc (λ u. u.id == registered.id) t.users registered (ground arith) (ground arith)

  registered_account :
      user_by_email (normalize_email platform server settings email) t.users ≡ none
      → user_by_email registered.email (apply_write (insert_user registered) t).users
        ≡ some registered
  unfolding apply_write
  registered_account absent =
      find-snoc (λ u. str_eq u.email registered.email) t.users registered absent
        (eq_refl registered.email)

  -- Alone and without faults, a registration with an email that has no account, and whose row the
  -- constraints admit, has committed a new active user with the normalised email and nothing else,
  -- and returns the access and the refresh token for that user, if they can be issued.
  pub register_user_new :
      (access_token refresh_token : String)
      → create_access_token platform (server.clock_at (tick + 4)) registered.id settings
        ≡ ok access_token
      → create_refresh_token platform (server.clock_at (tick + 5)) registered.id settings
        ≡ ok refresh_token
      → user_by_email (normalize_email platform server settings email) t.users ≡ none
      → check_write (insert_user registered) t ≡ ok tt
      → let (r, s') = register_user platform server settings email password fresh in
        (r ≡ ok (record { access_token = access_token; refresh_token = refresh_token }))
        × (s'.committed ≡ apply_write (insert_user registered) t)
        × (s'.pending ≡ [])
  unfolding register_user create_user issue_tokens users_queries
  register_user_new access_token refresh_token made made' absent fits =
      simp
        (healthy.no_faults, healthy.others_same, absent, fits, inserted fits, made, made', counting)
        (refl, refl, refl)

  -- Alone and without faults, a registration with an email that has no account, and whose row the
  -- constraints admit, raises the error of `create_access_token` if its access token cannot be
  -- issued; the new user is committed all the same, and a second registration with the email
  -- raises the `AlreadyExistsError` of an email that has an account.
  pub register_user_unissued :
      (e : Error)
      → create_access_token platform (server.clock_at (tick + 4)) registered.id settings ≡ err e
      → user_by_email (normalize_email platform server settings email) t.users ≡ none
      → check_write (insert_user registered) t ≡ ok tt
      → let (r, s') = register_user platform server settings email password fresh in
        (r ≡ err e)
        × (s'.committed ≡ apply_write (insert_user registered) t)
        × (s'.pending ≡ [])
        × ((register_user platform server settings email password s').0
            ≡ err (
                email_taken platform server settings
                  (normalize_email platform server settings email)))
  unfolding register_user create_user issue_tokens users_queries
  register_user_unissued e unissued absent fits =
      simp
        (
          healthy.no_faults,
          healthy.others_same,
          absent,
          fits,
          inserted fits,
          unissued,
          registered_account absent,
          counting,
        )
        (refl, refl, refl, refl)

  -- Alone and without faults, a registration with an email that has an account raises an
  -- `AlreadyExistsError` that names the normalised email, and commits nothing.
  pub register_user_taken :
      {u : User}
      → user_by_email (normalize_email platform server settings email) t.users ≡ some u
      → let (r, s') = register_user platform server settings email password fresh in
        (r
          ≡ err (
              email_taken platform server settings
                (normalize_email platform server settings email)))
        × (s'.committed ≡ t)
        × (s'.pending ≡ [])
  unfolding register_user create_user issue_tokens users_queries
  register_user_taken taken =
      simp (healthy.no_faults, healthy.others_same, taken) (refl, refl, refl)

  abbrev after : State
  after = (register_user platform server settings email password fresh).1

  account-after :
      CanIssue platform server settings
      → (email' : String) → normalize_email platform server settings email' ≡ registered.email
      → user_by_email registered.email t.users ≡ none
      → check_write (insert_user registered) t ≡ ok tt
      → account platform server settings email' after ≡ some registered
  account-after issuing email' same absent fits =
      let (a, made) = create_access_token_ok platform server settings issuing (tick + 4) _ in
      let (r, made') = create_refresh_token_ok platform server settings issuing (tick + 5) _ in
      let (_, committed, pending) = register_user_new a r made made' absent fits in
      rw (same, view-statement server healthy after, view_of_empty after pending, committed)
        (registered_account absent)

  verified : IsLawful platform → verify_password platform password registered.password_hash ≡ true
  unfolding verify_password hash_password
  verified lawful = rw lawful.verify-hash

  -- Alone, without faults, with lawful packages and when tokens can be issued, whoever has just registered with a new email,
  -- in a row that the constraints admit, can log in with the same password and any spelling of the
  -- email that normalises alike.
  pub login-register_user :
      IsLawful platform
      → CanIssue platform server settings
      → (email' : String)
      → normalize_email platform server settings email'
        ≡ normalize_email platform server settings email
      → user_by_email (normalize_email platform server settings email) t.users ≡ none
      → check_write (insert_user registered) t ≡ ok tt
      → let s' = (register_user platform server settings email password fresh).1 in
        (tokens : AuthTokens) × ((login platform server settings email' password s').0 ≡ ok tokens)
  login-register_user lawful issuing email' same absent fits =
      (login_iff platform server settings issuing email' password after
          (healthy.no_faults after.tick)).1
        (rw (account-after issuing email' same absent fits) (verified lawful, refl))
