-- ===== src/Services/Auth/Tokens.antt =====
-- What the tokens of `AuthService` in app/services/auth.py can be used for.
use real_time_ai_chat_backen.Base.{
  ℕ, counting, ◌≡◌, ◌≢◌, String, Bool, true, false, Option, some, str_eq, le→leb, Bool-cases, inl,
  inr, is_empty, leb, ◌+◌, ◌≤◌,
}
use real_time_ai_chat_backen.Errors.{ok}
use real_time_ai_chat_backen.Models.{Uuid, Time, User, user_by_id}
use real_time_ai_chat_backen.Config.{Settings}
use real_time_ai_chat_backen.Platform.{Platform, IsLawful}
use real_time_ai_chat_backen.Security.{
  access, refresh, access_lifetime, refresh_lifetime, create_access_token, create_refresh_token,
  get_user_id_from_token, timestamp,
}
use real_time_ai_chat_backen.Security.Tokens.{
  jwt_encode-build_token, get_user_id-build_token, verdict,
}
use real_time_ai_chat_backen.Session.{Server, State, view, statement, session_actions}
use real_time_ai_chat_backen.Session.Keeps.{continue-refused}
use real_time_ai_chat_backen.Repositories.Users.{get_by_id}
use real_time_ai_chat_backen.Services.Auth.{require_active, refresh_access_token, get_current_user}

module _ (platform : Platform) (lawful : IsLawful platform) (server : Server) (settings : Settings)
    (issued : Time) (user_id : Uuid) (s : State) where
  -- The seconds at which an access token and a refresh token expire.
  abbrev pub access_expiry : ℕ
  access_expiry = timestamp (issued + access_lifetime settings)

  abbrev pub refresh_expiry : ℕ
  refresh_expiry = timestamp (issued + refresh_lifetime settings)

  abbrev now : Time
  now = server.clock_at s.tick

  -- The row of the token's user, as the query after the token's check sees it.
  abbrev pub subject : Option User
  subject = user_by_id user_id (view (statement server (record s { tick = s.tick + 1 })).1).users

  access_read :
      (token : String)
      → create_access_token platform issued user_id settings ≡ ok token
      → get_user_id_from_token platform now token access settings
        ≡ verdict platform lawful (leb (timestamp now) access_expiry) access access user_id
  unfolding create_access_token
  access_read token made =
      get_user_id-build_token platform lawful issued now _ user_id access access settings token made

  access_nonempty :
      (token : String)
      → create_access_token platform issued user_id settings ≡ ok token
      → is_empty token ≡ false
  unfolding create_access_token
  access_nonempty token made =
      lawful.encode_nonempty _ _ _ token
        (jwt_encode-build_token platform lawful issued _ user_id access settings token made)

  -- While an access token lasts, a request with it under the scheme `bearer` is made as the user
  -- that it was issued to, if the query does not fail and that user is still there and active; the
  -- packages are assumed lawful.
  pub get_current_user-create_access_token :
      {u : User} {token : String} (scheme : String)
      → create_access_token platform issued user_id settings ≡ ok token
      → platform.lower scheme ≡ "bearer"
      → timestamp (server.clock_at s.tick) ≤ access_expiry
      → server.fault_at (s.tick + 1) ≡ false
      → subject ≡ some u
      → u.is_active ≡ true
      → (get_current_user platform server settings
          (some (record { scheme = scheme; credentials = token }))
          s).0
        ≡ ok u
  unfolding get_current_user get_by_id session_actions require_active
  get_current_user-create_access_token {u} {token} scheme made bearer fresh works found active =
      simp (
        bearer,
        access_nonempty token made,
        access_read token made,
        le→leb (timestamp now) access_expiry fresh,
        works,
        found,
        active,
      )

  refresh_read :
      (token : String)
      → create_refresh_token platform issued user_id settings ≡ ok token
      → get_user_id_from_token platform now token refresh settings
        ≡ verdict platform lawful (leb (timestamp now) refresh_expiry) refresh refresh user_id
  unfolding create_refresh_token
  refresh_read token made =
      get_user_id-build_token platform lawful issued now _ user_id refresh refresh settings token
        made

  -- While a refresh token lasts, refreshing with it ends as the issuing of an access token for the
  -- user that it was issued to does, two steps later, if the query does not fail and that user is
  -- still there and active; the packages are assumed lawful.
  pub refresh_access_token-create_refresh_token :
      {u : User} {token : String}
      → create_refresh_token platform issued user_id settings ≡ ok token
      → timestamp (server.clock_at s.tick) ≤ refresh_expiry
      → server.fault_at (s.tick + 1) ≡ false
      → subject ≡ some u
      → u.is_active ≡ true
      → (refresh_access_token platform server settings token s).0
        ≡ create_access_token platform (server.clock_at (s.tick + 2)) u.id settings
  unfolding refresh_access_token get_by_id session_actions require_active
  refresh_access_token-create_refresh_token {u} {token} made fresh works found active = simp (
    refresh_read token made,
    le→leb (timestamp now) refresh_expiry fresh,
    works,
    found,
    active,
    counting,
  )

  misread :
      (fresh : Bool) (id : Uuid)
      → (verdict platform lawful fresh refresh access user_id ≢ ok id)
        × (verdict platform lawful fresh access refresh user_id ≢ ok id)
  misread false id = (λ h. cc, λ h. cc)
  misread true id = (λ h. cc, λ h. cc)

  refresh_misread :
      (token : String) (id : Uuid)
      → create_refresh_token platform issued user_id settings ≡ ok token
      → get_user_id_from_token platform now token access settings ≢ ok id
  unfolding create_refresh_token
  refresh_misread token id made =
      rw
        (get_user_id-build_token platform lawful issued now _ user_id refresh access settings token
          made)
        (misread (leb (timestamp now) refresh_expiry) id).0

  access_misread :
      (token : String) (id : Uuid)
      → create_access_token platform issued user_id settings ≡ ok token
      → get_user_id_from_token platform now token refresh settings ≢ ok id
  unfolding create_access_token
  access_misread token id made =
      rw
        (get_user_id-build_token platform lawful issued now _ user_id access refresh settings token
          made)
        (misread (leb (timestamp now) access_expiry) id).1

  refresh_nonempty :
      (token : String)
      → create_refresh_token platform issued user_id settings ≡ ok token
      → is_empty token ≡ false
  unfolding create_refresh_token
  refresh_nonempty token made =
      lawful.encode_nonempty _ _ _ token
        (jwt_encode-build_token platform lawful issued _ user_id refresh settings token made)

  refresh_unauthenticated :
      (scheme token : String) (u : User)
      → create_refresh_token platform issued user_id settings ≡ ok token
      → (get_current_user platform server settings
          (some (record { scheme = scheme; credentials = token }))
          s).0
        ≢ ok u
  unfolding get_current_user session_actions
  refresh_unauthenticated scheme token u made =
      elim (Bool-cases (str_eq (platform.lower scheme) "bearer")) [
        | inl bearer ↦
            simp (bearer, refresh_nonempty token made)
              (continue-refused _ _ _ u (λ id. refresh_misread token id made))
        | inr other ↦ simp other (λ h. cc)
      ]

  access_buys_nothing :
      (token bought : String)
      → create_access_token platform issued user_id settings ≡ ok token
      → (refresh_access_token platform server settings token s).0 ≢ ok bought
  unfolding refresh_access_token session_actions
  access_buys_nothing token bought made =
      continue-refused _ _ _ bought (λ id. access_misread token id made)

  -- If the packages are lawful, the two kinds of token are not interchangeable, at whatever time
  -- and for whatever user: a refresh token authenticates no request, and an access token buys no
  -- access token.
  pub token_types_apart :
      (scheme : String) (u : User) (access_token refresh_token bought : String)
      → create_access_token platform issued user_id settings ≡ ok access_token
      → create_refresh_token platform issued user_id settings ≡ ok refresh_token
      → ((get_current_user platform server settings
            (some (record { scheme = scheme; credentials = refresh_token }))
            s).0
          ≢ ok u)
        × ((refresh_access_token platform server settings access_token s).0 ≢ ok bought)
  token_types_apart scheme u access_token refresh_token bought made made' = (
    refresh_unauthenticated scheme refresh_token u made',
    access_buys_nothing access_token bought made,
  )
