-- ===== src/WebSocket/Endpoint/Admission.antt =====
-- Who is let in by the WebSocket endpoint of app/routers/ws.py.
use real_time_ai_chat_backen.Base.{
  ◌≡◌, ◌+◌, refl, ap, ◌∙◌, String, Bool, true, false, Option, none, some, [], ◌∷◌, arith,
  Bool-cases, inl, inr,
}
use real_time_ai_chat_backen.Errors.{app_error, authentication, Result, ok, err}
use real_time_ai_chat_backen.Models.{Uuid, User, user_by_id}
use real_time_ai_chat_backen.Config.{Settings}
use real_time_ai_chat_backen.Platform.{Platform, Claims, claims}
use real_time_ai_chat_backen.Security.{access, timestamp, get_user_id_from_token}
use real_time_ai_chat_backen.Security.Acceptance.{Identifies, get_user_id_from_token-Identifies}
use real_time_ai_chat_backen.Session.{
  Server, State, Action, ◌>>=◌, continue, view, statement, session_actions,
}
use real_time_ai_chat_backen.Repositories.Users.{users_queries}
use real_time_ai_chat_backen.Repositories.Conversations.{conversations_queries}
use real_time_ai_chat_backen.Services.Conversation.Ownership.{is_own}
use real_time_ai_chat_backen.WebSocket.Endpoint.{
  admitted, active_id, known_user, authenticate, check_conversation, admit,
}

continue_ok :
    {A B : Type 0} (r : Result A) (f : A → Action B) (s : State) (b : B)
    → (continue r f s).0 ≡ ok b
    → (a : A) × (r ≡ ok a) × ((f a s).0 ≡ ok b)
continue_ok (ok a) f s b h = (a, refl, h)
continue_ok (err e) f s b h = absurd (cc)

bind_ok :
    {A B : Type 0} (m : Action A) (f : A → Action B) (s : State) (b : B)
    → ((m >>= f) s).0 ≡ ok b
    → (a : A) × ((m s).0 ≡ ok a) × ((f a (m s).1).0 ≡ ok b)
unfolding ◌>>=◌
bind_ok m f s b h = continue_ok (m s).0 f (m s).1 b h

active_id-IsActive :
    (platform : Platform) (server : Server) (settings : Settings) (found : Option User) (u : Uuid)
    → active_id platform server settings found ≡ some u
    → (user : User) × (found ≡ some user) × (user.is_active ≡ true) × (user.id ≡ u)
active_id-IsActive platform server settings none u h = absurd (cc)
active_id-IsActive platform server settings (some user) u h =
    (user, refl, ground arith, ground arith)

module _ (platform : Platform) (server : Server) (settings : Settings) (i u : Uuid)
    (s : State) where
  check_conversation-admits :
      (found : Option Uuid)
      → (check_conversation platform server settings i found s).0 ≡ ok (admitted u)
      → (found ≡ some u) × (is_own i u (view (statement server s).1) ≡ true)
  unfolding check_conversation conversations_queries
  check_conversation-admits none h = absurd (cc)
  check_conversation-admits (some v) h = ground arith

  known_user-admits :
      (r : Result Uuid)
      → (known_user platform server settings r s).0 ≡ ok (some u)
      → (id : Uuid) × (user : User) × (r ≡ ok id)
        × (user_by_id id (view (statement server s).1).users ≡ some user)
        × (user.is_active ≡ true)
        × (user.id ≡ u)
  unfolding known_user users_queries
  known_user-admits (ok id) h =
      let found = user_by_id id (view (statement server s).1).users in
      elim (Bool-cases (server.fault_at s.tick)) [
        | inl fails ↦ absurd (ground (arith, fails, h))
        | inr works ↦
            let a =
              active_id-IsActive platform server settings found u (ground (arith, works, h)) in
            (id, a.0, refl, a.1, a.2, a.3)
      ]
  known_user-admits (err (app_error (authentication text))) h = absurd (cc)
  known_user-admits (err e) h = absurd (cc)

-- What the admission of a user to a conversation rests on: a token that python-jose decodes at that
-- second, with the claims of an access token, a row of an active user that its subject names, and a
-- conversation that belongs to that user.
pub record IsEntitled (platform : Platform) (server : Server) (settings : Settings) (token : String)
    (i u : Uuid) (s : State) : Type 0 where
  pub raw : Claims
  pub subject : Uuid
  pub user : User
  pub decoded :
      platform.jwt_decode
        (timestamp (server.clock_at s.tick))
        token
        settings.jwt_secret_key
        (settings.jwt_algorithm ∷ [])
      ≡ claims raw
  pub identified : Identifies platform raw access subject
  pub found :
      user_by_id subject (view (authenticate platform server settings token s).1).users ≡ some user
  pub active : user.is_active ≡ true
  pub same : user.id ≡ u
  pub owned :
      is_own i u (view (statement server (authenticate platform server settings token s).1).1)
      ≡ true

module _ (platform : Platform) (server : Server) (settings : Settings) where
  -- The query of a valid token leaves the session as one statement does.
  known_user-queries :
      (r : Result Uuid) (id : Uuid) (s : State)
      → r ≡ ok id
      → (known_user platform server settings r s).1 ≡ (statement server s).1
  unfolding known_user users_queries
  known_user-queries (ok subject) id s h = elim (Bool-cases (server.fault_at s.tick)) [
    | inl fails ↦ simp fails refl
    | inr works ↦ simp works refl
  ]
  known_user-queries (err e) id s h = absurd (cc)

  session-IsEntitled :
      (token : String) (i u : Uuid) (s : State)
      → ((authenticate platform server settings token
            >>= check_conversation platform server settings i)
          s).0
        ≡ ok (admitted u)
      → IsEntitled platform server settings token i u s
  unfolding authenticate session_actions
  session-IsEntitled token i u s h =
      let asked = authenticate platform server settings token in
      let check = check_conversation platform server settings i in
      let (found, authentic, checked) = bind_ok asked check s (admitted u) h in
      let own = check_conversation-admits platform server settings i u (asked s).1 found checked in
      let now = server.clock_at s.tick in
      let read = get_user_id_from_token platform now token access settings in
      let s' = record s { tick = s.tick + 1 } in
      let (id, user, named, row, active, same) =
        known_user-admits platform server settings i u s' read (authentic ∙ ap ok own.0) in
      let (raw, decoded, identified) =
        get_user_id_from_token-Identifies platform now token access settings id named in
      record {
        raw = raw;
        subject = id;
        user = user;
        decoded = decoded;
        identified = identified;
        found = ap (λ x. user_by_id id (view x).users) (known_user-queries read id s' named) ∙ row;
        active = active;
        same = same;
        owned = own.1;
      }

  -- A client is let in only with a token that python-jose, with the configured key and algorithm,
  -- has decoded at that second as an access token, whose subject is the id of a row of an
  -- active user, and only to a conversation of that user, as the queries see the tables; and only
  -- once the pool is there.
  pub admit-IsEntitled :
      (initialised : Bool) (given : Option String) (i u : Uuid) (s : State)
      → (admit platform server settings initialised given i s).0 ≡ ok (admitted u)
      → (initialised ≡ true)
        × ((token : String) × (given ≡ some token)
            × IsEntitled platform server settings token i u s)
  unfolding admit session_actions
  admit-IsEntitled true none i u s h = absurd (cc)
  admit-IsEntitled true (some token) i u s h =
      (refl, (token, refl, session-IsEntitled token i u s h))
  admit-IsEntitled false none i u s h = absurd (cc)
  admit-IsEntitled false (some token) i u s h = absurd (cc)
