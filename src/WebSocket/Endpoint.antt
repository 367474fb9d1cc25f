-- ===== src/WebSocket/Endpoint.antt =====
-- The admission of a client by the WebSocket endpoint of app/routers/ws.py, before `connect`.
pub mod Admission
use real_time_ai_chat_backen.Base.{ℕ, String, Bool, Option, none, some, [], if◌then◌else◌}
use real_time_ai_chat_backen.Errors.{Error, app_error, authentication, Result, ok, err}
use real_time_ai_chat_backen.Models.{Uuid, User}
use real_time_ai_chat_backen.Config.{Settings}
use real_time_ai_chat_backen.Platform.{Platform}
use real_time_ai_chat_backen.Security.{access, get_user_id_from_token}
use real_time_ai_chat_backen.Session.{Server, State, Action, pure, raise, ◌>>=◌, read_clock}
use real_time_ai_chat_backen.Repositories.Users
use real_time_ai_chat_backen.Repositories.Conversations.{exists_for_owner}

-- The client goes on as the user, or its socket is closed with a code and a reason.
pub data Gate : Type 0 where
  admitted : Uuid → Gate
  turned_away : ℕ → String → Gate

module _ (platform : Platform) (server : Server) (settings : Settings) where
  -- `if user is None or not user.is_active`
  abbrev pub active_id : Option User → Option Uuid
  active_id none = none
  active_id (some user) = if user.is_active then some user.id else none

  -- `except AuthenticationError`, and the user of the token.
  unfoldable pub known_user : Result Uuid → Action (Option Uuid)
  known_user (err (app_error (authentication text))) = pure none
  known_user (err e) = raise e
  known_user (ok user_id) = do user ← Users.get_by_id server user_id; pure (active_id user)

  -- `_authenticate`, where nothing means that it has closed the socket with "Invalid token".
  unfoldable pub authenticate : String → Action (Option Uuid)
  unfolding known_user
  authenticate token = do
    now ← read_clock server
    known_user (get_user_id_from_token platform now token access settings)

  -- `_owns_conversation`
  unfoldable pub owns_conversation : Uuid → Uuid → Action Bool
  owns_conversation conversation_id user_id = exists_for_owner server conversation_id user_id

  unfoldable pub check_conversation : Uuid → Option Uuid → Action Gate
  unfolding owns_conversation
  check_conversation conversation_id none = pure (turned_away 1008 "Invalid token")
  check_conversation conversation_id (some user_id) = do
    owns ← owns_conversation conversation_id user_id
    pure (if owns then admitted user_id else turned_away 1008 "Conversation not found")

  -- `async with session_factory() as session`
  abbrev pub in_session : {A : Type 0} → Action A → Action A
  in_session use_session s = let (r, s') = use_session s in (r, record s' { pending = [] })

  -- `conversation_websocket` up to `connect`. The token is the query parameter of that name.
  unfoldable pub admit : Bool → Option String → Uuid → Action Gate
  unfolding authenticate check_conversation
  admit initialised none conversation_id = pure (turned_away 1008 "Missing token")
  admit initialised (some token) conversation_id =
      if initialised
      then in_session (do user_id ← authenticate token; check_conversation conversation_id user_id)
      else pure (turned_away 1011 "Database unavailable")
