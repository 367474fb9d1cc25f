-- ===== src/Routers/Refusals.antt =====
-- The requests of app/routers that the API refuses, and what they leave in the session.
use real_time_ai_chat_backen.Base.{◌≡◌, refl, String, true, false, Option, some}
use real_time_ai_chat_backen.Errors.{Error, app_error, authentication, ok, err}
use real_time_ai_chat_backen.Errors.Handlers.{handle_error}
use real_time_ai_chat_backen.Models.{Uuid, User}
use real_time_ai_chat_backen.Config.{Settings}
use real_time_ai_chat_backen.Platform.{Platform, ℤ}
use real_time_ai_chat_backen.Services.Auth.{get_current_user}
use real_time_ai_chat_backen.Services.Conversation.{conversation_missing}
use real_time_ai_chat_backen.Services.Conversation.Ownership.{owns, queried, change_refused}
use real_time_ai_chat_backen.Session.{Server, State, Action, view, ◌>>=◌, session_actions}
use real_time_ai_chat_backen.Routers.{Request, Response, failure, closed, serve, serve_body, json}
use real_time_ai_chat_backen.Routers.Auth.{me}
use real_time_ai_chat_backen.Routers.Conversations.{
  create_conversation, list_conversations, rename_conversation, delete_conversation,
  list_conversation_messages, title_request,
}

module _ (platform : Platform) (request : Request) where
  -- The response to a request whose handler raises the error.
  abbrev pub refusal : {A : Type 0} → Error → Response A
  refusal e = record {
    status = (handle_error platform request.request_id e).status_code;
    body = failure (handle_error platform request.request_id e);
  }

  module _ {A : Type 0} where
    serve_raised :
        (m : Action (Response A)) (e : Error) (s s' : State)
        → m s ≡ (err e, s')
        → serve platform true request m s ≡ (refusal e, closed s')
    unfolding serve session_actions
    serve_raised m e s s' h = rw h refl

    serve_refused :
        {B : Type 0} (m : Action B) (f : B → Action (Response A)) (e : Error) (s : State)
        → (m s).0 ≡ err e
        → serve platform true request (m >>= f) s ≡ (refusal e, closed (m s).1)
    unfolding serve session_actions
    serve_refused m f e s h = rw h refl

module _ (platform : Platform) (server : Server) (settings : Settings)
    (email_str : String → Option String) (request : Request) (s : State) where
  -- A request whose authentication raises an `AuthenticationError` is answered with 401 by every
  -- route that needs a user, whatever else it holds, provided that the body of a request to create
  -- or to rename a conversation is JSON; and the database is as the authentication has left it, with
  -- no open write.
  pub unauthenticated_refused :
      (text : String) (title : Option String) (path : Option Uuid) (query : Option (ℤ × ℤ))
      → (get_current_user platform server settings request.credentials s).0
        ≡ err (app_error (authentication text))
      → let e = app_error (authentication text) in
        let s' = closed (get_current_user platform server settings request.credentials s).1 in
        ((handle_error platform request.request_id e).status_code ≡ 401)
        × (serve platform true request (me platform server settings email_str request) s
            ≡ (refusal platform request e, s'))
        × (serve_body platform true request
              (create_conversation platform server settings request)
              (json title)
              s
            ≡ (refusal platform request e, s'))
        × (serve platform true request (list_conversations platform server settings request query) s
            ≡ (refusal platform request e, s'))
        × (serve_body platform true request
              (rename_conversation platform server settings request path)
              (json title)
              s
            ≡ (refusal platform request e, s'))
        × (serve platform true request (delete_conversation platform server settings request path) s
            ≡ (refusal platform request e, s'))
        × (serve platform true request
              (list_conversation_messages platform server settings request path query)
              s
            ≡ (refusal platform request e, s'))
  unfolding me create_conversation list_conversations rename_conversation delete_conversation
      list_conversation_messages handle_error serve_body
  unauthenticated_refused text title path query h =
      let user = get_current_user platform server settings request.credentials in
      let e = app_error (authentication text) in
      (
        refl,
        serve_refused platform request user _ e s h,
        serve_refused platform request user _ e s h,
        serve_refused platform request user _ e s h,
        serve_refused platform request user _ e s h,
        serve_refused platform request user _ e s h,
        serve_refused platform request user _ e s h,
      )

module _ (platform : Platform) (server : Server) (settings : Settings) (request : Request)
    (user : User) (i : Uuid) (s s' : State) where
  -- The state in which the first query of the service finds the tables.
  abbrev queried_state : State
  queried_state = queried platform server i user.id s'

  -- When a signed-in user renames or deletes a conversation that is missing, and one that belongs
  -- to another user, and the query does not fail, the response is the same: a 404 whose message has
  -- the id that was asked for. Nothing is written.
  pub foreign_conversation_hidden :
      (title title' : String)
      → get_current_user platform server settings request.credentials s ≡ (ok user, s')
      → title_request platform server settings (some title) ≡ some title'
      → server.fault_at s'.tick ≡ false
      → owns i user.id (view queried_state) ≡ false
      → let e = conversation_missing platform server i in
        ((handle_error platform request.request_id e).status_code ≡ 404)
        × (serve_body platform true request
              (rename_conversation platform server settings request (some i))
              (json (some title))
              s
            ≡ (refusal platform request e, closed queried_state))
        × (serve platform true request
              (delete_conversation platform server settings request (some i))
              s
            ≡ (refusal platform request e, closed queried_state))
  unfolding rename_conversation delete_conversation handle_error serve_body session_actions
  foreign_conversation_hidden title title' signed_in good works foreign =
      let e = conversation_missing platform server i in
      let refused = change_refused platform server i user.id s' title' works foreign in
      (
        refl,
        serve_raised platform request
            (rename_conversation platform server settings request (some i) (some title)) e s
            queried_state (simp (signed_in, good, refused.0) refl),
        serve_raised platform request
            (delete_conversation platform server settings request (some i)) e s queried_state
            (simp (signed_in, refused.1) refl),
      )
