-- ===== src/WebSocket/Chat.antt =====
-- `ChatWebSocketService` of app/services/chat.py: the message loop of one WebSocket.
pub mod Frames
pub mod Exchange
pub mod Backed
pub mod Delivery
pub mod Turns
use real_time_ai_chat_backen.Base.{
  ℕ, ◌+◌, String, ◌<>◌, Bool, true, false, Option, none, some, List, [], ◌∷◌, ◌++◌, length,
  if◌then◌else◌,
}
use real_time_ai_chat_backen.Errors.{Error, value_error, redis_error, socket_error, Result, ok, err}
use real_time_ai_chat_backen.Models.{Uuid, MessageRole, user_role, assistant_role, Message}
use real_time_ai_chat_backen.Platform.{Platform}
use real_time_ai_chat_backen.Session.{Server, State, Action, commit}
use real_time_ai_chat_backen.Session
use real_time_ai_chat_backen.Repositories.Messages
use real_time_ai_chat_backen.WebSocket.Protocol.{
  Json, Inbound, message_send, ping, pong, Outbound, message_created, assistant_message, error,
  pong_frame, validate_inbound,
}

-- What `websocket.receive_json()` returns or raises.
pub data Received : Type 0 where
  frame : Json → Received
  malformed : Received
  disconnected : Received

-- The database, the frames sent to this WebSocket, and the frames published to Redis.
pub record World : Type 0 where
  pub store : State
  pub sent : List Outbound
  pub published : List (Uuid × Outbound)

-- The server, and what else may fail: a send to this socket, and a publication, each numbered by
-- what has gone before. `validation_message` is the text of the first error of a frame.
pub record Surroundings : Type 0 where
  pub server : Server
  pub send_fails : ℕ → Bool
  pub publish_fails : ℕ → Bool
  pub validation_message : Json → String

abbrev pub Chat : Type 0 → Type 0
Chat A = World → Result A × World

abbrev pub continue : {A B : Type 0} → Result A → (A → Chat B) → Chat B
continue (ok a) f w = f a w
continue (err e) f w = (err e, w)

infixl 5 ◌>>=◌ ◌>>◌
unfoldable pub ◌>>=◌ : {A B : Type 0} → Chat A → (A → Chat B) → Chat B
◌>>=◌ m f w = let (r, w') = m w in continue r f w'

abbrev pub ◌>>◌ : {A B : Type 0} → Chat A → Chat B → Chat B
m >> k = m >>= λ _. k

unfoldable pub pure : {A : Type 0} → A → Chat A
pure a w = (ok a, w)

unfoldable pub raise : {A : Type 0} → Error → Chat A
raise e w = (err e, w)

unfoldable pub lift : {A : Type 0} → Result A → Chat A
lift r w = (r, w)

-- `try: body except Exception: handler`; the handler here makes the result of the block.
abbrev pub recover : {A B : Type 0} → (A → Chat B) → Chat B → Result A → Chat B
recover rest handler (ok a) = rest a
recover rest handler (err e) = handler

unfoldable pub try_else : {A B : Type 0} → Chat A → (A → Chat B) → Chat B → Chat B
try_else body rest handler w = let (r, w') = body w in recover rest handler r w'

-- `async with self.session_factory() as session`: a session of its own, whose open transaction is
-- rolled back at the end.
unfoldable pub in_session : {A : Type 0} → Action A → Chat A
in_session m w =
    let (r, s) = m (record w.store { pending = [] }) in
    (r, record w { store = record s { pending = [] } })

-- `_mock_assistant_reply`
unfoldable pub mock_assistant_reply : String → String
mock_assistant_reply user_content = "Mock AI response: " <> user_content

-- `_message_created`
abbrev pub created_by : Message → Option Uuid → Result Outbound
created_by m none = err (value_error "User message must have a sender_id")
created_by m (some sender_id) = ok (
    message_created (record {
      id = m.id;
      conversation_id = m.conversation_id;
      sender_id = sender_id;
      content = m.content;
      created_at = m.created_at;
    }))

unfoldable pub created_frame : Message → Result Outbound
created_frame m = created_by m m.sender_id

-- `_assistant_message`
unfoldable pub assistant_frame : Message → Outbound
assistant_frame m = assistant_message (record {
  id = m.id;
  conversation_id = m.conversation_id;
  content = m.content;
  created_at = m.created_at;
})

module _ (platform : Platform) (around : Surroundings) where
  -- `websocket.send_json`
  unfoldable pub send_json : Outbound → Chat (Unit {0})
  send_json f w =
      if around.send_fails (length w.sent)
      then (err socket_error, w)
      else (ok tt, record w { sent = w.sent ++ f ∷ [] })

  -- `_send_error`
  unfoldable pub send_error : String → String → Chat (Unit {0})
  send_error code message = send_json (error code message)

  -- `RedisWebSocketPubSub.publish`
  unfoldable pub publish : Uuid → Outbound → Chat (Unit {0})
  publish conversation_id f w =
      if around.publish_fails w.store.tick
      then (err redis_error, w)
      else (ok tt, record w { published = w.published ++ (conversation_id, f) ∷ [] })

  -- `_publish_frame`
  unfoldable pub publish_frame : Uuid → Outbound → Chat Bool
  publish_frame conversation_id f =
      try_else (publish conversation_id f) (λ _. pure true)
        (send_error "message_publish_failed" "Message was saved but could not be delivered"
          >> pure false)

  -- The two `async with` blocks: the message is created and committed.
  unfoldable pub save_message : Uuid → MessageRole → String → Option Uuid → Action Message
  save_message conversation_id role content sender_id =
      Session.◌>>=◌ (Messages.create around.server conversation_id role content sender_id)
        (λ m. Session.◌>>=◌ (commit around.server) (λ _. Session.pure m))

  unfoldable pub persist : Uuid → MessageRole → String → Option Uuid → Chat Message
  persist conversation_id role content sender_id =
      in_session (save_message conversation_id role content sender_id)

  unfoldable pub processing_failed : Chat (Unit {0})
  processing_failed = send_error "message_processing_failed" "Unable to process message"

  -- The second half of `_handle_message_send`, after the user's frame is published.
  unfoldable pub reply : Uuid → String → Chat (Unit {0})
  reply conversation_id content =
      try_else (persist conversation_id assistant_role (mock_assistant_reply content) none)
        (λ m. publish_frame conversation_id (assistant_frame m) >> pure tt) processing_failed

  -- `_handle_message_send`
  unfoldable pub handle_message_send : Uuid → Uuid → String → Chat (Unit {0})
  handle_message_send conversation_id user_id content =
      try_else (persist conversation_id user_role content (some user_id))
        (λ m. do
          user_frame ← lift (created_frame m)
          delivered ← publish_frame conversation_id user_frame
          if delivered then reply conversation_id content else pure tt)
        processing_failed

  abbrev pub handle_inbound : Uuid → Uuid → Json → Option Inbound → Chat (Unit {0})
  handle_inbound conversation_id user_id raw none =
      send_error "invalid_message" (around.validation_message raw)
  handle_inbound conversation_id user_id raw (some (message_send content)) =
      handle_message_send conversation_id user_id content
  handle_inbound conversation_id user_id raw (some (ping nonce)) = send_json (pong_frame nonce)
  handle_inbound conversation_id user_id raw (some (pong _)) =
      send_error "unsupported_message" "Unsupported WebSocket message type"

  -- One round of the loop in `run`.
  unfoldable pub handle_received : Uuid → Uuid → Received → Chat (Unit {0})
  handle_received conversation_id user_id disconnected = raise socket_error
  handle_received conversation_id user_id malformed =
      send_error "invalid_json" "Message must be valid JSON"
  handle_received conversation_id user_id (frame raw) =
      handle_inbound conversation_id user_id raw (validate_inbound platform raw)

  -- `run`, over what the socket delivers.
  unfoldable pub run : Uuid → Uuid → List Received → Chat (Unit {0})
  run conversation_id user_id [] = pure tt
  run conversation_id user_id (r ∷ rs) =
      let rest = run conversation_id user_id rs in handle_received conversation_id user_id r >> rest
