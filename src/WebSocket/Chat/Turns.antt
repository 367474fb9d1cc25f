-- ===== src/WebSocket/Chat/Turns.antt =====
-- The message loop of app/services/chat.py from one await that matters to the others to the next:
-- a message is saved, its frame is published, the reply is saved, and its frame is published.
pub mod Composition
use real_time_ai_chat_backen.Base.{
  ◌≡◌, refl, ◌∙◌, ap, String, Bool, true, false, Option, none, some, if◌then◌else◌,
}
use real_time_ai_chat_backen.Errors.{socket_error, Result, ok, err}
use real_time_ai_chat_backen.Models.{Uuid, Message, user_role, assistant_role}
use real_time_ai_chat_backen.Platform.{Platform}
use real_time_ai_chat_backen.WebSocket.Protocol.{
  Json, Inbound, message_send, ping, pong, Outbound, pong_frame, validate_inbound,
}
use real_time_ai_chat_backen.WebSocket.Chat.{
  Received, frame, malformed, disconnected, World, Surroundings, Chat, continue, ◌>>=◌, ◌>>◌, pure,
  raise, lift, recover, try_else, mock_assistant_reply, created_frame, assistant_frame, send_json,
  send_error, publish_frame, persist, processing_failed, reply, handle_message_send, handle_inbound,
  handle_received,
}

-- What is left of `_handle_message_send`: nothing, the publication of the frame of a stored
-- message with the content to reply to, the storing of that reply, or its publication.
pub data Progress : Type 0 where
  idle : Progress
  publishing : String → Outbound → Progress
  replying : String → Progress
  publishing_reply : Outbound → Progress

module _ (platform : Platform) (around : Surroundings) (conversation_id user_id : Uuid) where
  -- `_handle_message_send` up to the first publication.
  unfoldable pub begin : String → Chat Progress
  begin content =
      try_else (persist platform around conversation_id user_role content (some user_id))
        (λ m. do user_frame ← lift (created_frame m); pure (publishing content user_frame))
        (processing_failed platform around >> pure idle)

  abbrev pub receive_inbound : Json → Option Inbound → Chat Progress
  receive_inbound raw none =
      send_error platform around "invalid_message" (around.validation_message raw) >> pure idle
  receive_inbound raw (some (message_send content)) = begin content
  receive_inbound raw (some (ping nonce)) =
      send_json platform around (pong_frame nonce) >> pure idle
  receive_inbound raw (some (pong _)) =
      send_error platform around "unsupported_message" "Unsupported WebSocket message type"
      >> pure idle

  -- What the loop does with what the socket delivers, up to that publication.
  unfoldable pub receive : Received → Chat Progress
  unfolding begin
  receive disconnected = raise socket_error
  receive malformed =
      send_error platform around "invalid_json" "Message must be valid JSON" >> pure idle
  receive (frame raw) = receive_inbound raw (validate_inbound platform raw)

  -- The next part of `_handle_message_send`.
  unfoldable pub resume : Progress → Chat Progress
  resume idle = pure idle
  resume (publishing content f) = do
    delivered ← publish_frame platform around conversation_id f
    pure (if delivered then replying content else idle)
  resume (replying content) =
      try_else
        (persist platform around conversation_id assistant_role (mock_assistant_reply content) none)
        (λ m. pure (publishing_reply (assistant_frame m)))
        (processing_failed platform around >> pure idle)
  resume (publishing_reply f) = publish_frame platform around conversation_id f >> pure idle

  -- The turns of one message, one after the other.
  unfoldable pub all_turns : Received → Chat Progress
  unfolding receive resume
  all_turns r = receive r >>= λ p. resume p >>= λ q. resume q >>= resume
