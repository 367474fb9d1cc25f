-- ===== src/WebSocket/Protocol.antt =====
-- The frames of app/websocket/protocol.py, and how the declared models validate a JSON value.
pub mod Limits
pub mod Wire
use real_time_ai_chat_backen.Base.{
  ℕ, String, Bool, true, false, Option, none, some, str_eq, if◌then◌else◌,
}
use real_time_ai_chat_backen.Models.{Uuid, Time}
use real_time_ai_chat_backen.Platform.{Platform}
use real_time_ai_chat_backen.Schemas.{bounded_text}

-- A value of `receive_json`; of a number the code uses nothing.
mutual
  pub data Json : Type 0 where
    null : Json
    boolean : Bool → Json
    number : Json
    text : String → Json
    array : Items → Json
    object : Fields → Json

  pub data Items : Type 0 where
    nil : Items
    cons : Json → Items → Items

  pub data Fields : Type 0 where
    end : Fields
    field : String → Json → Fields → Fields

-- `InboundMessage`
pub data Inbound : Type 0 where
  message_send : String → Inbound
  ping : Option String → Inbound
  pong : Option String → Inbound

-- `MessageCreatedPayload` and `AssistantMessagePayload`; each has a fixed role.
pub record CreatedPayload : Type 0 where
  pub id : Uuid
  pub conversation_id : Uuid
  pub sender_id : Uuid
  pub content : String
  pub created_at : Time

pub record AssistantPayload : Type 0 where
  pub id : Uuid
  pub conversation_id : Uuid
  pub content : String
  pub created_at : Time

-- `OutboundMessage`
pub data Outbound : Type 0 where
  message_created : CreatedPayload → Outbound
  assistant_message : AssistantPayload → Outbound
  error : String → String → Outbound
  ping_frame : Option String → Outbound
  pong_frame : Option String → Outbound

abbrev pub get_field : String → Fields → Option Json
get_field name end = none
get_field name (field key value rest) = if str_eq key name then some value else get_field name rest

module _ (platform : Platform) where
  abbrev pub send_content : Option Json → Option Inbound
  send_content (some (text content)) = elim (bounded_text platform 1 16_000 content) [
    | none ↦ none
    | some c ↦ some (message_send c)
  ]
  send_content _ = none

  -- `payload: MessageSendPayload`
  abbrev pub send_payload : Option Json → Option Inbound
  send_payload (some (object fields)) = send_content (get_field "content" fields)
  send_payload _ = none

  -- `nonce: str | None = None`
  abbrev pub nonce_value : Option Json → Option (Option String)
  nonce_value none = some none
  nonce_value (some null) = some none
  nonce_value (some (text nonce)) = some (some (platform.trim nonce))
  nonce_value _ = none

  -- `payload: PingPayload = Field(default_factory=PingPayload)`, and so for a pong.
  abbrev pub nonce_payload : Option Json → Option (Option String)
  nonce_payload none = some none
  nonce_payload (some (object fields)) = nonce_value (get_field "nonce" fields)
  nonce_payload _ = none

  abbrev pub with_nonce : (Option String → Inbound) → Option (Option String) → Option Inbound
  with_nonce make none = none
  with_nonce make (some nonce) = some (make nonce)

  -- The discriminator `type` picks the model.
  abbrev pub by_type : Option Json → Option Json → Option Inbound
  by_type (some (text tag)) payload =
      if str_eq tag "message.send"
      then send_payload payload
      else if str_eq tag "ping"
      then with_nonce ping (nonce_payload payload)
      else if str_eq tag "pong"
      then with_nonce pong (nonce_payload payload)
      else none
  by_type _ payload = none

  -- `inbound_adapter.validate_python`; nothing where it raises a `ValidationError`.
  unfoldable pub validate_inbound : Json → Option Inbound
  validate_inbound (object fields) = by_type (get_field "type" fields) (get_field "payload" fields)
  validate_inbound _ = none
