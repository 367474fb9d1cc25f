-- ===== src/WebSocket/Protocol/Wire.antt =====
-- The frames of app/websocket/protocol.py on their way through Redis: `_serialize`, `_decode` and
-- the validation of `_handle_message` in app/websocket/pubsub.py.
use real_time_ai_chat_backen.Base.{
  ℕ, ◌≡◌, refl, String, Option, none, some, List, str_eq, if◌then◌else◌,
}
use real_time_ai_chat_backen.Models.{Uuid, Time}
use real_time_ai_chat_backen.Platform.{Platform}
use real_time_ai_chat_backen.WebSocket.Protocol.{
  Json, null, text, object, Fields, end, field, Outbound, message_created, assistant_message, error,
  ping_frame, pong_frame, get_field, nonce_payload,
}

-- What the packages do: `bytes.decode`, `json.loads`, and pydantic with its JSON of a model, its
-- reading of a UUID, and the form of its dates. Nothing is what raises.
pub record Wire : Type 0 where
  pub utf8_decode : List ℕ → Option String
  pub json_loads : String → Option Json
  pub json_dumps : Json → String
  pub parse_uuid : String → Option Uuid
  pub isoformat : Time → String
  pub parse_datetime : String → Option Time

pub record IsFaithful (platform : Platform) (wire : Wire) : Type 0 where
  pub loads-dumps : (value : Json) → wire.json_loads (wire.json_dumps value) ≡ some value
  pub parse-uuid_str : (u : Uuid) → wire.parse_uuid (platform.uuid_str u) ≡ some u
  pub parse-isoformat : (t : Time) → wire.parse_datetime (wire.isoformat t) ≡ some t

-- What `get_message` has under `data`.
pub data Raw : Type 0 where
  octets : List ℕ → Raw
  characters : String → Raw
  value : Json → Raw

-- How `_handle_message` ends: the payload is dropped with a warning, or broadcast, or an exception
-- leaves the method.
pub data Handled : Type 0 where
  dropped : Handled
  forwarded : Outbound → Handled
  escaped : Handled

module _ (platform : Platform) (wire : Wire) where
  abbrev nonce_json : Option String → Json
  nonce_json none = null
  nonce_json (some given) = text given

  abbrev payload_json : Outbound → Fields
  payload_json (message_created p) = field "id" (text (platform.uuid_str p.id)) (
      field "conversation_id" (text (platform.uuid_str p.conversation_id)) (
        field "sender_id" (text (platform.uuid_str p.sender_id)) (
          field "role" (text "user") (
            field "content" (text p.content)
              (field "created_at" (text (wire.isoformat p.created_at)) end)))))
  payload_json (assistant_message p) = field "id" (text (platform.uuid_str p.id)) (
      field "conversation_id" (text (platform.uuid_str p.conversation_id)) (
        field "role" (text "assistant") (
          field "content" (text p.content)
            (field "created_at" (text (wire.isoformat p.created_at)) end))))
  payload_json (error code message) = field "code" (text code) (field "message" (text message) end)
  payload_json (ping_frame given) = field "nonce" (nonce_json given) end
  payload_json (pong_frame given) = field "nonce" (nonce_json given) end

  abbrev type_name : Outbound → String
  type_name (message_created p) = "message.created"
  type_name (assistant_message p) = "assistant.message"
  type_name (error code message) = "error"
  type_name (ping_frame given) = "ping"
  type_name (pong_frame given) = "pong"

  -- `model_dump(mode="json")`
  unfoldable pub dump : Outbound → Json
  dump f =
      object (field "type" (text (type_name f)) (field "payload" (object (payload_json f)) end))

  -- `_serialize`
  unfoldable pub serialize : Outbound → String
  unfolding dump
  serialize f = wire.json_dumps (dump f)

  abbrev bind : {A B : Type 0} → Option A → (A → Option B) → Option B
  bind none f = none
  bind (some a) f = f a

  -- A `str` of an `AppBaseModel`, a `uuid.UUID` and a `datetime` as the fields of a payload. That
  -- pydantic also takes a number for a date is left out: `isoformat` writes a text.
  abbrev text_value : Option Json → Option String
  text_value (some (text s)) = some (platform.trim s)
  text_value _ = none

  abbrev uuid_value : Option Json → Option Uuid
  uuid_value (some (text s)) = wire.parse_uuid s
  uuid_value _ = none

  abbrev time_value : Option Json → Option Time
  time_value (some (text s)) = wire.parse_datetime s
  time_value _ = none

  -- `role: Literal[...]`, with its one value as the default.
  abbrev role_value : String → Option Json → Option (Unit {0})
  role_value role none = some tt
  role_value role (some (text s)) = if str_eq s role then some tt else none
  role_value role (some _) = none

  abbrev created_payload : Fields → Option Outbound
  created_payload fields = bind (uuid_value (get_field "id" fields)) λ id.
      bind (uuid_value (get_field "conversation_id" fields)) λ conversation_id.
        bind (uuid_value (get_field "sender_id" fields)) λ sender_id.
          bind (role_value "user" (get_field "role" fields)) λ _.
            bind (text_value (get_field "content" fields)) λ content.
              bind (time_value (get_field "created_at" fields)) λ created_at. some (
                message_created (record {
                  id = id;
                  conversation_id = conversation_id;
                  sender_id = sender_id;
                  content = content;
                  created_at = created_at;
                }))

  abbrev assistant_payload : Fields → Option Outbound
  assistant_payload fields = bind (uuid_value (get_field "id" fields)) λ id.
      bind (uuid_value (get_field "conversation_id" fields)) λ conversation_id.
        bind (role_value "assistant" (get_field "role" fields)) λ _.
          bind (text_value (get_field "content" fields)) λ content.
            bind (time_value (get_field "created_at" fields)) λ created_at. some (
              assistant_message (record {
                id = id;
                conversation_id = conversation_id;
                content = content;
                created_at = created_at;
              }))

  abbrev error_payload : Fields → Option Outbound
  error_payload fields =
      bind (text_value (get_field "code" fields))
        λ code. bind (text_value (get_field "message" fields)) λ message. some (error code message)

  abbrev payload_object : (Fields → Option Outbound) → Option Json → Option Outbound
  payload_object read (some (object fields)) = read fields
  payload_object read _ = none

  abbrev with_nonce : (Option String → Outbound) → Option (Option String) → Option Outbound
  with_nonce make none = none
  with_nonce make (some given) = some (make given)

  -- The discriminator `type` picks the model.
  abbrev outbound_by_type : Option Json → Option Json → Option Outbound
  outbound_by_type (some (text tag)) payload =
      if str_eq tag "message.created"
      then payload_object created_payload payload
      else if str_eq tag "assistant.message"
      then payload_object assistant_payload payload
      else if str_eq tag "error"
      then payload_object error_payload payload
      else if str_eq tag "ping"
      then with_nonce ping_frame (nonce_payload platform payload)
      else if str_eq tag "pong"
      then with_nonce pong_frame (nonce_payload platform payload)
      else none
  outbound_by_type _ payload = none

  -- `outbound_adapter.validate_python`; nothing where it raises a `ValidationError`.
  unfoldable pub validate_outbound : Json → Option Outbound
  validate_outbound (object fields) =
      outbound_by_type (get_field "type" fields) (get_field "payload" fields)
  validate_outbound _ = none

  abbrev dropped_or : Option Outbound → Handled
  dropped_or none = dropped
  dropped_or (some f) = forwarded f

  abbrev handle_value : Option Json → Handled
  handle_value none = dropped
  handle_value (some v) = dropped_or (validate_outbound v)

  -- `_decode` and the `try` of `_handle_message`. A `UnicodeDecodeError` is not caught there.
  abbrev handle_octets : Option String → Handled
  handle_octets none = escaped
  handle_octets (some s) = handle_value (wire.json_loads s)

  unfoldable pub handle_message : Raw → Handled
  unfolding validate_outbound
  handle_message (octets bytes) = handle_octets (wire.utf8_decode bytes)
  handle_message (characters s) = handle_value (wire.json_loads s)
  handle_message (value v) = handle_value (some v)

  -- The frame with its texts stripped, as pydantic reads it.
  abbrev pub stripped : Outbound → Outbound
  stripped (message_created p) = message_created (record p { content = platform.trim p.content })
  stripped (assistant_message p) =
      assistant_message (record p { content = platform.trim p.content })
  stripped (error code message) = error (platform.trim code) (platform.trim message)
  stripped (ping_frame none) = ping_frame none
  stripped (ping_frame (some given)) = ping_frame (some (platform.trim given))
  stripped (pong_frame none) = pong_frame none
  stripped (pong_frame (some given)) = pong_frame (some (platform.trim given))

  module _ (faithful : IsFaithful platform wire) where
    validate-dump : (f : Outbound) → validate_outbound (dump f) ≡ some (stripped f)
    unfolding validate_outbound dump
    validate-dump (message_created p) =
        simp (faithful.parse-uuid_str, faithful.parse-isoformat) refl
    validate-dump (assistant_message p) =
        simp (faithful.parse-uuid_str, faithful.parse-isoformat) refl
    validate-dump (error code message) = refl
    validate-dump (ping_frame none) = refl
    validate-dump (ping_frame (some given)) = refl
    validate-dump (pong_frame none) = refl
    validate-dump (pong_frame (some given)) = refl

    -- If the packages read back what they write, a frame that is published as a text arrives as
    -- itself, but for the white space around its texts.
    pub handle_message-serialize :
        (f : Outbound) → handle_message (characters (serialize f)) ≡ forwarded (stripped f)
    unfolding handle_message serialize
    handle_message-serialize f = simp (faithful.loads-dumps, validate-dump f) refl
