-- ===== src/WebSocket/Protocol/Limits.antt =====
-- Which JSON values app/websocket/protocol.py takes for messages to send.
use real_time_ai_chat_backen.Base.{
  ◌≡◌, ◌≢◌, ◌≤◌, ◌↔◌, refl, ap, String, Option, none, some, arith, count, str_eq, eq_iff,
  Bool-cases, inl, inr,
}
use real_time_ai_chat_backen.Platform.{Platform}
use real_time_ai_chat_backen.Schemas.{bounded_text}
use real_time_ai_chat_backen.WebSocket.Protocol.{
  Json, Fields, null, boolean, number, text, array, object, message_send, ping, pong, get_field,
  send_content, send_payload, nonce_payload, with_nonce, by_type, validate_inbound,
}

module _ (platform : Platform) where
  -- The value of the field `content`, and the content that is read from it.
  pub record IsContent (value : Option Json) (content : String) : Type 0 where
    pub raw : String
    pub value_lem : value ≡ some (text raw)
    pub trimmed : content ≡ platform.trim raw
    pub nonempty : 1 ≤ count content
    pub short : count content ≤ 16_000

  -- A JSON object with the type and a payload as declared.
  pub record IsMessageSend (fields : Fields) (content : String) : Type 0 where
    pub tag : get_field "type" fields ≡ some (text "message.send")
    pub payload : Fields
    pub payload_lem : get_field "payload" fields ≡ some (object payload)
    pub content_lem : IsContent (get_field "content" payload) content

  send_content-IsContent :
      (value : Option Json) (content : String)
      → send_content platform value ≡ some (message_send content)
      → IsContent value content
  unfolding bounded_text
  send_content-IsContent (some (text raw)) content h = record {
    raw = raw;
    value_lem = refl;
    trimmed = ground arith;
    nonempty = ground arith;
    short = ground arith;
  }
  send_content-IsContent none content h = absurd (cc)
  send_content-IsContent (some null) content h = absurd (cc)
  send_content-IsContent (some (boolean b)) content h = absurd (cc)
  send_content-IsContent (some number) content h = absurd (cc)
  send_content-IsContent (some (array xs)) content h = absurd (cc)
  send_content-IsContent (some (object fs)) content h = absurd (cc)

  send_payload-object :
      (value : Option Json) (content : String)
      → send_payload platform value ≡ some (message_send content)
      → (payload : Fields) × (value ≡ some (object payload))
        × IsContent (get_field "content" payload) content
  send_payload-object (some (object payload)) content h =
      (payload, refl, send_content-IsContent (get_field "content" payload) content h)
  send_payload-object none content h = absurd (cc)
  send_payload-object (some null) content h = absurd (cc)
  send_payload-object (some (boolean b)) content h = absurd (cc)
  send_payload-object (some number) content h = absurd (cc)
  send_payload-object (some (text s)) content h = absurd (cc)
  send_payload-object (some (array xs)) content h = absurd (cc)

  ping_unsent :
      (nonce : Option (Option String)) (content : String)
      → with_nonce platform ping nonce ≢ some (message_send content)
  ping_unsent none content = λ h. cc
  ping_unsent (some _) content = λ h. cc

  pong_unsent :
      (nonce : Option (Option String)) (content : String)
      → with_nonce platform pong nonce ≢ some (message_send content)
  pong_unsent none content = λ h. cc
  pong_unsent (some _) content = λ h. cc

  by_type-send :
      (tag payload : Option Json) (content : String)
      → by_type platform tag payload ≡ some (message_send content)
      → (tag ≡ some (text "message.send"))
        × (send_payload platform payload ≡ some (message_send content))
  by_type-send (some (text t)) payload content h = elim (Bool-cases (str_eq t "message.send")) [
    | inl send ↦ (ap (λ u. some (text u)) ((eq_iff t "message.send").0 send), rw send at h)
    | inr other ↦ absurd (
        ground (
          arith,
          other,
          ping_unsent (nonce_payload platform payload) content,
          pong_unsent (nonce_payload platform payload) content,
        ))
  ]
  by_type-send none payload content h = absurd (cc)
  by_type-send (some null) payload content h = absurd (cc)
  by_type-send (some (boolean b)) payload content h = absurd (cc)
  by_type-send (some number) payload content h = absurd (cc)
  by_type-send (some (object fs)) payload content h = absurd (cc)
  by_type-send (some (array xs)) payload content h = absurd (cc)

  sent-IsMessageSend :
      (fields : Fields) (content : String)
      → validate_inbound platform (object fields) ≡ some (message_send content)
      → IsMessageSend fields content
  unfolding validate_inbound
  sent-IsMessageSend fields content h =
      let (tag, sent) =
        by_type-send (get_field "type" fields) (get_field "payload" fields) content h in
      let (payload, payload_lem, content_lem) =
        send_payload-object (get_field "payload" fields) content sent in
      record { tag = tag; payload = payload; payload_lem = payload_lem; content_lem = content_lem }

  IsMessageSend-sent :
      (fields : Fields) (content : String)
      → IsMessageSend fields content
      → validate_inbound platform (object fields) ≡ some (message_send content)
  unfolding validate_inbound bounded_text
  IsMessageSend-sent fields content h =
      rw (h.tag, h.payload_lem, h.content_lem.value_lem)
        (ground (arith, h.content_lem.trimmed, h.content_lem.nonempty, h.content_lem.short))

  -- An object is taken for a message to send exactly if its type says so and its payload is an
  -- object whose content is a text that has, without the white space around it, from 1 to 16000
  -- characters; the message is that text without that white space.
  pub validate_inbound-message_send :
      (fields : Fields) (content : String)
      → (validate_inbound platform (object fields) ≡ some (message_send content))
        ↔ IsMessageSend fields content
  validate_inbound-message_send fields content =
      (sent-IsMessageSend fields content, IsMessageSend-sent fields content)
