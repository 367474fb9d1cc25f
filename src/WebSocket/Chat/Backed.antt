-- ===== src/WebSocket/Chat/Backed.antt =====
-- What it means that every published frame has its stored message, and the actions that keep it
-- because they store nothing.
use real_time_ai_chat_backen.Base.{
  ◌≡◌, String, Option, none, some, List, [], ◌∷◌, ◌++◌, arith, All, length, Bool-cases, inl, inr,
}
use real_time_ai_chat_backen.Errors.{Result, ok, err}
use real_time_ai_chat_backen.Models.{
  Uuid, MessageRole, user_role, assistant_role, Message, message_by_id,
}
use real_time_ai_chat_backen.Models.Validity.{All-snoc}
use real_time_ai_chat_backen.Platform.{Platform}
use real_time_ai_chat_backen.WebSocket.Protocol.{
  Outbound, message_created, assistant_message, error, ping_frame, pong_frame, CreatedPayload,
  AssistantPayload,
}
use real_time_ai_chat_backen.WebSocket.Chat.{
  World, Surroundings, Chat, continue, ◌>>=◌, pure, try_else, send_json, send_error, publish,
  publish_frame,
}

-- The row is what the frame shows: a message of the channel's conversation with the role, the
-- sender, the content and the time of the frame.
pub record ShowsUser (i : Uuid) (p : CreatedPayload) (m : Message) : Type 0 where
  pub conversation : (m.conversation_id ≡ i) × (p.conversation_id ≡ i)
  pub role_lem : m.role ≡ user_role
  pub sender : m.sender_id ≡ some p.sender_id
  pub content_lem : (m.content ≡ p.content) × (m.created_at ≡ p.created_at)

pub record ShowsAssistant (i : Uuid) (p : AssistantPayload) (m : Message) : Type 0 where
  pub conversation : (m.conversation_id ≡ i) × (p.conversation_id ≡ i)
  pub role_lem : m.role ≡ assistant_role
  pub sender : m.sender_id ≡ none
  pub content_lem : (m.content ≡ p.content) × (m.created_at ≡ p.created_at)

-- A published frame tells of a stored message; other frames are never published.
abbrev pub Backed : List Message → Uuid × Outbound → Type 0
Backed ms (i, message_created p) =
    (m : Message) × (message_by_id p.id ms ≡ some m) × ShowsUser i p m
Backed ms (i, assistant_message p) =
    (m : Message) × (message_by_id p.id ms ≡ some m) × ShowsAssistant i p m
Backed ms (i, error _ _) = ⊥
Backed ms (i, ping_frame _) = ⊥
Backed ms (i, pong_frame _) = ⊥

-- A frame with a client's message names this user as its sender.
abbrev pub IsAuthored : Uuid → Outbound → Type 0
IsAuthored user_id (message_created p) = p.sender_id ≡ user_id
IsAuthored user_id _ = Unit {0}

-- A frame with a client's message, which has this content.
abbrev pub Asks : String → Outbound → Type 0
Asks content (message_created p) = p.content ≡ content
Asks content _ = ⊥

-- The message that the frame shows.
abbrev pub shown_id : Outbound → Option Uuid
shown_id (message_created p) = some p.id
shown_id (assistant_message p) = some p.id
shown_id _ = none

pub record IsBacked (w : World) : Type 0 where
  pub frames : All (Backed w.store.committed.messages) w.published

-- The action keeps the property, whether it returns or raises.
pub record KeepsBacked {A : Type 0} (m : Chat A) : Type 0 where
  pub at : (w : World) → IsBacked w → IsBacked (m w).1

find-grown :
    (i : Uuid) (ms : List Message) (m n : Message)
    → message_by_id i ms ≡ some n
    → message_by_id i (ms ++ m ∷ []) ≡ some n
find-grown i [] m n h = absurd (cc)
find-grown i (x ∷ ms) m n h = ground (arith, find-grown i ms m n)

pub Backed-grown :
    (ms : List Message) (m : Message) (f : Uuid × Outbound) → Backed ms f → Backed (ms ++ m ∷ []) f
Backed-grown ms m (i, message_created p) (n, h, rest) = (n, find-grown p.id ms m n h, rest)
Backed-grown ms m (i, assistant_message p) (n, h, rest) = (n, find-grown p.id ms m n h, rest)
Backed-grown ms m (i, error code message) h = absurd h
Backed-grown ms m (i, ping_frame x) h = absurd h
Backed-grown ms m (i, pong_frame x) h = absurd h

-- The message is stored, with these fields.
pub record IsStored (i : Uuid) (role : MessageRole) (sender : Option Uuid) (m : Message) (w : World)
    : Type 0 where
  pub row : message_by_id m.id w.store.committed.messages ≡ some m
  pub conversation : m.conversation_id ≡ i
  pub role_lem : m.role ≡ role
  pub sender_lem : m.sender_id ≡ sender

module _ {A B : Type 0} where
  pub continue-IsBacked :
      (r : Result A) (f : A → Chat B) (w : World)
      → ((a : A) → KeepsBacked (f a))
      → IsBacked w
      → IsBacked (continue r f w).1
  continue-IsBacked (ok a) f w k h = (k a).at w h
  continue-IsBacked (err e) f w k h = h

pub KeepsBacked-pure : {A : Type 0} (a : A) → KeepsBacked (pure a)
unfolding pure
KeepsBacked-pure a = record { at = λ w h. h }

module _ (platform : Platform) (around : Surroundings) where
  pub send_json-KeepsBacked : (f : Outbound) → KeepsBacked (send_json platform around f)
  unfolding send_json
  send_json-KeepsBacked f = record {
    at = λ w h. elim (Bool-cases (around.send_fails (length w.sent))) [
      | inl fault ↦ rw fault h
      | inr works ↦ rw works (record { frames = h.frames })
    ];
  }

  pub send_error-KeepsBacked : (c t : String) → KeepsBacked (send_error platform around c t)
  unfolding send_error
  send_error-KeepsBacked c t = send_json-KeepsBacked (error c t)

  pub publish_frame-IsBacked :
      (i : Uuid) (f : Outbound) (w : World)
      → IsBacked w
      → Backed w.store.committed.messages (i, f)
      → IsBacked (publish_frame platform around i f w).1
  unfolding publish_frame publish try_else pure ◌>>=◌
  publish_frame-IsBacked i f w h b = elim (Bool-cases (around.publish_fails w.store.tick)) [
    | inl fault ↦ rw fault (
        continue-IsBacked _ _ _ (λ _. record { at = λ v k. k })
          ((send_error-KeepsBacked "message_publish_failed"
              "Message was saved but could not be delivered").at
            w h))
    | inr works ↦ rw works (record {
      frames = All-snoc (Backed w.store.committed.messages) w.published (i, f) h.frames b;
    })
  ]
