-- ===== src/WebSocket/Chat/Delivery.antt =====
-- The loop of app/services/chat.py, and the messages behind the frames that it publishes.
use mathlib.Core.Path.{subst}
use real_time_ai_chat_backen.Base.{
  sym, ◌≡◌, refl, String, Bool, true, false, Option, none, some, List, [], ◌∷◌, arith, ◌==◌,
  find-snoc, All, if◌then◌else◌,
}
use real_time_ai_chat_backen.Errors.{Result, ok, err}
use real_time_ai_chat_backen.Models.{
  Uuid, MessageRole, user_role, assistant_role, Message, Tables, message_by_id, apply_write,
}
use real_time_ai_chat_backen.Models.Validity.{All-imp}
use real_time_ai_chat_backen.Platform.{Platform}
use real_time_ai_chat_backen.Session.Atomic.{IsQuiet}
use real_time_ai_chat_backen.WebSocket.Protocol.{
  Json, Inbound, message_send, ping, pong, Outbound, message_created, validate_inbound,
}
use real_time_ai_chat_backen.WebSocket.Chat.{
  Received, frame, malformed, disconnected, World, Surroundings, Chat, ◌>>=◌, pure, raise, lift,
  recover, try_else, in_session, mock_assistant_reply, created_frame, assistant_frame, save_message,
  persist, processing_failed, reply, handle_message_send, handle_inbound, handle_received, run,
}
use real_time_ai_chat_backen.WebSocket.Chat.Frames.{Saves, save_message-Saves}
use real_time_ai_chat_backen.WebSocket.Chat.Backed.{
  Backed, IsAuthored, Asks, shown_id, IsBacked, KeepsBacked, Backed-grown, IsStored,
  continue-IsBacked, KeepsBacked-pure, send_json-KeepsBacked, send_error-KeepsBacked,
  publish_frame-IsBacked,
}

-- What is told of the messages stays so when one is saved.
pub Saves-Backed :
    (i : Uuid) (role : MessageRole) (content : String) (sender : Option Uuid) (r : Result Message)
    (t u : Tables) (x : Uuid × Outbound)
    → Saves i role content sender t r u
    → Backed t.messages x
    → Backed u.messages x
unfolding apply_write
Saves-Backed i role content sender (err e) t u x saves h = rw saves h
Saves-Backed i role content sender (ok m) t u x saves h =
    subst (λ (v : Tables). Backed v.messages x) (sym saves.0) (Backed-grown t.messages m x h)

-- The message that is returned is stored as it was given.
pub Saves-IsStored :
    (i : Uuid) (role : MessageRole) (content : String) (sender : Option Uuid) (m : Message)
    (t : Tables) (w : World)
    → Saves i role content sender t (ok m) w.store.committed
    → IsStored i role sender m w
unfolding apply_write
Saves-IsStored i role content sender m t w saves = record {
  row =
      subst (λ (u : Tables). message_by_id m.id u.messages ≡ some m) (sym saves.0)
        (find-snoc (λ n. n.id == m.id) t.messages m saves.1 (ground arith));
  conversation = saves.2;
  role_lem = saves.3;
  sender_lem = saves.5;
}

module _ (platform : Platform) (around : Surroundings) where
  module _ (quiet : IsQuiet around.server) where
    recover-IsBacked :
        {B : Type 0} (i : Uuid) (role : MessageRole) (content : String) (sender : Option Uuid)
        (r : Result Message) (t : Tables) (w : World) (rest : Message → Chat B) (handler : Chat B)
        → Saves i role content sender t r w.store.committed
        → All (Backed t.messages) w.published
        → ((m : Message) (v : World)
            → IsBacked v
            → IsStored i role sender m v
            → IsBacked (rest m v).1)
        → KeepsBacked handler
        → IsBacked (recover rest handler r w).1
    recover-IsBacked i role content sender (err e) t w rest handler saves h k c =
        c.at w (record { frames = rw saves h })
    recover-IsBacked i role content sender (ok m) t w rest handler saves h k c =
        k m w
          (record {
            frames =
                All-imp (Backed t.messages) _ w.published
                  (λ x. Saves-Backed i role content sender (ok m) t w.store.committed x saves) h;
          })
          (Saves-IsStored i role content sender m t w saves)

    -- A block that saves a message, and goes on with it as stored or with a harmless handler.
    persist-IsBacked :
        {B : Type 0} (i : Uuid) (role : MessageRole) (content : String) (sender : Option Uuid)
        (rest : Message → Chat B) (handler : Chat B)
        → ((m : Message) (v : World)
            → IsBacked v
            → IsStored i role sender m v
            → IsBacked (rest m v).1)
        → KeepsBacked handler
        → KeepsBacked (try_else (persist platform around i role content sender) rest handler)
    unfolding persist in_session try_else
    persist-IsBacked i role content sender rest handler k c = record {
      at = λ w h.
          let (r, s) =
            save_message platform around i role content sender (record w.store { pending = [] }) in
          recover-IsBacked i role content sender r w.store.committed
            (record w { store = record s { pending = [] } }) rest handler
            (save_message-Saves platform around quiet i role content sender w.store.committed
              w.store.tick)
            h.frames k c;
    }

    processing_failed-KeepsBacked : KeepsBacked (processing_failed platform around)
    unfolding processing_failed
    processing_failed-KeepsBacked =
        send_error-KeepsBacked platform around "message_processing_failed"
          "Unable to process message"

    pub assistant-Backed :
        (i : Uuid) (m : Message) (w : World)
        → IsStored i assistant_role none m w
        → Backed w.store.committed.messages (i, assistant_frame m)
    unfolding assistant_frame
    assistant-Backed i m w d = (
      m,
      d.row,
      record {
        conversation = (d.conversation, d.conversation);
        role_lem = d.role_lem;
        sender = d.sender_lem;
        content_lem = (refl, refl);
      },
    )

    reply-KeepsBacked :
        (i : Uuid) (content : String) → KeepsBacked (reply platform around i content)
    unfolding reply ◌>>=◌
    reply-KeepsBacked i content =
        persist-IsBacked i assistant_role (mock_assistant_reply content) none _ _
          (λ m v h d.
            continue-IsBacked _ _ _ (λ _. KeepsBacked-pure tt)
              (publish_frame-IsBacked platform around i (assistant_frame m) v h
                (assistant-Backed i m v d)))
          processing_failed-KeepsBacked

    pub created_of :
        (m : Message) (sender_id : Uuid)
        → m.sender_id ≡ some sender_id
        → (f : Outbound) × (created_frame m ≡ ok f)
          × IsAuthored sender_id f
          × Asks m.content f
          × (shown_id f ≡ some m.id)
          × ((i : Uuid) (w : World)
              → IsStored i user_role (some sender_id) m w
              → Backed w.store.committed.messages (i, f))
    unfolding created_frame
    created_of m sender_id e = (
      message_created (record {
        id = m.id;
        conversation_id = m.conversation_id;
        sender_id = sender_id;
        content = m.content;
        created_at = m.created_at;
      }),
      rw e,
      refl,
      refl,
      refl,
      λ i w d. (
        m,
        d.row,
        record {
          conversation = (d.conversation, d.conversation);
          role_lem = d.role_lem;
          sender = d.sender_lem;
          content_lem = (refl, refl);
        },
      ),
    )

    reply_if-KeepsBacked :
        (b : Bool) (i : Uuid) (content : String)
        → KeepsBacked (if b then reply platform around i content else pure tt)
    reply_if-KeepsBacked true i content = reply-KeepsBacked i content
    reply_if-KeepsBacked false i content = KeepsBacked-pure tt

    handle_message_send-KeepsBacked :
        (i user_id : Uuid) (content : String)
        → KeepsBacked (handle_message_send platform around i user_id content)
    unfolding handle_message_send ◌>>=◌ lift
    handle_message_send-KeepsBacked i user_id content =
        persist-IsBacked i user_role content (some user_id) _ _
          (λ m v h d.
            let (f, e, _, _, _, backed) = created_of m user_id d.sender_lem in
            rw e (
              continue-IsBacked _ _ _ (λ b. reply_if-KeepsBacked b i content)
                (publish_frame-IsBacked platform around i f v h (backed i v d))))
          processing_failed-KeepsBacked

    handle_inbound-KeepsBacked :
        (i user_id : Uuid) (raw : Json) (inbound : Option Inbound)
        → KeepsBacked (handle_inbound platform around i user_id raw inbound)
    handle_inbound-KeepsBacked i user_id raw none = send_error-KeepsBacked platform around _ _
    handle_inbound-KeepsBacked i user_id raw (some (message_send content)) =
        handle_message_send-KeepsBacked i user_id content
    handle_inbound-KeepsBacked i user_id raw (some (ping n)) =
        send_json-KeepsBacked platform around _
    handle_inbound-KeepsBacked i user_id raw (some (pong n)) =
        send_error-KeepsBacked platform around _ _

    handle_received-KeepsBacked :
        (i user_id : Uuid) (r : Received)
        → KeepsBacked (handle_received platform around i user_id r)
    unfolding handle_received raise
    handle_received-KeepsBacked i user_id disconnected = record { at = λ w h. h }
    handle_received-KeepsBacked i user_id malformed = send_error-KeepsBacked platform around _ _
    handle_received-KeepsBacked i user_id (frame raw) =
        handle_inbound-KeepsBacked i user_id raw (validate_inbound platform raw)

    run-KeepsBacked :
        (i user_id : Uuid) (received : List Received)
        → KeepsBacked (run platform around i user_id received)
    unfolding run ◌>>=◌
    run-KeepsBacked i user_id [] = KeepsBacked-pure tt
    run-KeepsBacked i user_id (r ∷ rs) = record {
      at = λ w h.
          continue-IsBacked _ _ _ (λ _. run-KeepsBacked i user_id rs)
            ((handle_received-KeepsBacked i user_id r).at w h);
    }

    -- Whatever a client sends and whichever of the database, Redis and the socket fails when: if
    -- each published frame tells of a stored message, with its conversation, role, sender, content
    -- and time, then so it is after the loop, as long as no other session writes to the tables.
    pub run-IsBacked :
        (i user_id : Uuid) (received : List Received) (w : World)
        → IsBacked w
        → IsBacked (run platform around i user_id received w).1
    run-IsBacked i user_id received = (run-KeepsBacked i user_id received).at
