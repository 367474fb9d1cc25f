-- ===== src/WebSocket/Chat/Exchange.antt =====
-- What one message of a client leads to in app/services/chat.py.
use mathlib.Core.List.{append_assoc}
use real_time_ai_chat_backen.Base.{
  ℕ, ◌+◌, ◌≡◌, refl, String, true, false, Option, none, some, List, [], ◌∷◌, ◌++◌, arith, counting,
  length,
}
use real_time_ai_chat_backen.Errors.{Error, ok, err}
use real_time_ai_chat_backen.Models.{
  Uuid, MessageRole, user_role, assistant_role, Message, Tables, insert_message, apply_write,
  check_write,
}
use real_time_ai_chat_backen.Platform.{Platform}
use real_time_ai_chat_backen.Session.{State}
use real_time_ai_chat_backen.Session.Healthy.{IsHealthy}
use real_time_ai_chat_backen.Repositories.Messages.{messages_queries, new_message}
use real_time_ai_chat_backen.WebSocket.Protocol.{Outbound, message_created, error}
use real_time_ai_chat_backen.WebSocket.Chat.{
  World, Surroundings, ◌>>=◌, pure, lift, in_session, try_else, publish, publish_frame, send_json,
  send_error, save_message, persist, processing_failed, reply, mock_assistant_reply, created_frame,
  assistant_frame, handle_message_send,
}
use real_time_ai_chat_backen.WebSocket.Chat.Frames.{stored}

module _ (platform : Platform) (around : Surroundings) (healthy : IsHealthy around.server)
    (i user_id : Uuid) (content : String) where
  module _ (role : MessageRole) (text : String) (sender : Option Uuid) (t : Tables) (tick : ℕ) where
    abbrev begin : State
    begin = record { committed = t; pending = []; tick = tick }

    abbrev pub row : Message
    row = new_message around.server i role text sender begin

    save_message-healthy :
        check_write (insert_message row) t ≡ ok tt
        → save_message platform around i role text sender begin ≡ (
          ok row,
          record { committed = apply_write (insert_message row) t; pending = []; tick = tick + 3 },
        )
    unfolding save_message messages_queries
    save_message-healthy fits =
        simp (healthy.no_faults, healthy.others_same, fits, (stored row t fits).1, counting) refl

  module _ (t : Tables) (tick : ℕ) (sent : List Outbound) (published : List (Uuid × Outbound)) where
    -- The client's message and the assistant's, as they are stored one after the other.
    abbrev pub asked : Message
    asked = row user_role content (some user_id) t tick

    abbrev pub replied : Message
    replied =
        row assistant_role (mock_assistant_reply content) none
          (apply_write (insert_message asked) t) (tick + 3)

    abbrev pub opened : World
    opened = record {
      store = record { committed = t; pending = []; tick = tick };
      sent = sent;
      published = published;
    }

    abbrev created : Outbound
    created = message_created (record {
      id = asked.id;
      conversation_id = i;
      sender_id = user_id;
      content = content;
      created_at = asked.created_at;
    })

    -- Alone and without faults, a message of a client whose two rows the constraints admit is
    -- stored and then the assistant's reply to it; the frames of the two are published in that
    -- order, and nothing is sent to the client's own socket.
    pub handle_message_send_exchange :
        ((n : ℕ) → around.publish_fails n ≡ false)
        → check_write (insert_message asked) t ≡ ok tt
        → check_write (insert_message replied) (apply_write (insert_message asked) t) ≡ ok tt
        → handle_message_send platform around i user_id content opened ≡ (
          ok tt,
          record {
            store = record {
              committed =
                  apply_write (insert_message replied) (apply_write (insert_message asked) t);
              pending = [];
              tick = tick + 6;
            };
            sent = sent;
            published = published ++ (i, created) ∷ (i, assistant_frame replied) ∷ [];
          },
        )
    unfolding handle_message_send reply persist in_session try_else publish_frame publish
        created_frame ◌>>=◌ lift pure
    handle_message_send_exchange delivers fits₁ fits₂ =
        simp
          (
            save_message-healthy user_role content (some user_id) t tick fits₁,
            save_message-healthy assistant_role (mock_assistant_reply content) none
                (apply_write (insert_message asked) t) (tick + 3) fits₂,
            delivers,
          )
          (ground
            (arith, append_assoc published ((i, created) ∷ []) ((i, assistant_frame replied) ∷ [])))

    -- Alone and without faults of the database, a message of a client whose row the constraints
    -- admit and whose publication fails stays stored, with no reply stored or published, and the
    -- client is told so, if the socket still sends.
    pub handle_message_send_undelivered :
        around.publish_fails (tick + 3) ≡ true
        → around.send_fails (length sent) ≡ false
        → check_write (insert_message asked) t ≡ ok tt
        → handle_message_send platform around i user_id content opened ≡ (
          ok tt,
          record {
            store = record {
              committed = apply_write (insert_message asked) t;
              pending = [];
              tick = tick + 3;
            };
            sent =
                sent
                ++ error "message_publish_failed" "Message was saved but could not be delivered"
                  ∷ [];
            published = published;
          },
        )
    unfolding handle_message_send persist in_session try_else publish_frame publish send_error
        send_json created_frame ◌>>=◌ lift pure
    handle_message_send_undelivered lost works fits =
        simp (save_message-healthy user_role content (some user_id) t tick fits, lost, works) refl

    -- Alone and without faults of the database, a message whose row the constraints refuse, as in
    -- a conversation that is gone, leaves nothing stored and nothing published, and the client is
    -- told so, if the socket still sends.
    pub handle_message_send_refused :
        {e : Error}
        → around.send_fails (length sent) ≡ false
        → check_write (insert_message asked) t ≡ err e
        → handle_message_send platform around i user_id content opened ≡ (
          ok tt,
          record {
            store = record { committed = t; pending = []; tick = tick + 1 };
            sent = sent ++ error "message_processing_failed" "Unable to process message" ∷ [];
            published = published;
          },
        )
    unfolding handle_message_send persist in_session try_else save_message processing_failed
        send_error send_json messages_queries
    handle_message_send_refused works refused =
        simp (healthy.no_faults, healthy.others_same, refused, works) refl
