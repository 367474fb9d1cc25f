-- ===== src/Repositories/Messages.antt =====
-- `MessageRepository` of app/repositories/message.py.
use real_time_ai_chat_backen.Base.{ℕ, String, Option, List, length, filter, ◌==◌}
use real_time_ai_chat_backen.Models.{
  Uuid, MessageRole, Message, Tables, insert_message, message_by_id,
}
use real_time_ai_chat_backen.Session.{
  Server, State, Action, gets, ◌>>=◌, ◌>>◌, select, select_page, flush, refresh, session_actions,
}
use real_time_ai_chat_backen.Session.Ordering.{asc, order_by}

abbrev pub messages_of : Uuid → Tables → List Message
messages_of conversation_id t = filter (λ m. m.conversation_id == conversation_id) t.messages

module _ (server : Server) where
  abbrev pub new_message : Uuid → MessageRole → String → Option Uuid → State → Message
  new_message conversation_id role content sender_id s = record {
    id = server.uuid_at s.tick;
    conversation_id = conversation_id;
    sender_id = sender_id;
    role = role;
    content = content;
    created_at = server.now_at s.tick;
    updated_at = server.now_at s.tick;
  }

  unfoldable pub create : Uuid → MessageRole → String → Option Uuid → Action Message
  create conversation_id role content sender_id = do
    message ← gets (new_message conversation_id role content sender_id)
    flush server (insert_message message)
    refresh server (λ t. message_by_id message.id t.messages)

  unfoldable pub list_by_conversation : Uuid → ℕ → ℕ → Action (List Message)
  list_by_conversation conversation_id limit offset =
      select_page server
        (λ tick rows. order_by (λ m. m.created_at) asc (server.scan_messages_at tick rows)) limit
        offset (messages_of conversation_id)

  unfoldable pub count_by_conversation : Uuid → Action ℕ
  count_by_conversation conversation_id =
      select server (λ t. length (messages_of conversation_id t))

-- To compute with the queries of this module, name this one.
unfoldable pub messages_queries : Unit {0}
unfolding session_actions create list_by_conversation count_by_conversation
messages_queries = tt
