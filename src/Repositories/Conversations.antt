-- ===== src/Repositories/Conversations.antt =====
-- `ConversationRepository` of app/repositories/conversation.py.
use real_time_ai_chat_backen.Base.{
  ℕ, String, Bool, ◌&&◌, Option, List, length, find, filter, is_some, ◌==◌, str_eq, if◌then◌else◌,
}
use real_time_ai_chat_backen.Models.{
  Uuid, Conversation, Tables, insert_conversation, set_title, delete_conversation,
  conversation_by_id,
}
use real_time_ai_chat_backen.Session.{
  Server, State, Action, pure, gets, ◌>>=◌, ◌>>◌, select, select_page, flush, refresh,
  session_actions,
}
use real_time_ai_chat_backen.Session.Ordering.{desc, order_by}

abbrev pub owned_by : Uuid → Tables → List Conversation
owned_by owner_id t = filter (λ c. c.owner_id == owner_id) t.conversations

module _ (server : Server) where
  abbrev pub new_conversation : Uuid → String → State → Conversation
  new_conversation owner_id title s = record {
    id = server.uuid_at s.tick;
    title = title;
    owner_id = owner_id;
    created_at = server.now_at s.tick;
    updated_at = server.now_at s.tick;
  }

  unfoldable pub create : Uuid → String → Action Conversation
  create owner_id title = do
    conversation ← gets (new_conversation owner_id title)
    flush server (insert_conversation conversation)
    refresh server (λ t. conversation_by_id conversation.id t.conversations)

  unfoldable pub get_by_id : Uuid → Action (Option Conversation)
  get_by_id conversation_id =
      select server (λ t. conversation_by_id conversation_id t.conversations)

  unfoldable pub list_by_owner : Uuid → ℕ → ℕ → Action (List Conversation)
  list_by_owner owner_id limit offset =
      select_page server
        (λ tick rows. order_by (λ c. c.created_at) desc (server.scan_conversations_at tick rows))
        limit offset (owned_by owner_id)

  unfoldable pub count_by_owner : Uuid → Action ℕ
  count_by_owner owner_id = select server (λ t. length (owned_by owner_id t))

  -- A flush writes nothing if the new title is the old one.
  unfoldable pub update_title : Conversation → String → Action Conversation
  update_title conversation title = do
    now ← gets (λ s. server.now_at s.tick)
    (if str_eq conversation.title title
        then pure tt
        else flush server (set_title conversation.id title now))
    refresh server (λ t. conversation_by_id conversation.id t.conversations)

  unfoldable pub delete : Conversation → Action (Unit {0})
  delete conversation = flush server (delete_conversation conversation.id)

  unfoldable pub exists_for_owner : Uuid → Uuid → Action Bool
  exists_for_owner conversation_id owner_id =
      select server (λ t.
        is_some (find (λ c. c.id == conversation_id && c.owner_id == owner_id) t.conversations))

-- To compute with the queries of this module, name this one.
unfoldable pub conversations_queries : Unit {0}
unfolding session_actions create get_by_id list_by_owner count_by_owner update_title delete
    exists_for_owner
conversations_queries = tt
