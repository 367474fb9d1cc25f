-- ===== src/Services/Message.antt =====
-- `MessageService` of app/services/message.py.
use real_time_ai_chat_backen.Base.{not}
use real_time_ai_chat_backen.Models.{Uuid, Message}
use real_time_ai_chat_backen.Platform.{Platform}
use real_time_ai_chat_backen.Schemas.{PaginationParams, offset, limit}
use real_time_ai_chat_backen.Session.{Server, Action, pure, ◌>>=◌, ◌>>◌, raise_if}
use real_time_ai_chat_backen.Repositories.Conversations
use real_time_ai_chat_backen.Repositories.Messages
use real_time_ai_chat_backen.Services.Conversation.{Page, conversation_missing}

module _ (platform : Platform) (server : Server) where
  unfoldable pub list_conversation_messages : Uuid → Uuid → PaginationParams → Action (Page Message)
  list_conversation_messages conversation_id owner_id pagination = do
    exists ← Conversations.exists_for_owner server conversation_id owner_id
    raise_if (not exists) (conversation_missing platform server conversation_id)
    items ←
        Messages.list_by_conversation server conversation_id (limit pagination) (offset pagination)
    total ← Messages.count_by_conversation server conversation_id
    pure (record {
      items = items;
      total = total;
      page = pagination.page;
      page_size = pagination.page_size;
    })
