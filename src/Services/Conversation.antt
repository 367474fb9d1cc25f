-- ===== src/Services/Conversation.antt =====
-- `ConversationService` of app/services/conversation.py.
pub mod Ownership
pub mod Changes
pub mod Listing
use real_time_ai_chat_backen.Base.{ℕ, String, not, Option, none, some, List, ◌==◌, if◌then◌else◌}
use real_time_ai_chat_backen.Errors.{Error, app_error, not_found}
use real_time_ai_chat_backen.Models.{Uuid, Conversation}
use real_time_ai_chat_backen.Platform.{Platform}
use real_time_ai_chat_backen.Schemas.{PaginationParams, offset, limit}
use real_time_ai_chat_backen.Session.{Server, Action, pure, raise, ◌>>=◌, ◌>>◌, raise_if, commit}
use real_time_ai_chat_backen.Repositories.Conversations

-- `ConversationPage` and `MessagePage`.
pub record Page (A : Type 0) : Type 0 where
  pub items : List A
  pub total : ℕ
  pub page : ℕ
  pub page_size : ℕ

module _ (platform : Platform) (server : Server) where
  unfoldable pub create_conversation : Uuid → String → Action Conversation
  create_conversation owner_id title = do
    conversation ← Conversations.create server owner_id title
    commit server
    pure conversation

  unfoldable pub list_conversations : Uuid → PaginationParams → Action (Page Conversation)
  list_conversations owner_id pagination = do
    items ← Conversations.list_by_owner server owner_id (limit pagination) (offset pagination)
    total ← Conversations.count_by_owner server owner_id
    pure (record {
      items = items;
      total = total;
      page = pagination.page;
      page_size = pagination.page_size;
    })

  abbrev pub conversation_missing : Uuid → Error
  conversation_missing conversation_id =
      app_error (not_found "conversation" (platform.uuid_str conversation_id))

  -- `conversation is None or conversation.owner_id != owner_id`
  unfoldable pub check_owner : Uuid → Uuid → Option Conversation → Action Conversation
  check_owner conversation_id owner_id none = raise (conversation_missing conversation_id)
  check_owner conversation_id owner_id (some conversation) = do
    raise_if (not (conversation.owner_id == owner_id)) (conversation_missing conversation_id)
    pure conversation

  -- `_get_owned_conversation`
  unfoldable pub get_owned_conversation : Uuid → Uuid → Action Conversation
  get_owned_conversation conversation_id owner_id = do
    conversation ← Conversations.get_by_id server conversation_id
    check_owner conversation_id owner_id conversation

  unfoldable pub rename_conversation : Uuid → Uuid → String → Action Conversation
  rename_conversation conversation_id owner_id title = do
    conversation ← get_owned_conversation conversation_id owner_id
    updated ← Conversations.update_title server conversation title
    commit server
    pure updated

  unfoldable pub delete_conversation : Uuid → Uuid → Action (Unit {0})
  delete_conversation conversation_id owner_id = do
    conversation ← get_owned_conversation conversation_id owner_id
    Conversations.delete server conversation
    commit server
