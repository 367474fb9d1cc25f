-- ===== src/Repositories/Tentative.antt =====
-- The queries of app/repositories, against what is committed.
use real_time_ai_chat_backen.Base.{ℕ, String, Bool, Option}
use real_time_ai_chat_backen.Models.{Uuid, Conversation, MessageRole}
use real_time_ai_chat_backen.Session.{Server}
use real_time_ai_chat_backen.Session.Atomic.{
  IsTentative, IsQuiet, select-IsTentative, select_page-IsTentative, flush-IsTentative,
  refresh-IsTentative, tentative_rules,
}
use real_time_ai_chat_backen.Repositories.Users
use real_time_ai_chat_backen.Repositories.Conversations
use real_time_ai_chat_backen.Repositories.Messages

ruleset session_rules = (
  tentative_rules, select-IsTentative, select_page-IsTentative, flush-IsTentative,
  refresh-IsTentative,
)

module _ (server : Server) (quiet : IsQuiet server) where
  pub create_user-IsTentative :
      (email hash : String) (active super : Bool)
      → IsTentative (Users.create server email hash active super)
  unfolding Users.create
  create_user-IsTentative email hash active super = search session_rules

  pub user_by_id-IsTentative : (i : Uuid) → IsTentative (Users.get_by_id server i)
  unfolding Users.get_by_id
  user_by_id-IsTentative i = search session_rules

  pub user_by_email-IsTentative : (email : String) → IsTentative (Users.get_by_email server email)
  unfolding Users.get_by_email
  user_by_email-IsTentative email = search session_rules

  pub exists_by_email-IsTentative :
      (email : String) → IsTentative (Users.exists_by_email server email)
  unfolding Users.exists_by_email
  exists_by_email-IsTentative email = search session_rules

  pub create_conversation-IsTentative :
      (owner : Uuid) (title : String) → IsTentative (Conversations.create server owner title)
  unfolding Conversations.create
  create_conversation-IsTentative owner title = search session_rules

  pub conversation_by_id-IsTentative : (i : Uuid) → IsTentative (Conversations.get_by_id server i)
  unfolding Conversations.get_by_id
  conversation_by_id-IsTentative i = search session_rules

  pub list_by_owner-IsTentative :
      (owner : Uuid) (limit offset : ℕ)
      → IsTentative (Conversations.list_by_owner server owner limit offset)
  unfolding Conversations.list_by_owner
  list_by_owner-IsTentative owner limit offset = search session_rules

  pub count_by_owner-IsTentative :
      (owner : Uuid) → IsTentative (Conversations.count_by_owner server owner)
  unfolding Conversations.count_by_owner
  count_by_owner-IsTentative owner = search session_rules

  pub update_title-IsTentative :
      (c : Conversation) (title : String) → IsTentative (Conversations.update_title server c title)
  unfolding Conversations.update_title
  update_title-IsTentative c title = search session_rules

  pub delete-IsTentative : (c : Conversation) → IsTentative (Conversations.delete server c)
  unfolding Conversations.delete
  delete-IsTentative c = search session_rules

  pub exists_for_owner-IsTentative :
      (i owner : Uuid) → IsTentative (Conversations.exists_for_owner server i owner)
  unfolding Conversations.exists_for_owner
  exists_for_owner-IsTentative i owner = search session_rules

  pub create_message-IsTentative :
      (i : Uuid) (role : MessageRole) (content : String) (sender : Option Uuid)
      → IsTentative (Messages.create server i role content sender)
  unfolding Messages.create
  create_message-IsTentative i role content sender = search session_rules

  pub list_by_conversation-IsTentative :
      (i : Uuid) (limit offset : ℕ)
      → IsTentative (Messages.list_by_conversation server i limit offset)
  unfolding Messages.list_by_conversation
  list_by_conversation-IsTentative i limit offset = search session_rules

  pub count_by_conversation-IsTentative :
      (i : Uuid) → IsTentative (Messages.count_by_conversation server i)
  unfolding Messages.count_by_conversation
  count_by_conversation-IsTentative i = search session_rules
