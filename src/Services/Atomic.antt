-- ===== src/Services/Atomic.antt =====
-- What the operations of app/services that write have committed when they raise.
use real_time_ai_chat_backen.Base.{String, Option, none, some}
use real_time_ai_chat_backen.Models.{Uuid, Conversation}
use real_time_ai_chat_backen.Config.{Settings}
use real_time_ai_chat_backen.Platform.{Platform}
use real_time_ai_chat_backen.Session.{Server, State}
use real_time_ai_chat_backen.Session.Atomic.{
  IsQuiet, IsTentative, IsTotal, IsAtomic, IsCleanFailure, IsAtomic-clean, IsAtomic-then_total,
  IsAtomic-except_integrity, IsTotal-pure, commit-IsAtomic, rollback-IsTentative, tentative_rules,
}
use real_time_ai_chat_backen.Repositories.Tentative.{
  create_user-IsTentative, exists_by_email-IsTentative, create_conversation-IsTentative,
  conversation_by_id-IsTentative, update_title-IsTentative, delete-IsTentative,
}
use real_time_ai_chat_backen.Services.Auth.{create_user, register_user}
use real_time_ai_chat_backen.Services.Auth.Issuing.{CanIssue, issue_tokens-IsTotal}
use real_time_ai_chat_backen.Services.Conversation.{
  create_conversation, check_owner, get_owned_conversation, rename_conversation,
  delete_conversation,
}

pub ruleset atomic_rules = (tentative_rules, IsAtomic-then_total, commit-IsAtomic, IsTotal-pure)

module _ (platform : Platform) (server : Server) (settings : Settings) (quiet : IsQuiet server)
    (issuing : CanIssue platform server settings) where
  insert-IsAtomic :
      (email password : String) → IsAtomic (create_user platform server settings email password)
  unfolding create_user
  insert-IsAtomic email password = search (atomic_rules, create_user-IsTentative)

  pub register-IsAtomic :
      (email password : String) → IsAtomic (register_user platform server settings email password)
  unfolding register_user
  register-IsAtomic email password =
      search
        (
          atomic_rules,
          insert-IsAtomic,
          issue_tokens-IsTotal platform server settings issuing,
          exists_by_email-IsTentative,
          IsAtomic-except_integrity,
          rollback-IsTentative,
        )
        depth 9

  -- When tokens can be issued, a registration that raises has left the committed tables as they
  -- were, if no other session writes to them meanwhile.
  pub register_user-IsCleanFailure :
      (email password : String) (s : State)
      → IsCleanFailure s (register_user platform server settings email password s)
  register_user-IsCleanFailure email password =
      IsAtomic-clean (register_user platform server settings email password)
        (register-IsAtomic email password)

module _ (platform : Platform) (server : Server) (quiet : IsQuiet server) where
  pub create-IsAtomic :
      (owner : Uuid) (title : String) → IsAtomic (create_conversation platform server owner title)
  unfolding create_conversation
  create-IsAtomic owner title = search (atomic_rules, create_conversation-IsTentative) depth 7

  check_owner-IsTentative :
      (i owner : Uuid) (found : Option Conversation)
      → IsTentative (check_owner platform server i owner found)
  unfolding check_owner
  check_owner-IsTentative i owner none = search atomic_rules
  check_owner-IsTentative i owner (some c) = search atomic_rules

  owned-IsTentative :
      (i owner : Uuid) → IsTentative (get_owned_conversation platform server i owner)
  unfolding get_owned_conversation
  owned-IsTentative i owner =
      search (atomic_rules, conversation_by_id-IsTentative, check_owner-IsTentative)

  pub rename-IsAtomic :
      (i owner : Uuid) (title : String)
      → IsAtomic (rename_conversation platform server i owner title)
  unfolding rename_conversation
  rename-IsAtomic i owner title =
      search (atomic_rules, owned-IsTentative, update_title-IsTentative) depth 7

  pub delete_conversation-IsAtomic :
      (i owner : Uuid) → IsAtomic (delete_conversation platform server i owner)
  unfolding delete_conversation
  delete_conversation-IsAtomic i owner =
      search (atomic_rules, owned-IsTentative, delete-IsTentative) depth 7

  -- Creating, renaming or deleting a conversation either returns or has left the committed tables
  -- as they were, if no other session writes to them meanwhile.
  pub conversation_service-IsCleanFailure :
      (i owner : Uuid) (title : String) (s : State)
      → IsCleanFailure s (create_conversation platform server owner title s)
        × IsCleanFailure s (rename_conversation platform server i owner title s)
        × IsCleanFailure s (delete_conversation platform server i owner s)
  conversation_service-IsCleanFailure i owner title s = (
    IsAtomic-clean (create_conversation platform server owner title) (create-IsAtomic owner title)
        s,
    IsAtomic-clean (rename_conversation platform server i owner title)
        (rename-IsAtomic i owner title) s,
    IsAtomic-clean (delete_conversation platform server i owner)
        (delete_conversation-IsAtomic i owner) s,
  )
