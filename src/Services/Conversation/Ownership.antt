-- ===== src/Services/Conversation/Ownership.antt =====
-- Who may rename or delete a conversation of app/services/conversation.py.
use real_time_ai_chat_backen.Base.{
  ◌≡◌, refl, String, Bool, false, ◌&&◌, Option, none, some, ◌==◌, find, is_some,
}
use real_time_ai_chat_backen.Errors.{err}
use real_time_ai_chat_backen.Models.{Uuid, Conversation, Tables, conversation_by_id}
use real_time_ai_chat_backen.Platform.{Platform}
use real_time_ai_chat_backen.Session.{Server, State, view, statement, session_actions}
use real_time_ai_chat_backen.Repositories.Conversations.{conversations_queries}
use real_time_ai_chat_backen.Services.Conversation.{
  conversation_missing, check_owner, get_owned_conversation, rename_conversation,
  delete_conversation,
}

abbrev pub owner_matches : Uuid → Option Conversation → Bool
owner_matches owner none = false
owner_matches owner (some c) = c.owner_id == owner

-- Whether the conversation exists and belongs to the user.
abbrev pub owns : Uuid → Uuid → Tables → Bool
owns i owner t = owner_matches owner (conversation_by_id i t.conversations)

module _ (platform : Platform) (server : Server) (i owner : Uuid) (s : State) where
  -- The session after the query that every one of these operations begins with.
  abbrev pub queried : State
  queried = (statement server s).1

  check_owner-refuses :
      (found : Option Conversation)
      → owner_matches owner found ≡ false
      → (s' : State)
      → check_owner platform server i owner found s'
        ≡ (err (conversation_missing platform server i), s')
  unfolding check_owner session_actions
  check_owner-refuses none h s' = refl
  check_owner-refuses (some c) h s' = rw h

  owned-refuses :
      server.fault_at s.tick ≡ false
      → owns i owner (view queried) ≡ false
      → get_owned_conversation platform server i owner s
        ≡ (err (conversation_missing platform server i), queried)
  unfolding get_owned_conversation conversations_queries
  owned-refuses works h =
      simp works (check_owner-refuses (conversation_by_id i (view queried).conversations) h queried)

  -- When its query does not fail, renaming or deleting a conversation that is missing, and one
  -- that belongs to another user, end alike: in the same `NotFoundError`, after one query and with
  -- nothing written.
  pub change_refused :
      (title : String)
      → server.fault_at s.tick ≡ false
      → owns i owner (view queried) ≡ false
      → (rename_conversation platform server i owner title s
          ≡ (err (conversation_missing platform server i), queried))
        × (delete_conversation platform server i owner s
            ≡ (err (conversation_missing platform server i), queried))
  unfolding rename_conversation delete_conversation session_actions
  change_refused title works h = (rw (owned-refuses works h), rw (owned-refuses works h))

-- A query for the conversation and its owner at once.
abbrev pub is_own : Uuid → Uuid → Tables → Bool
is_own i owner t = is_some (find (λ c. c.id == i && c.owner_id == owner) t.conversations)
