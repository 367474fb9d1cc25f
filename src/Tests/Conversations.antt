-- ===== src/Tests/Conversations.antt =====
-- The theorems on conversations, histories and rows at the sample rows.
use real_time_ai_chat_backen.Base.{◌≡◌, refl, [], ◌∷◌, arith}
use real_time_ai_chat_backen.Errors.{ok}
use real_time_ai_chat_backen.Models.{Conversation, Message}
use real_time_ai_chat_backen.Schemas.{create_list_response}
use real_time_ai_chat_backen.Schemas.Pages.{first_pages, pages_cover}
use real_time_ai_chat_backen.Session.Atomic.{IsCleanFailure}
use real_time_ai_chat_backen.Services.Conversation.{
  Page, create_conversation, list_conversations, rename_conversation, delete_conversation,
}
use real_time_ai_chat_backen.Services.Conversation.Changes.{
  HasDeleted, HasRenamed, delete_conversation-HasDeleted, rename_conversation-HasRenamed,
}
use real_time_ai_chat_backen.Services.Conversation.Listing.{
  IsNewestPage, IsOldestPage, list_conversations-IsNewestPage,
  list_conversation_messages-IsOldestPage,
}
use real_time_ai_chat_backen.Services.Message.{list_conversation_messages}
use real_time_ai_chat_backen.Services.Atomic.{conversation_service-IsCleanFailure}
use real_time_ai_chat_backen.Tests.Platform.{toy}
use real_time_ai_chat_backen.Tests.Server.{quick, quick-IsHealthy, quick-IsQuiet, quick-IsScanning}
use real_time_ai_chat_backen.Tests.Data.{
  plans, notes, ideas, question, answer, sample, begun, first_page,
}

-- A new message in a conversation of the sample.
abbrev reminder : Message
reminder = record question { id = 22; content = "Today?" }

delete_conversation-HasDeleted_example :
    ((delete_conversation toy quick 10 1 begun).0 ≡ ok tt)
    × HasDeleted 10 sample (delete_conversation toy quick 10 1 begun).1.committed
delete_conversation-HasDeleted_example =
    delete_conversation-HasDeleted toy quick quick-IsHealthy 10 plans sample 3 refl

list_conversations-IsNewestPage_example :
    (page : Page Conversation) × ((list_conversations toy quick 1 first_page begun).0 ≡ ok page)
    × IsNewestPage first_page (plans ∷ ideas ∷ []) page
list_conversations-IsNewestPage_example =
    list_conversations-IsNewestPage toy quick quick-IsHealthy quick-IsScanning 1 first_page begun

list_conversation_messages-IsOldestPage_example :
    (page : Page Message) × ((list_conversation_messages toy quick 10 1 first_page begun).0
      ≡ ok page)
    × IsOldestPage first_page (answer ∷ question ∷ []) page
list_conversation_messages-IsOldestPage_example =
    list_conversation_messages-IsOldestPage toy quick quick-IsHealthy quick-IsScanning 1 first_page
      begun 10 refl

conversation_service-IsCleanFailure_example :
    IsCleanFailure begun (create_conversation toy quick 9 "Trips" begun)
    × IsCleanFailure begun (rename_conversation toy quick 11 9 "Trips" begun)
    × IsCleanFailure begun (delete_conversation toy quick 11 9 begun)
conversation_service-IsCleanFailure_example =
    conversation_service-IsCleanFailure toy quick quick-IsQuiet 11 9 "Trips" begun

rename_conversation-HasRenamed_example :
    let trips = record plans { title = "Trips"; updated_at = 104 } in
    ((rename_conversation toy quick 10 1 "Trips" begun).0 ≡ ok trips)
    × HasRenamed 10 trips sample (rename_conversation toy quick 10 1 "Trips" begun).1.committed
rename_conversation-HasRenamed_example =
    rename_conversation-HasRenamed toy quick quick-IsHealthy 10 plans sample 3 refl "Trips"
      (ground arith)

pages_cover_example :
    first_pages
      (create_list_response (plans ∷ notes ∷ []) 3 1 2).pages
      2
      (plans ∷ notes ∷ ideas ∷ [])
    ≡ plans ∷ notes ∷ ideas ∷ []
pages_cover_example =
    pages_cover (plans ∷ notes ∷ ideas ∷ []) (plans ∷ notes ∷ []) 1 2 (ground arith)
