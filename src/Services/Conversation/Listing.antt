-- ===== src/Services/Conversation/Listing.antt =====
-- What the list queries of the services return.
use mathlib.Core.List.{Perm}
use mathlib.Core.List.Perm
use real_time_ai_chat_backen.Base.{
  ℕ, ◌+◌, ◌≡◌, refl, true, List, [], ◌∷◌, length, ◌≤◌, All, leb, arith,
}
use real_time_ai_chat_backen.Errors.{ok}
use real_time_ai_chat_backen.Models.{Uuid, Conversation, Message}
use real_time_ai_chat_backen.Models.Validity.{All-imp}
use real_time_ai_chat_backen.Platform.{Platform}
use real_time_ai_chat_backen.Schemas.{PaginationParams}
use real_time_ai_chat_backen.Schemas.Pages.{page_rows}
use real_time_ai_chat_backen.Session.Healthy.{IsHealthy}
use real_time_ai_chat_backen.Session.Ordering.{
  asc, desc, order_by, IsOrdered, order_by-Perm, order_by-IsOrdered,
}
use real_time_ai_chat_backen.Session.{Server, State, view}
use real_time_ai_chat_backen.Repositories.Conversations.{conversations_queries, owned_by}
use real_time_ai_chat_backen.Repositories.Messages.{messages_queries, messages_of}
use real_time_ai_chat_backen.Services.Conversation.{Page, list_conversations}
use real_time_ai_chat_backen.Services.Conversation.Ownership.{is_own}
use real_time_ai_chat_backen.Services.Message.{list_conversation_messages}

-- The rows by `created_at`, the last first, and the first first.
abbrev pub Newest : List Conversation → Type 0
Newest [] = Unit
Newest (c ∷ cs) = All (λ d. d.created_at ≤ c.created_at) cs × Newest cs

abbrev pub Oldest : List Message → Type 0
Oldest [] = Unit
Oldest (m ∷ ms) = All (λ n. m.created_at ≤ n.created_at) ms × Oldest ms

-- A SELECT reads the rows that it selects, in any order.
pub record IsScanning (server : Server) : Type 0 where
  pub conversations_perm :
      (n : ℕ) (cs : List Conversation) → Perm (server.scan_conversations_at n cs) cs
  pub messages_perm : (n : ℕ) (ms : List Message) → Perm (server.scan_messages_at n ms) ms

IsOrdered-Newest : (cs : List Conversation) → IsOrdered (λ c. c.created_at) desc cs → Newest cs
IsOrdered-Newest [] h = tt
IsOrdered-Newest (c ∷ cs) h = (
  All-imp (λ d. leb d.created_at c.created_at ≡ true) (λ d. d.created_at ≤ c.created_at) cs
      (λ d k. ground arith) h.0,
  IsOrdered-Newest cs h.1,
)

IsOrdered-Oldest : (ms : List Message) → IsOrdered (λ m. m.created_at) asc ms → Oldest ms
IsOrdered-Oldest [] h = tt
IsOrdered-Oldest (m ∷ ms) h = (
  All-imp (λ n. leb m.created_at n.created_at ≡ true) (λ n. m.created_at ≤ n.created_at) ms
      (λ n k. ground arith) h.0,
  IsOrdered-Oldest ms h.1,
)

-- A page of a list: the slice that the page asks for of some newest-first order of the rows.
pub record IsNewestPage (p : PaginationParams) (rows : List Conversation) (page : Page Conversation)
    : Type 0 where
  pub ordered : List Conversation
  pub ordered_perm : Perm ordered rows
  pub ordered_newest : Newest ordered
  pub items_lem : page.items ≡ page_rows p ordered
  pub total_lem : page.total ≡ length rows
  pub echo : (page.page ≡ p.page) × (page.page_size ≡ p.page_size)

pub record IsOldestPage (p : PaginationParams) (rows : List Message) (page : Page Message)
    : Type 0 where
  pub ordered : List Message
  pub ordered_perm : Perm ordered rows
  pub ordered_oldest : Oldest ordered
  pub items_lem : page.items ≡ page_rows p ordered
  pub total_lem : page.total ≡ length rows
  pub echo : (page.page ≡ p.page) × (page.page_size ≡ p.page_size)

module _ (platform : Platform) (server : Server) (healthy : IsHealthy server)
    (scanning : IsScanning server) (owner : Uuid) (p : PaginationParams) (s : State) where
  abbrev conversations_read : List Conversation
  conversations_read = server.scan_conversations_at s.tick (owned_by owner (view s))

  -- The rows in the order of the query.
  abbrev conversations_ordered : List Conversation
  conversations_ordered = order_by (λ c. c.created_at) desc conversations_read

  abbrev messages_read : Uuid → List Message
  messages_read i = server.scan_messages_at (s.tick + 1) (messages_of i (view s))

  abbrev messages_ordered : Uuid → List Message
  messages_ordered i = order_by (λ m. m.created_at) asc (messages_read i)

  -- Alone and without faults, the list of conversations is the page that
  -- was asked for of the caller's own conversations, newest first, with their number.
  pub list_conversations-IsNewestPage :
      (page : Page Conversation) × ((list_conversations platform server owner p s).0 ≡ ok page)
      × IsNewestPage p (owned_by owner (view s)) page
  unfolding list_conversations conversations_queries
  list_conversations-IsNewestPage = (
    record {
      items = page_rows p conversations_ordered;
      total = length (owned_by owner (view s));
      page = p.page;
      page_size = p.page_size;
    },
    simp (healthy.no_faults, healthy.others_same),
    record {
      ordered = conversations_ordered;
      ordered_perm =
          Perm.trans (order_by-Perm (λ c. c.created_at) desc conversations_read)
            (scanning.conversations_perm s.tick (owned_by owner (view s)));
      ordered_newest =
          IsOrdered-Newest conversations_ordered
            (order_by-IsOrdered (λ c. c.created_at) desc conversations_read);
      items_lem = refl;
      total_lem = refl;
      echo = (refl, refl);
    },
  )

  -- Alone and without faults, the history of the caller's own conversation
  -- is the page that was asked for of its messages, oldest first, with their number.
  pub list_conversation_messages-IsOldestPage :
      (i : Uuid)
      → is_own i owner (view s) ≡ true
      → (page : Page Message) × ((list_conversation_messages platform server i owner p s).0
          ≡ ok page)
        × IsOldestPage p (messages_of i (view s)) page
  unfolding list_conversation_messages conversations_queries messages_queries
  list_conversation_messages-IsOldestPage i own = (
    record {
      items = page_rows p (messages_ordered i);
      total = length (messages_of i (view s));
      page = p.page;
      page_size = p.page_size;
    },
    simp (healthy.no_faults, healthy.others_same, own),
    record {
      ordered = messages_ordered i;
      ordered_perm =
          Perm.trans (order_by-Perm (λ m. m.created_at) asc (messages_read i))
            (scanning.messages_perm (s.tick + 1) (messages_of i (view s)));
      ordered_oldest =
          IsOrdered-Oldest (messages_ordered i)
            (order_by-IsOrdered (λ m. m.created_at) asc (messages_read i));
      items_lem = refl;
      total_lem = refl;
      echo = (refl, refl);
    },
  )
