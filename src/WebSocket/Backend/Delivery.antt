-- ===== src/WebSocket/Backend/Delivery.antt =====
-- What reaches the clients of app/routers/ws.py, over everything that app/services/chat.py and
-- app/websocket do between.
use mathlib.Core.List.{Memᴰ}
use real_time_ai_chat_backen.Base.{◌≡◌, ◌⊎◌, inl, inr, true, All}
use real_time_ai_chat_backen.Models.{Uuid}
use real_time_ai_chat_backen.Models.Validity.{All-imp}
use real_time_ai_chat_backen.Platform.{Platform}
use real_time_ai_chat_backen.Session.Atomic.{IsQuiet}
use real_time_ai_chat_backen.WebSocket.Manager.{WebSocket}
use real_time_ai_chat_backen.WebSocket.Protocol.{Outbound}
use real_time_ai_chat_backen.WebSocket.Protocol.Wire.{Wire, IsFaithful, stripped}
use real_time_ai_chat_backen.WebSocket.Chat.{Surroundings}
use real_time_ai_chat_backen.WebSocket.Chat.Backed.{Backed}
use real_time_ai_chat_backen.WebSocket.Backend.{Backend, Reachable}
use real_time_ai_chat_backen.WebSocket.Backend.Turns.{is_reply}
use real_time_ai_chat_backen.WebSocket.Backend.Streams.{IsAccounted}
use real_time_ai_chat_backen.WebSocket.Backend.Rows.{All-Memᴰ}
use real_time_ai_chat_backen.WebSocket.Backend.Settled.{
  IsFromClient, IsSettled, reachable-IsSettled,
}

module _ (user_of conversation_of : WebSocket → Uuid) where
  -- The frame is a reply that this client's own message loop has sent. Or else it was published for the
  -- conversation, but for the white space around its texts, by a client of that conversation, and
  -- tells of a message of it that is stored, which is that client's user's if it is a user's.
  abbrev pub IsGenuine : Platform → Wire → Backend → WebSocket → Outbound → Type 0
  IsGenuine platform wire b w f =
      let i = conversation_of w in
      ((is_reply f ≡ true) × Memᴰ f (b.replied w))
      ⊎ ((g : Outbound) × (f ≡ stripped platform wire g)
          × Memᴰ (i, g) b.published
          × Backed b.store.committed.messages (i, g)
          × IsFromClient user_of conversation_of (i, g))

module _ (platform : Platform) (wire : Wire) (faithful : IsFaithful platform wire)
    (around : WebSocket → Surroundings) (quiet : (c : WebSocket) → IsQuiet (around c).server)
    (user_of conversation_of : WebSocket → Uuid) where
  IsAccounted-IsGenuine :
      (b : Backend) (w : WebSocket) (f : Outbound)
      → IsSettled platform wire faithful around quiet user_of conversation_of b
      → IsAccounted platform wire b.published b.replied w (conversation_of w) f
      → IsGenuine user_of conversation_of platform wire b w f
  IsAccounted-IsGenuine b w f h (inl reply) = inl reply
  IsAccounted-IsGenuine b w f h (inr (g, member, same)) = inr (
    g,
    same,
    member,
    All-Memᴰ (Backed b.store.committed.messages) b.published (conversation_of w, g) h.backed member,
    h.authored (conversation_of w, g) member,
  )

  -- If the packages read back what they write, Redis delivers on a channel only what was published
  -- on it, and other sessions commit only between the turns and take no message away: whatever the
  -- clients, the tasks, Redis and the application do, and in whatever order, every frame that a
  -- socket has got is a reply that its own message loop has sent, or shows one that a client of the
  -- same conversation has published there. Such a frame tells of a message of the conversation that
  -- is stored, and a user's message is that of the user of the client that has published it.
  pub reachable-IsGenuine :
      (b : Backend) (w : WebSocket)
      → Reachable platform wire around user_of conversation_of b
      → All (IsGenuine user_of conversation_of platform wire b w) (b.system.streams w)
  reachable-IsGenuine b w r =
      let h = reachable-IsSettled platform wire faithful around quiet user_of conversation_of b r in
      All-imp _ _ (b.system.streams w) (λ f. IsAccounted-IsGenuine b w f h) (h.tidy.streamed w)
