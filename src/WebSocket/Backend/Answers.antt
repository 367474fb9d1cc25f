-- ===== src/WebSocket/Backend/Answers.antt =====
-- The answers of app/services/chat.py, over everything that the clients do at once.
use real_time_ai_chat_backen.Base.{◌≤◌, String, [], arith}
use real_time_ai_chat_backen.Models.{Uuid}
use real_time_ai_chat_backen.Platform.{Platform}
use real_time_ai_chat_backen.Session.Atomic.{IsQuiet}
use real_time_ai_chat_backen.WebSocket.Manager.{WebSocket}
use real_time_ai_chat_backen.WebSocket.Protocol.Wire.{Wire, IsFaithful}
use real_time_ai_chat_backen.WebSocket.Chat.{Surroundings}
use real_time_ai_chat_backen.WebSocket.Backend.{Backend, Reachable}
use real_time_ai_chat_backen.WebSocket.Backend.Order.{IsOrdered}
use real_time_ai_chat_backen.WebSocket.Backend.Balance.{answers, questions}
use real_time_ai_chat_backen.WebSocket.Backend.Owed.{owing, reachable-IsCovered}
use real_time_ai_chat_backen.WebSocket.Backend.Settled.{reachable-IsSettled}

module _ (platform : Platform) (wire : Wire) (faithful : IsFaithful platform wire)
    (around : WebSocket → Surroundings) (quiet : (c : WebSocket) → IsQuiet (around c).server)
    (user_of conversation_of : WebSocket → Uuid) where
  -- If the packages read back what they write, Redis delivers on a channel only what was published
  -- on it, and other sessions commit only between the turns and take no message away: whatever the
  -- clients, the tasks, Redis and the application do, in whatever order, and whatever fails, every
  -- answer that is published comes after a user's message that has been published for the same
  -- conversation, and is the reply to the content of it. The answers with one text that have been
  -- published for a conversation are never more than the messages published there whose reply has
  -- this text.
  pub reachable-IsOrdered :
      (b : Backend) (i : Uuid) (text : String)
      → Reachable platform wire around user_of conversation_of b
      → IsOrdered [] b.published × (answers i text b.published ≤ questions i text b.published)
  unfolding owing
  reachable-IsOrdered b i text r =
      let settled =
        reachable-IsSettled platform wire faithful around quiet user_of conversation_of b r in
      let covered =
        reachable-IsCovered platform wire faithful around quiet user_of conversation_of b r in
      (settled.ordered, omega (arith, covered i text [] tt))
