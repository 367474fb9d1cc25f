-- ===== src/WebSocket/Backend/Unrepeated.antt =====
-- That the message loops of app/services/chat.py, all together, publish no message twice.
use real_time_ai_chat_backen.Base.{[]}
use real_time_ai_chat_backen.Models.{Uuid}
use real_time_ai_chat_backen.Platform.{Platform}
use real_time_ai_chat_backen.Session.Atomic.{IsQuiet}
use real_time_ai_chat_backen.WebSocket.Manager.{WebSocket}
use real_time_ai_chat_backen.WebSocket.Protocol.Wire.{Wire, IsFaithful}
use real_time_ai_chat_backen.WebSocket.Chat.{Surroundings}
use real_time_ai_chat_backen.WebSocket.Chat.Turns.{idle}
use real_time_ai_chat_backen.WebSocket.Backend.{Backend, Reachable}
use real_time_ai_chat_backen.WebSocket.Backend.Once.{IsUnrepeated}
use real_time_ai_chat_backen.WebSocket.Backend.Steps.{reachable_keeps}
use real_time_ai_chat_backen.WebSocket.Backend.Single.{IsSingle, turn-IsSingle}

module _ (platform : Platform) (wire : Wire) (faithful : IsFaithful platform wire)
    (around : WebSocket → Surroundings) (quiet : (c : WebSocket) → IsQuiet (around c).server)
    (user_of conversation_of : WebSocket → Uuid) where
  -- If the packages read back what they write, Redis delivers on a channel only what was published
  -- on it, and other sessions commit only between the turns and take no message away: whatever the
  -- clients, the tasks, Redis and the application do, in whatever order, and whatever fails, no two
  -- frames that have been published show the same message.
  pub reachable-IsUnrepeated :
      (b : Backend)
      → Reachable platform wire around user_of conversation_of b
      → IsUnrepeated b.published
  reachable-IsUnrepeated b r =
      (reachable_keeps platform wire faithful around quiet user_of conversation_of IsSingle
        (turn-IsSingle platform wire faithful around quiet user_of conversation_of) b
        nothing-IsSingle r).unrepeated
    where
      nothing-IsSingle : IsSingle [] (λ c. idle)
      nothing-IsSingle = record {
        unrepeated = tt;
        pending = λ c f e. absurd (cc);
        separate = λ c d f g apart e. absurd (cc);
      }
