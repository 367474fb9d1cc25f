-- ===== src/WebSocket/Manager/Closing.antt =====
-- Closing a conversation in `ConnectionManager` of app/websocket/manager.py, and its counts.
use real_time_ai_chat_backen.Base.{
  ◌+◌, ◌≡◌, refl, false, none, some, [], ◌∷◌, arith, ◌==◌, length, if◌then◌else◌,
}
use real_time_ai_chat_backen.Models.{Uuid}
use real_time_ai_chat_backen.WebSocket.Manager.{
  WebSocket, Connections, contains, sockets, pop, total_count, close_conversation_connections,
  connection_count,
}
use real_time_ai_chat_backen.WebSocket.Manager.Invariant.{IsValid, connected, get-pop, pop-IsValid}

total_count-pop :
    (i : Uuid) (m : Connections) → length (sockets i m) + total_count (pop i m) ≡ total_count m
total_count-pop i [] = refl
total_count-pop i ((k, ws) ∷ m) = ground (arith, total_count-pop i m)

-- In a valid dictionary, closing a conversation takes out exactly its sockets, which are the ones
-- to close: it has none afterwards, every other conversation has the same ones, the total count
-- falls by their number, and the dictionary stays valid.
pub close_conversation_connections_lem :
    (i j : Uuid) (v : WebSocket) (m : Connections)
    → IsValid m
    → let (closed, m') = close_conversation_connections i m in
      (contains v closed ≡ connected i v m)
      × (connected j v m' ≡ (if i == j then false else connected j v m))
      × (connection_count (some i) m' ≡ 0)
      × (length closed + connection_count none m' ≡ connection_count none m)
      × IsValid m'
unfolding close_conversation_connections connection_count
close_conversation_connections_lem i j v m h = (
  refl,
  ground (arith, get-pop i j m h),
  ground (arith, get-pop i i m h),
  total_count-pop i m,
  pop-IsValid i m h,
)
