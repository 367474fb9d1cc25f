-- ===== src/WebSocket/Manager/Broadcast.antt =====
-- What the methods of `ConnectionManager` do to the registered sockets.
use real_time_ai_chat_backen.Base.{
  ◌≡◌, refl, Bool, true, false, ◌&&◌, List, [], ◌∷◌, arith, ◌==◌, if◌then◌else◌,
}
use real_time_ai_chat_backen.Models.{Uuid}
use real_time_ai_chat_backen.WebSocket.Manager.{
  WebSocket, Connections, SendOutcome, delivered, lost, contains, sockets, connect, disconnect,
  send_all, remove_connection, remove_all, broadcast_to_conversation,
}
use real_time_ai_chat_backen.WebSocket.Manager.Invariant.{
  IsValid, connected, connected-insert, connected-remove_connection, remove_connection-IsValid,
}

-- In a valid dictionary, connecting registers the socket for the conversation if it is accepted,
-- and changes nothing else; disconnecting takes back exactly that.
pub connected-connect-disconnect :
    (accepts : WebSocket → Bool) (i j : Uuid) (w v : WebSocket) (m : Connections)
    → IsValid m
    → (connected j v (connect accepts i w m).1
        ≡ (if i == j && w == v && accepts w then true else connected j v m))
      × (connected j v (disconnect i w m) ≡ (if i == j && w == v then false else connected j v m))
unfolding connect disconnect
connected-connect-disconnect accepts i j w v m h = (
  ground (arith, connected-insert i j w v m),
  ground (arith, connected-remove_connection i j w v m h),
)

pub remove_all-IsValid :
    (i : Uuid) (ws : List WebSocket) (m : Connections) → IsValid m → IsValid (remove_all i ws m)
unfolding remove_all
remove_all-IsValid i [] m h = h
remove_all-IsValid i (w ∷ ws) m h =
    remove_all-IsValid i ws (remove_connection i w m) (remove_connection-IsValid i w m h)

pub connected-remove_all :
    (i j : Uuid) (ws : List WebSocket) (v : WebSocket) (m : Connections)
    → IsValid m
    → connected j v (remove_all i ws m)
      ≡ (if i == j && contains v ws then false else connected j v m)
unfolding remove_all
connected-remove_all i j [] v m h = ground arith
connected-remove_all i j (w ∷ ws) v m h = ground (
  arith,
  connected-remove_all i j ws v (remove_connection i w m) (remove_connection-IsValid i w m h),
  connected-remove_connection i j w v m h,
)

abbrev pub is_delivered : SendOutcome → Bool
is_delivered delivered = true
is_delivered _ = false

abbrev is_lost : SendOutcome → Bool
is_lost lost = true
is_lost _ = false

pub send_all-partition :
    (outcome : WebSocket → SendOutcome) (ws : List WebSocket) (v : WebSocket)
    → (send_all outcome ws).raised ≡ false
    → (contains v (send_all outcome ws).reached ≡ (contains v ws && is_delivered (outcome v)))
      × (contains v (send_all outcome ws).failed ≡ (contains v ws && is_lost (outcome v)))
unfolding send_all
send_all-partition outcome [] v h = (refl, refl)
send_all-partition outcome (w ∷ ws) v h = ground (arith, send_all-partition outcome ws v)

-- A broadcast that is not cut off reaches exactly the registered sockets whose send returns, and
-- then takes the registered sockets whose send failed, and no other, from that conversation as the
-- other tasks have left it; if they have left the dictionary valid, it is valid afterwards.
pub broadcast_to_conversation_lem :
    (outcome : WebSocket → SendOutcome) (meanwhile : Connections → Connections) (i j : Uuid)
    (v : WebSocket) (m : Connections)
    → IsValid (meanwhile m)
    → (broadcast_to_conversation outcome meanwhile i m).0.raised ≡ false
    → let (s, m') = broadcast_to_conversation outcome meanwhile i m in
      (contains v s.reached ≡ (connected i v m && is_delivered (outcome v)))
      × (connected j v m' ≡ (
          if i == j && connected i v m && is_lost (outcome v)
          then false
          else connected j v (meanwhile m)))
      × IsValid m'
unfolding broadcast_to_conversation
broadcast_to_conversation_lem outcome meanwhile i j v m h r = (
  (send_all-partition outcome (sockets i m) v r).0,
  rw r (
      ground (
        arith,
        send_all-partition outcome (sockets i m) v r,
        connected-remove_all i j (send_all outcome (sockets i m)).failed v (meanwhile m) h,
      )),
  rw r (remove_all-IsValid i (send_all outcome (sockets i m)).failed (meanwhile m) h),
)
