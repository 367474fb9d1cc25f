-- ===== src/WebSocket/Manager.antt =====
-- `ConnectionManager` of app/websocket/manager.py. Every access to the dictionary holds the lock,
-- so a method is one step, or two for `broadcast_to_conversation`, which sends outside the lock.
pub mod Invariant
pub mod Broadcast
pub mod Closing
use real_time_ai_chat_backen.Base.{
  ℕ, ◌+◌, Bool, true, false, Option, none, some, List, [], ◌∷◌, ◌++◌, ◌==◌, length, if◌then◌else◌,
}
use real_time_ai_chat_backen.Models.{Uuid}

-- A `WebSocket` object is compared by identity.
abbrev pub WebSocket : Type 0
WebSocket = ℕ

-- The sets of sockets by conversation, in the order of insertion.
abbrev pub Connections : Type 0
Connections = List (Uuid × List WebSocket)

abbrev pub contains : WebSocket → List WebSocket → Bool
contains w [] = false
contains w (v ∷ vs) = if v == w then true else contains w vs

-- `set.add` and `set.discard`
abbrev pub add : WebSocket → List WebSocket → List WebSocket
add w [] = w ∷ []
add w (v ∷ vs) = if v == w then v ∷ vs else v ∷ add w vs

abbrev pub discard : WebSocket → List WebSocket → List WebSocket
discard w [] = []
discard w (v ∷ vs) = if v == w then vs else v ∷ discard w vs

-- `self._connections.get(conversation_id)`
abbrev pub get : Uuid → Connections → Option (List WebSocket)
get i [] = none
get i ((j, ws) ∷ m) = if j == i then some ws else get i m

abbrev pub or_empty : Option (List WebSocket) → List WebSocket
or_empty none = []
or_empty (some ws) = ws

-- `self._connections.get(conversation_id, set())`
abbrev pub sockets : Uuid → Connections → List WebSocket
sockets i m = or_empty (get i m)

-- `self._connections[conversation_id].add(websocket)` on the `defaultdict`
abbrev pub insert : Uuid → WebSocket → Connections → Connections
insert i w [] = (i, w ∷ []) ∷ []
insert i w ((j, ws) ∷ m) = if j == i then (j, add w ws) ∷ m else (j, ws) ∷ insert i w m

-- `self._connections.pop(conversation_id, None)`
abbrev pub pop : Uuid → Connections → Connections
pop i [] = []
pop i ((j, ws) ∷ m) = if j == i then m else (j, ws) ∷ pop i m

-- Writes back the set after a `discard`, which Python does in place.
abbrev pub replace : Uuid → List WebSocket → Connections → Connections
replace i ws [] = []
replace i ws ((j, vs) ∷ m) = if j == i then (j, ws) ∷ m else (j, vs) ∷ replace i ws m

abbrev pub store_or_pop : Uuid → List WebSocket → Connections → Connections
store_or_pop i [] m = pop i m
store_or_pop i (w ∷ ws) m = replace i (w ∷ ws) m

abbrev pub remove_from : Uuid → WebSocket → Option (List WebSocket) → Connections → Connections
remove_from i w none m = m
remove_from i w (some ws) m = store_or_pop i (discard w ws) m

-- `_remove_connection`
unfoldable pub remove_connection : Uuid → WebSocket → Connections → Connections
remove_connection i w m = remove_from i w (get i m) m

-- `connect`: the socket is accepted first, which may raise.
unfoldable pub connect : (WebSocket → Bool) → Uuid → WebSocket → Connections → Bool × Connections
connect accepts i w m = if accepts w then (true, insert i w m) else (false, m)

unfoldable pub disconnect : Uuid → WebSocket → Connections → Connections
unfolding remove_connection
disconnect i w m = remove_connection i w m

-- `send_json` returns, raises one of the three exceptions that mean a lost socket, or another.
pub data SendOutcome : Type 0 where
  delivered lost crashed : SendOutcome

-- What the sending loop leaves: who got the payload, who is lost, and whether it was cut off.
pub record Sent : Type 0 where
  pub reached : List WebSocket
  pub failed : List WebSocket
  pub raised : Bool

-- The loop of `broadcast_to_conversation` over the sockets.
unfoldable pub send_all : (WebSocket → SendOutcome) → List WebSocket → Sent
send_all outcome [] = record { reached = []; failed = []; raised = false }
send_all outcome (w ∷ ws) =
    let rest = send_all outcome ws in
    elim (outcome w) [
      | delivered ↦ record rest { reached = w ∷ rest.reached }
      | lost ↦ record rest { failed = w ∷ rest.failed }
      | crashed ↦ record { reached = []; failed = []; raised = true }
    ]

-- `for websocket in failed: self._remove_connection(...)`
unfoldable pub remove_all : Uuid → List WebSocket → Connections → Connections
unfolding remove_connection
remove_all i [] m = m
remove_all i (w ∷ ws) m = remove_all i ws (remove_connection i w m)

-- `broadcast_to_conversation`: `meanwhile` is what the other tasks do to the dictionary between
-- the two critical sections. Another exception leaves the method before the second one.
unfoldable pub broadcast_to_conversation :
    (WebSocket → SendOutcome)
    → (Connections → Connections)
    → Uuid
    → Connections
    → Sent × Connections
unfolding send_all remove_all
broadcast_to_conversation outcome meanwhile i m =
    let s = send_all outcome (sockets i m) in
    (s, if s.raised then meanwhile m else remove_all i s.failed (meanwhile m))

-- `close_conversation_connections`: the sockets to close, and the dictionary.
unfoldable pub close_conversation_connections : Uuid → Connections → List WebSocket × Connections
close_conversation_connections i m = (sockets i m, pop i m)

abbrev pub total_count : Connections → ℕ
total_count [] = 0
total_count ((_, ws) ∷ m) = length ws + total_count m

unfoldable pub connection_count : Option Uuid → Connections → ℕ
connection_count (some i) m = length (sockets i m)
connection_count none m = total_count m
