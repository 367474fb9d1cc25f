-- ===== src/WebSocket/Backend.antt =====
-- The whole of the chat: the clients of app/routers/ws.py with their message loops of
-- app/services/chat.py, the database and the channels of Redis that they share, and the
-- subscriptions and sockets of app/websocket. Everything from one await to the next is one step.
pub mod Order
pub mod Once
pub mod Balance
pub mod Turns
pub mod Payloads
pub mod Streams
pub mod Broadcasts
pub mod Rows
pub mod Settled
pub mod Delivery
pub mod Answers
pub mod Steps
pub mod Single
pub mod Owed
pub mod Unrepeated
use mathlib.Core.List.{Memᴰ}
use real_time_ai_chat_backen.Base.{
  ℕ, drop, length, ◌++◌, ◌≡◌, Bool, true, false, none, some, List, [], ◌∷◌, if◌then◌else◌,
}
use real_time_ai_chat_backen.Errors.{Result, ok, err}
use real_time_ai_chat_backen.Models.{Uuid, Message, Tables, message_by_id}
use real_time_ai_chat_backen.Platform.{Platform}
use real_time_ai_chat_backen.Session.{State}
use real_time_ai_chat_backen.WebSocket.Manager.{WebSocket}
use real_time_ai_chat_backen.WebSocket.Protocol.{Outbound}
use real_time_ai_chat_backen.WebSocket.Protocol.Wire.{Wire, Raw, characters, serialize}
use real_time_ai_chat_backen.WebSocket.PubSub.{received, conversation_channel, update}
use real_time_ai_chat_backen.WebSocket.Chat.{World, Received, Surroundings, Chat}
use real_time_ai_chat_backen.WebSocket.Chat.Turns.{Progress, idle, receive, resume}
use real_time_ai_chat_backen.WebSocket.FanOut.{
  Phase, serving, leaving, System, Action, listener, set_phase, perform, fresh,
}

-- `progress` is where the message loop of each client is, and `replied` what it has itself sent:
-- nothing reads this log, which is there to tell a socket's own replies from those of the others.
pub record Backend : Type 0 where
  pub store : State
  pub published : List (Uuid × Outbound)
  pub system : System
  pub progress : WebSocket → Progress
  pub replied : WebSocket → List Outbound

-- What may happen next: an action of the sockets and subscriptions, a socket that delivers
-- something to its message loop, a message loop that goes on, or another session that commits.
pub data Step : Type 0 where
  fan_out : Action → Step
  receiving : WebSocket → Received → Step
  resuming : WebSocket → Step
  elsewhere : Tables → Step

-- What the message loop of a client sees: all frames of its socket are sent over one stream.
abbrev pub world : WebSocket → Backend → World
world c b = record { store = b.store; sent = b.system.streams c; published = b.published }

abbrev pub is_idle : Progress → Bool
is_idle idle = true
is_idle _ = false

abbrev pub is_serving : Phase → Bool
is_serving serving = true
is_serving _ = false

abbrev pub with_stream : WebSocket → List Outbound → System → System
with_stream c frames s = record s { streams = update s.streams c frames }

-- An exception ends the message loop, and the `finally` of the endpoint comes next.
abbrev pub next_system : WebSocket → Result Progress → System → System
next_system c (ok p) s = s
next_system c (err e) s = set_phase c leaving s

abbrev pub next_progress : Result Progress → Progress
next_progress (ok p) = p
next_progress (err e) = idle

abbrev pub after_turn : WebSocket → Result Progress × World → Backend → Backend
after_turn c (r, w) b = record {
  store = w.store;
  published = w.published;
  system = next_system c r (with_stream c w.sent b.system);
  progress = update b.progress c (next_progress r);
  replied = update b.replied c (b.replied c ++ drop (length (b.system.streams c)) w.sent);
}

-- A turn of the message loop of a client that is in the chat.
abbrev pub take_turn : Bool → WebSocket → Chat Progress → Backend → Backend
take_turn ready c turn b = if ready then after_turn c (turn (world c b)) b else b

module _ (platform : Platform) (wire : Wire) (around : WebSocket → Surroundings)
    (user_of : WebSocket → Uuid) where
  unfoldable pub proceed : Step → Backend → Backend
  unfolding perform receive resume
  proceed (fan_out a) b = record b { system = perform platform wire a b.system }
  proceed (receiving c r) b =
      let i = (b.system.clients c).conversation_id in
      if is_idle (b.progress c)
      then take_turn (is_serving (b.system.clients c).phase) c
          (receive platform (around c) i (user_of c) r) b
      else b
  proceed (resuming c) b =
      let i = (b.system.clients c).conversation_id in
      take_turn (is_serving (b.system.clients c).phase) c
        (resume platform (around c) i (user_of c) (b.progress c)) b
  proceed (elsewhere t) b = record b { store = record b.store { committed = t } }

  -- The data was published on the channel of the conversation.
  abbrev pub IsOnChannel : Uuid → Raw → List (Uuid × Outbound) → Type 0
  IsOnChannel i raw published =
      (j : Uuid) × (f : Outbound) × Memᴰ (j, f) published
      × (conversation_channel platform j ≡ conversation_channel platform i)
      × (raw ≡ characters (serialize platform wire f))

  -- What is asked of the steps: Redis delivers on a channel only what was published on it, as a
  -- text (`decode_responses=True`), and no other session takes a message away or changes it.
  abbrev pub IsAllowed : Step → Backend → Type 0
  IsAllowed (fan_out (listener t (received raw) outcome)) b =
      IsOnChannel (b.system.pubsub.states t).conversation_id raw b.published
  IsAllowed (elsewhere t) b =
      (i : Uuid) (m : Message)
      → message_by_id i b.store.committed.messages ≡ some m
      → message_by_id i t.messages ≡ some m
  IsAllowed _ b = Unit {0}

  -- What the backend can come to, from when nothing has been published.
  pub data Reachable (conversation_of : WebSocket → Uuid) : Backend → Type 0 where
    opened :
        (s : State)
        → Reachable conversation_of (record {
          store = s;
          published = [];
          system = fresh conversation_of;
          progress = λ c. idle;
          replied = λ c. [];
        })
    stepped :
        {b : Backend} (x : Step)
        → Reachable conversation_of b
        → IsAllowed x b
        → Reachable conversation_of (proceed x b)
