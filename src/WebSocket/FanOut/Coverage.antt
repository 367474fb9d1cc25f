-- ===== src/WebSocket/FanOut/Coverage.antt =====
-- Which clients of app/routers/ws.py are listened for, as long as no wait is over and nothing stops.
pub mod Clients
pub mod Tasks
pub mod Runs
use real_time_ai_chat_backen.Base.{
  ◌≡◌, ◌≢◌, ◌∙◌, ap, ◌<◌, refl, Bool, true, false, not, ◌&&◌, Option, none, some, List, [], ◌∷◌,
  arith, ltb, ◌==◌, length, entry, entry-set, entry-pop, if◌then◌else◌, if-holds, Bool-cases,
  Option-cases, inl, inr, ==_iff,
}
use real_time_ai_chat_backen.Models.{Uuid}
use real_time_ai_chat_backen.Platform.{Platform}
use real_time_ai_chat_backen.WebSocket.Manager.{
  WebSocket, Connections, SendOutcome, connection_count, connect, disconnect, sockets, contains,
  remove_all,
}
use real_time_ai_chat_backen.WebSocket.Manager.Invariant.{
  IsValid, connected, insert-IsValid, connected-insert, connected-remove_connection,
  remove_connection-IsValid,
}
use real_time_ai_chat_backen.WebSocket.Manager.Broadcast.{
  connected-connect-disconnect, remove_all-IsValid, connected-remove_all,
}
use real_time_ai_chat_backen.WebSocket.Protocol.Wire.{Wire}
use real_time_ai_chat_backen.WebSocket.PubSub.{
  Task, Event, Stage, PubSub, is_ended, is_subscribed, enter_subscription, unsubscribe_conversation,
  run_task, ensure, done, set_ready, effect, mark, marking, failing, removing, create_subscription,
  pop_subscription,
}
use real_time_ai_chat_backen.WebSocket.PubSub.Consistency.{initial-IsConsistent}
use real_time_ai_chat_backen.WebSocket.FanOut.Exclusive.{run-IsSound}
use real_time_ai_chat_backen.WebSocket.FanOut.{
  Phase, accepting, entering, waiting, timed_out, refused, dropping, serving, leaving, released,
  gone, Client, System, Action, client, time_out, listener, starting, begin_stopping, end_stopping,
  set_phase, after_connect, after_enter, client_step, time_out_step, listener_step, perform, run,
  report, fresh, final, disconnected, unsubscribed, is_graceful, all_graceful, sweep, rouse,
  woken_phase, is_waiting_for,
}

-- A client that waits for its subscription or has it.
abbrev pub is_attached : Phase → Bool
is_attached (waiting t woken) = true
is_attached serving = true
is_attached _ = false

abbrev pub is_failing : Phase → Bool
is_failing timed_out = true
is_failing refused = true
is_failing dropping = true
is_failing _ = false

-- The connections are valid, nothing stops, no client has had to give up, and every attached client
-- whose socket is registered has an entry in the dictionary.
pub record IsCovered (s : System) : Type 0 where
  pub valid : IsValid s.manager
  pub runs : s.pubsub.stopping ≡ false
  pub no_failure : (c : WebSocket) → is_failing (s.clients c).phase ≡ false
  pub listened :
      (c : WebSocket)
      → is_attached (s.clients c).phase ≡ true
      → connected (s.clients c).conversation_id c s.manager ≡ true
      → entry (s.clients c).conversation_id s.pubsub.subscriptions ≢ none
