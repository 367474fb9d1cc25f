-- ===== src/WebSocket/FanOut.antt =====
-- The clients of the WebSocket endpoint of app/routers/ws.py from `websocket_manager.connect` on,
-- with the connection manager and the subscriptions that they share. What a client or a listening
-- task does between two awaits is one action, in any order. A client and its socket share a number.
pub mod Exclusive
pub mod Coverage
pub mod Orphans
pub mod Feeding
pub mod Stopping
use real_time_ai_chat_backen.Base.{
  ℕ, String, Bool, true, false, ◌&&◌, Option, none, some, List, [], ◌∷◌, ltb, ◌==◌, entry,
  if◌then◌else◌, ◌++◌,
}
use real_time_ai_chat_backen.Models.{Uuid}
use real_time_ai_chat_backen.Platform.{Platform}
use real_time_ai_chat_backen.WebSocket.Manager.{
  WebSocket, Connections, contains, sockets, connect, disconnect, SendOutcome, Sent, send_all,
  remove_all, connection_count,
}
use real_time_ai_chat_backen.WebSocket.Protocol.{Outbound}
use real_time_ai_chat_backen.WebSocket.Protocol.Wire.{
  Wire, Raw, Handled, dropped, forwarded, escaped, handle_message,
}
use real_time_ai_chat_backen.WebSocket.PubSub.{
  Task, Stage, testing, subscribing, marking, listening, polling, handling, removing, failing,
  sleeping, ended, Event, quiet, received, lost_sockets, failure, PubSub, start, begin_stop,
  end_stop, enter_subscription, unsubscribe_conversation, run_task, update, initial,
}

-- Where a client is: before `connect`, before the critical section of `subscribe_conversation`, in
-- the wait for a state, which has been set meanwhile or not, before the forced removal of the
-- subscription after a time-out, before `disconnect` and before the second removal in the
-- `except`, in the chat, before `disconnect` and before the removal in the `finally`, or gone.
pub data Phase : Type 0 where
  accepting entering : Phase
  waiting : Task → Bool → Phase
  timed_out refused dropping : Phase
  serving leaving released gone : Phase

pub record Client : Type 0 where
  pub conversation_id : Uuid
  pub phase : Phase

-- The subscriptions, the sockets, the clients, and the frames that each socket has got.
pub record System : Type 0 where
  pub pubsub : PubSub
  pub manager : Connections
  pub clients : WebSocket → Client
  pub streams : WebSocket → List Outbound

-- What may happen next: a client goes on, where the flag says whether its socket can be accepted,
-- the five seconds of a client are over, a task goes on, with how its await ends and how every send
-- of a broadcast does, or the application starts or stops the subscriptions.
pub data Action : Type 0 where
  client : WebSocket → Bool → Action
  time_out : WebSocket → Action
  listener : Task → Event → (WebSocket → SendOutcome) → Action
  starting begin_stopping end_stopping : Action

abbrev pub set_phase : WebSocket → Phase → System → System
set_phase c phase s = record s {
  clients = update s.clients c (record (s.clients c) { phase = phase });
}

abbrev pub after_connect : WebSocket → Bool × Connections → System → System
after_connect c (true, m) s = set_phase c entering (record s { manager = m })
after_connect c (false, m) s = set_phase c gone (record s { manager = m })

-- While the application stops, `subscribe_conversation` returns at once.
abbrev pub after_enter : WebSocket → Option Task × PubSub → System → System
after_enter c (none, p) s = set_phase c serving (record s { pubsub = p })
after_enter c (some t, p) s = set_phase c (waiting t (p.states t).ready) (record s { pubsub = p })

unfoldable pub disconnected : WebSocket → Uuid → Phase → System → System
unfolding disconnect
disconnected c i phase s = set_phase c phase (record s { manager = disconnect i c s.manager })

unfoldable pub unsubscribed : WebSocket → Uuid → Bool → Phase → System → System
unfolding unsubscribe_conversation connection_count
unsubscribed c i force phase s = set_phase c phase (record s {
  pubsub = unsubscribe_conversation force (connection_count (some i) s.manager) i s.pubsub;
})

-- `conversation_websocket` for a client that has been let in. That a removal waits for the end of
-- the task that it cancels is left out, so a client may also go on earlier.
unfoldable pub client_step : Phase → WebSocket → Uuid → Bool → System → System
unfolding connect enter_subscription disconnected unsubscribed
client_step accepting c i ok s = after_connect c (connect (λ _. ok) i c s.manager) s
client_step entering c i ok s = after_enter c (enter_subscription i s.pubsub) s
client_step (waiting t woken) c i ok s = if woken then set_phase c serving s else s
client_step timed_out c i ok s = unsubscribed c i true refused s
client_step refused c i ok s = disconnected c i dropping s
client_step dropping c i ok s = unsubscribed c i true gone s
client_step serving c i ok s = set_phase c leaving s
client_step leaving c i ok s = disconnected c i released s
client_step released c i ok s = unsubscribed c i false gone s
client_step gone c i ok s = s

abbrev pub time_out_step : Phase → WebSocket → System → System
time_out_step (waiting t woken) c s = set_phase c timed_out s
time_out_step _ c s = s

abbrev pub is_waiting_for : Option Task → Phase → Bool
is_waiting_for (some t) (waiting u woken) = t == u
is_waiting_for _ _ = false

abbrev pub woken_phase : Phase → Phase
woken_phase (waiting u woken) = waiting u true
woken_phase phase = phase

-- `state.ready.set()` wakes the clients that wait for the state.
abbrev pub wake : Option Task → (WebSocket → Client) → WebSocket → Client
wake o clients c =
    if is_waiting_for o (clients c).phase
    then record (clients c) { phase = woken_phase (clients c).phase }
    else clients c

abbrev pub broadcast_event : Sent → Event
broadcast_event sent =
    if sent.raised
    then failure
    else elim sent.failed [ [] ↦ quiet | w ∷ ws ↦ lost_sockets (w ∷ ws) ]

unfoldable pub sweep : Stage → Uuid → Connections → Connections
unfolding remove_all
sweep (removing ws) i m = remove_all i ws m
sweep _ i m = m

abbrev pub rouse : Stage → Option Task → (WebSocket → Client) → WebSocket → Client
rouse marking o clients = wake o clients
rouse _ o clients = clients

-- The frames of the sockets after a payload has been sent to some of them.
abbrev pub extend :
    Outbound → List WebSocket → (WebSocket → List Outbound) → WebSocket → List Outbound
extend f reached streams w = if contains w reached then streams w ++ f ∷ [] else streams w

unfoldable pub handled_streams :
    Handled
    → Uuid
    → Connections
    → (WebSocket → SendOutcome)
    → (WebSocket → List Outbound)
    → WebSocket
    → List Outbound
unfolding send_all
handled_streams (forwarded f) i m outcome streams =
    extend f (send_all outcome (sockets i m)).reached streams
handled_streams _ i m outcome streams = streams

module _ (platform : Platform) (wire : Wire) where
  -- `_handle_message` up to the removal of the lost sockets.
  unfoldable pub handled_event : Handled → Uuid → Connections → (WebSocket → SendOutcome) → Event
  unfolding send_all
  handled_event dropped i m outcome = quiet
  handled_event (forwarded f) i m outcome = broadcast_event (send_all outcome (sockets i m))
  handled_event escaped i m outcome = failure

  unfoldable pub report : Stage → Uuid → Connections → Event → (WebSocket → SendOutcome) → Event
  unfolding handle_message handled_event
  report (handling raw) i m e outcome = handled_event (handle_message platform wire raw) i m outcome
  report _ i m e outcome = e

  -- The broadcast of `_handle_message`.
  unfoldable pub feed :
      Stage
      → Uuid
      → Connections
      → (WebSocket → SendOutcome)
      → (WebSocket → List Outbound)
      → WebSocket
      → List Outbound
  unfolding handle_message handled_streams
  feed (handling raw) i m outcome streams =
      handled_streams (handle_message platform wire raw) i m outcome streams
  feed _ i m outcome streams = streams

  -- What a task does: its step in the subscriptions, and what that does to the sockets and to the
  -- waiting clients if it has not been cancelled.
  unfoldable pub listener_step : Task → Event → (WebSocket → SendOutcome) → System → System
  unfolding run_task report sweep feed
  listener_step t e outcome s =
      let st = s.pubsub.states t in
      let i = st.conversation_id in
      let p = run_task t (report st.loop.stage i s.manager e outcome) s.pubsub in
      if st.cancelled then record s { pubsub = p } else record {
        pubsub = p;
        manager = sweep st.loop.stage i s.manager;
        clients = rouse st.loop.stage (entry i s.pubsub.subscriptions) s.clients;
        streams = feed st.loop.stage i s.manager outcome s.streams;
      }

  unfoldable pub perform : Action → System → System
  unfolding client_step listener_step start begin_stop end_stop
  perform (client c ok) s = client_step (s.clients c).phase c (s.clients c).conversation_id ok s
  perform (time_out c) s = time_out_step (s.clients c).phase c s
  perform (listener t e outcome) s =
      if ltb t s.pubsub.created then listener_step t e outcome s else s
  perform starting s = record s { pubsub = start s.pubsub }
  perform begin_stopping s = record s { pubsub = begin_stop s.pubsub }
  perform end_stopping s = record s { pubsub = end_stop s.pubsub }

  unfoldable pub run : List Action → System → System
  unfolding perform
  run [] s = s
  run (a ∷ rest) s = run rest (perform a s)

-- No client has come yet; each has the conversation that its path names.
abbrev pub fresh : (WebSocket → Uuid) → System
fresh conversation_of = record {
  pubsub = initial;
  manager = [];
  clients = λ c. record { conversation_id = conversation_of c; phase = accepting };
  streams = λ w. [];
}

-- What a list of actions leads to.
unfoldable pub final : Platform → Wire → (WebSocket → Uuid) → List Action → System
unfolding run
final platform wire conversation_of actions = run platform wire actions (fresh conversation_of)

-- No wait of a client is over, and the application does not stop.
abbrev pub is_graceful : Action → Bool
is_graceful (time_out c) = false
is_graceful begin_stopping = false
is_graceful _ = true

abbrev pub all_graceful : List Action → Bool
all_graceful [] = true
all_graceful (a ∷ rest) = is_graceful a && all_graceful rest
