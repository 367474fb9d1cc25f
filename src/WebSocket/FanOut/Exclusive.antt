-- ===== src/WebSocket/FanOut/Exclusive.antt =====
-- The subscriptions of `RedisWebSocketPubSub` under every interleaving of the clients of
-- app/routers/ws.py, the listening tasks and the life of the application.
use real_time_ai_chat_backen.Base.{
  ◌≡◌, ◌<◌, Bool, true, false, Option, none, some, List, [], ◌∷◌, arith, ltb, entry, if-holds,
}
use real_time_ai_chat_backen.Models.{Uuid}
use real_time_ai_chat_backen.Platform.{Platform}
use real_time_ai_chat_backen.WebSocket.Manager.{WebSocket, SendOutcome, connection_count, connect}
use real_time_ai_chat_backen.WebSocket.Protocol.Wire.{Wire}
use real_time_ai_chat_backen.WebSocket.PubSub.{Task, Event, PubSub, is_ended, enter_subscription}
use real_time_ai_chat_backen.WebSocket.PubSub.Consistency.{
  IsConsistent, initial-IsConsistent, start-IsConsistent, begin_stop-IsConsistent,
  end_stop-IsConsistent, enter_subscription-IsConsistent, unsubscribe-IsConsistent,
}
use real_time_ai_chat_backen.WebSocket.PubSub.Consistency.Tasks.{run_task-IsConsistent}
use real_time_ai_chat_backen.WebSocket.FanOut.{
  Phase, accepting, entering, waiting, timed_out, refused, dropping, serving, leaving, released,
  gone, System, Action, client, time_out, listener, starting, begin_stopping, end_stopping,
  after_connect, after_enter, client_step, time_out_step, listener_step, perform, run, report,
  fresh, final,
}

-- A system whose subscriptions meet their invariant.
abbrev pub IsSound : System → Type 0
IsSound s = IsConsistent s.pubsub

after_connect-IsSound :
    (c : WebSocket) (r : Bool × _) (s : System) → IsSound s → IsSound (after_connect c r s)
after_connect-IsSound c (true, m) s h = h
after_connect-IsSound c (false, m) s h = h

after_enter-IsSound :
    (c : WebSocket) (r : Option Task × PubSub) (s : System)
    → IsConsistent r.1
    → IsSound (after_enter c r s)
after_enter-IsSound c (none, p) s h = h
after_enter-IsSound c (some t, p) s h = h

pub client_step-IsSound :
    (phase : Phase) (c : WebSocket) (i : Uuid) (ok : Bool) (s : System)
    → IsSound s
    → IsSound (client_step phase c i ok s)
unfolding client_step
client_step-IsSound accepting c i ok s h =
    after_connect-IsSound c (connect (λ _. ok) i c s.manager) s h
client_step-IsSound entering c i ok s h =
    after_enter-IsSound c (enter_subscription i s.pubsub) s
      (enter_subscription-IsConsistent i s.pubsub h)
client_step-IsSound (waiting t true) c i ok s h = h
client_step-IsSound (waiting t false) c i ok s h = h
client_step-IsSound timed_out c i ok s h =
    unsubscribe-IsConsistent true (connection_count (some i) s.manager) i s.pubsub h
client_step-IsSound refused c i ok s h = h
client_step-IsSound dropping c i ok s h =
    unsubscribe-IsConsistent true (connection_count (some i) s.manager) i s.pubsub h
client_step-IsSound serving c i ok s h = h
client_step-IsSound leaving c i ok s h = h
client_step-IsSound released c i ok s h =
    unsubscribe-IsConsistent false (connection_count (some i) s.manager) i s.pubsub h
client_step-IsSound gone c i ok s h = h

time_out_step-IsSound :
    (phase : Phase) (c : WebSocket) (s : System) → IsSound s → IsSound (time_out_step phase c s)
time_out_step-IsSound (waiting t woken) c s h = h
time_out_step-IsSound _ c s h = h

module _ (platform : Platform) (wire : Wire) where
  pub listener_step-IsSound :
      (t : Task) (e : Event) (outcome : WebSocket → SendOutcome) (s : System)
      → t < s.pubsub.created
      → IsSound s
      → IsSound (listener_step platform wire t e outcome s)
  unfolding listener_step
  listener_step-IsSound t e outcome s made h =
      let st = s.pubsub.states t in
      let e' = report platform wire st.loop.stage st.conversation_id s.manager e outcome in
      let kept = run_task-IsConsistent t e' s.pubsub h made in
      if-holds IsSound st.cancelled (λ _. kept) (λ _. kept)

  pub perform-IsSound : (a : Action) (s : System) → IsSound s → IsSound (perform platform wire a s)
  unfolding perform
  perform-IsSound (client c ok) s h =
      client_step-IsSound (s.clients c).phase c (s.clients c).conversation_id ok s h
  perform-IsSound (time_out c) s h = time_out_step-IsSound (s.clients c).phase c s h
  perform-IsSound (listener t e outcome) s h =
      if-holds IsSound (ltb t s.pubsub.created)
        (λ made. listener_step-IsSound t e outcome s (ground arith) h) (λ _. h)
  perform-IsSound starting s h = start-IsConsistent s.pubsub h
  perform-IsSound begin_stopping s h = begin_stop-IsConsistent s.pubsub h
  perform-IsSound end_stopping s h = end_stop-IsConsistent s.pubsub h

  pub run-IsSound :
      (actions : List Action) (s : System) → IsSound s → IsSound (run platform wire actions s)
  unfolding run
  run-IsSound [] s h = h
  run-IsSound (a ∷ rest) s h = run-IsSound rest (perform platform wire a s) (perform-IsSound a s h)

  -- Whatever the clients, the tasks, Redis and the application do, and in whatever order: each
  -- conversation has at most one listening task that is not cancelled, which is the one that the
  -- dictionary has for it, and is not at its end.
  pub run-listens_once :
      (conversation_of : WebSocket → Uuid) (actions : List Action) (t u : Task)
      → t < (final platform wire conversation_of actions).pubsub.created
      → u < (final platform wire conversation_of actions).pubsub.created
      → ((final platform wire conversation_of actions).pubsub.states t).cancelled ≡ false
      → ((final platform wire conversation_of actions).pubsub.states u).cancelled ≡ false
      → ((final platform wire conversation_of actions).pubsub.states t).conversation_id
        ≡ ((final platform wire conversation_of actions).pubsub.states u).conversation_id
      → let p = (final platform wire conversation_of actions).pubsub in
        (t ≡ u)
        × (entry (p.states t).conversation_id p.subscriptions ≡ some t)
        × (is_ended (p.states t).loop.stage ≡ false)
  unfolding run final
  run-listens_once conversation_of actions t u made made' going going' same =
      let h = run-IsSound actions (fresh conversation_of) initial-IsConsistent in
      let found = h.live t made going in
      ground (arith, found, h.live u made' going', (h.entries _ t found).3)
