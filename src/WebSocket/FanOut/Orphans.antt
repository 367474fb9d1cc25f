-- ===== src/WebSocket/FanOut/Orphans.antt =====
-- What the forced removal after a time-out in `subscribe_conversation` of app/websocket/pubsub.py
-- does to the other clients of the conversation.
use real_time_ai_chat_backen.Base.{
  ◌≡◌, ◌∙◌, refl, ap, Bool, true, false, Option, none, some, List, [], ◌∷◌, arith, ltb, entry,
  entry-pop, if-holds,
}
use real_time_ai_chat_backen.Models.{Uuid}
use real_time_ai_chat_backen.Platform.{Platform}
use real_time_ai_chat_backen.WebSocket.Manager.{WebSocket, SendOutcome}
use real_time_ai_chat_backen.WebSocket.Manager.Invariant.{connected}
use real_time_ai_chat_backen.WebSocket.Protocol.Wire.{Wire}
use real_time_ai_chat_backen.WebSocket.PubSub.{
  Task, Event, Stage, marking, PubSub, is_subscribed, unsubscribe_conversation, pop_subscription,
}
use real_time_ai_chat_backen.WebSocket.FanOut.{
  timed_out, serving, Client, System, Action, client, listener, client_step, listener_step, perform,
  run, report, rouse, is_waiting_for, woken_phase,
}
use real_time_ai_chat_backen.WebSocket.FanOut.Coverage.Tasks.{run_task-subscriptions}

-- Only the listening tasks go on.
abbrev pub all_listening : List Action → Bool
all_listening [] = true
all_listening (listener t e outcome ∷ rest) = all_listening rest
all_listening (_ ∷ rest) = false

entry-pop_subscription :
    (i : Uuid) (o : Option Task) (p : PubSub)
    → entry i p.subscriptions ≡ o
    → entry i (pop_subscription i p o).subscriptions ≡ none
entry-pop_subscription i none p e = e
entry-pop_subscription i (some t) p e = ground (arith, entry-pop i i p.subscriptions)

-- A client in the chat, whose conversation has no subscription.
record IsOrphan (c : WebSocket) (i : Uuid) (s : System) : Type 0 where
  chats : (s.clients c).phase ≡ serving
  alone : entry i s.pubsub.subscriptions ≡ none

rouse-serving :
    (stage : Stage) (o : Option Task) (clients : WebSocket → Client) (c : WebSocket)
    → (clients c).phase ≡ serving
    → (rouse stage o clients c).phase ≡ serving
rouse-serving marking o clients c h =
    if-holds (λ (x : Client). x.phase ≡ serving) (is_waiting_for o (clients c).phase)
      (λ _. ap woken_phase h) (λ _. h)
rouse-serving _ o clients c h = h

-- The client whose time is over takes the entry of the conversation.
timed_out-IsOrphan :
    (c d : WebSocket) (i : Uuid) (ok : Bool) (s : System)
    → (s.clients c).phase ≡ serving
    → (s.clients d).phase ≡ timed_out
    → IsOrphan c i (client_step timed_out d i ok s)
unfolding client_step unsubscribe_conversation
timed_out-IsOrphan c d i ok s here there = record {
  chats = ground (arith, here, there);
  alone = entry-pop_subscription i (entry i s.pubsub.subscriptions) s.pubsub refl;
}

timed_out-manager :
    (d : WebSocket) (i : Uuid) (ok : Bool) (s : System)
    → (client_step timed_out d i ok s).manager ≡ s.manager
unfolding client_step
timed_out-manager d i ok s = refl

alone-is_subscribed :
    (i : Uuid) (p : PubSub) → entry i p.subscriptions ≡ none → is_subscribed i p ≡ false
unfolding is_subscribed
alone-is_subscribed i p e = rw e refl

module _ (platform : Platform) (wire : Wire) where
  listener-IsOrphan :
      (t : Task) (e : Event) (outcome : WebSocket → SendOutcome) (c : WebSocket) (i : Uuid)
      (s : System)
      → IsOrphan c i s
      → IsOrphan c i (listener_step platform wire t e outcome s)
  unfolding listener_step
  listener-IsOrphan t e outcome c i s h =
      let st = s.pubsub.states t in
      let j = st.conversation_id in
      let e' = report platform wire st.loop.stage j s.manager e outcome in
      let same = ap (entry i) (run_task-subscriptions t e' s.pubsub).0 in
      if-holds (IsOrphan c i) st.cancelled (λ _. record { chats = h.chats; alone = same ∙ h.alone })
        (λ _. record {
          chats = rouse-serving st.loop.stage (entry j s.pubsub.subscriptions) s.clients c h.chats;
          alone = same ∙ h.alone;
        })

  run-IsOrphan :
      (actions : List Action) (c : WebSocket) (i : Uuid) (s : System)
      → all_listening actions ≡ true
      → IsOrphan c i s
      → IsOrphan c i (run platform wire actions s)
  unfolding run perform
  run-IsOrphan [] c i s g h = h
  run-IsOrphan (listener t e outcome ∷ rest) c i s g h =
      run-IsOrphan rest c i (perform platform wire (listener t e outcome) s) g (
        if-holds (IsOrphan c i) (ltb t s.pubsub.created)
          (λ _. listener-IsOrphan t e outcome c i s h) (λ _. h))
  run-IsOrphan (client d ok ∷ rest) c i s g h = absurd (cc)
  run-IsOrphan (_ ∷ rest) c i s g h = absurd (cc)

  perform-timed_out :
      (d : WebSocket) (i : Uuid) (ok : Bool) (s : System)
      → (s.clients d).phase ≡ timed_out
      → (s.clients d).conversation_id ≡ i
      → perform platform wire (client d ok) s ≡ client_step timed_out d i ok s
  unfolding perform
  perform-timed_out d i ok s there same = rw (there, same) refl

  -- When the five seconds of a client are over, the other client of the conversation, which is in
  -- the chat with its socket registered, is left without a subscription: the forced removal takes
  -- it. However long the tasks go on after that, the client stays in the chat without one.
  pub run-orphans :
      (s : System) (c d : WebSocket) (ok : Bool) (actions : List Action)
      → (s.clients c).phase ≡ serving
      → (s.clients d).phase ≡ timed_out
      → (s.clients d).conversation_id ≡ (s.clients c).conversation_id
      → connected (s.clients c).conversation_id c s.manager ≡ true
      → all_listening actions ≡ true
      → let i = (s.clients c).conversation_id in
        let after = perform platform wire (client d ok) s in
        let later = run platform wire actions after in
        (connected i c after.manager ≡ true)
        × ((later.clients c).phase ≡ serving)
        × (is_subscribed i later.pubsub ≡ false)
  run-orphans s c d ok actions here there same registered g =
      let i = (s.clients c).conversation_id in
      let first = client_step timed_out d i ok s in
      let h = run-IsOrphan actions c i first g (timed_out-IsOrphan c d i ok s here there) in
      let p = (run platform wire actions first).pubsub in
      rw (perform-timed_out d i ok s there same) (
        ap (connected i c) (timed_out-manager d i ok s) ∙ registered,
        h.chats,
        alone-is_subscribed i p h.alone,
      )
