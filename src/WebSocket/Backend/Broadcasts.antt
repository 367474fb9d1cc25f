-- ===== src/WebSocket/Backend/Broadcasts.antt =====
-- What a broadcast of a task of app/websocket/pubsub.py does to the frames of each socket.
use mathlib.Core.List.{Memᴰ}
use mathlib.Core.Path.{subst}
use real_time_ai_chat_backen.Base.{
  ◌≡◌, ◌∙◌, refl, sym, ap, inr, true, List, [], ◌∷◌, arith, ltb, All, entry, if-holds,
}
use real_time_ai_chat_backen.Models.{Uuid}
use real_time_ai_chat_backen.Models.Validity.{All-snoc}
use real_time_ai_chat_backen.Platform.{Platform}
use real_time_ai_chat_backen.WebSocket.Manager.{WebSocket, SendOutcome, contains, sockets, send_all}
use real_time_ai_chat_backen.WebSocket.Protocol.{Outbound}
use real_time_ai_chat_backen.WebSocket.Protocol.Wire.{
  Wire, IsFaithful, Raw, stripped, handle_message-serialize,
}
use real_time_ai_chat_backen.WebSocket.PubSub.{Task, Stage, handling, Event, received}
use real_time_ai_chat_backen.WebSocket.FanOut.{
  System, Action, client, time_out, listener, starting, begin_stopping, end_stopping, extend, feed,
  handled_streams, listener_step, perform,
}
use real_time_ai_chat_backen.WebSocket.FanOut.Coverage.Tasks.{
  sweep-IsValid, sweep-Shrinks, rouse-keeps,
}
use real_time_ai_chat_backen.WebSocket.Backend.Streams.{
  IsPublished, IsAccounted, IsTidy, with_pubsub-IsTidy, client_step-IsTidy, time_out_step-IsTidy,
}
use real_time_ai_chat_backen.WebSocket.Backend.Payloads.{
  start-AllCarry, begin_stop-AllCarry, end_stop-AllCarry, step-AllCarry,
}

reached-contains :
    (outcome : WebSocket → SendOutcome) (ws : List WebSocket) (v : WebSocket)
    → contains v (send_all outcome ws).reached ≡ true
    → contains v ws ≡ true
unfolding send_all
reached-contains outcome [] v h = h
reached-contains outcome (w ∷ ws) v h = ground (arith, reached-contains outcome ws v)

module _ (platform : Platform) (wire : Wire) (faithful : IsFaithful platform wire)
    (published : List (Uuid × Outbound)) (replied : WebSocket → List Outbound)
    (conversation_of : WebSocket → Uuid) where
  abbrev Fine : System → Type 0
  Fine s = IsTidy platform wire published replied conversation_of s

  -- The broadcast of a published frame of the conversation.
  extend-IsAccounted :
      (i : Uuid) (f : Outbound) (reached : List WebSocket) (s : System) (w : WebSocket)
      → (contains w reached ≡ true
          → IsAccounted platform wire published replied w (conversation_of w) f)
      → Fine s
      → All
          (IsAccounted platform wire published replied w (conversation_of w))
          (extend f reached s.streams w)
  extend-IsAccounted i f reached s w k h =
      if-holds (All (IsAccounted platform wire published replied w (conversation_of w)))
        (contains w reached) (λ here. All-snoc _ (s.streams w) f (h.streamed w) (k here))
        (λ _. h.streamed w)

  feed-IsAccounted :
      (stage : Stage) (i : Uuid) (outcome : WebSocket → SendOutcome) (s : System) (w : WebSocket)
      → ((raw : Raw) → stage ≡ handling raw → IsPublished platform wire published i raw)
      → Fine s
      → All
          (IsAccounted platform wire published replied w (conversation_of w))
          (feed platform wire stage i s.manager outcome s.streams w)
  unfolding feed handled_streams
  feed-IsAccounted (handling raw) i outcome s w k h =
      let (f, member, same) = k raw refl in
      rw (same, handle_message-serialize platform wire faithful f)
        (extend-IsAccounted i (stripped platform wire f)
          (send_all outcome (sockets i s.manager)).reached s w
          (λ here.
            let mine = h.own i w (reached-contains outcome (sockets i s.manager) w here) in
            inr (f, subst (λ j. Memᴰ (j, f) published) (sym mine) member, refl))
          h)
  feed-IsAccounted _ i outcome s w k h = h.streamed w

  listener-IsTidy :
      (t : Task) (e : Event) (outcome : WebSocket → SendOutcome) (s : System)
      → ((raw : Raw)
          → e ≡ received raw
          → IsPublished platform wire published (s.pubsub.states t).conversation_id raw)
      → Fine s
      → Fine (listener_step platform wire t e outcome s)
  unfolding listener_step
  listener-IsTidy t e outcome s k h =
      let st = s.pubsub.states t in
      let i = st.conversation_id in
      let o = entry i s.pubsub.subscriptions in
      let carried =
        step-AllCarry platform wire (IsPublished platform wire published) t e s.manager outcome
          s.pubsub k h.carried in
      if-holds Fine st.cancelled
        (λ _. with_pubsub-IsTidy platform wire published replied conversation_of _ s carried h)
        (λ _. record {
          named = λ c. (rouse-keeps st.loop.stage o s.clients c).0 ∙ h.named c;
          valid = sweep-IsValid st.loop.stage i s.manager h.valid;
          own = λ j w q. h.own j w (sweep-Shrinks st.loop.stage i j w s.manager h.valid q);
          carried = carried;
          streamed = λ w. feed-IsAccounted st.loop.stage i outcome s w (h.carried t) h;
        })

  -- Whatever happens keeps the system tidy, if a task gets only what was published for its
  -- conversation.
  pub perform-IsTidy :
      (a : Action) (s : System)
      → ((t : Task) (raw : Raw) (outcome : WebSocket → SendOutcome)
          → a ≡ listener t (received raw) outcome
          → IsPublished platform wire published (s.pubsub.states t).conversation_id raw)
      → Fine s
      → Fine (perform platform wire a s)
  unfolding perform
  perform-IsTidy (client c ok) s k h =
      client_step-IsTidy platform wire published replied conversation_of (s.clients c).phase c ok s
        h
  perform-IsTidy (time_out c) s k h =
      time_out_step-IsTidy platform wire published replied conversation_of (s.clients c).phase c s h
  perform-IsTidy (listener t e outcome) s k h =
      if-holds Fine (ltb t s.pubsub.created)
        (λ _.
          listener-IsTidy t e outcome s
            (λ raw q. k t raw outcome (ap (λ e'. listener t e' outcome) q)) h)
        (λ _. h)
  perform-IsTidy starting s k h =
      with_pubsub-IsTidy platform wire published replied conversation_of _ s
        (start-AllCarry (IsPublished platform wire published) s.pubsub h.carried) h
  perform-IsTidy begin_stopping s k h =
      with_pubsub-IsTidy platform wire published replied conversation_of _ s
        (begin_stop-AllCarry (IsPublished platform wire published) s.pubsub h.carried) h
  perform-IsTidy end_stopping s k h =
      with_pubsub-IsTidy platform wire published replied conversation_of _ s
        (end_stop-AllCarry (IsPublished platform wire published) s.pubsub h.carried) h
