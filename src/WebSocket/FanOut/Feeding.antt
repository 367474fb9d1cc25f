-- ===== src/WebSocket/FanOut/Feeding.antt =====
-- What a frame that was published brings to the clients of app/routers/ws.py.
use real_time_ai_chat_backen.Base.{
  ◌≡◌, refl, ◌∙◌, ap, false, ◌&&◌, List, [], ◌∷◌, ◌++◌, if◌then◌else◌, if-holds, arith,
}
use real_time_ai_chat_backen.Models.{Uuid}
use real_time_ai_chat_backen.Platform.{Platform}
use real_time_ai_chat_backen.WebSocket.Manager.{
  WebSocket, Connections, SendOutcome, sockets, send_all,
}
use real_time_ai_chat_backen.WebSocket.Manager.Invariant.{connected}
use real_time_ai_chat_backen.WebSocket.Manager.Broadcast.{is_delivered, send_all-partition}
use real_time_ai_chat_backen.WebSocket.Protocol.{Outbound}
use real_time_ai_chat_backen.WebSocket.Protocol.Wire.{
  Wire, IsFaithful, characters, serialize, stripped, handle_message-serialize,
}
use real_time_ai_chat_backen.WebSocket.PubSub.{Task, handling, Event}
use real_time_ai_chat_backen.WebSocket.FanOut.{System, listener_step, feed, handled_streams}

module _ (platform : Platform) (wire : Wire) (faithful : IsFaithful platform wire) where
  feed-serialize :
      (f : Outbound) (i : Uuid) (m : Connections) (outcome : WebSocket → SendOutcome)
      (streams : WebSocket → List Outbound) (w : WebSocket)
      → (send_all outcome (sockets i m)).raised ≡ false
      → feed platform wire (handling (characters (serialize platform wire f))) i m outcome streams w
        ≡ (if connected i w m && is_delivered (outcome w)
            then streams w ++ stripped platform wire f ∷ []
            else streams w)
  unfolding feed handled_streams
  feed-serialize f i m outcome streams w r =
      rw
        (
          handle_message-serialize platform wire faithful f,
          (send_all-partition outcome (sockets i m) w r).0,
        )
        refl

  -- A task that is not cancelled feeds the sockets.
  step-feeds :
      (t : Task) (e : Event) (outcome : WebSocket → SendOutcome) (s : System) (w : WebSocket)
      → (s.pubsub.states t).cancelled ≡ false
      → (listener_step platform wire t e outcome s).streams w
        ≡ feed platform wire
            (s.pubsub.states t).loop.stage
            (s.pubsub.states t).conversation_id
            s.manager
            outcome
            s.streams
            w
  unfolding listener_step
  step-feeds t e outcome s w going =
      let st = s.pubsub.states t in
      if-holds
        (λ (s' : System).
          s'.streams w
          ≡ feed platform wire st.loop.stage st.conversation_id s.manager outcome s.streams w)
        st.cancelled (λ out. absurd (ground (arith, out, going))) (λ _. refl)

  -- If the packages read back what they write: when a task that is not cancelled handles a frame
  -- that was published as a text, and no send ends in an exception other than for a lost socket,
  -- then exactly the registered sockets of its conversation whose send returns get one more frame,
  -- which is the published one but for the white space around its texts.
  pub listener_step-streams :
      (t : Task) (e : Event) (outcome : WebSocket → SendOutcome) (s : System) (f : Outbound)
      (w : WebSocket)
      → (s.pubsub.states t).loop.stage ≡ handling (characters (serialize platform wire f))
      → (s.pubsub.states t).cancelled ≡ false
      → (send_all outcome (sockets (s.pubsub.states t).conversation_id s.manager)).raised ≡ false
      → (listener_step platform wire t e outcome s).streams w ≡ (
          if connected (s.pubsub.states t).conversation_id w s.manager && is_delivered (outcome w)
          then s.streams w ++ stripped platform wire f ∷ []
          else s.streams w)
  listener_step-streams t e outcome s f w here going fine =
      let i = (s.pubsub.states t).conversation_id in
      step-feeds t e outcome s w going
      ∙ ap (λ stage. feed platform wire stage i s.manager outcome s.streams w) here
      ∙ feed-serialize f i s.manager outcome s.streams w fine
