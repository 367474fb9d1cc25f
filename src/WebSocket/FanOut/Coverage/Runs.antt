-- ===== src/WebSocket/FanOut/Coverage/Runs.antt =====
-- The registered clients of app/routers/ws.py are listened for in every run without a time-out or a
-- stop.
use real_time_ai_chat_backen.Base.{
  ◌≡◌, ap, refl, true, false, some, List, [], ◌∷◌, arith, ltb, entry, if-holds, Option-cases, inl,
  inr,
}
use real_time_ai_chat_backen.Models.{Uuid}
use real_time_ai_chat_backen.Platform.{Platform}
use real_time_ai_chat_backen.WebSocket.Manager.{WebSocket}
use real_time_ai_chat_backen.WebSocket.Manager.Invariant.{connected}
use real_time_ai_chat_backen.WebSocket.Protocol.Wire.{Wire}
use real_time_ai_chat_backen.WebSocket.PubSub.{Task, is_ended}
use real_time_ai_chat_backen.WebSocket.PubSub.Consistency.{initial-IsConsistent}
use real_time_ai_chat_backen.WebSocket.FanOut.Exclusive.{run-IsSound}
use real_time_ai_chat_backen.WebSocket.FanOut.{
  serving, System, Action, client, time_out, listener, starting, begin_stopping, end_stopping,
  perform, run, fresh, final, is_graceful, all_graceful,
}
use real_time_ai_chat_backen.WebSocket.FanOut.Coverage.{is_attached, IsCovered}
use real_time_ai_chat_backen.WebSocket.FanOut.Coverage.Clients.{client_step-IsCovered}
use real_time_ai_chat_backen.WebSocket.FanOut.Coverage.Tasks.{listener-IsCovered}

module _ (platform : Platform) (wire : Wire) where
  perform-IsCovered :
      (a : Action) (s : System)
      → is_graceful a ≡ true
      → IsCovered s
      → IsCovered (perform platform wire a s)
  unfolding perform
  perform-IsCovered (client c ok) s g h = client_step-IsCovered (s.clients c).phase c ok s refl h
  perform-IsCovered (time_out c) s g h = absurd (cc)
  perform-IsCovered (listener t e outcome) s g h =
      if-holds IsCovered (ltb t s.pubsub.created)
        (λ made. listener-IsCovered platform wire t e outcome s h) (λ _. h)
  perform-IsCovered starting s g h = record {
    valid = h.valid;
    runs = refl;
    no_failure = h.no_failure;
    listened = h.listened;
  }
  perform-IsCovered begin_stopping s g h = absurd (cc)
  perform-IsCovered end_stopping s g h = record {
    valid = h.valid;
    runs = h.runs;
    no_failure = h.no_failure;
    listened = h.listened;
  }

  fresh-IsCovered : (conversation_of : WebSocket → Uuid) → IsCovered (fresh conversation_of)
  fresh-IsCovered conversation_of = record {
    valid = tt;
    runs = refl;
    no_failure = λ d. refl;
    listened = λ d a. absurd (cc);
  }

  run-IsCovered :
      (actions : List Action) (s : System)
      → all_graceful actions ≡ true
      → IsCovered s
      → IsCovered (run platform wire actions s)
  unfolding run
  run-IsCovered [] s g h = h
  run-IsCovered (a ∷ rest) s g h =
      run-IsCovered rest (perform platform wire a s) (ground (arith, g))
        (perform-IsCovered a s (ground (arith, g)) h)

  -- As long as no wait for a subscription is over and the application does not stop: whatever else
  -- the clients, the tasks and Redis do, and in whatever order, a client that has come to the chat
  -- and whose socket is still registered has a task that listens for its conversation, which is
  -- neither cancelled nor at its end.
  pub run-listens :
      (conversation_of : WebSocket → Uuid) (actions : List Action) (c : WebSocket)
      → all_graceful actions ≡ true
      → ((final platform wire conversation_of actions).clients c).phase ≡ serving
      → connected
          ((final platform wire conversation_of actions).clients c).conversation_id
          c
          (final platform wire conversation_of actions).manager
        ≡ true
      → let s = final platform wire conversation_of actions in
        (t : Task) × (entry (s.clients c).conversation_id s.pubsub.subscriptions ≡ some t)
        × ((s.pubsub.states t).cancelled ≡ false)
        × (is_ended (s.pubsub.states t).loop.stage ≡ false)
  unfolding run final
  run-listens conversation_of actions c g here registered =
      let before = fresh conversation_of in
      let s = run platform wire actions before in
      let h = run-IsCovered actions before g (fresh-IsCovered conversation_of) in
      let sound = run-IsSound platform wire actions before initial-IsConsistent in
      let i = (s.clients c).conversation_id in
      let present = h.listened c (ap is_attached here) registered in
      elim (Option-cases (entry i s.pubsub.subscriptions)) [
        | inl absent ↦ absurd (present absent)
        | inr (t, found) ↦ let e = sound.entries i t found in (t, found, e.2, e.3)
      ]
