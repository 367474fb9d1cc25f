-- ===== src/WebSocket/Backend/Streams.antt =====
-- What the clients, the sockets and the tasks of app/websocket and app/routers/ws.py do to the
-- frames of each socket, whatever their order.
use mathlib.Core.List.{Memᴰ}
use real_time_ai_chat_backen.Base.{
  ◌≡◌, refl, ◌⊎◌, Bool, true, false, Option, none, some, List, arith, All,
}
use real_time_ai_chat_backen.Models.{Uuid}
use real_time_ai_chat_backen.Platform.{Platform}
use real_time_ai_chat_backen.WebSocket.Manager.{WebSocket, connect, disconnect, connection_count}
use real_time_ai_chat_backen.WebSocket.Manager.Invariant.{
  IsValid, connected, insert-IsValid, connected-insert, connected-remove_connection,
  remove_connection-IsValid,
}
use real_time_ai_chat_backen.WebSocket.Protocol.{Outbound}
use real_time_ai_chat_backen.WebSocket.Protocol.Wire.{Wire, Raw, characters, serialize, stripped}
use real_time_ai_chat_backen.WebSocket.PubSub.{Task, PubSub, enter_subscription}
use real_time_ai_chat_backen.WebSocket.FanOut.{
  Phase, accepting, entering, waiting, timed_out, refused, dropping, serving, leaving, released,
  gone, System, set_phase, after_enter, client_step, time_out_step, disconnected, unsubscribed,
  fresh,
}
use real_time_ai_chat_backen.WebSocket.Backend.Turns.{is_reply}
use real_time_ai_chat_backen.WebSocket.Backend.Payloads.{
  AllCarry, enter-AllCarry, unsubscribe-AllCarry,
}

module _ (platform : Platform) (wire : Wire) (published : List (Uuid × Outbound)) where
  -- The payload is the text of a frame that was published for the conversation.
  abbrev pub IsPublished : Uuid → Raw → Type 0
  IsPublished i raw =
      (f : Outbound) × Memᴰ (i, f) published × (raw ≡ characters (serialize platform wire f))

module _ (platform : Platform) (wire : Wire) (published : List (Uuid × Outbound))
    (replied : WebSocket → List Outbound) where
  -- The frame is a reply that this client's own message loop has sent, or one that was published for the
  -- conversation, but for the white space around its texts.
  abbrev pub IsAccounted : WebSocket → Uuid → Outbound → Type 0
  IsAccounted w i f =
      ((is_reply f ≡ true) × Memᴰ f (replied w))
      ⊎ ((g : Outbound) × Memᴰ (i, g) published × (f ≡ stripped platform wire g))

  -- Every client keeps its conversation, a socket is registered for no other, and the payloads of
  -- the tasks and the frames of the sockets were published for theirs.
  pub record IsTidy (conversation_of : WebSocket → Uuid) (s : System) : Type 0 where
    pub named : (c : WebSocket) → (s.clients c).conversation_id ≡ conversation_of c
    pub valid : IsValid s.manager
    pub own : (i : Uuid) (w : WebSocket) → connected i w s.manager ≡ true → conversation_of w ≡ i
    pub carried : AllCarry (IsPublished platform wire published) s.pubsub
    pub streamed : (w : WebSocket) → All (IsAccounted w (conversation_of w)) (s.streams w)

  module _ (conversation_of : WebSocket → Uuid) where
    pub fresh-IsTidy : IsTidy conversation_of (fresh conversation_of)
    fresh-IsTidy = record {
      named = λ c. refl;
      valid = tt;
      own = λ i w h. absurd (cc);
      carried = λ t raw h. absurd (cc);
      streamed = λ w. tt;
    }

    pub set_phase-IsTidy :
        (c : WebSocket) (phase : Phase) (s : System)
        → IsTidy conversation_of s
        → IsTidy conversation_of (set_phase c phase s)
    set_phase-IsTidy c phase s h = record {
      named = λ d. ground (arith, h.named d);
      valid = h.valid;
      own = h.own;
      carried = h.carried;
      streamed = h.streamed;
    }

    pub with_pubsub-IsTidy :
        (p : PubSub) (s : System)
        → AllCarry (IsPublished platform wire published) p
        → IsTidy conversation_of s
        → IsTidy conversation_of (record s { pubsub = p })
    with_pubsub-IsTidy p s k h = record {
      named = h.named;
      valid = h.valid;
      own = h.own;
      carried = k;
      streamed = h.streamed;
    }

    insert-IsTidy :
        (c : WebSocket) (ok : Bool) (s : System)
        → IsTidy conversation_of s
        → IsTidy conversation_of (client_step accepting c (s.clients c).conversation_id ok s)
    unfolding client_step connect
    insert-IsTidy c false s h = set_phase-IsTidy c gone s h
    insert-IsTidy c true s h =
        let i = (s.clients c).conversation_id in
        record {
          named = λ d. ground (arith, h.named d);
          valid = insert-IsValid i c s.manager h.valid;
          own = λ j w k. ground (arith, connected-insert i j c w s.manager, h.own j w, h.named c);
          carried = h.carried;
          streamed = h.streamed;
        }

    disconnected-IsTidy :
        (c : WebSocket) (phase : Phase) (s : System)
        → IsTidy conversation_of s
        → IsTidy conversation_of (disconnected c (s.clients c).conversation_id phase s)
    unfolding disconnected disconnect
    disconnected-IsTidy c phase s h =
        let i = (s.clients c).conversation_id in
        record {
          named = λ d. ground (arith, h.named d);
          valid = remove_connection-IsValid i c s.manager h.valid;
          own = λ j w k.
              ground (arith, connected-remove_connection i j c w s.manager h.valid, h.own j w);
          carried = h.carried;
          streamed = h.streamed;
        }

    unsubscribed-IsTidy :
        (c : WebSocket) (force : Bool) (phase : Phase) (s : System)
        → IsTidy conversation_of s
        → IsTidy conversation_of (unsubscribed c (s.clients c).conversation_id force phase s)
    unfolding unsubscribed
    unsubscribed-IsTidy c force phase s h =
        let i = (s.clients c).conversation_id in
        let n = connection_count (some i) s.manager in
        let kept =
          unsubscribe-AllCarry (IsPublished platform wire published) force n i s.pubsub h.carried in
        set_phase-IsTidy c phase _ (with_pubsub-IsTidy _ s kept h)

    after_enter-IsTidy :
        (c : WebSocket) (r : Option Task × PubSub) (s : System)
        → AllCarry (IsPublished platform wire published) r.1
        → IsTidy conversation_of s
        → IsTidy conversation_of (after_enter c r s)
    after_enter-IsTidy c (none, p) s k h = set_phase-IsTidy c serving _ (with_pubsub-IsTidy p s k h)
    after_enter-IsTidy c (some t, p) s k h =
        set_phase-IsTidy c (waiting t (p.states t).ready) _ (with_pubsub-IsTidy p s k h)

    pub client_step-IsTidy :
        (phase : Phase) (c : WebSocket) (ok : Bool) (s : System)
        → IsTidy conversation_of s
        → IsTidy conversation_of (client_step phase c (s.clients c).conversation_id ok s)
    unfolding client_step
    client_step-IsTidy accepting c ok s h = insert-IsTidy c ok s h
    client_step-IsTidy entering c ok s h =
        let i = (s.clients c).conversation_id in
        after_enter-IsTidy c (enter_subscription i s.pubsub) s
          (enter-AllCarry (IsPublished platform wire published) i s.pubsub h.carried) h
    client_step-IsTidy (waiting t true) c ok s h = set_phase-IsTidy c serving s h
    client_step-IsTidy (waiting t false) c ok s h = h
    client_step-IsTidy timed_out c ok s h = unsubscribed-IsTidy c true refused s h
    client_step-IsTidy refused c ok s h = disconnected-IsTidy c dropping s h
    client_step-IsTidy dropping c ok s h = unsubscribed-IsTidy c true gone s h
    client_step-IsTidy serving c ok s h = set_phase-IsTidy c leaving s h
    client_step-IsTidy leaving c ok s h = disconnected-IsTidy c released s h
    client_step-IsTidy released c ok s h = unsubscribed-IsTidy c false gone s h
    client_step-IsTidy gone c ok s h = h

    pub time_out_step-IsTidy :
        (phase : Phase) (c : WebSocket) (s : System)
        → IsTidy conversation_of s
        → IsTidy conversation_of (time_out_step phase c s)
    time_out_step-IsTidy (waiting t woken) c s h = set_phase-IsTidy c timed_out s h
    time_out_step-IsTidy _ c s h = h
