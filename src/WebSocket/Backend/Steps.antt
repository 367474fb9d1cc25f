-- ===== src/WebSocket/Backend/Steps.antt =====
-- The way to show what stays true of the published frames and of where the message loops of
-- app/services/chat.py are: only the turns of the loops count.
use mathlib.Core.Path.{subst}
use real_time_ai_chat_backen.Base.{◌≡◌, refl, Bool, true, false, List, [], if-holds}
use real_time_ai_chat_backen.Errors.{Result}
use real_time_ai_chat_backen.Models.{Uuid}
use real_time_ai_chat_backen.Platform.{Platform}
use real_time_ai_chat_backen.Session.Atomic.{IsQuiet}
use real_time_ai_chat_backen.WebSocket.Manager.{WebSocket}
use real_time_ai_chat_backen.WebSocket.Protocol.{Outbound}
use real_time_ai_chat_backen.WebSocket.PubSub.{update}
use real_time_ai_chat_backen.WebSocket.Protocol.Wire.{Wire, IsFaithful}
use real_time_ai_chat_backen.WebSocket.Chat.{World, Surroundings, Chat}
use real_time_ai_chat_backen.WebSocket.Chat.Turns.{
  Progress, idle, publishing, replying, publishing_reply, receive, resume,
}
use real_time_ai_chat_backen.WebSocket.Backend.{
  Backend, Step, fan_out, receiving, resuming, elsewhere, world, next_progress, is_idle, is_serving,
  take_turn, proceed, Reachable, opened, stepped,
}
use real_time_ai_chat_backen.WebSocket.Backend.Turns.{Turned}
use real_time_ai_chat_backen.WebSocket.Backend.Turns.Loop.{receive-Turned, resume-Turned}
use real_time_ai_chat_backen.WebSocket.Backend.Settled.{IsSettled, reachable-IsSettled}

idle_of : (p : Progress) → is_idle p ≡ true → idle ≡ p
idle_of idle h = refl
idle_of (publishing content f) h = absurd (cc)
idle_of (replying content) h = absurd (cc)
idle_of (publishing_reply f) h = absurd (cc)

module _ (platform : Platform) (wire : Wire) (faithful : IsFaithful platform wire)
    (around : WebSocket → Surroundings) (quiet : (c : WebSocket) → IsQuiet (around c).server)
    (user_of conversation_of : WebSocket → Uuid) where
  -- Every turn of a client's loop keeps the property, if the invariant of the backend holds.
  abbrev pub TurnsKeep : (List (Uuid × Outbound) → (WebSocket → Progress) → Type 0) → Type 1
  TurnsKeep P =
      (c : WebSocket) (r : Result Progress) (w : World) (b : Backend)
      → Turned (conversation_of c) (user_of c) (b.progress c) (world c b) r w
      → IsSettled platform wire faithful around quiet user_of conversation_of b
      → P b.published b.progress
      → P w.published (update b.progress c (next_progress r))

  module _ (P : List (Uuid × Outbound) → (WebSocket → Progress) → Type 0) (keep : TurnsKeep P) where
    take_turn_keeps :
        (ready : Bool) (c : WebSocket) (turn : Chat Progress) (b : Backend)
        → (let (r, w) = turn (world c b) in
            Turned (conversation_of c) (user_of c) (b.progress c) (world c b) r w)
        → IsSettled platform wire faithful around quiet user_of conversation_of b
        → P b.published b.progress
        → P (take_turn ready c turn b).published (take_turn ready c turn b).progress
    take_turn_keeps true c turn b turned settled h =
        keep c (turn (world c b)).0 (turn (world c b)).1 b turned settled h
    take_turn_keeps false c turn b turned settled h = h

    proceed_keeps :
        (x : Step) (b : Backend)
        → IsSettled platform wire faithful around quiet user_of conversation_of b
        → P b.published b.progress
        → let v = proceed platform wire around user_of x b in P v.published v.progress
    unfolding proceed
    proceed_keeps (fan_out a) b settled h = h
    proceed_keeps (receiving c r) b settled h = rw (settled.tidy.named c) (
        if-holds (λ (v : Backend). P v.published v.progress) (is_idle (b.progress c))
          (λ waits.
            take_turn_keeps (is_serving (b.system.clients c).phase) c
              (receive platform (around c) (conversation_of c) (user_of c) r) b
              (subst
                (λ p.
                  let (q, w) =
                    receive platform (around c) (conversation_of c) (user_of c) r (world c b) in
                  Turned (conversation_of c) (user_of c) p (world c b) q w)
                (idle_of (b.progress c) waits)
                (receive-Turned platform (around c) (conversation_of c) (user_of c) (quiet c) r
                  (world c b)))
              settled h)
          (λ _. h))
    proceed_keeps (resuming c) b settled h = rw (settled.tidy.named c) (
        take_turn_keeps (is_serving (b.system.clients c).phase) c
          (resume platform (around c) (conversation_of c) (user_of c) (b.progress c)) b
          (resume-Turned platform (around c) (conversation_of c) (user_of c) (quiet c)
            (b.progress c) (world c b) (settled.in_hand c))
          settled h)
    proceed_keeps (elsewhere t) b settled h = h

    pub reachable_keeps :
        (b : Backend)
        → P [] (λ c. idle)
        → Reachable platform wire around user_of conversation_of b
        → P b.published b.progress
    reachable_keeps _ start (opened s) = start
    reachable_keeps _ start (stepped {b} x r allowed) =
        proceed_keeps x b
          (reachable-IsSettled platform wire faithful around quiet user_of conversation_of b r)
          (reachable_keeps b start r)
