-- ===== src/WebSocket/Backend/Turns/Loop.antt =====
-- The turns of a message loop of app/services/chat.py, one by one.
use mathlib.Core.List.Memᴰ
use mathlib.Core.Path.{subst}
use real_time_ai_chat_backen.Base.{
  ◌≤◌, arith, ◌≡◌, refl, String, Bool, true, false, Option, none, some, [], if◌then◌else◌,
}
use real_time_ai_chat_backen.Errors.{socket_error, Result, ok, err}
use real_time_ai_chat_backen.Models.{Uuid, MessageRole, user_role, assistant_role, Message}
use real_time_ai_chat_backen.Platform.{Platform}
use real_time_ai_chat_backen.Session.{State}
use real_time_ai_chat_backen.Session.Atomic.{IsQuiet}
use real_time_ai_chat_backen.WebSocket.Protocol.{
  Json, Inbound, message_send, ping, pong, Outbound, pong_frame, validate_inbound,
}
use real_time_ai_chat_backen.WebSocket.Chat.{
  Received, frame, malformed, disconnected, World, Surroundings, Chat, ◌>>=◌, ◌>>◌, pure, raise,
  lift, recover, try_else, in_session, mock_assistant_reply, assistant_frame, save_message, persist,
  processing_failed,
}
use real_time_ai_chat_backen.WebSocket.Chat.Frames.{Saves, save_message-Saves}
use real_time_ai_chat_backen.WebSocket.Chat.Backed.{Asks, shown_id, IsStored}
use real_time_ai_chat_backen.WebSocket.Backend.Balance.{
  owes, asked-owes, stored-owes, idle-owes, publishing-owes, given-owes,
}
use real_time_ai_chat_backen.WebSocket.Backend.Once.{carried, unseen-Apart}
use real_time_ai_chat_backen.WebSocket.Backend.Order.{Answers-Asks}
use real_time_ai_chat_backen.WebSocket.Chat.Delivery.{Saves-IsStored, assistant-Backed, created_of}
use real_time_ai_chat_backen.WebSocket.Chat.Turns.{
  Progress, idle, publishing, replying, publishing_reply, begin, receive_inbound, receive, resume,
}
use real_time_ai_chat_backen.WebSocket.Backend.Turns.{
  InHand, Turned, unchanged-Turned, followed-Turned, saved-Turned,
}
use real_time_ai_chat_backen.WebSocket.Backend.Turns.Sends.{
  send_json-Turned, send_error-Turned, publish_frame-Turned,
}

module _ (platform : Platform) (around : Surroundings) (i user_id : Uuid) where
  -- What comes after the saving of a message leaves it to the next turn.
  abbrev Continues :
      Progress → MessageRole → String → Option Uuid → (Message → Chat Progress) → World → Type 0
  Continues p role content sender rest w =
      (m : Message) (s : State)
      → IsStored i role sender m (record w { store = s })
      → m.content ≡ content
      → (q : Progress) × (rest m (record w { store = s }) ≡ (ok q, record w { store = s }))
        × InHand s.committed.messages w.published i user_id q
        × ((f : Outbound) → carried q ≡ some f → shown_id f ≡ some m.id)
        × ((t : String) → owes t q ≤ owes t p)

  module _ (quiet : IsQuiet around.server) where
    -- A message is saved: the turn ends with its frame in hand, or the client is told.
    recover-Turned :
        (p : Progress) (role : MessageRole) (content : String) (sender : Option Uuid)
        (r : Result Message) (w : World) (s : State) (rest : Message → Chat Progress)
        → Saves i role content sender w.store.committed r s.committed
        → Continues p role content sender rest w
        → let handler = processing_failed platform around >> pure idle in
          let (q, v) = recover rest handler r (record w { store = s }) in Turned i user_id p w q v
    unfolding processing_failed
    recover-Turned p role content sender (ok m) w s rest saves h =
        let v : World = record w { store = s } in
        let stored = Saves-IsStored i role content sender m w.store.committed v saves in
        let (q, e, held, shows, owed) = h m s stored saves.4 in
        rw e (
          saved-Turned i user_id role content sender (ok m) p w s (ok q) saves
            (λ f c x b. unseen-Apart w.store.committed.messages m.id f x saves.1 (shows f c) b) owed
            held)
    recover-Turned p role content sender (err e) w s rest saves h =
        followed-Turned i user_id p w (record w { store = s }) _ (err e) _
          (saved-Turned i user_id role content sender (err e) p w s (err e) saves
            (λ f c. absurd (cc)) (λ t. omega arith) tt)
          (send_error-Turned platform around i user_id "message_processing_failed"
            "Unable to process message" (record w { store = s }))

    persist-Turned :
        (p : Progress) (role : MessageRole) (content : String) (sender : Option Uuid)
        (rest : Message → Chat Progress) (w : World)
        → Continues p role content sender rest w
        → let handler = processing_failed platform around >> pure idle in
          let saving = persist platform around i role content sender in
          let (q, v) = try_else saving rest handler w in Turned i user_id p w q v
    unfolding persist in_session try_else
    persist-Turned p role content sender rest w h =
        let (r, s) =
          save_message platform around i role content sender (record w.store { pending = [] }) in
        recover-Turned p role content sender r w (record s { pending = [] }) rest
          (save_message-Saves platform around quiet i role content sender w.store.committed
            w.store.tick)
          h

    begin-Turned :
        (content : String) (w : World)
        → let (r, v) = begin platform around i user_id content w in Turned i user_id idle w r v
    unfolding begin lift ◌>>=◌ pure
    begin-Turned content w =
        persist-Turned idle user_role content (some user_id) _ w (λ m s stored same.
          let (f, e, author, asks, shows, backed) =
            created_of platform around quiet m user_id stored.sender_lem in
          (
            publishing content f,
            rw e refl,
            (backed i (record w { store = s }) stored, author, subst (λ t. Asks t f) same asks),
            λ g c. cc,
            λ t. publishing-owes t content f _,
          ))

    inbound-Turned :
        (raw : Json) (inbound : Option Inbound) (w : World)
        → let (r, v) = receive_inbound platform around i user_id raw inbound w in
          Turned i user_id idle w r v
    inbound-Turned raw none w = send_error-Turned platform around i user_id _ _ w
    inbound-Turned raw (some (message_send content)) w = begin-Turned content w
    inbound-Turned raw (some (ping x)) w =
        send_json-Turned platform around i user_id (pong_frame x) w refl
    inbound-Turned raw (some (pong x)) w = send_error-Turned platform around i user_id _ _ w

    pub receive-Turned :
        (received : Received) (w : World)
        → let (r, v) = receive platform around i user_id received w in Turned i user_id idle w r v
    unfolding receive raise
    receive-Turned disconnected w =
        unchanged-Turned i user_id idle w (err socket_error) refl (λ t. omega arith) tt
    receive-Turned malformed w = send_error-Turned platform around i user_id _ _ w
    receive-Turned (frame raw) w = inbound-Turned raw (validate_inbound platform raw) w

    pub resume-Turned :
        (p : Progress) (w : World)
        → InHand w.store.committed.messages w.published i user_id p
        → let (r, v) = resume platform around i user_id p w in Turned i user_id p w r v
    unfolding resume pure ◌>>=◌ assistant_frame
    resume-Turned idle w h = unchanged-Turned i user_id idle w (ok idle) refl (λ t. omega arith) tt
    resume-Turned (publishing content f) w (backed, author, asks) =
        publish_frame-Turned platform around i user_id (publishing content f) f
          (λ delivered. if delivered then replying content else idle) w refl backed author
          (Answers-Asks w.published i content f asks) tt
          (f, Memᴰ.append_right w.published (Memᴰ.head refl), asks) (done content)
          (λ t. idle-owes t _) (λ t. omega (arith, asked-owes t content f asks))
      where
        done :
            (content : String) (delivered : Bool)
            → carried (if delivered then replying content else idle) ≡ none
        done content true = refl
        done content false = refl
    resume-Turned (replying content) w asked =
        persist-Turned (replying content) assistant_role (mock_assistant_reply content) none _ w
          (λ m s stored same. (
            publishing_reply (assistant_frame m),
            refl,
            (
              assistant-Backed platform around quiet i m (record w { store = s }) stored,
              tt,
              (content, asked, same),
            ),
            λ g c. cc,
            λ t. stored-owes t content (assistant_frame m) m.content refl same,
          ))
    resume-Turned (publishing_reply f) w (backed, author, answers) =
        publish_frame-Turned platform around i user_id (publishing_reply f) f (λ _. idle) w refl
          backed author answers tt tt (λ _. refl) (λ t. idle-owes t _) (λ t. given-owes t f)
