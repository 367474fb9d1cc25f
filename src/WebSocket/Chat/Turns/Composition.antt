-- ===== src/WebSocket/Chat/Turns/Composition.antt =====
-- The turns of app/services/chat.py together are the handling of a frame.
use mathlib.Core.Path.{fun_ext}
use real_time_ai_chat_backen.Base.{
  ◌≡◌, refl, sym, ◌∙◌, ap, String, Bool, true, false, Option, none, some, if◌then◌else◌,
}
use real_time_ai_chat_backen.Errors.{Result, ok, err}
use real_time_ai_chat_backen.Models.{Uuid}
use real_time_ai_chat_backen.Platform.{Platform}
use real_time_ai_chat_backen.WebSocket.Protocol.{
  Json, Inbound, message_send, ping, pong, Outbound, validate_inbound,
}
use real_time_ai_chat_backen.WebSocket.Chat.{
  Received, frame, malformed, disconnected, World, Surroundings, Chat, continue, ◌>>=◌, ◌>>◌, pure,
  raise, lift, recover, try_else, created_frame, assistant_frame, publish_frame, processing_failed,
  reply, handle_message_send, handle_inbound, handle_received, send_error, send_json,
}
use real_time_ai_chat_backen.WebSocket.Chat.Turns.{
  Progress, idle, publishing, replying, begin, receive_inbound, receive, resume, all_turns,
}

module _ {A B C : Type 0} where
  continue_assoc :
      (f : A → Chat B) (g : B → Chat C) (r : Result A) (w : World)
      → (let (r', w') = continue r f w in continue r' g w') ≡ continue r (λ a. f a >>= g) w
  unfolding ◌>>=◌
  continue_assoc f g (ok a) w = refl
  continue_assoc f g (err e) w = refl

  bind_assoc :
      (m : Chat A) (f : A → Chat B) (g : B → Chat C) → ((m >>= f) >>= g) ≡ (m >>= λ a. f a >>= g)
  unfolding ◌>>=◌
  bind_assoc m f g = fun_ext λ w. continue_assoc f g (m w).0 (m w).1

  recover-bind :
      (rest : A → Chat B) (handler : Chat B) (g : B → Chat C) (r : Result A) (w : World)
      → (recover rest handler r >>= g) w ≡ recover (λ a. rest a >>= g) (handler >>= g) r w
  recover-bind rest handler g (ok a) w = refl
  recover-bind rest handler g (err e) w = refl

  -- What follows a `try` follows its body and its handler.
  try_else-bind :
      (body : Chat A) (rest : A → Chat B) (handler : Chat B) (g : B → Chat C)
      → (try_else body rest handler >>= g) ≡ try_else body (λ a. rest a >>= g) (handler >>= g)
  unfolding ◌>>=◌ try_else
  try_else-bind body rest handler g = fun_ext λ w. recover-bind rest handler g (body w).0 (body w).1

-- Two `try` blocks with the same body, whose branches are equal.
try_else-congruent :
    {A B : Type 0} (body : Chat A) {rest rest' : A → Chat B} {handler handler' : Chat B}
    → ((a : A) → rest a ≡ rest' a)
    → handler ≡ handler'
    → try_else body rest handler ≡ try_else body rest' handler'
try_else-congruent body h k = rw (fun_ext h, k) refl

module _ (platform : Platform) (around : Surroundings) (i user_id : Uuid) where
  abbrev next : Progress → Chat Progress
  next = resume platform around i user_id

  -- An action after which nothing is left stays so.
  idle_after :
      {A : Type 0} (m : Chat A) (g : Progress → Chat Progress)
      → g idle ≡ pure idle
      → ((m >> pure idle) >>= g) ≡ (m >> pure idle)
  unfolding ◌>>=◌ pure
  idle_after m g h = bind_assoc m (λ _. pure idle) g ∙ ap (λ k. m >> k) h

  after_all :
      {A B : Type 0} (m : Chat A) (f : A → Chat B)
      → ((a : A) → (f a >> pure idle) ≡ pure idle)
      → ((m >>= f) >> pure idle) ≡ (m >> pure idle)
  after_all m f h = bind_assoc m f (λ _. pure idle) ∙ ap (λ k. m >>= k) (fun_ext h)

  reply_turns :
      (content : String)
      → (next (replying content) >>= next) ≡ (reply platform around i content >> pure idle)
  unfolding resume reply pure ◌>>=◌
  reply_turns content =
      try_else-bind _ _ _ next
      ∙ try_else-congruent _
          (λ m. sym (
            after_all (publish_frame platform around i (assistant_frame m)) (λ _. pure tt)
              (λ _. refl)))
          (idle_after (processing_failed platform around) next refl)
      ∙ sym (try_else-bind _ _ _ (λ _. pure idle))

  -- What follows the publication of the user's frame.
  abbrev rest : Progress → Chat Progress
  rest q = next q >>= next

  abbrev settle : Progress → Chat Progress
  settle p = next p >>= rest

  branch_turns :
      (delivered : Bool) (content : String)
      → rest (if delivered then replying content else idle)
        ≡ ((if delivered then reply platform around i content else pure tt) >> pure idle)
  unfolding resume ◌>>=◌ pure
  branch_turns true content = reply_turns content
  branch_turns false content = refl

  publishing_turns :
      (content : String) (f : Outbound)
      → settle (publishing content f) ≡ (
          (do
            delivered ← publish_frame platform around i f
            if delivered then reply platform around i content else pure tt)
          >> pure idle)
  unfolding resume pure ◌>>=◌
  publishing_turns content f =
      bind_assoc (publish_frame platform around i f)
        (λ delivered. pure (if delivered then replying content else idle)) rest
      ∙ ap (λ k. publish_frame platform around i f >>= k)
          (fun_ext (λ delivered. branch_turns delivered content))
      ∙ sym (bind_assoc (publish_frame platform around i f) _ (λ _. pure idle))

  begin_turns :
      (content : String)
      → (begin platform around i user_id content >>= settle)
        ≡ (handle_message_send platform around i user_id content >> pure idle)
  unfolding begin handle_message_send ◌>>=◌ pure resume
  begin_turns content =
      try_else-bind _ _ _ settle
      ∙ try_else-congruent _
          (λ m.
            bind_assoc (lift (created_frame m)) _ settle
            ∙ ap (λ k. lift (created_frame m) >>= k) (fun_ext (publishing_turns content))
            ∙ sym (bind_assoc (lift (created_frame m)) _ (λ _. pure idle)))
          (idle_after (processing_failed platform around) settle refl)
      ∙ sym (try_else-bind _ _ _ (λ _. pure idle))

  inbound_turns :
      (raw : Json) (inbound : Option Inbound)
      → (receive_inbound platform around i user_id raw inbound >>= settle)
        ≡ (handle_inbound platform around i user_id raw inbound >> pure idle)
  unfolding resume pure ◌>>=◌
  inbound_turns raw none = idle_after (send_error platform around _ _) settle refl
  inbound_turns raw (some (message_send content)) = begin_turns content
  inbound_turns raw (some (ping x)) = idle_after (send_json platform around _) settle refl
  inbound_turns raw (some (pong _)) = idle_after (send_error platform around _ _) settle refl

  -- The turns of a frame, with nothing between them, do what the loop does with it: the same
  -- rows, the same frames sent and published, and the same exception or none; and then nothing is
  -- left to do.
  pub all_turns-handle_received :
      (r : Received) (w : World)
      → all_turns platform around i user_id r w
        ≡ (handle_received platform around i user_id r >> pure idle) w
  unfolding all_turns receive resume handle_received raise pure ◌>>=◌
  all_turns-handle_received disconnected w = refl
  all_turns-handle_received malformed w =
      ap (λ m. m w) (idle_after (send_error platform around _ _) settle refl)
  all_turns-handle_received (frame raw) w =
      ap (λ m. m w) (inbound_turns raw (validate_inbound platform raw))
