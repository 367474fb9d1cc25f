-- ===== src/WebSocket/Backend/Turns/Sends.antt =====
-- The sending and the publication of one frame by a message loop of app/services/chat.py.
use mathlib.Core.List.{append-nil}
use mathlib.Core.List.Memᴰ
use mathlib.Core.Path.{subst}
use real_time_ai_chat_backen.Base.{
  ◌+◌, ◌≤◌, arith, ◌≡◌, refl, sym, ap, String, Bool, true, false, none, some, [], ◌∷◌, ◌++◌, length,
  Bool-cases, inl, inr,
}
use real_time_ai_chat_backen.Errors.{socket_error, ok, err}
use real_time_ai_chat_backen.Models.{Uuid}
use real_time_ai_chat_backen.Models.Validity.{All-snoc}
use real_time_ai_chat_backen.Platform.{Platform}
use real_time_ai_chat_backen.WebSocket.Protocol.{Outbound, error}
use real_time_ai_chat_backen.WebSocket.Chat.{
  World, Surroundings, ◌>>=◌, ◌>>◌, pure, try_else, send_json, send_error, publish, publish_frame,
}
use real_time_ai_chat_backen.WebSocket.Chat.Backed.{Backed, IsAuthored}
use real_time_ai_chat_backen.WebSocket.Backend.Balance.{answer, question, owes}
use real_time_ai_chat_backen.WebSocket.Backend.Once.{carried, carries_nothing}
use real_time_ai_chat_backen.WebSocket.Backend.Order.{Answers, IsOrdered-snoc}
use real_time_ai_chat_backen.WebSocket.Chat.Turns.{Progress, idle}
use real_time_ai_chat_backen.WebSocket.Backend.Turns.{
  is_reply, InHand, Turned, unchanged-Turned, sent-Turned,
}

module _ (platform : Platform) (around : Surroundings) (i user_id : Uuid) where
  -- A frame is sent, and nothing is left, or the sending has raised.
  pub send_json-Turned :
      (f : Outbound) (w : World)
      → is_reply f ≡ true
      → let (r, v) = (send_json platform around f >> pure idle) w in Turned i user_id idle w r v
  unfolding send_json ◌>>=◌ pure
  send_json-Turned f w h = elim (Bool-cases (around.send_fails (length w.sent))) [
    | inl fault ↦
        rw fault (unchanged-Turned i user_id idle w (err socket_error) refl (λ t. omega arith) tt)
    | inr works ↦ rw works (sent-Turned i user_id idle w f (ok idle) h refl (λ t. omega arith) tt)
  ]

  pub send_error-Turned :
      (code message : String) (w : World)
      → let (r, v) = (send_error platform around code message >> pure idle) w in
        Turned i user_id idle w r v
  unfolding send_error
  send_error-Turned code message w = send_json-Turned (error code message) w refl

  -- The frame of a stored message is published, or the client is told that it is not.
  pub publish_frame-Turned :
      (p : Progress) (f : Outbound) (next : Bool → Progress) (w : World)
      → carried p ≡ some f
      → Backed w.store.committed.messages (i, f)
      → IsAuthored user_id f
      → Answers w.published (i, f)
      → InHand w.store.committed.messages w.published i user_id (next false)
      → InHand w.store.committed.messages (w.published ++ (i, f) ∷ []) i user_id (next true)
      → ((delivered : Bool) → carried (next delivered) ≡ none)
      → ((t : String) → owes t (next false) ≤ owes t p)
      → ((t : String) → answer t f + owes t (next true) ≤ owes t p + question t f)
      → let (r, v) = (publish_frame platform around i f >>= λ delivered. pure (next delivered)) w in
        Turned i user_id p w r v
  unfolding publish_frame publish try_else send_error send_json ◌>>=◌ pure
  publish_frame-Turned p f next w e b author answers h k done kept given =
      elim (Bool-cases (around.publish_fails w.store.tick)) [
        | inl fault ↦ elim (Bool-cases (around.send_fails (length w.sent))) [
          | inl unsent ↦
              simp (fault, unsent)
                (unchanged-Turned i user_id p w (err socket_error) refl (λ t. omega arith) tt)
          | inr told ↦
              simp (fault, told)
                (sent-Turned i user_id p w _ (ok (next false)) refl (done false) kept h)
        ]
        | inr works ↦ rw works (record {
          rows = λ x held. held;
          grown = λ x m. Memᴰ.append_left ((i, f) ∷ []) m;
          backed = λ bs. All-snoc (Backed w.store.committed.messages) w.published (i, f) bs b;
          authored = λ x m. elim (Memᴰ.append_cases w.published m) [
            | inl earlier ↦ inl earlier
            | inr new ↦
                let is_new = Memᴰ.eq_of_singleton new in
                inr (
                  ap (λ (y : Uuid × Outbound). y.0) is_new,
                  subst (λ (y : Uuid × Outbound). IsAuthored user_id y.1) (sym is_new) author,
                )
          ];
          replies = ([], sym (append-nil w.sent), tt);
          ordered = λ o. IsOrdered-snoc w.published (i, f) o answers;
          adds = inr (f, e, refl, given);
          fresh = λ g c. carries_nothing (carried (next true)) g (done true) c;
          held = k;
        })
      ]
