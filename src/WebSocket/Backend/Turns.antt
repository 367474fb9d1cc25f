-- ===== src/WebSocket/Backend/Turns.antt =====
-- What a turn of a message loop of app/services/chat.py does to what the clients share, and the ways
-- to show it.
pub mod Sends
pub mod Loop
use mathlib.Core.List.{Memᴰ, append-nil, append_assoc}
use mathlib.Core.List.Memᴰ
use mathlib.Core.Path.{subst}
use real_time_ai_chat_backen.Base.{
  ◌+◌, ◌≤◌, arith, ◌≡◌, ◌∙◌, refl, sym, ap, ◌⊎◌, String, Bool, true, false, Option, none, some,
  List, [], ◌∷◌, ◌++◌, All, length, Bool-cases, inl, inr, if◌then◌else◌,
}
use real_time_ai_chat_backen.Errors.{socket_error, Result, ok, err}
use real_time_ai_chat_backen.Models.{Uuid, MessageRole, user_role, assistant_role, Message}
use real_time_ai_chat_backen.Models.Validity.{All-snoc, All-imp}
use real_time_ai_chat_backen.Platform.{Platform}
use real_time_ai_chat_backen.Session.{State}
use real_time_ai_chat_backen.Session.Atomic.{IsQuiet}
use real_time_ai_chat_backen.WebSocket.Protocol.{
  Json, Inbound, message_send, ping, pong, Outbound, error, pong_frame, validate_inbound,
}
use real_time_ai_chat_backen.WebSocket.Chat.{
  Received, frame, malformed, disconnected, World, Surroundings, Chat, ◌>>=◌, ◌>>◌, pure, raise,
  lift, recover, try_else, in_session, mock_assistant_reply, assistant_frame, send_json, send_error,
  publish, publish_frame, save_message, persist, processing_failed,
}
use real_time_ai_chat_backen.WebSocket.Chat.Frames.{Saves, save_message-Saves}
use real_time_ai_chat_backen.WebSocket.Chat.Backed.{Backed, IsAuthored, Asks, IsStored}
use real_time_ai_chat_backen.WebSocket.Backend.Balance.{answer, question, owes, owes_after}
use real_time_ai_chat_backen.WebSocket.Backend.Once.{carried, carried_after, Apart, carries_nothing}
use real_time_ai_chat_backen.WebSocket.Backend.Order.{IsAsked, Answers, IsOrdered}
use real_time_ai_chat_backen.WebSocket.Chat.Delivery.{
  Saves-Backed, Saves-IsStored, assistant-Backed, created_of,
}
use real_time_ai_chat_backen.WebSocket.Chat.Turns.{
  Progress, idle, publishing, replying, publishing_reply, begin, receive_inbound, receive, resume,
}

-- A frame that only the client's own message loop sends.
abbrev pub is_reply : Outbound → Bool
is_reply (error code message) = true
is_reply (pong_frame x) = true
is_reply _ = false

-- A frame that is still to be published tells of a stored message, which is the user's own, or
-- answers a published one.
abbrev pub InHand : List Message → List (Uuid × Outbound) → Uuid → Uuid → Progress → Type 0
InHand ms published i user_id (publishing content f) =
    Backed ms (i, f) × IsAuthored user_id f × Asks content f
InHand ms published i user_id (replying content) = IsAsked published i content
InHand ms published i user_id (publishing_reply f) =
    Backed ms (i, f) × IsAuthored user_id f × Answers published (i, f)
InHand ms published i user_id idle = Unit {0}

abbrev pub Held : List Message → List (Uuid × Outbound) → Uuid → Uuid → Result Progress → Type 0
Held ms published i user_id (ok p) = InHand ms published i user_id p
Held ms published i user_id (err e) = Unit {0}

-- What holds after a turn, of the messages before it and after it, of the published frames and of
-- the frames of the socket. Before the turn, the loop was at `p`.
pub record Turned (i user_id : Uuid) (p : Progress) (w : World) (r : Result Progress) (v : World)
    : Type 1 where
  pub rows :
      (x : Uuid × Outbound)
      → Backed w.store.committed.messages x
      → Backed v.store.committed.messages x
  pub grown : (x : Uuid × Outbound) → Memᴰ x w.published → Memᴰ x v.published
  pub backed :
      All (Backed w.store.committed.messages) w.published
      → All (Backed v.store.committed.messages) v.published
  pub authored :
      (x : Uuid × Outbound)
      → Memᴰ x v.published
      → Memᴰ x w.published ⊎ ((x.0 ≡ i) × IsAuthored user_id x.1)
  pub replies : (new : List Outbound) × (v.sent ≡ w.sent ++ new) × All (λ f. is_reply f ≡ true) new
  pub ordered : IsOrdered [] w.published → IsOrdered [] v.published
  pub adds :
      ((v.published ≡ w.published) × ((t : String) → owes_after t r ≤ owes t p))
      ⊎ ((f : Outbound) × (carried p ≡ some f)
          × (v.published ≡ w.published ++ (i, f) ∷ [])
          × ((t : String) → answer t f + owes_after t r ≤ owes t p + question t f))
  pub fresh :
      (f : Outbound)
      → carried_after r ≡ some f
      → (x : Uuid × Outbound) → Backed w.store.committed.messages x
      → Apart f x.1
  pub held : Held v.store.committed.messages v.published i user_id r

pub All-append :
    (P : Outbound → Type 0) (xs ys : List Outbound) → All P xs → All P ys → All P (xs ++ ys)
All-append P [] ys h k = k
All-append P (x ∷ xs) ys h k = (h.0, All-append P xs ys h.1 k)

pub unchanged-Turned :
    (i user_id : Uuid) (p : Progress) (w : World) (r : Result Progress)
    → carried_after r ≡ none
    → ((t : String) → owes_after t r ≤ owes t p)
    → Held w.store.committed.messages w.published i user_id r
    → Turned i user_id p w r w
unchanged-Turned i user_id p w r e owed h = record {
  rows = λ x b. b;
  grown = λ x m. m;
  backed = λ b. b;
  authored = λ x m. inl m;
  replies = ([], sym (append-nil w.sent), tt);
  ordered = λ o. o;
  adds = inl (refl, owed);
  fresh = λ g c. carries_nothing (carried_after r) g e c;
  held = h;
}

pub sent-Turned :
    (i user_id : Uuid) (p : Progress) (w : World) (f : Outbound) (r : Result Progress)
    → is_reply f ≡ true
    → carried_after r ≡ none
    → ((t : String) → owes_after t r ≤ owes t p)
    → Held w.store.committed.messages w.published i user_id r
    → Turned i user_id p w r (record w { sent = w.sent ++ f ∷ [] })
sent-Turned i user_id p w f r h e owed k = record {
  rows = λ x b. b;
  grown = λ x m. m;
  backed = λ b. b;
  authored = λ x m. inl m;
  replies = (f ∷ [], refl, (h, tt));
  ordered = λ o. o;
  adds = inl (refl, owed);
  fresh = λ g c. carries_nothing (carried_after r) g e c;
  held = k;
}

pub followed-Turned :
    (i user_id : Uuid) (p : Progress) (u v w : World) (q r : Result Progress)
    → Turned i user_id p u q v
    → Turned i user_id idle v r w
    → Turned i user_id p u r w
unfolding owes
followed-Turned i user_id p u v w q r h k = record {
  rows = λ x b. k.rows x (h.rows x b);
  grown = λ x m. k.grown x (h.grown x m);
  backed = λ b. k.backed (h.backed b);
  authored =
      λ x m. elim (k.authored x m) [ inl earlier ↦ h.authored x earlier | inr new ↦ inr new ];
  replies =
      let (before, first, ones) = h.replies in
      let (after, second, others) = k.replies in
      (
        before ++ after,
        rw (second, first) (append_assoc u.sent before after),
        All-append _ before after ones others,
      );
  ordered = λ o. k.ordered (h.ordered o);
  adds = elim k.adds [
    | inl (same, nothing) ↦ elim h.adds [
      | inl (before, owed) ↦ inl (same ∙ before, λ t. omega (arith, nothing t))
      | inr (f, e, added, owed) ↦ inr (f, e, same ∙ added, λ t. omega (arith, nothing t, owed t))
    ]
    | inr (f, bad, added, _) ↦ absurd (cc)
  ];
  fresh = λ f c x b. k.fresh f c x (h.rows x b);
  held = k.held;
}

pub saved-Turned :
    (i user_id : Uuid) (role : MessageRole) (content : String) (sender : Option Uuid)
    (r : Result Message) (p : Progress) (w : World) (s : State) (q : Result Progress)
    → Saves i role content sender w.store.committed r s.committed
    → ((f : Outbound)
        → carried_after q ≡ some f
        → (x : Uuid × Outbound) → Backed w.store.committed.messages x
        → Apart f x.1)
    → ((t : String) → owes_after t q ≤ owes t p)
    → Held s.committed.messages w.published i user_id q
    → Turned i user_id p w q (record w { store = s })
saved-Turned i user_id role content sender r p w s q saves fresh owed h = record {
  rows = kept;
  grown = λ x m. m;
  backed = λ b. All-imp _ _ w.published kept b;
  authored = λ x m. inl m;
  replies = ([], sym (append-nil w.sent), tt);
  ordered = λ o. o;
  adds = inl (refl, owed);
  fresh = fresh;
  held = h;
}
  where
    kept :
        (x : Uuid × Outbound) → Backed w.store.committed.messages x → Backed s.committed.messages x
    kept x = Saves-Backed i role content sender r w.store.committed s.committed x saves
