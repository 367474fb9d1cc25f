-- ===== src/WebSocket/Backend/Rows.antt =====
-- What stays true of the frames of app/services/chat.py and app/websocket when there is more of the
-- rows or of the published frames.
use mathlib.Core.List.{Memᴰ}
use mathlib.Core.List.Memᴰ
use mathlib.Core.Path.{subst}
use package.text.Mathlib.TextLemmas.{append_cancel_left}
use real_time_ai_chat_backen.Base.{
  drop, length, ◌++◌, refl, ◌≡◌, ◌∙◌, sym, ap, inl, inr, some, List, [], ◌∷◌, arith, All,
}
use real_time_ai_chat_backen.Errors.{Result, ok, err}
use real_time_ai_chat_backen.Models.{Uuid, Message, message_by_id}
use real_time_ai_chat_backen.Models.Validity.{All-imp}
use real_time_ai_chat_backen.Platform.{Platform}
use real_time_ai_chat_backen.WebSocket.Manager.{WebSocket}
use real_time_ai_chat_backen.WebSocket.Protocol.{
  Outbound, message_created, assistant_message, error, ping_frame, pong_frame,
}
use real_time_ai_chat_backen.WebSocket.Protocol.Wire.{Wire, IsFaithful}
use real_time_ai_chat_backen.WebSocket.PubSub.{conversation_channel}
use real_time_ai_chat_backen.WebSocket.Chat.Backed.{Backed}
use real_time_ai_chat_backen.WebSocket.Chat.Turns.{
  Progress, idle, publishing, replying, publishing_reply,
}
use real_time_ai_chat_backen.WebSocket.FanOut.{System}
use real_time_ai_chat_backen.WebSocket.Backend.{next_progress}
use real_time_ai_chat_backen.WebSocket.Backend.Order.{grown-IsAsked, grown-Answers}
use real_time_ai_chat_backen.WebSocket.Backend.Turns.{InHand, Held}
use real_time_ai_chat_backen.WebSocket.Backend.Streams.{IsAccounted, IsTidy}

-- The channels of different conversations are different.
pub conversation_channel-apart :
    (platform : Platform) (wire : Wire) (i j : Uuid)
    → IsFaithful platform wire
    → conversation_channel platform j ≡ conversation_channel platform i
    → j ≡ i
unfolding conversation_channel
conversation_channel-apart platform wire i j faithful h =
    let texts =
      append_cancel_left "chat:conversation:" (platform.uuid_str j) (platform.uuid_str i) h in
    let ids =
      sym (faithful.parse-uuid_str j) ∙ ap wire.parse_uuid texts ∙ faithful.parse-uuid_str i in
    ground (arith, ids)

-- A message that is there stays what it shows, whatever rows are added.
pub kept-Backed :
    (ms ns : List Message) (x : Uuid × Outbound)
    → ((i : Uuid) (m : Message) → message_by_id i ms ≡ some m → message_by_id i ns ≡ some m)
    → Backed ms x
    → Backed ns x
kept-Backed ms ns (i, message_created p) k (m, row, shows) = (m, k p.id m row, shows)
kept-Backed ms ns (i, assistant_message p) k (m, row, shows) = (m, k p.id m row, shows)
kept-Backed ms ns (i, error c t) k h = absurd h
kept-Backed ms ns (i, ping_frame x) k h = absurd h
kept-Backed ms ns (i, pong_frame x) k h = absurd h

pub kept-InHand :
    (ms ns : List Message) (p q : List (Uuid × Outbound)) (i user_id : Uuid) (x : Progress)
    → ((f : Uuid × Outbound) → Backed ms f → Backed ns f)
    → ((f : Uuid × Outbound) → Memᴰ f p → Memᴰ f q)
    → InHand ms p i user_id x
    → InHand ns q i user_id x
kept-InHand ms ns p q i user_id (publishing content f) k grown (b, author, asks) =
    (k (i, f) b, author, asks)
kept-InHand ms ns p q i user_id (publishing_reply f) k grown (b, author, answers) =
    (k (i, f) b, author, grown-Answers p q (i, f) grown answers)
kept-InHand ms ns p q i user_id idle k grown h = tt
kept-InHand ms ns p q i user_id (replying content) k grown h = grown-IsAsked p q i content grown h

pub Held-InHand :
    (ms : List Message) (published : List (Uuid × Outbound)) (i user_id : Uuid)
    (r : Result Progress)
    → Held ms published i user_id r
    → InHand ms published i user_id (next_progress r)
Held-InHand ms published i user_id (ok p) h = h
Held-InHand ms published i user_id (err e) h = tt

pub All-Memᴰ : {A : Type 0} (P : A → Type 0) (xs : List A) (x : A) → All P xs → Memᴰ x xs → P x
All-Memᴰ P [] x h m = absurd (Memᴰ.not-nil m)
All-Memᴰ P (y ∷ ys) x h (Memᴰ.head e) = subst P (sym e) h.0
All-Memᴰ P (y ∷ ys) x h (Memᴰ.tail m) = All-Memᴰ P ys x h.1 m

pub All-members :
    {A : Type 0} (P : A → Type 0) (xs : List A) → ((x : A) → Memᴰ x xs → P x) → All P xs
All-members P [] k = tt
All-members P (x ∷ xs) k = (k x (Memᴰ.head refl), All-members P xs (λ y m. k y (Memᴰ.tail m)))

pub drop-append : {A : Type 0} (xs ys : List A) → drop (length xs) (xs ++ ys) ≡ ys
unfolding drop
drop-append [] ys = refl
drop-append (x ∷ xs) ys = drop-append xs ys

module _ (platform : Platform) (wire : Wire) where
  grown-IsAccounted :
      (p q : List (Uuid × Outbound)) (own own' : WebSocket → List Outbound) (w : WebSocket)
      (i : Uuid) (f : Outbound)
      → ((x : Uuid × Outbound) → Memᴰ x p → Memᴰ x q)
      → ((g : Outbound) → Memᴰ g (own w) → Memᴰ g (own' w))
      → IsAccounted platform wire p own w i f
      → IsAccounted platform wire q own' w i f
  grown-IsAccounted p q own own' w i f k more (inl (reply, mine)) = inl (reply, more f mine)
  grown-IsAccounted p q own own' w i f k more (inr (g, member, same)) =
      inr (g, k (i, g) member, same)

  -- More has been published, and more replies have been sent.
  pub grown-IsTidy :
      (p q : List (Uuid × Outbound)) (own own' : WebSocket → List Outbound)
      (conversation_of : WebSocket → Uuid) (s : System)
      → ((x : Uuid × Outbound) → Memᴰ x p → Memᴰ x q)
      → ((w : WebSocket) (g : Outbound) → Memᴰ g (own w) → Memᴰ g (own' w))
      → IsTidy platform wire p own conversation_of s
      → IsTidy platform wire q own' conversation_of s
  grown-IsTidy p q own own' conversation_of s k more h = record {
    named = h.named;
    valid = h.valid;
    own = h.own;
    carried = λ t raw e. let (f, member, same) = h.carried t raw e in (f, k _ member, same);
    streamed = λ w.
        All-imp _ _ (s.streams w)
          (λ f. grown-IsAccounted p q own own' w (conversation_of w) f k (more w)) (h.streamed w);
  }
