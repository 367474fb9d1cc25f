-- ===== src/WebSocket/Backend/Order.antt =====
-- The order in which app/services/chat.py publishes the messages of the users and the answers to
-- them.
use mathlib.Core.List.{Memᴰ, append_assoc, append-nil}
use mathlib.Core.Path.{subst}
use real_time_ai_chat_backen.Base.{◌≡◌, sym, String, List, [], ◌∷◌, ◌++◌}
use real_time_ai_chat_backen.Models.{Uuid}
use real_time_ai_chat_backen.WebSocket.Protocol.{
  Outbound, message_created, assistant_message, error, ping_frame, pong_frame,
}
use real_time_ai_chat_backen.WebSocket.Chat.{mock_assistant_reply}
use real_time_ai_chat_backen.WebSocket.Chat.Backed.{Asks}

-- A message of a user with this content has been published for the conversation.
abbrev pub IsAsked : List (Uuid × Outbound) → Uuid → String → Type 0
IsAsked earlier i content = (f : Outbound) × Memᴰ (i, f) earlier × Asks content f

-- An answer is the reply to a message of a user that has been published for the same conversation.
abbrev pub Answers : List (Uuid × Outbound) → Uuid × Outbound → Type 0
Answers earlier (i, assistant_message p) =
    (content : String) × IsAsked earlier i content × (p.content ≡ mock_assistant_reply content)
Answers earlier _ = Unit {0}

-- Every answer among the frames comes after what it answers.
abbrev pub IsOrdered : List (Uuid × Outbound) → List (Uuid × Outbound) → Type 0
IsOrdered earlier [] = Unit {0}
IsOrdered earlier (x ∷ later) = Answers earlier x × IsOrdered (earlier ++ x ∷ []) later

pub Answers-Asks :
    (earlier : List (Uuid × Outbound)) (i : Uuid) (content : String) (f : Outbound)
    → Asks content f
    → Answers earlier (i, f)
Answers-Asks earlier i content (message_created p) h = tt
Answers-Asks earlier i content (assistant_message p) h = absurd h
Answers-Asks earlier i content (error c t) h = tt
Answers-Asks earlier i content (ping_frame x) h = tt
Answers-Asks earlier i content (pong_frame x) h = tt

-- What has been asked stays so when more is published.
pub grown-IsAsked :
    (p q : List (Uuid × Outbound)) (i : Uuid) (content : String)
    → ((x : Uuid × Outbound) → Memᴰ x p → Memᴰ x q)
    → IsAsked p i content
    → IsAsked q i content
grown-IsAsked p q i content k (f, member, asks) = (f, k (i, f) member, asks)

pub grown-Answers :
    (p q : List (Uuid × Outbound)) (x : Uuid × Outbound)
    → ((x : Uuid × Outbound) → Memᴰ x p → Memᴰ x q)
    → Answers p x
    → Answers q x
grown-Answers p q (i, message_created m) k h = tt
grown-Answers p q (i, assistant_message m) k (content, asked, same) =
    (content, grown-IsAsked p q i content k asked, same)
grown-Answers p q (i, error c t) k h = tt
grown-Answers p q (i, ping_frame x) k h = tt
grown-Answers p q (i, pong_frame x) k h = tt

before_snoc :
    (earlier xs : List (Uuid × Outbound)) (y : Uuid × Outbound)
    → IsOrdered earlier xs
    → Answers (earlier ++ xs) y
    → IsOrdered earlier (xs ++ y ∷ [])
before_snoc earlier [] y h k = (subst (λ e. Answers e y) (append-nil earlier) k, tt)
before_snoc earlier (x ∷ xs) y h k = (
  h.0,
  before_snoc (earlier ++ x ∷ []) xs y h.1
      (subst (λ e. Answers e y) (sym (append_assoc earlier (x ∷ []) xs)) k),
)

-- One more frame is published.
pub IsOrdered-snoc :
    (xs : List (Uuid × Outbound)) (y : Uuid × Outbound)
    → IsOrdered [] xs
    → Answers xs y
    → IsOrdered [] (xs ++ y ∷ [])
IsOrdered-snoc xs y h k = before_snoc [] xs y h k
