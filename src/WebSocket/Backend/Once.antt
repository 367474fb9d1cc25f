-- ===== src/WebSocket/Backend/Once.antt =====
-- What it means that app/services/chat.py publishes no message twice.
use mathlib.Core.List.{Memᴰ}
use real_time_ai_chat_backen.Base.{◌≡◌, refl, sym, Option, none, some, List, [], ◌∷◌, ◌++◌, All}
use real_time_ai_chat_backen.Errors.{Result, ok, err}
use real_time_ai_chat_backen.Models.{Uuid, Message, message_by_id}
use real_time_ai_chat_backen.Models.Validity.{All-snoc}
use real_time_ai_chat_backen.WebSocket.Protocol.{
  Outbound, message_created, assistant_message, error, ping_frame, pong_frame,
}
use real_time_ai_chat_backen.WebSocket.Chat.Backed.{Backed, shown_id}
use real_time_ai_chat_backen.WebSocket.Chat.Turns.{
  Progress, idle, publishing, replying, publishing_reply,
}

-- The frame that a message loop is about to publish.
abbrev pub carried : Progress → Option Outbound
carried idle = none
carried (publishing content f) = some f
carried (replying content) = none
carried (publishing_reply f) = some f

abbrev pub carried_after : Result Progress → Option Outbound
carried_after (ok p) = carried p
carried_after (err e) = none

-- The frames show different messages.
abbrev pub Apart : Outbound → Outbound → Type 0
Apart f g = shown_id f ≡ shown_id g → ⊥

abbrev pub IsUnrepeated : List (Uuid × Outbound) → Type 0
IsUnrepeated [] = Unit {0}
IsUnrepeated (x ∷ xs) = All (λ y. Apart x.1 y.1) xs × IsUnrepeated xs

pub carries_nothing : {A : Type 0} (o : Option Outbound) (f : Outbound) → o ≡ none → o ≡ some f → A
carries_nothing o f e h = absurd (cc)

-- A message that is not there yet is none that a frame tells of.
pub unseen-Apart :
    (ms : List Message) (i : Uuid) (f : Outbound) (x : Uuid × Outbound)
    → message_by_id i ms ≡ none
    → shown_id f ≡ some i
    → Backed ms x
    → Apart f x.1
unseen-Apart ms i f (j, message_created p) h e (m, row, shows) = λ same. absurd (cc)
unseen-Apart ms i f (j, assistant_message p) h e (m, row, shows) = λ same. absurd (cc)
unseen-Apart ms i f (j, error c t) h e b = absurd b
unseen-Apart ms i f (j, ping_frame x) h e b = absurd b
unseen-Apart ms i f (j, pong_frame x) h e b = absurd b

-- One more frame is published, of a message that none of the others shows.
pub IsUnrepeated-snoc :
    (xs : List (Uuid × Outbound)) (y : Uuid × Outbound)
    → IsUnrepeated xs
    → ((x : Uuid × Outbound) → Memᴰ x xs → Apart y.1 x.1)
    → IsUnrepeated (xs ++ y ∷ [])
IsUnrepeated-snoc [] y h k = (tt, tt)
IsUnrepeated-snoc (x ∷ xs) y h k = (
  All-snoc (λ z. Apart x.1 z.1) xs y h.0 (λ same. k x (Memᴰ.head refl) (sym same)),
  IsUnrepeated-snoc xs y h.1 (λ z m. k z (Memᴰ.tail m)),
)
