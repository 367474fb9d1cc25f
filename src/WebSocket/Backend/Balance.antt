-- ===== src/WebSocket/Backend/Balance.antt =====
-- How many messages and answers the loops of app/services/chat.py have published.
use real_time_ai_chat_backen.Base.{
  ℕ, ◌+◌, ◌≤◌, ◌≡◌, refl, String, Bool, List, [], ◌∷◌, ◌++◌, arith, ◌==◌, str_eq, if◌then◌else◌,
}
use real_time_ai_chat_backen.WebSocket.Backend.{next_progress}
use real_time_ai_chat_backen.Errors.{Result, ok, err}
use real_time_ai_chat_backen.Models.{Uuid}
use real_time_ai_chat_backen.WebSocket.Protocol.{
  Outbound, message_created, assistant_message, error, ping_frame, pong_frame,
}
use real_time_ai_chat_backen.WebSocket.Chat.{mock_assistant_reply}
use real_time_ai_chat_backen.WebSocket.Chat.Backed.{Asks}
use real_time_ai_chat_backen.WebSocket.Chat.Turns.{
  Progress, idle, publishing, replying, publishing_reply,
}

abbrev pub one_if : Bool → ℕ
one_if b = if b then 1 else 0

-- One for an answer with this text, and for a message of a user that calls for it.
abbrev pub answer : String → Outbound → ℕ
answer text (assistant_message p) = one_if (str_eq p.content text)
answer text _ = 0

unfoldable pub question : String → Outbound → ℕ
question text (message_created p) = one_if (str_eq (mock_assistant_reply p.content) text)
question text _ = 0

-- The answers with this text that a message loop has still to give.
unfoldable pub owes : String → Progress → ℕ
owes text (replying content) = one_if (str_eq (mock_assistant_reply content) text)
owes text (publishing_reply f) = answer text f
owes text idle = 0
owes text (publishing content f) = 0

abbrev pub owes_after : String → Result Progress → ℕ
owes_after text (ok p) = owes text p
owes_after text (err e) = 0

-- The answers with this text that were published for a conversation, and the messages that call for
-- it.
unfoldable pub answers : Uuid → String → List (Uuid × Outbound) → ℕ
answers i text [] = 0
answers i text (x ∷ xs) = (if x.0 == i then answer text x.1 else 0) + answers i text xs

unfoldable pub questions : Uuid → String → List (Uuid × Outbound) → ℕ
unfolding question
questions i text [] = 0
questions i text (x ∷ xs) = (if x.0 == i then question text x.1 else 0) + questions i text xs

pub answers-snoc :
    (i : Uuid) (text : String) (xs : List (Uuid × Outbound)) (y : Uuid × Outbound)
    → answers i text (xs ++ y ∷ []) ≡ answers i text xs + (if y.0 == i then answer text y.1 else 0)
unfolding answers
answers-snoc i text [] y = omega arith
answers-snoc i text (x ∷ xs) y = omega (arith, answers-snoc i text xs y)

pub questions-snoc :
    (i : Uuid) (text : String) (xs : List (Uuid × Outbound)) (y : Uuid × Outbound)
    → questions i text (xs ++ y ∷ [])
      ≡ questions i text xs + (if y.0 == i then question text y.1 else 0)
unfolding questions
questions-snoc i text [] y = omega arith
questions-snoc i text (x ∷ xs) y = omega (arith, questions-snoc i text xs y)

-- Whoever has published a message of a user owes no more than what it calls for.
pub asked-owes :
    (text content : String) (f : Outbound)
    → Asks content f
    → answer text f + owes text (replying content) ≤ question text f
unfolding owes question
asked-owes text content (message_created p) h = rw h (omega arith)
asked-owes text content (assistant_message p) h = absurd h
asked-owes text content (error c t) h = absurd h
asked-owes text content (ping_frame x) h = absurd h
asked-owes text content (pong_frame x) h = absurd h

-- An answer that is stored as it was made is owed as before.
pub stored-owes :
    (text content : String) (f : Outbound) (stored : String)
    → answer text f ≡ one_if (str_eq stored text)
    → stored ≡ mock_assistant_reply content
    → owes text (publishing_reply f) ≤ owes text (replying content)
unfolding owes
stored-owes text content f stored e h = rw (e, h) (omega arith)

pub idle-owes : (text : String) (n : ℕ) → owes text idle ≤ n
unfolding owes
idle-owes text n = omega arith

pub publishing-owes :
    (text content : String) (f : Outbound) (n : ℕ) → owes text (publishing content f) ≤ n
unfolding owes
publishing-owes text content f n = omega arith

-- Whoever has published an answer owes it no more.
pub given-owes :
    (text : String) (f : Outbound)
    → answer text f + owes text idle ≤ owes text (publishing_reply f) + question text f
unfolding owes
given-owes text f = omega arith

pub next-owes :
    (text : String) (r : Result Progress) → owes text (next_progress r) ≡ owes_after text r
unfolding owes
next-owes text (ok p) = refl
next-owes text (err e) = refl
