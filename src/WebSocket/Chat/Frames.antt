-- ===== src/WebSocket/Chat/Frames.antt =====
-- What a message is saved as by app/services/chat.py.
use real_time_ai_chat_backen.Base.{
  ℕ, ◌+◌, ◌≡◌, refl, String, false, Option, none, some, [], arith, ◌==◌, find-snoc, Bool-cases, inl,
  inr,
}
use real_time_ai_chat_backen.Errors.{Result, ok, err, Result-cases}
use real_time_ai_chat_backen.Models.{
  Uuid, MessageRole, Message, Tables, insert_message, message_by_id, apply_write, check_write,
}
use real_time_ai_chat_backen.Platform.{Platform}
use real_time_ai_chat_backen.Session.{State}
use real_time_ai_chat_backen.Session.Atomic.{IsQuiet}
use real_time_ai_chat_backen.Repositories.Messages.{messages_queries, new_message}
use real_time_ai_chat_backen.WebSocket.Chat.{Surroundings, save_message}

-- What saving a message with these fields has made of the tables, by how it ended.
abbrev pub Saves :
    Uuid → MessageRole → String → Option Uuid → Tables → Result Message → Tables → Type 0
Saves i role content sender before (err e) after = after ≡ before
Saves i role content sender before (ok m) after =
    (after ≡ apply_write (insert_message m) before)
    × (message_by_id m.id before.messages ≡ none)
    × (m.conversation_id ≡ i)
    × (m.role ≡ role)
    × (m.content ≡ content)
    × (m.sender_id ≡ sender)

pub stored :
    (m : Message) (t : Tables)
    → check_write (insert_message m) t ≡ ok tt
    → (message_by_id m.id t.messages ≡ none)
      × (message_by_id m.id (apply_write (insert_message m) t).messages ≡ some m)
unfolding check_write apply_write
stored m t h =
    (ground arith, find-snoc (λ n. n.id == m.id) t.messages m (ground arith) (ground arith))

module _ (platform : Platform) (around : Surroundings) (quiet : IsQuiet around.server) (i : Uuid)
    (role : MessageRole) (content : String) (sender : Option Uuid) (t : Tables) (tick : ℕ) where
  abbrev fresh : State
  fresh = record { committed = t; pending = []; tick = tick }

  abbrev row : Message
  row = new_message around.server i role content sender fresh

  abbrev Saved : Type 0
  Saved =
      let (r, s) = save_message platform around i role content sender fresh in
      Saves i role content sender t r s.committed

  -- The flush has been admitted: what is left may fail in the refresh or in the commit.
  saved_after_flush :
      around.server.fault_at tick ≡ false → check_write (insert_message row) t ≡ ok tt → Saved
  unfolding save_message messages_queries
  saved_after_flush works fits = elim (Bool-cases (around.server.fault_at (tick + 1))) [
    | inl fault ↦ simp (works, fault, fits, quiet.others_same) refl
    | inr works₁ ↦ elim (Bool-cases (around.server.fault_at (tick + 1 + 1))) [
      | inl fault ↦ simp (works, works₁, fault, fits, (stored row t fits).1, quiet.others_same) refl
      | inr works₂ ↦
          simp (works, works₁, works₂, fits, (stored row t fits).1, quiet.others_same)
            (refl, (stored row t fits).0, refl, refl, refl, refl)
    ]
  ]

  -- In a session that has written nothing, and if no other session writes meanwhile, a message is
  -- saved as it was given and returned as it is stored, or nothing is committed.
  pub save_message-Saves : Saved
  unfolding save_message messages_queries
  save_message-Saves = elim (Bool-cases (around.server.fault_at tick)) [
    | inl fault ↦ simp (fault, quiet.others_same) refl
    | inr works ↦ elim (Result-cases (check_write (insert_message row) t)) [
      | inl fits ↦ saved_after_flush works fits.1
      | inr refused ↦ simp (works, refused.1, quiet.others_same) refl
    ]
  ]
