-- ===== src/WebSocket/Backend/Owed.antt =====
-- That the message loops of app/services/chat.py, all together, answer no message twice.
use real_time_ai_chat_backen.Base.{
  ℕ, ◌+◌, ◌≤◌, ◌≡◌, refl, String, false, List, [], ◌∷◌, arith, ◌==◌, inl, inr, if◌then◌else◌,
}
use real_time_ai_chat_backen.Errors.{Result}
use real_time_ai_chat_backen.Models.{Uuid}
use real_time_ai_chat_backen.Platform.{Platform}
use real_time_ai_chat_backen.Session.Atomic.{IsQuiet}
use real_time_ai_chat_backen.WebSocket.Manager.{WebSocket, contains, discard}
use real_time_ai_chat_backen.WebSocket.Manager.Invariant.{
  IsSocketSet, contains-discard, discard-IsSocketSet,
}
use real_time_ai_chat_backen.WebSocket.PubSub.{update}
use real_time_ai_chat_backen.WebSocket.Protocol.{Outbound}
use real_time_ai_chat_backen.WebSocket.Protocol.Wire.{Wire, IsFaithful}
use real_time_ai_chat_backen.WebSocket.Chat.{World, Surroundings}
use real_time_ai_chat_backen.WebSocket.Chat.Turns.{Progress, idle}
use real_time_ai_chat_backen.WebSocket.Backend.{Backend, Reachable, world, next_progress}
use real_time_ai_chat_backen.WebSocket.Backend.Balance.{
  owes, answers, questions, answers-snoc, questions-snoc, next-owes, idle-owes,
}
use real_time_ai_chat_backen.WebSocket.Backend.Turns.{Turned}
use real_time_ai_chat_backen.WebSocket.Backend.Settled.{IsSettled}
use real_time_ai_chat_backen.WebSocket.Backend.Steps.{reachable_keeps}

module _ (conversation_of : WebSocket → Uuid) (i : Uuid) (text : String) where
  -- What a loop at this place owes the conversation.
  abbrev share : WebSocket → Progress → ℕ
  share c p = if conversation_of c == i then owes text p else 0

  -- What the loops of these clients owe it.
  unfoldable pub owing : (WebSocket → Progress) → List WebSocket → ℕ
  owing progress [] = 0
  owing progress (c ∷ cs) = share c (progress c) + owing progress cs

  owing-update_other :
      (progress : WebSocket → Progress) (c : WebSocket) (p : Progress) (cs : List WebSocket)
      → contains c cs ≡ false
      → owing (update progress c p) cs ≡ owing progress cs
  unfolding owing
  owing-update_other progress c p [] h = refl
  owing-update_other progress c p (d ∷ ds) h = ground (arith, owing-update_other progress c p ds)

  owing-update :
      (progress : WebSocket → Progress) (c : WebSocket) (p : Progress) (cs : List WebSocket)
      → IsSocketSet cs
      → owing (update progress c p) cs ≤ share c p + owing progress (discard c cs)
  unfolding owing
  owing-update progress c p [] h = omega arith
  owing-update progress c p (d ∷ ds) h =
      ground (arith, owing-update progress c p ds h.1, owing-update_other progress c p ds)

-- However the clients are chosen, the answers that are published for a conversation and those that
-- their loops owe it are no more than the messages that call for them.
abbrev pub IsCovered : (WebSocket → Uuid) → List (Uuid × Outbound) → (WebSocket → Progress) → Type 0
IsCovered conversation_of published progress =
    (i : Uuid) (text : String) (cs : List WebSocket)
    → IsSocketSet cs
    → answers i text published + owing conversation_of i text progress cs
      ≤ questions i text published

module _ (platform : Platform) (wire : Wire) (faithful : IsFaithful platform wire)
    (around : WebSocket → Surroundings) (quiet : (c : WebSocket) → IsQuiet (around c).server)
    (user_of conversation_of : WebSocket → Uuid) where
  -- What has been published and what is owed change together.
  turn-balance :
      (c : WebSocket) (p : Progress) (r : Result Progress) (w v : World) (i : Uuid) (text : String)
      → Turned (conversation_of c) (user_of c) p w r v
      → answers i text v.published
          + share conversation_of i text c (next_progress r)
          + questions i text w.published
        ≤ answers i text w.published
          + share conversation_of i text c p
          + questions i text v.published
  turn-balance c p r w v i text turned = elim turned.adds [
    | inl (same, owed) ↦ rw (same, next-owes text r) (ground (arith, owed text))
    | inr (f, _, added, owed) ↦
        rw
          (
            added,
            next-owes text r,
            answers-snoc i text w.published (conversation_of c, f),
            questions-snoc i text w.published (conversation_of c, f),
          )
          (ground (arith, owed text))
  ]

  turn-IsCovered :
      (c : WebSocket) (r : Result Progress) (w : World) (b : Backend)
      → Turned (conversation_of c) (user_of c) (b.progress c) (world c b) r w
      → IsSettled platform wire faithful around quiet user_of conversation_of b
      → IsCovered conversation_of b.published b.progress
      → IsCovered conversation_of w.published (update b.progress c (next_progress r))
  unfolding owing
  turn-IsCovered c r w b turned settled h i text cs set =
      let absent : contains c (discard c cs) ≡ false =
        ground (arith, contains-discard c c cs set) in
      omega (
        arith,
        h i text (c ∷ discard c cs) (absent, discard-IsSocketSet c cs set),
        owing-update conversation_of i text b.progress c (next_progress r) cs set,
        turn-balance c (b.progress c) r (world c b) w i text turned,
      )

  nothing-IsCovered : IsCovered conversation_of [] (λ c. idle)
  unfolding owing answers questions
  nothing-IsCovered i text [] set = omega arith
  nothing-IsCovered i text (c ∷ cs) set =
      ground (arith, idle-owes text 0, nothing-IsCovered i text cs set.1)

  pub reachable-IsCovered :
      (b : Backend)
      → Reachable platform wire around user_of conversation_of b
      → IsCovered conversation_of b.published b.progress
  reachable-IsCovered b r =
      reachable_keeps platform wire faithful around quiet user_of conversation_of
        (IsCovered conversation_of) turn-IsCovered b nothing-IsCovered r
