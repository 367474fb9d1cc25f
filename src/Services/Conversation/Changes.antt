-- ===== src/Services/Conversation/Changes.antt =====
-- What the changes of a conversation by its owner commit.
use real_time_ai_chat_backen.Base.{
  ℕ, ◌≡◌, refl, String, true, false, not, none, some, List, [], ◌∷◌, map, arith, ◌==◌, str_eq,
  filter, Bool-cases, inl, inr, if◌then◌else◌, count, ◌≤◌, ◌+◌,
}
use real_time_ai_chat_backen.Errors.{ok}
use real_time_ai_chat_backen.Models.{
  Uuid, Time, Conversation, Message, Tables, conversation_by_id, retitle, apply_write, check_write,
  set_title, delete_conversation as delete_row,
}
use real_time_ai_chat_backen.Platform.{Platform}
use real_time_ai_chat_backen.Session.{Server, State}
use real_time_ai_chat_backen.Session.Healthy.{IsHealthy}
use real_time_ai_chat_backen.Repositories.Conversations.{conversations_queries}
use real_time_ai_chat_backen.Repositories.Messages.{messages_of}
use real_time_ai_chat_backen.Services.Conversation.{
  check_owner, get_owned_conversation, rename_conversation, delete_conversation,
}

-- The rows after a deletion: the conversation and its messages are gone, the others are as before.
pub record HasDeleted (i : Uuid) (before after : Tables) : Type 0 where
  pub conversations :
      (j : Uuid)
      → conversation_by_id j after.conversations
        ≡ (if i == j then none else conversation_by_id j before.conversations)
  pub histories : (j : Uuid) → messages_of j after ≡ (if i == j then [] else messages_of j before)
  pub users_same : after.users ≡ before.users

-- The rows after a renaming: the conversation reads as given, and all else is as before.
pub record HasRenamed (i : Uuid) (c : Conversation) (before after : Tables) : Type 0 where
  pub conversations :
      (j : Uuid)
      → conversation_by_id j after.conversations
        ≡ (if i == j then some c else conversation_by_id j before.conversations)
  pub messages_same : after.messages ≡ before.messages
  pub users_same : after.users ≡ before.users

module _ (i j : Uuid) where
  conversations_left :
      (cs : List Conversation)
      → conversation_by_id j (filter (λ c. not (c.id == i)) cs)
        ≡ (if i == j then none else conversation_by_id j cs)
  conversations_left [] = ground arith
  conversations_left (c ∷ cs) = ground (arith, conversations_left cs)

  messages_left :
      (ms : List Message)
      → filter (λ m. m.conversation_id == j) (filter (λ m. not (m.conversation_id == i)) ms)
        ≡ (if i == j then [] else filter (λ m. m.conversation_id == j) ms)
  messages_left [] = ground arith
  messages_left (m ∷ ms) = ground (arith, messages_left ms)

  untouched :
      (title : String) (now : Time) (cs : List Conversation)
      → (i == j) ≡ false
      → conversation_by_id j (map (retitle i title now) cs) ≡ conversation_by_id j cs
  untouched title now [] h = refl
  untouched title now (d ∷ cs) h = ground (arith, untouched title now cs)

  retitled :
      (title : String) (now : Time) (cs : List Conversation) (c : Conversation)
      → conversation_by_id i cs ≡ some c
      → conversation_by_id j (map (retitle i title now) cs) ≡ (
          if i == j
          then some (record c { title = title; updated_at = now })
          else conversation_by_id j cs)
  retitled title now [] c h = absurd (cc)
  retitled title now (d ∷ cs) c h = ground (arith, retitled title now cs c, untouched title now cs)

apply_delete-HasDeleted : (i : Uuid) (t : Tables) → HasDeleted i t (apply_write (delete_row i) t)
unfolding apply_write
apply_delete-HasDeleted i t = record {
  conversations = λ j. conversations_left i j t.conversations;
  histories = λ j. messages_left i j t.messages;
  users_same = refl;
}

find_id :
    (i : Uuid) (cs : List Conversation) (c : Conversation)
    → conversation_by_id i cs ≡ some c
    → c.id ≡ i
find_id i [] c h = absurd (cc)
find_id i (d ∷ cs) c h = ground (arith, find_id i cs c)

module _ (platform : Platform) (server : Server) (healthy : IsHealthy server) (i : Uuid)
    (c : Conversation) (t : Tables) (tick : ℕ)
    (found : conversation_by_id i t.conversations ≡ some c) where
  abbrev fresh : State
  fresh = record { committed = t; pending = []; tick = tick }

  owner_read :
      get_owned_conversation platform server i c.owner_id fresh
      ≡ (ok c, record fresh { tick = tick + 1 })
  unfolding get_owned_conversation check_owner conversations_queries
  owner_read = simp (healthy.no_faults, healthy.others_same, found) (ground arith)

  -- Alone and without faults, the owner's deletion commits the removal of the conversation and of
  -- its messages, and of nothing else.
  pub delete_conversation-HasDeleted :
      let (r, s') = delete_conversation platform server i c.owner_id fresh in
      (r ≡ ok tt) × HasDeleted i t s'.committed
  unfolding delete_conversation conversations_queries check_write
  delete_conversation-HasDeleted =
      simp (owner_read, healthy.no_faults, healthy.others_same, find_id i t.conversations c found)
        (refl, apply_delete-HasDeleted i t)

  -- The conversation as a renaming leaves it: a title that is no new one is not written, so that
  -- `updated_at` stays.
  abbrev pub with_title : String → Conversation
  with_title title =
      if str_eq c.title title
      then c
      else record c { title = title; updated_at = server.now_at (tick + 1) }

  rename_same :
      (title : String)
      → str_eq c.title title ≡ true
      → let (r, s') = rename_conversation platform server i c.owner_id title fresh in
        (r ≡ ok c) × HasRenamed i c t s'.committed
  unfolding rename_conversation conversations_queries
  rename_same title same =
      simp
        (
          owner_read,
          healthy.no_faults,
          healthy.others_same,
          same,
          find_id i t.conversations c found,
          found,
        )
        (
          refl,
          record { conversations = λ j. ground arith; messages_same = refl; users_same = refl },
        )

  set_title-HasRenamed :
      (title : String) (now : Time)
      → HasRenamed i
          (record c { title = title; updated_at = now })
          t
          (apply_write (set_title i title now) t)
  unfolding apply_write
  set_title-HasRenamed title now = record {
    conversations = λ j. retitled i j title now t.conversations c found;
    messages_same = refl;
    users_same = refl;
  }

  reread :
      (title : String) (now : Time)
      → conversation_by_id i (apply_write (set_title i title now) t).conversations
        ≡ some (record c { id = i; title = title; updated_at = now })
  unfolding apply_write
  reread title now =
      ground
        (arith, retitled i i title now t.conversations c found, find_id i t.conversations c found)

  title_fits :
      (title : String) (now : Time)
      → count title ≤ 255
      → check_write (set_title i title now) t ≡ ok tt
  unfolding check_write
  title_fits title now fits = ground arith

  rename_new :
      (title : String)
      → count title ≤ 255
      → str_eq c.title title ≡ false
      → let c' = record c { title = title; updated_at = server.now_at (tick + 1) } in
        let (r, s') = rename_conversation platform server i c.owner_id title fresh in
        (r ≡ ok c') × HasRenamed i c' t s'.committed
  unfolding rename_conversation conversations_queries
  rename_new title fits new =
      let h = set_title-HasRenamed title (server.now_at (tick + 1)) in
      simp
        (
          owner_read,
          healthy.no_faults,
          healthy.others_same,
          new,
          find_id i t.conversations c found,
          title_fits title (server.now_at (tick + 1)) fits,
          reread title (server.now_at (tick + 1)),
        )
        (refl, simp (find_id i t.conversations c found) at h)

  -- Alone and without faults, the owner's renaming to a title that fits its column returns the
  -- renamed conversation, and commits it and nothing else.
  pub rename_conversation-HasRenamed :
      (title : String)
      → count title ≤ 255
      → let (r, s') = rename_conversation platform server i c.owner_id title fresh in
        (r ≡ ok (with_title title)) × HasRenamed i (with_title title) t s'.committed
  rename_conversation-HasRenamed title fits = elim (Bool-cases (str_eq c.title title)) [
    | inl same ↦ rw same (rename_same title same)
    | inr new ↦ rw new (rename_new title fits new)
  ]
