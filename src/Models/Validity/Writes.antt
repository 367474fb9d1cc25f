-- ===== src/Models/Validity/Writes.antt =====
-- The writes of `apply_write` that `check_write` admits, against the constraints of the tables.
use real_time_ai_chat_backen.Base.{
  String, ◌≡◌, refl, ◌∙◌, true, false, not, Option, some, none, List, [], ◌∷◌, ◌++◌, map, arith,
  ◌==◌, str_eq, eq_iff, filter, All, is_some, All-filter,
}
use real_time_ai_chat_backen.Errors.{ok}
use real_time_ai_chat_backen.Models.{
  Uuid, Time, User, Conversation, Message, Tables, Write, insert_user, insert_conversation,
  insert_message, set_title, delete_conversation, conversation_by_id, retitle, sender_exists,
  apply_write, check_write,
}
use real_time_ai_chat_backen.Models.Validity.{
  Distinct, same_user, same_email, same_conversation, same_message, HasOwner, HasParents, IsValid,
  find-append_some, Distinct-filter, Distinct-snoc, All-snoc, All-imp,
}

str_eq_comm : (s t : String) → str_eq s t ≡ str_eq t s
str_eq_comm s t = ground (arith, eq_iff s t, eq_iff t s)

module _ (i : Uuid) (title : String) (now : Time) where
  find-retitle :
      (j : Uuid) (cs : List Conversation)
      → is_some (conversation_by_id j (map (retitle i title now) cs))
        ≡ is_some (conversation_by_id j cs)
  find-retitle j [] = refl
  find-retitle j (c ∷ cs) = ground (arith, find-retitle j cs)

  Distinct-retitle :
      (cs : List Conversation)
      → Distinct same_conversation cs
      → Distinct same_conversation (map (retitle i title now) cs)
  Distinct-retitle [] d = tt
  Distinct-retitle (c ∷ cs) d = ground (arith, find-retitle c.id cs, Distinct-retitle cs d.1)

  All-retitle :
      (us : List User) (cs : List Conversation)
      → All (HasOwner us) cs
      → All (HasOwner us) (map (retitle i title now) cs)
  All-retitle us [] h = tt
  All-retitle us (c ∷ cs) h = ground (arith, All-retitle us cs h.1)

sender-append :
    (i : Option Uuid) (us vs : List User)
    → sender_exists i us ≡ true
    → sender_exists i (us ++ vs) ≡ true
sender-append none us vs h = refl
sender-append (some i) us vs h = find-append_some (λ u. u.id == i) us vs h

insert_user-IsValid :
    (u : User) (t : Tables)
    → IsValid t
    → check_write (insert_user u) t ≡ ok tt
    → IsValid (apply_write (insert_user u) t)
unfolding apply_write check_write
insert_user-IsValid u t v h = record {
  user_ids = Distinct-snoc same_user (λ x y. ground arith) t.users u v.user_ids (ground arith);
  emails =
      Distinct-snoc same_email (λ x y. str_eq_comm y.email x.email) t.users u v.emails
        (ground arith);
  conversation_ids = v.conversation_ids;
  message_ids = v.message_ids;
  owners =
      All-imp (HasOwner t.users) _ t.conversations
        (λ c. find-append_some (λ x. x.id == c.owner_id) t.users (u ∷ [])) v.owners;
  parents =
      All-imp (HasParents t.users t.conversations) _ t.messages
        (λ m p. (p.0, sender-append m.sender_id t.users (u ∷ []) p.1)) v.parents;
}

insert_conversation-IsValid :
    (c : Conversation) (t : Tables)
    → IsValid t
    → check_write (insert_conversation c) t ≡ ok tt
    → IsValid (apply_write (insert_conversation c) t)
unfolding apply_write check_write
insert_conversation-IsValid c t v h = record {
  user_ids = v.user_ids;
  emails = v.emails;
  conversation_ids =
      Distinct-snoc same_conversation (λ x y. ground arith) t.conversations c v.conversation_ids
        (ground arith);
  message_ids = v.message_ids;
  owners = All-snoc (HasOwner t.users) t.conversations c v.owners (ground arith);
  parents =
      All-imp (HasParents t.users t.conversations) _ t.messages
        (λ m p.
          (find-append_some (λ d. d.id == m.conversation_id) t.conversations (c ∷ []) p.0, p.1))
        v.parents;
}

insert_message-IsValid :
    (m : Message) (t : Tables)
    → IsValid t
    → check_write (insert_message m) t ≡ ok tt
    → IsValid (apply_write (insert_message m) t)
unfolding apply_write check_write
insert_message-IsValid m t v h = record {
  user_ids = v.user_ids;
  emails = v.emails;
  conversation_ids = v.conversation_ids;
  message_ids =
      Distinct-snoc same_message (λ x y. ground arith) t.messages m v.message_ids (ground arith);
  owners = v.owners;
  parents = All-snoc (HasParents t.users t.conversations) t.messages m v.parents (ground arith);
}

set_title-IsValid :
    (i : Uuid) (title : String) (now : Time) (t : Tables)
    → IsValid t
    → IsValid (apply_write (set_title i title now) t)
unfolding apply_write
set_title-IsValid i title now t v = record {
  user_ids = v.user_ids;
  emails = v.emails;
  conversation_ids = Distinct-retitle i title now t.conversations v.conversation_ids;
  message_ids = v.message_ids;
  owners = All-retitle i title now t.users t.conversations v.owners;
  parents =
      All-imp (HasParents t.users t.conversations) _ t.messages
        (λ m p. (find-retitle i title now m.conversation_id t.conversations ∙ p.0, p.1)) v.parents;
}

module _ (i : Uuid) where
  abbrev other_conversations : List Conversation → List Conversation
  other_conversations = filter (λ c. not (c.id == i))

  find-other_conversations :
      (j : Uuid) (cs : List Conversation)
      → (j == i) ≡ false
      → conversation_by_id j (other_conversations cs) ≡ conversation_by_id j cs
  find-other_conversations j [] h = refl
  find-other_conversations j (c ∷ cs) h = ground (arith, find-other_conversations j cs h)

  All-other_messages :
      (us : List User) (cs : List Conversation) (ms : List Message)
      → All (HasParents us cs) ms
      → All (HasParents us (other_conversations cs)) (filter (λ m. not (m.conversation_id == i)) ms)
  All-other_messages us cs [] h = tt
  All-other_messages us cs (m ∷ ms) h =
      ground (arith, All-other_messages us cs ms h.1, find-other_conversations m.conversation_id cs)

delete_conversation-IsValid :
    (i : Uuid) (t : Tables) → IsValid t → IsValid (apply_write (delete_conversation i) t)
unfolding apply_write
delete_conversation-IsValid i t v = record {
  user_ids = v.user_ids;
  emails = v.emails;
  conversation_ids = Distinct-filter same_conversation _ t.conversations v.conversation_ids;
  message_ids = Distinct-filter same_message _ t.messages v.message_ids;
  owners = All-filter (HasOwner t.users) _ t.conversations v.owners;
  parents = All-other_messages i t.users t.conversations t.messages v.parents;
}

-- Every write that the constraints admit leads from valid tables to valid tables.
pub apply_write-IsValid :
    (w : Write) (t : Tables) → IsValid t → check_write w t ≡ ok tt → IsValid (apply_write w t)
apply_write-IsValid (insert_user u) t v h = insert_user-IsValid u t v h
apply_write-IsValid (insert_conversation c) t v h = insert_conversation-IsValid c t v h
apply_write-IsValid (insert_message m) t v h = insert_message-IsValid m t v h
apply_write-IsValid (set_title i title now) t v h = set_title-IsValid i title now t v
apply_write-IsValid (delete_conversation i) t v h = delete_conversation-IsValid i t v
