-- ===== src/Models.antt =====
-- app/models and app/database/base.py: the rows of the three tables, and what PostgreSQL does
-- with them because of the declared columns, keys and foreign keys.
pub mod Validity
use real_time_ai_chat_backen.Base.{
  ℕ, String, Bool, true, false, not, ◌&&◌, ◌||◌, Option, none, some, List, [], ◌∷◌, ◌++◌, map, ltb,
  ◌==◌, str_eq, count, find, filter, is_some, if◌then◌else◌,
}
use real_time_ai_chat_backen.Errors.{Result, ok, err, integrity_error, database_error}

-- A `uuid.UUID`, as the number that it stands for.
abbrev pub Uuid : Type 0
Uuid = ℕ

-- A point in time, in microseconds since the epoch.
abbrev pub Time : Type 0
Time = ℕ

pub record User : Type 0 where
  pub id : Uuid
  pub email : String
  pub password_hash : String
  pub is_active : Bool
  pub is_superuser : Bool
  pub created_at : Time
  pub updated_at : Time

pub record Conversation : Type 0 where
  pub id : Uuid
  pub title : String
  pub owner_id : Uuid
  pub created_at : Time
  pub updated_at : Time

pub data MessageRole : Type 0 where
  user_role assistant_role : MessageRole

pub record Message : Type 0 where
  pub id : Uuid
  pub conversation_id : Uuid
  pub sender_id : Option Uuid
  pub role : MessageRole
  pub content : String
  pub created_at : Time
  pub updated_at : Time

pub record Tables : Type 0 where
  pub users : List User
  pub conversations : List Conversation
  pub messages : List Message

-- The statements of the source that change rows.
pub data Write : Type 0 where
  insert_user : User → Write
  insert_conversation : Conversation → Write
  insert_message : Message → Write
  set_title : Uuid → String → Time → Write
  delete_conversation : Uuid → Write

abbrev pub user_by_id : Uuid → List User → Option User
user_by_id i = find (λ u. u.id == i)

abbrev pub user_by_email : String → List User → Option User
user_by_email e = find (λ u. str_eq u.email e)

abbrev pub conversation_by_id : Uuid → List Conversation → Option Conversation
conversation_by_id i = find (λ c. c.id == i)

abbrev pub message_by_id : Uuid → List Message → Option Message
message_by_id i = find (λ m. m.id == i)

abbrev pub retitle : Uuid → String → Time → Conversation → Conversation
retitle i title now c = if c.id == i then record c { title = title; updated_at = now } else c

-- `messages.conversation_id` has ON DELETE CASCADE.
unfoldable pub apply_write : Write → Tables → Tables
apply_write (insert_user u) t = record t { users = t.users ++ u ∷ [] }
apply_write (insert_conversation c) t = record t { conversations = t.conversations ++ c ∷ [] }
apply_write (insert_message m) t = record t { messages = t.messages ++ m ∷ [] }
apply_write (set_title i title now) t = record t {
  conversations = map (retitle i title now) t.conversations;
}
apply_write (delete_conversation i) t = record t {
  conversations = filter (λ c. not (c.id == i)) t.conversations;
  messages = filter (λ m. not (m.conversation_id == i)) t.messages;
}

abbrev pub sender_exists : Option Uuid → List User → Bool
sender_exists none us = true
sender_exists (some i) us = is_some (user_by_id i us)

abbrev pub unless : Bool → Result (Unit {0}) → Result (Unit {0})
unless true r = ok tt
unless false r = r

-- The primary keys, the unique `email` and the foreign keys are checked by an IntegrityError; a
-- text that is longer than its `String(255)` is another database error, and so is an UPDATE that
-- finds no row. A DELETE that finds no row is only warned of.
unfoldable pub check_write : Write → Tables → Result (Unit {0})
check_write (insert_user u) t =
    if ltb 255 (count u.email) || ltb 255 (count u.password_hash)
    then err database_error
    else if is_some (user_by_id u.id t.users) || is_some (user_by_email u.email t.users)
    then err integrity_error
    else ok tt
check_write (insert_conversation c) t =
    if ltb 255 (count c.title)
    then err database_error
    else if is_some (conversation_by_id c.id t.conversations)
    then err integrity_error
    else unless (is_some (user_by_id c.owner_id t.users)) (err integrity_error)
check_write (insert_message m) t =
    if is_some (message_by_id m.id t.messages)
    then err integrity_error
    else unless
        (is_some (conversation_by_id m.conversation_id t.conversations)
          && sender_exists m.sender_id t.users)
        (err integrity_error)
check_write (set_title i title now) t =
    if ltb 255 (count title)
    then err database_error
    else unless (is_some (conversation_by_id i t.conversations)) (err database_error)
check_write (delete_conversation i) t = ok tt
