-- ===== src/Migrations/Initial.antt =====
-- `upgrade` and `downgrade` of migrations/versions/20260629_1535_0001_initial_chat_schema.py.
use real_time_ai_chat_backen.Base.{String, true, false, Option, none, some, List, [], ◌∷◌}
use real_time_ai_chat_backen.Migrations.{
  SqlType, uuid, string, boolean, date_time, text, enumeration, Column, cascade, set_null, Table,
  Index, Enumeration, Schema, create_table, drop_table, create_index, drop_index,
  create_enumeration, drop_enumeration,
}

-- One statement after the other, up to the first that is refused.
abbrev pub when : Option Schema → (Schema → Option Schema) → Option Schema
when none f = none
when (some s) f = f s

abbrev pub column : String → SqlType → Column
column name kind = record { name = name; kind = kind; server_default = none; nullable = false }

abbrev pub defaulted : String → SqlType → String → Column
defaulted name kind value = record (column name kind) { server_default = some value }

abbrev pub index : String → String → List String → Index
index name table columns = record {
  name = name;
  table = table;
  columns = columns;
  unique = false;
  condition = none;
}

unfoldable pub message_role : Enumeration
message_role = record { name = "message_role"; values = "user" ∷ "assistant" ∷ [] }

unfoldable pub users : Table
users = record {
  name = "users";
  columns =
      defaulted "id" uuid "gen_random_uuid()"
      ∷ column "email" (string 255)
      ∷ column "password_hash" (string 255)
      ∷ defaulted "is_active" boolean "true"
      ∷ defaulted "is_superuser" boolean "false"
      ∷ defaulted "created_at" date_time "now()"
      ∷ defaulted "updated_at" date_time "now()"
      ∷ [];
  primary_key = "id";
  foreign_keys = [];
}

unfoldable pub conversations : Table
conversations = record {
  name = "conversations";
  columns =
      defaulted "id" uuid "gen_random_uuid()"
      ∷ column "title" (string 255)
      ∷ column "owner_id" uuid
      ∷ defaulted "created_at" date_time "now()"
      ∷ defaulted "updated_at" date_time "now()"
      ∷ [];
  primary_key = "id";
  foreign_keys = record { column = "owner_id"; refers = "users"; on_delete = cascade } ∷ [];
}

unfoldable pub messages : Table
messages = record {
  name = "messages";
  columns =
      defaulted "id" uuid "gen_random_uuid()"
      ∷ column "conversation_id" uuid
      ∷ record (column "sender_id" uuid) { nullable = true }
      ∷ column "role" (enumeration "message_role")
      ∷ column "content" text
      ∷ defaulted "created_at" date_time "now()"
      ∷ defaulted "updated_at" date_time "now()"
      ∷ [];
  primary_key = "id";
  foreign_keys =
      record { column = "conversation_id"; refers = "conversations"; on_delete = cascade }
      ∷ record { column = "sender_id"; refers = "users"; on_delete = set_null }
      ∷ [];
}

unfoldable pub users_email : Index
users_email = record (index "ix_users_email" "users" ("email" ∷ [])) { unique = true }

unfoldable pub users_email_active : Index
users_email_active = record (index "ix_users_email_active" "users" ("email" ∷ [])) {
  condition = some "is_active = true";
}

unfoldable pub conversations_owner_created : Index
conversations_owner_created =
    index "ix_conversations_owner_created" "conversations" ("owner_id" ∷ "created_at" ∷ [])

unfoldable pub conversations_owner_id : Index
conversations_owner_id = index "ix_conversations_owner_id" "conversations" ("owner_id" ∷ [])

unfoldable pub messages_created : Index
messages_created =
    index "ix_messages_conversation_created_at" "messages" ("conversation_id" ∷ "created_at" ∷ [])

unfoldable pub upgrade : Schema → Option Schema
unfolding create_enumeration create_table create_index message_role users conversations messages
    users_email users_email_active conversations_owner_created conversations_owner_id
    messages_created
upgrade s =
    let with_users =
      when
        (when (when (create_enumeration message_role s) (create_table users))
          (create_index users_email))
        (create_index users_email_active) in
    let with_conversations =
      when
        (when (when with_users (create_table conversations))
          (create_index conversations_owner_created))
        (create_index conversations_owner_id) in
    when (when with_conversations (create_table messages)) (create_index messages_created)

unfoldable pub downgrade : Schema → Option Schema
unfolding drop_index drop_table drop_enumeration
downgrade s =
    let no_messages =
      when (drop_index "ix_messages_conversation_created_at" s) (drop_table "messages") in
    let no_conversations =
      when
        (when (when no_messages (drop_index "ix_conversations_owner_id"))
          (drop_index "ix_conversations_owner_created"))
        (drop_table "conversations") in
    let no_users =
      when
        (when (when no_conversations (drop_index "ix_users_email_active"))
          (drop_index "ix_users_email"))
        (drop_table "users") in
    when no_users (drop_enumeration "message_role")
