-- ===== src/Migrations/Metadata.antt =====
-- `Base.metadata` of app/database/base.py: the tables, keys and indexes that the classes of
-- app/models declare, with the names that SQLAlchemy gives.
use mathlib.Core.List.{Perm}
use mathlib.Core.List.Perm
use real_time_ai_chat_backen.Base.{
  ◌≡◌, refl, String, ◌<>◌, Bool, true, false, Option, none, some, List, [], ◌∷◌, ◌++◌, map,
  if◌then◌else◌,
}
use real_time_ai_chat_backen.Migrations.{
  SqlType, uuid, string, boolean, date_time, text, enumeration, Column, OnDelete, cascade, set_null,
  ForeignKey, Table, Index, Enumeration, Schema,
}
use real_time_ai_chat_backen.Migrations.Initial.{upgrade}
use real_time_ai_chat_backen.Migrations.Upgrade.{IsClear, upgraded, downgrade-upgrade}

-- What `mapped_column` is given; `refers` is its `ForeignKey`.
pub record MappedColumn : Type 0 where
  pub name : String
  pub kind : SqlType
  pub server_default : Option String
  pub nullable : Bool
  pub unique : Bool
  pub index : Bool
  pub refers : Option (String × OnDelete)

-- A mapped class: `columns` are its own, before those of `TimestampMixin`.
pub record MappedClass : Type 0 where
  pub table_name : String
  pub table_args : List Index
  pub primary_key : String
  pub columns : List MappedColumn

abbrev pub mapped : String → SqlType → MappedColumn
mapped name kind = record {
  name = name;
  kind = kind;
  server_default = none;
  nullable = false;
  unique = false;
  index = false;
  refers = none;
}

unfoldable pub timestamps : List MappedColumn
timestamps =
    record (mapped "created_at" date_time) { server_default = some "now()" }
    ∷ record (mapped "updated_at" date_time) { server_default = some "now()" }
    ∷ []

abbrev pub declared_index : String → String → List String → Index
declared_index name table columns = record {
  name = name;
  table = table;
  columns = columns;
  unique = false;
  condition = none;
}

abbrev pub identifier : MappedColumn
identifier = record (mapped "id" uuid) { server_default = some "gen_random_uuid()" }

unfoldable pub user_class : MappedClass
user_class = record {
  table_name = "users";
  table_args =
      record (declared_index "ix_users_email_active" "users" ("email" ∷ [])) {
        condition = some "is_active = true";
      }
      ∷ [];
  primary_key = "id";
  columns =
      identifier
      ∷ record (mapped "email" (string 255)) { unique = true; index = true }
      ∷ mapped "password_hash" (string 255)
      ∷ record (mapped "is_active" boolean) { server_default = some "true" }
      ∷ record (mapped "is_superuser" boolean) { server_default = some "false" }
      ∷ [];
}

unfoldable pub conversation_class : MappedClass
conversation_class = record {
  table_name = "conversations";
  table_args =
      declared_index "ix_conversations_owner_created" "conversations"
        ("owner_id" ∷ "created_at" ∷ [])
      ∷ [];
  primary_key = "id";
  columns =
      identifier
      ∷ mapped "title" (string 255)
      ∷ record (mapped "owner_id" uuid) { index = true; refers = some ("users", cascade) }
      ∷ [];
}

unfoldable pub message_class : MappedClass
message_class = record {
  table_name = "messages";
  table_args =
      declared_index "ix_messages_conversation_created_at" "messages"
        ("conversation_id" ∷ "created_at" ∷ [])
      ∷ [];
  primary_key = "id";
  columns =
      identifier
      ∷ record (mapped "conversation_id" uuid) { refers = some ("conversations", cascade) }
      ∷ record (mapped "sender_id" uuid) { nullable = true; refers = some ("users", set_null) }
      ∷ mapped "role" (enumeration "message_role")
      ∷ mapped "content" text
      ∷ [];
}

-- The enumeration of `Message.role`, by its `values_callable`.
unfoldable pub role_type : Enumeration
role_type = record { name = "message_role"; values = "user" ∷ "assistant" ∷ [] }

abbrev pub column_of : MappedColumn → Column
column_of c = record {
  name = c.name;
  kind = c.kind;
  server_default = c.server_default;
  nullable = c.nullable;
}

abbrev pub key_of : MappedColumn → Option (String × OnDelete) → List ForeignKey → List ForeignKey
key_of c none keys = keys
key_of c (some (table, action)) keys =
    record { column = c.name; refers = table; on_delete = action } ∷ keys

abbrev pub keys_of : List MappedColumn → List ForeignKey
keys_of [] = []
keys_of (c ∷ cs) = key_of c c.refers (keys_of cs)

-- `index=True` makes an index that is named after the table and the column.
abbrev pub column_indexes : String → List MappedColumn → List Index
column_indexes table [] = []
column_indexes table (c ∷ cs) =
    let rest = column_indexes table cs in
    if c.index
    then record (declared_index ("ix_" <> table <> "_" <> c.name) table (c.name ∷ [])) {
      unique = c.unique;
    }
      ∷ rest
    else rest

unfoldable pub table_of : MappedClass → Table
unfolding timestamps
table_of m = record {
  name = m.table_name;
  columns = map column_of (m.columns ++ timestamps);
  primary_key = m.primary_key;
  foreign_keys = keys_of m.columns;
}

unfoldable pub indexes_of : MappedClass → List Index
indexes_of m = column_indexes m.table_name m.columns ++ m.table_args

-- What the classes declare, on top of what is there.
unfoldable pub declared : Schema → Schema
unfolding table_of indexes_of user_class conversation_class message_class role_type
declared s = record {
  enumerations = role_type ∷ s.enumerations;
  tables = table_of message_class ∷ table_of conversation_class ∷ table_of user_class ∷ s.tables;
  indexes =
      indexes_of message_class
      ++ indexes_of conversation_class
      ++ indexes_of user_class
      ++ s.indexes;
}

-- The same types and tables, and the same indexes in whatever order.
pub record Agree (s t : Schema) : Type 0 where
  pub enumerations : s.enumerations ≡ t.enumerations
  pub tables : s.tables ≡ t.tables
  pub indexes : Perm s.indexes t.indexes

upgraded-declared : (s : Schema) → Agree (upgraded s) (declared s)
unfolding declared upgrade
upgraded-declared s = record {
  enumerations = refl;
  tables = refl;
  indexes = Perm.cons _ (Perm.cons _ (Perm.cons _ (Perm.swap _ _ _)));
}

-- On a schema that uses none of its names, the migration is not refused and makes just what the
-- mapped classes declare: the same columns in the same order, with their types, defaults and
-- nullability, the same keys with what they do on a deletion, the same enumeration, and the same
-- indexes.
pub upgrade-declared :
    (s : Schema) → IsClear s → (t : Schema) × (upgrade s ≡ some t) × Agree t (declared s)
upgrade-declared s h = (upgraded s, (downgrade-upgrade s h).0, upgraded-declared s)
