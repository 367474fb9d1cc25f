-- ===== src/Migrations/Upgrade.antt =====
-- What `upgrade` of the first migration makes, and that `downgrade` takes it back.
use real_time_ai_chat_backen.Base.{◌≡◌, refl, false, some, List, [], ◌∷◌, arith, ap, ◌∙◌, String}
use real_time_ai_chat_backen.Migrations.{
  Index, Schema, has_table, has_index, has_enumeration, is_referred, is_indexed, is_used, elsewhere,
}
use real_time_ai_chat_backen.Migrations.Initial.{
  upgrade, downgrade, message_role, users, conversations, messages, users_email, users_email_active,
  conversations_owner_created, conversations_owner_id, messages_created, when,
}

-- Nothing uses the names of the migration.
pub record IsClear (s : Schema) : Type 0 where
  pub no_users : has_table "users" s.tables ≡ false
  pub no_conversations : has_table "conversations" s.tables ≡ false
  pub no_messages : has_table "messages" s.tables ≡ false
  pub no_references_users : is_referred "users" s.tables ≡ false
  pub no_references_conversations : is_referred "conversations" s.tables ≡ false
  pub no_references_messages : is_referred "messages" s.tables ≡ false
  pub no_index_users : is_indexed "users" s.indexes ≡ false
  pub no_index_conversations : is_indexed "conversations" s.indexes ≡ false
  pub no_index_messages : is_indexed "messages" s.indexes ≡ false
  pub no_users_email : has_index "ix_users_email" s.indexes ≡ false
  pub no_users_email_active : has_index "ix_users_email_active" s.indexes ≡ false
  pub no_owner_created : has_index "ix_conversations_owner_created" s.indexes ≡ false
  pub no_owner_id : has_index "ix_conversations_owner_id" s.indexes ≡ false
  pub no_messages_created : has_index "ix_messages_conversation_created_at" s.indexes ≡ false
  pub no_role : has_enumeration "message_role" s.enumerations ≡ false
  pub no_role_used : is_used "message_role" s.tables ≡ false

-- The schema with what the migration adds.
abbrev pub upgraded : Schema → Schema
upgraded s = record {
  enumerations = message_role ∷ s.enumerations;
  tables = messages ∷ conversations ∷ users ∷ s.tables;
  indexes =
      messages_created ∷ conversations_owner_id ∷ conversations_owner_created ∷ users_email_active
      ∷ users_email ∷ s.indexes;
}

upgrade_lem : (s : Schema) → IsClear s → upgrade s ≡ some (upgraded s)
unfolding upgrade
upgrade_lem s h =
    simp
      (
        h.no_users, h.no_conversations, h.no_messages, h.no_users_email, h.no_users_email_active,
        h.no_owner_created, h.no_owner_id, h.no_messages_created, h.no_role,
      )
      refl

elsewhere_all :
    (name : String) (is : List Index) → is_indexed name is ≡ false → elsewhere name is ≡ is
elsewhere_all name [] h = refl
elsewhere_all name (i ∷ is) h = ground (arith, elsewhere_all name is)

downgrade-upgraded : (s : Schema) → IsClear s → downgrade (upgraded s) ≡ some s
unfolding upgrade downgrade
downgrade-upgraded s h =
    simp
      (
        h.no_references_users,
        h.no_references_conversations,
        h.no_references_messages,
        h.no_role_used,
        elsewhere_all "users" s.indexes h.no_index_users,
        elsewhere_all "conversations" s.indexes h.no_index_conversations,
        elsewhere_all "messages" s.indexes h.no_index_messages,
      )
      refl

-- On a schema that uses none of its names, the migration is not refused at any statement, adds the
-- type, the three tables and their five indexes, and its downgrade, which is not refused either,
-- takes back exactly these.
pub downgrade-upgrade :
    (s : Schema)
    → IsClear s
    → (upgrade s ≡ some (upgraded s)) × (when (upgrade s) downgrade ≡ some s)
downgrade-upgrade s h =
    (upgrade_lem s h, ap (λ o. when o downgrade) (upgrade_lem s h) ∙ downgrade-upgraded s h)
