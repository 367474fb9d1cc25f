-- ===== src/Migrations/Relationships.antt =====
-- The relationships of app/models, next to the foreign keys of the same classes: both say what
-- becomes of a row when the one that it refers to is deleted.
use real_time_ai_chat_backen.Base.{
  ◌≡◌, arith, String, Bool, true, false, not, ◌&&◌, ◌||◌, All, map, filter, length, Option, none,
  some, List, [], ◌∷◌, ◌++◌, str_eq, if◌then◌else◌,
}
use real_time_ai_chat_backen.Migrations.{OnDelete, cascade, set_null, any}
use real_time_ai_chat_backen.Migrations.Metadata.{
  MappedColumn, user_class, conversation_class, message_class,
}

-- One attribute that is a `relationship`. `many` is that of a list; `delete_orphan` is the cascade
-- "all, delete-orphan", without which SQLAlchemy leaves the rows and clears their key;
-- `lazy_raise` that no access loads it by itself.
pub record Relationship : Type 0 where
  pub name : String
  pub target : String
  pub back_populates : String
  pub many : Bool
  pub delete_orphan : Bool
  pub passive_deletes : Bool
  pub lazy_raise : Bool
  pub order_by : Option String

abbrev to_one : String → String → String → Relationship
to_one name target back_populates = record {
  name = name;
  target = target;
  back_populates = back_populates;
  many = false;
  delete_orphan = false;
  passive_deletes = false;
  lazy_raise = true;
  order_by = none;
}

abbrev to_many : String → String → String → Relationship
to_many name target back_populates = record (to_one name target back_populates) {
  many = true;
  passive_deletes = true;
}

unfoldable pub user_relationships : List Relationship
user_relationships =
    record (to_many "conversations" "conversations" "owner") { delete_orphan = true }
    ∷ to_many "messages" "messages" "sender"
    ∷ []

unfoldable pub conversation_relationships : List Relationship
conversation_relationships =
    to_one "owner" "users" "conversations"
    ∷ record (to_many "messages" "messages" "conversation") {
      delete_orphan = true;
      order_by = some "created_at";
    }
    ∷ []

unfoldable pub message_relationships : List Relationship
message_relationships =
    to_one "conversation" "conversations" "messages" ∷ to_one "sender" "users" "messages" ∷ []

-- The columns and the relationships of the class of a table.
unfoldable pub columns_of_table : String → List MappedColumn
unfolding user_class conversation_class message_class
columns_of_table table =
    if str_eq table "users"
    then user_class.columns
    else if str_eq table "conversations"
    then conversation_class.columns
    else message_class.columns

unfoldable pub relationships : List (String × Relationship)
unfolding user_relationships conversation_relationships message_relationships
relationships =
    map (λ r. ("users", r)) user_relationships
    ++ map (λ r. ("conversations", r)) conversation_relationships
    ++ map (λ r. ("messages", r)) message_relationships

-- The two are the two ends of one foreign key.
abbrev is_inverse : String × Relationship → String × Relationship → Bool
is_inverse (table, r) (other, q) =
    str_eq r.target other
    && str_eq q.target table
    && str_eq r.back_populates q.name
    && str_eq q.back_populates r.name
    && (if r.many then not q.many else q.many)

-- The key refers to the table, and deletes the rows just if the relationship does.
abbrev does_alike : String → Bool → Option (String × OnDelete) → Bool
does_alike table orphans none = false
does_alike table orphans (some (to, cascade)) = str_eq to table && orphans
does_alike table orphans (some (to, set_null)) = str_eq to table && not orphans

abbrev agrees_with_key : String × Relationship → Bool
agrees_with_key (table, r) =
    not r.many || any (λ c. does_alike table r.delete_orphan c.refers) (columns_of_table r.target)

abbrev IsMatched : String × Relationship → Type 0
IsMatched x =
    (length (filter (is_inverse x) relationships) ≡ 1)
    × (agrees_with_key x ≡ true)
    × (x.1.lazy_raise ≡ true)
    × (x.1.passive_deletes ≡ x.1.many)

-- Every relationship of a class has just one inverse, no access loads one by itself, and PostgreSQL
-- deletes the rows of a list, or clears their key, just as SQLAlchemy would, which leaves it to it.
pub relationships-IsMatched : All IsMatched relationships
unfolding relationships columns_of_table
relationships-IsMatched = ground arith
