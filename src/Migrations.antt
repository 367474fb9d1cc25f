-- ===== src/Migrations.antt =====
-- The schema that migrations/versions/20260629_1535_0001_initial_chat_schema.py changes, and what
-- PostgreSQL does with the statements that Alembic sends for it: each may be refused.
pub mod Initial
pub mod Upgrade
pub mod Metadata
pub mod Relationships
pub mod Environment
use real_time_ai_chat_backen.Base.{
  ℕ, String, Bool, true, false, not, ◌&&◌, ◌||◌, Option, none, some, List, [], ◌∷◌, str_eq,
  if◌then◌else◌,
}

pub data SqlType : Type 0 where
  uuid : SqlType
  string : ℕ → SqlType
  boolean : SqlType
  date_time : SqlType
  text : SqlType
  enumeration : String → SqlType

pub record Column : Type 0 where
  pub name : String
  pub kind : SqlType
  pub server_default : Option String
  pub nullable : Bool

pub data OnDelete : Type 0 where
  cascade set_null : OnDelete

-- Every foreign key refers to the column `id`.
pub record ForeignKey : Type 0 where
  pub column : String
  pub refers : String
  pub on_delete : OnDelete

pub record Table : Type 0 where
  pub name : String
  pub columns : List Column
  pub primary_key : String
  pub foreign_keys : List ForeignKey

pub record Index : Type 0 where
  pub name : String
  pub table : String
  pub columns : List String
  pub unique : Bool
  pub condition : Option String

pub record Enumeration : Type 0 where
  pub name : String
  pub values : List String

pub record Schema : Type 0 where
  pub enumerations : List Enumeration
  pub tables : List Table
  pub indexes : List Index

abbrev pub any : {A : Type 0} → (A → Bool) → List A → Bool
any p [] = false
any p (x ∷ xs) = p x || any p xs

-- The first entry that passes the test is taken out.
abbrev pub without : {A : Type 0} → (A → Bool) → List A → List A
without p [] = []
without p (x ∷ xs) = if p x then xs else x ∷ without p xs

abbrev pub has_table : String → List Table → Bool
has_table name = any (λ t. str_eq t.name name)

abbrev pub has_index : String → List Index → Bool
has_index name = any (λ i. str_eq i.name name)

abbrev pub has_enumeration : String → List Enumeration → Bool
has_enumeration name = any (λ e. str_eq e.name name)

-- Whether a table refers to one of that name.
abbrev pub is_referred : String → List Table → Bool
is_referred name = any (λ t. any (λ k. str_eq k.refers name) t.foreign_keys)

-- Whether an index is on a table of that name.
abbrev pub is_indexed : String → List Index → Bool
is_indexed name = any (λ i. str_eq i.table name)

abbrev pub of_type : String → SqlType → Bool
of_type name (enumeration e) = str_eq e name
of_type name _ = false

-- Whether a column is of the enumeration of that name.
abbrev pub is_used : String → List Table → Bool
is_used name = any (λ t. any (λ c. of_type name c.kind) t.columns)

abbrev pub refers_to : List Table → List ForeignKey → Bool
refers_to tables [] = true
refers_to tables (k ∷ ks) = has_table k.refers tables && refers_to tables ks

-- `op.create_table`, refused if the name is taken or a table that it refers to is missing.
unfoldable pub create_table : Table → Schema → Option Schema
create_table t s =
    if has_table t.name s.tables || not (refers_to s.tables t.foreign_keys)
    then none
    else some (record s { tables = t ∷ s.tables })

-- The indexes of other tables.
abbrev pub elsewhere : String → List Index → List Index
elsewhere name [] = []
elsewhere name (i ∷ is) = if str_eq i.table name then elsewhere name is else i ∷ elsewhere name is

-- `op.drop_table`, refused if the table is missing or another one refers to it. The indexes of the
-- table go with it.
unfoldable pub drop_table : String → Schema → Option Schema
drop_table name s =
    let rest = without (λ t. str_eq t.name name) s.tables in
    if not (has_table name s.tables) || is_referred name rest
    then none
    else some (record s { tables = rest; indexes = elsewhere name s.indexes })

unfoldable pub create_index : Index → Schema → Option Schema
create_index i s =
    if has_index i.name s.indexes || not (has_table i.table s.tables)
    then none
    else some (record s { indexes = i ∷ s.indexes })

unfoldable pub drop_index : String → Schema → Option Schema
drop_index name s =
    if has_index name s.indexes
    then some (record s { indexes = without (λ i. str_eq i.name name) s.indexes })
    else none

-- `ENUM.create` and `ENUM.drop` with `checkfirst=True`; a type in use is not dropped.
unfoldable pub create_enumeration : Enumeration → Schema → Option Schema
create_enumeration e s =
    if has_enumeration e.name s.enumerations
    then some s
    else some (record s { enumerations = e ∷ s.enumerations })

unfoldable pub drop_enumeration : String → Schema → Option Schema
drop_enumeration name s =
    if is_used name s.tables
    then none
    else some (record s { enumerations = without (λ e. str_eq e.name name) s.enumerations })
