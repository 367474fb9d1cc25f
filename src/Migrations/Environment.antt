-- ===== src/Migrations/Environment.antt =====
-- migrations/env.py: Alembic is given the URL of the settings over its `ConfigParser`, and then runs
-- the migrations offline or online. An error of `ConfigParser` is a `value_error` without details.
pub mod Encoding
use Prim.Native.Char.{Char, code}
use Prim.Native.String
use real_time_ai_chat_backen.Base.{
  ℕ, zero, suc, ◌+◌, String, ◌<>◌, Bool, true, false, not, ◌&&◌, ◌||◌, Option, none, some, List, [],
  ◌∷◌, ◌++◌, ◌==◌, if◌then◌else◌,
}
use real_time_ai_chat_backen.Errors.{
  Error, value_error, runtime_error, database_error, Result, ok, err,
}
use real_time_ai_chat_backen.Redaction.{replace}

abbrev pub after_name : String → Option (String × ℕ)
after_name String.[] = none
after_name (String.◌∷◌ c s) = if code c == 115 then some ("", 2) else none

abbrev pub longer : Char → Option (String × ℕ) → Option (String × ℕ)
longer c none = none
longer c (some (name, n)) = some (String.◌∷◌ c name, suc n)

-- `([^)]+)\)s` at the beginning of a text: the name, and how many characters match. The flag says
-- whether the name has begun.
abbrev pub name_match : Bool → String → Option (String × ℕ)
name_match begun String.[] = none
name_match begun (String.◌∷◌ c s) =
    let more = name_match true s in
    if code c == 41 then (if begun then after_name s else none) else longer c more

-- `_KEYCRE.match` after a percent sign, without that sign.
abbrev pub key_match : String → Option (String × ℕ)
key_match String.[] = none
key_match (String.◌∷◌ c s) =
    if code c == 40
    then elim (name_match false s) [ some (name, n) ↦ some (name, suc n) | none ↦ none ]
    else none

abbrev pub length_of : Option (String × ℕ) → Option ℕ
length_of none = none
length_of (some (name, n)) = some n

-- `_KEYCRE.sub("", text)`; so many characters of the text belong to the last match.
unfoldable pub without_keys : ℕ → String → String
without_keys n String.[] = ""
without_keys (suc n) (String.◌∷◌ c s) = without_keys n s
without_keys zero (String.◌∷◌ c s) =
    let rest = without_keys 0 s in
    let skipped = λ (n : ℕ). without_keys n s in
    if code c == 37
    then elim (length_of (key_match s)) [ some n ↦ skipped n | none ↦ String.◌∷◌ c rest ]
    else String.◌∷◌ c rest

abbrev pub has_percent : String → Bool
has_percent String.[] = false
has_percent (String.◌∷◌ c s) = code c == 37 || has_percent s

-- `BasicInterpolation.before_set`, where the flag says that it raises a `ValueError`.
unfoldable pub is_refused : String → Bool
unfolding replace without_keys
is_refused value = has_percent (without_keys 0 (replace "%%" "" value))

abbrev pub followed : String → Option String → Option String
followed s none = none
followed s (some rest) = some (s <> rest)

abbrev pub with_first : Char → Option String → Option String
with_first c none = none
with_first c (some rest) = some (String.◌∷◌ c rest)

abbrev pub begins_with : ℕ → String → Bool
begins_with n String.[] = false
begins_with n (String.◌∷◌ c s) = code c == n

-- `BasicInterpolation.before_get`: nothing where it raises. `option` is the value of another option
-- of the file, and the number as before.
unfoldable pub interpolate : (String → Option String) → ℕ → String → Option String
interpolate option n String.[] = some ""
interpolate option (suc n) (String.◌∷◌ c s) = interpolate option n s
interpolate option zero (String.◌∷◌ c s) =
    let rest = interpolate option 0 s in
    let skipped = λ (n : ℕ). interpolate option n s in
    if code c == 37
    then (if begins_with 37 s then with_first c (skipped 1) else elim (key_match s) [
      | none ↦ none
      | some (name, n) ↦ elim (option name) [ some v ↦ followed v (skipped n) | none ↦ none ]
    ])
    else with_first c rest

-- What `context.configure` is given beside the metadata.
pub record Options : Type 0 where
  pub url : Option String
  pub literal_binds : Bool
  pub named_parameters : Bool
  pub compare_type : Bool
  pub compare_server_default : Bool

-- What Alembic and the engine do, in their order.
pub data Effect : Type 0 where
  connected : String → Effect
  configured : Options → Effect
  began migrated committed rolled_back disconnected disposed : Effect

-- Which calls of the packages raise.
pub record Faults : Type 0 where
  pub connect_fails : Bool
  pub migrate_fails : Bool

abbrev pub Run : Type 0
Run = Result (Unit {0}) × List Effect

abbrev pub preceded : List Effect → Run → Run
preceded effects (r, more) = (r, effects ++ more)

-- `with context.begin_transaction(): context.run_migrations()`
unfoldable pub run_in_transaction : Faults → Run
run_in_transaction faults =
    if faults.migrate_fails
    then (err database_error, began ∷ rolled_back ∷ [])
    else (ok tt, began ∷ migrated ∷ committed ∷ [])

abbrev pub offline_at : Faults → Option String → Run
offline_at faults none = (err (value_error "invalid interpolation syntax"), [])
offline_at faults (some url) =
    preceded
      (configured (record {
        url = some url;
        literal_binds = true;
        named_parameters = true;
        compare_type = true;
        compare_server_default = true;
      })
        ∷ [])
      (run_in_transaction faults)

unfoldable pub do_run_migrations : Faults → Run
unfolding run_in_transaction
do_run_migrations faults =
    preceded
      (configured (record {
        url = none;
        literal_binds = false;
        named_parameters = false;
        compare_type = true;
        compare_server_default = true;
      })
        ∷ [])
      (run_in_transaction faults)

-- The connection is closed in any case, the engine is disposed only after that.
abbrev pub after_run : Run → Run
after_run (ok _, effects) = (ok tt, effects ++ disconnected ∷ disposed ∷ [])
after_run (err e, effects) = (err e, effects ++ disconnected ∷ [])

abbrev pub online_at : Faults → Option String → Run
online_at faults none = (err (value_error "invalid interpolation syntax"), [])
online_at faults (some url) =
    if faults.connect_fails
    then (err database_error, [])
    else preceded (connected url ∷ []) (after_run (do_run_migrations faults))

module _ (faults : Faults) (option : String → Option String) where
  unfoldable pub run_migrations_offline : String → Run
  unfolding interpolate run_in_transaction
  run_migrations_offline value = offline_at faults (interpolate option 0 value)

  -- `run_async_migrations`; the other options of the section are read without an error.
  unfoldable pub run_migrations_online : String → Run
  unfolding interpolate do_run_migrations
  run_migrations_online value = online_at faults (interpolate option 0 value)

  -- The module, with the URL of the settings.
  unfoldable pub environment : Bool → String → Run
  unfolding is_refused run_migrations_offline run_migrations_online
  environment offline url =
      if is_refused url
      then (err (value_error "invalid interpolation syntax"), [])
      else if offline
      then run_migrations_offline url
      else run_migrations_online url
