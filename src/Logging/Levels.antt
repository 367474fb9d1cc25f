-- ===== src/Logging/Levels.antt =====
-- What `configure_logging` of app/logging_config.py makes of the loggers.
use real_time_ai_chat_backen.Base.{
  ℕ, ◌≡◌, ◌∙◌, refl, ap, String, true, false, some, List, [], ◌∷◌, ◌++◌, arith, str_eq, eq_iff,
  if◌then◌else◌,
}
use real_time_ai_chat_backen.Config.{Settings, is_production}
use real_time_ai_chat_backen.Logging.{
  Loggers, Attribute, level_number, not_a_level, attribute, or_info, set_level_of, level_of,
  set_levels, with_level, configure_logging, stdout, formatter, shared_processors,
  wrap_for_formatter,
}

same_left : (a b c : String) → str_eq a b ≡ true → str_eq a c ≡ str_eq b c
same_left a b c h = ap (λ x. str_eq x c) ((eq_iff a b).0 h)

same_right : (a b c : String) → str_eq a b ≡ true → str_eq c a ≡ str_eq c b
same_right a b c h = ap (str_eq c) ((eq_iff a b).0 h)

level_of-set :
    (name key : String) (n : ℕ) (levels : List (String × ℕ))
    → level_of key (set_level_of name n levels)
      ≡ (if str_eq name key then some n else level_of key levels)
level_of-set name key n [] = refl
level_of-set name key n ((other, m) ∷ rest) =
    ground
      (arith, level_of-set name key n rest, same_left other name key, same_right name key other)

-- Setting the level that a logger has changes nothing.
set_level_same :
    (name : String) (n : ℕ) (levels : List (String × ℕ))
    → level_of name levels ≡ some n
    → set_level_of name n levels ≡ levels
set_level_same name n [] h = absurd (cc)
set_level_same name n ((other, m) ∷ rest) h = ground (arith, set_level_same name n rest)

module _ (upper : String → String) (settings : Settings) where
  set_levels-idempotent :
      (n : ℕ) (l : Loggers)
      → set_levels settings n (set_levels settings n l) ≡ set_levels settings n l
  set_levels-idempotent n l =
      let quieter = if is_production settings.app_env then 30 else n in
      let engine = if settings.db_echo then 20 else 30 in
      let first = set_level_of "uvicorn.access" quieter l.levels in
      let both = set_level_of "sqlalchemy.engine" engine first in
      let access = set_level_same "uvicorn.access" quieter both (
        level_of-set "sqlalchemy.engine" "uvicorn.access" engine first
        ∙ level_of-set "uvicorn.access" "uvicorn.access" quieter l.levels) in
      let again =
        set_level_same "sqlalchemy.engine" engine both
          (level_of-set "sqlalchemy.engine" "sqlalchemy.engine" engine first) in
      ap (λ (levels : List (String × ℕ)). record (set_levels settings n l) { levels = levels })
        (ap (set_level_of "sqlalchemy.engine" engine) access ∙ again)

  abbrev attached : Loggers → Loggers
  attached l = record l {
    structured = some (shared_processors ++ wrap_for_formatter ∷ []);
    handlers = stdout (formatter settings) ∷ [];
  }

  with_level-idempotent :
      (a : Attribute) (l : Loggers)
      → with_level settings a (attached (with_level settings a (attached l)).1)
        ≡ with_level settings a (attached l)
  with_level-idempotent (level_number n) l =
      ap (λ (l' : Loggers). (false, l')) (set_levels-idempotent n (attached l))
  with_level-idempotent not_a_level l = refl

  with_level-handlers :
      (a : Attribute) (l : Loggers) → (with_level settings a l).1.handlers ≡ l.handlers
  with_level-handlers (level_number n) l = refl
  with_level-handlers not_a_level l = refl

  with_level-keeps :
      (a : Attribute) (key : String) (l : Loggers)
      → str_eq "uvicorn.access" key ≡ false
      → str_eq "sqlalchemy.engine" key ≡ false
      → level_of key (with_level settings a l).1.levels ≡ level_of key l.levels
  with_level-keeps (level_number n) key l h k =
      let first = set_level_of "uvicorn.access" _ l.levels in
      level_of-set "sqlalchemy.engine" key _ first
      ∙ rw k (level_of-set "uvicorn.access" key _ l.levels ∙ rw h refl)
  with_level-keeps not_a_level key l h k = refl

  -- However often the logging is configured with the same settings, it is as after the first time,
  -- also when it raises: every line is written once, by the one handler of the settings, whatever
  -- handlers there were, and no logger but the root and the two that the function names has got
  -- another level.
  pub configure_logging-idempotent :
      (key : String) (l : Loggers)
      → str_eq "uvicorn.access" key ≡ false
      → str_eq "sqlalchemy.engine" key ≡ false
      → let (raised, after) = configure_logging upper settings l in
        (configure_logging upper settings after ≡ (raised, after))
        × (after.handlers ≡ stdout (formatter settings) ∷ [])
        × (level_of key after.levels ≡ level_of key l.levels)
  unfolding configure_logging
  configure_logging-idempotent key l h k =
      let a = or_info (attribute (upper settings.log_level)) in
      (
        with_level-idempotent a l,
        with_level-handlers a (attached l),
        with_level-keeps a key (attached l) h k,
      )
