-- ===== src/Logging.antt =====
-- `configure_logging` of app/logging_config.py over the loggers of Python's `logging`.
pub mod Levels
use real_time_ai_chat_backen.Base.{
  ℕ, String, Bool, true, false, ◌||◌, Option, none, some, List, [], ◌∷◌, ◌++◌, str_eq,
  if◌then◌else◌,
}
use real_time_ai_chat_backen.Config.{Settings, is_production}

pub data Renderer : Type 0 where
  json_renderer console_renderer : Renderer

-- The processors of structlog.
pub data Processor : Type 0 where
  merge_contextvars add_logger_name add_log_level positional_arguments : Processor
  time_stamper stack_info wrap_for_formatter remove_processors_meta : Processor
  render : Renderer → Processor

-- A `ProcessorFormatter`: what it does to the lines of other packages first, and to every line.
pub record Formatter : Type 0 where
  pub foreign_pre_chain : List Processor
  pub processors : List Processor

-- A handler that writes to the standard output, or one that was there before.
pub data Handler : Type 0 where
  stdout : Formatter → Handler
  foreign : ℕ → Handler

-- The root logger and the levels of the loggers that have one of their own. `structured` is the
-- processors of structlog, once it has been configured.
pub record Loggers : Type 0 where
  pub structured : Option (List Processor)
  pub handlers : List Handler
  pub level : ℕ
  pub levels : List (String × ℕ)

-- What `setLevel` does with an attribute of the module `logging`: it takes a level, and raises for
-- the text BASIC_FORMAT and the dictionary _STYLES, which also have names in capitals.
pub data Attribute : Type 0 where
  level_number : ℕ → Attribute
  not_a_level : Attribute

abbrev pub attribute : String → Option Attribute
attribute name =
    if str_eq name "CRITICAL" || str_eq name "FATAL"
    then some (level_number 50)
    else if str_eq name "ERROR"
    then some (level_number 40)
    else if str_eq name "WARNING" || str_eq name "WARN"
    then some (level_number 30)
    else if str_eq name "INFO"
    then some (level_number 20)
    else if str_eq name "DEBUG"
    then some (level_number 10)
    else if str_eq name "NOTSET"
    then some (level_number 0)
    else if str_eq name "BASIC_FORMAT" || str_eq name "_STYLES"
    then some not_a_level
    else none

-- `getattr(logging, name, logging.INFO)`
abbrev pub or_info : Option Attribute → Attribute
or_info none = level_number 20
or_info (some a) = a

abbrev pub renderer : Bool → Renderer
renderer true = json_renderer
renderer false = console_renderer

abbrev pub set_level_of : String → ℕ → List (String × ℕ) → List (String × ℕ)
set_level_of name n [] = (name, n) ∷ []
set_level_of name n ((other, m) ∷ rest) =
    if str_eq other name then (other, n) ∷ rest else (other, m) ∷ set_level_of name n rest

abbrev pub level_of : String → List (String × ℕ) → Option ℕ
level_of name [] = none
level_of name ((other, m) ∷ rest) = if str_eq other name then some m else level_of name rest

abbrev pub shared_processors : List Processor
shared_processors =
    merge_contextvars ∷ add_logger_name ∷ add_log_level ∷ positional_arguments ∷ time_stamper
    ∷ stack_info ∷ []

abbrev pub formatter : Settings → Formatter
formatter settings = record {
  foreign_pre_chain = shared_processors;
  processors = remove_processors_meta ∷ render (renderer settings.log_json) ∷ [];
}

-- What follows `root_logger.setLevel(log_level)`.
abbrev pub set_levels : Settings → ℕ → Loggers → Loggers
set_levels settings n l = record l {
  level = n;
  levels =
      set_level_of "sqlalchemy.engine" (if settings.db_echo then 20 else 30)
        (set_level_of "uvicorn.access" (if is_production settings.app_env then 30 else n) l.levels);
}

-- The flag says whether an exception was raised.
abbrev pub with_level : Settings → Attribute → Loggers → Bool × Loggers
with_level settings (level_number n) l = (false, set_levels settings n l)
with_level settings not_a_level l = (true, l)

-- `upper` is `str.upper`.
unfoldable pub configure_logging : (String → String) → Settings → Loggers → Bool × Loggers
configure_logging upper settings l =
    with_level settings (or_info (attribute (upper settings.log_level))) (record l {
      structured = some (shared_processors ++ wrap_for_formatter ∷ []);
      handlers = stdout (formatter settings) ∷ [];
    })
