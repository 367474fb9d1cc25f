-- ===== src/Config/Loading.antt =====
-- The reading of the settings of app/config.py, and its `get_settings`. pydantic-settings finds the
-- variables and reads their values; what it makes of each is given here.
use real_time_ai_chat_backen.Base.{ℕ, String, Bool, false, Option, none, some, List, [], ◌∷◌}
use real_time_ai_chat_backen.Platform.{ℤ, pos, negsuc}
use real_time_ai_chat_backen.Config.{
  Environment, development, Settings, field_error, Loaded, loaded, invalid, validate,
}

-- A variable that is not set, one whose value pydantic does not read at its field's type, and one
-- with a value.
pub data Variable (A : Type 0) : Type 0 where
  absent unreadable : Variable A
  given : A → Variable A

pub record Variables : Type 0 where
  pub app_name : Variable String
  pub app_version : Variable String
  pub app_env : Variable Environment
  pub debug : Variable Bool
  pub cors_origins : Variable (List String)
  pub host : Variable String
  pub port : Variable ℤ
  pub database_url : Variable String
  pub db_pool_size : Variable ℤ
  pub db_max_overflow : Variable ℤ
  pub db_pool_timeout : Variable ℤ
  pub db_pool_recycle : Variable ℤ
  pub db_echo : Variable Bool
  pub redis_url : Variable String
  pub redis_max_connections : Variable ℤ
  pub jwt_secret_key : Variable String
  pub jwt_algorithm : Variable String
  pub access_token_expire_minutes : Variable ℤ
  pub refresh_token_expire_days : Variable ℤ
  pub log_level : Variable String
  pub log_json : Variable Bool

-- A field with a default.
abbrev pub or_default : {A : Type 0} → A → Variable A → Option A
or_default d absent = some d
or_default d unreadable = none
or_default d (given a) = some a

-- A field without one, `Field(...)`.
abbrev pub required : {A : Type 0} → Variable A → Option A
required absent = none
required unreadable = none
required (given a) = some a

-- What is below zero is refused by `gt=0` just as zero is.
abbrev pub lifetime : ℤ → ℕ
lifetime (pos n) = n
lifetime (negsuc n) = 0

infixl 20 ◌>>=◌
abbrev ◌>>=◌ : {A B : Type 0} → Option A → (A → Option B) → Option B
none >>= f = none
(some a) >>= f = f a

-- The fields with their defaults, before the validators.
unfoldable pub read_settings : Variables → Option Settings
read_settings v = do
  app_name ← or_default "Real-Time AI Chat Backend" v.app_name
  app_version ← or_default "0.1.0" v.app_version
  app_env ← or_default development v.app_env
  debug ← or_default false v.debug
  cors_origins ← or_default ("http://localhost:3000" ∷ "http://localhost:5173" ∷ []) v.cors_origins
  host ← or_default "0.0.0.0" v.host
  port ← or_default (pos 8000) v.port
  database_url ← required v.database_url
  db_pool_size ← or_default (pos 10) v.db_pool_size
  db_max_overflow ← or_default (pos 20) v.db_max_overflow
  db_pool_timeout ← or_default (pos 30) v.db_pool_timeout
  db_pool_recycle ← or_default (pos 1800) v.db_pool_recycle
  db_echo ← or_default false v.db_echo
  redis_url ← required v.redis_url
  redis_max_connections ← or_default (pos 20) v.redis_max_connections
  jwt_secret_key ← required v.jwt_secret_key
  jwt_algorithm ← or_default "HS256" v.jwt_algorithm
  access ← or_default (pos 30) v.access_token_expire_minutes
  refresh ← or_default (pos 7) v.refresh_token_expire_days
  log_level ← or_default "INFO" v.log_level
  log_json ← or_default false v.log_json
  some (record {
    app_name = app_name;
    app_version = app_version;
    app_env = app_env;
    debug = debug;
    cors_origins = cors_origins;
    host = host;
    port = port;
    database_url = database_url;
    db_pool_size = db_pool_size;
    db_max_overflow = db_max_overflow;
    db_pool_timeout = db_pool_timeout;
    db_pool_recycle = db_pool_recycle;
    db_echo = db_echo;
    redis_url = redis_url;
    redis_max_connections = redis_max_connections;
    jwt_secret_key = jwt_secret_key;
    jwt_algorithm = jwt_algorithm;
    access_token_expire_minutes = lifetime access;
    refresh_token_expire_days = lifetime refresh;
    log_level = log_level;
    log_json = log_json;
  })

abbrev pub validated : Option Settings → Loaded
validated none = invalid field_error
validated (some s) = validate s

-- `Settings()`
unfoldable pub load : Variables → Loaded
unfolding read_settings
load v = validated (read_settings v)

-- `lru_cache` keeps a result, and nothing of a call that raises.
abbrev pub remember : Loaded → Loaded × Option Settings
remember (loaded s) = (loaded s, some s)
remember (invalid e) = (invalid e, none)

-- With the variables as they are at the call, and what the cache holds.
unfoldable pub get_settings : Variables → Option Settings → Loaded × Option Settings
unfolding load
get_settings v (some s) = (loaded s, some s)
get_settings v none = remember (load v)
