-- ===== src/Config.antt =====
-- app/config.py: the settings and their validators. The URLs are texts, as their readers use them.
pub mod Guards
pub mod Loading
pub mod Caching
use real_time_ai_chat_backen.Base.{
  ℕ, ◌+◌, String, Bool, true, false, ◌||◌, List, ltb, str_eq, if◌then◌else◌,
}
use real_time_ai_chat_backen.Platform.{ℤ}

pub data Environment : Type 0 where
  development testing production : Environment

pub record Settings : Type 0 where
  pub app_name : String
  pub app_version : String
  pub app_env : Environment
  pub debug : Bool
  pub cors_origins : List String
  pub host : String
  pub port : ℤ
  pub database_url : String
  pub db_pool_size : ℤ
  pub db_max_overflow : ℤ
  pub db_pool_timeout : ℤ
  pub db_pool_recycle : ℤ
  pub db_echo : Bool
  pub redis_url : String
  pub redis_max_connections : ℤ
  pub jwt_secret_key : String
  pub jwt_algorithm : String
  pub access_token_expire_minutes : ℕ
  pub refresh_token_expire_days : ℕ
  pub log_level : String
  pub log_json : Bool

pub data SettingsError : Type 0 where
  not_positive weak_secret debug_on field_error : SettingsError

pub data Loaded : Type 0 where
  loaded : Settings → Loaded
  invalid : SettingsError → Loaded

-- `WEAK_JWT_SECRETS`
unfoldable pub is_weak_jwt_secret : String → Bool
is_weak_jwt_secret key =
    str_eq key "CHANGE_ME_IN_PRODUCTION" || str_eq key "local-development-secret-change-me"

abbrev pub is_production : Environment → Bool
is_production production = true
is_production _ = false

abbrev pub is_development : Environment → Bool
is_development development = true
is_development _ = false

abbrev pub is_testing : Environment → Bool
is_testing testing = true
is_testing _ = false

unfoldable pub production_guards : Settings → Loaded
unfolding is_weak_jwt_secret
production_guards s =
    if is_production s.app_env
    then if is_weak_jwt_secret s.jwt_secret_key
      then invalid weak_secret
      else if s.debug
      then invalid debug_on
      else loaded s
    else loaded s

-- The `gt=0` of the two lifetimes, and then the model validator.
unfoldable pub validate : Settings → Loaded
unfolding production_guards
validate s =
    if ltb 0 s.access_token_expire_minutes
    then if ltb 0 s.refresh_token_expire_days then production_guards s else invalid not_positive
    else invalid not_positive
