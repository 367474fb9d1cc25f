-- ===== src/Tests/Settings.antt =====
-- The theorem on the settings at an application that is told its secret late, and then loses it.
use real_time_ai_chat_backen.Base.{◌≡◌, refl, true, false, none, [], ◌∷◌}
use real_time_ai_chat_backen.Platform.{pos}
use real_time_ai_chat_backen.Config.{Settings, production, loaded, validate}
use real_time_ai_chat_backen.Config.Guards.{IsSafe}
use real_time_ai_chat_backen.Config.Loading.{Variables, absent, unreadable, given, get_settings}
use real_time_ai_chat_backen.Config.Caching.{cached, get_settings-IsSafe}

abbrev unset : Variables
unset = record {
  app_name = absent;
  app_version = absent;
  app_env = given production;
  debug = absent;
  cors_origins = absent;
  host = absent;
  port = unreadable;
  database_url = given "postgresql+asyncpg://chat@db/chat";
  db_pool_size = absent;
  db_max_overflow = absent;
  db_pool_timeout = absent;
  db_pool_recycle = absent;
  db_echo = absent;
  redis_url = given "redis://cache:6379/0";
  redis_max_connections = absent;
  jwt_secret_key = absent;
  jwt_algorithm = absent;
  access_token_expire_minutes = given (pos 15);
  refresh_token_expire_days = absent;
  log_level = absent;
  log_json = given true;
}

-- The published secret is refused in production.
abbrev weak : Variables
weak = record unset { port = absent; jwt_secret_key = given "local-development-secret-change-me" }

abbrev strong : Variables
strong = record weak { jwt_secret_key = given "0123456789abcdef" }

abbrev chosen : Settings
chosen = record {
  app_name = "Real-Time AI Chat Backend";
  app_version = "0.1.0";
  app_env = production;
  debug = false;
  cors_origins = "http://localhost:3000" ∷ "http://localhost:5173" ∷ [];
  host = "0.0.0.0";
  port = pos 8000;
  database_url = "postgresql+asyncpg://chat@db/chat";
  db_pool_size = pos 10;
  db_max_overflow = pos 20;
  db_pool_timeout = pos 30;
  db_pool_recycle = pos 1800;
  db_echo = false;
  redis_url = "redis://cache:6379/0";
  redis_max_connections = pos 20;
  jwt_secret_key = "0123456789abcdef";
  jwt_algorithm = "HS256";
  access_token_expire_minutes = 15;
  refresh_token_expire_days = 7;
  log_level = "INFO";
  log_json = true;
}

chosen_lem : (get_settings strong (cached (unset ∷ weak ∷ []) none)).0 ≡ loaded chosen
unfolding get_settings cached validate
chosen_lem = refl

get_settings-IsSafe_example :
    IsSafe chosen
    × ((get_settings weak
          (cached (unset ∷ []) (get_settings strong (cached (unset ∷ weak ∷ []) none)).1)).0
        ≡ loaded chosen)
get_settings-IsSafe_example =
    get_settings-IsSafe (unset ∷ weak ∷ []) (unset ∷ []) strong weak chosen chosen_lem
