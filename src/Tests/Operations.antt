-- ===== src/Tests/Operations.antt =====
-- The theorems on the schema, the routes, the log lines and the loggers, each at an example.
use real_time_ai_chat_backen.Base.{◌≡◌, ◌≤◌, refl, false, ◌&&◌, none, some, [], ◌∷◌, length, filter}
use real_time_ai_chat_backen.Config.{is_production}
use real_time_ai_chat_backen.Migrations.{Schema}
use real_time_ai_chat_backen.Migrations.Initial.{upgrade}
use real_time_ai_chat_backen.Errors.{value_error, err}
use real_time_ai_chat_backen.Migrations.Environment.{environment}
use real_time_ai_chat_backen.Migrations.Environment.Encoding.{environment_refused}
use real_time_ai_chat_backen.Migrations.Metadata.{Agree, declared, upgrade-declared}
use real_time_ai_chat_backen.Redaction.{Url, redact_url, password}
use real_time_ai_chat_backen.Redaction.Secrecy.{is_within, redact_url-hides}
use real_time_ai_chat_backen.App.{get, create_app, accepts, dispatch}
use real_time_ai_chat_backen.App.Routing.{is_documented, create_app-unambiguous}
use real_time_ai_chat_backen.Logging.{Loggers, foreign}
use real_time_ai_chat_backen.Tests.Data.{settings}
use real_time_ai_chat_backen.Tests.Requests.{versioned, versioned-IsClear}

upgrade-declared_example :
    (t : Schema) × (upgrade versioned ≡ some t) × Agree t (declared versioned)
upgrade-declared_example = upgrade-declared versioned versioned-IsClear

abbrev pool : Url
pool = record { scheme = "redis"; netloc = "app:sec@cache"; path = "/0" }

redact_url-hides_example :
    (is_within "sec" (redact_url pool).netloc ≡ false)
    × ((redact_url pool).scheme ≡ "redis")
    × ((redact_url pool).path ≡ "/0")
unfolding password
redact_url-hides_example = redact_url-hides pool _ _ refl refl

redacted : redact_url pool ≡ record pool { netloc = "app:****@cache" }
unfolding redact_url
redacted = refl

create_app-unambiguous_example :
    (length (filter (accepts get ("conversations" ∷ [])) (create_app settings).routes) ≤ 1)
    × ((is_documented (dispatch (create_app settings).routes get ("conversations" ∷ []))
          && is_production settings.app_env)
        ≡ false)
create_app-unambiguous_example = create_app-unambiguous settings get ("conversations" ∷ [])

abbrev noisy : Loggers
noisy = record {
  structured = none;
  handlers = foreign 1 ∷ foreign 2 ∷ [];
  level = 30;
  levels = ("httpx", 40) ∷ [];
}

environment_refused_example :
    environment
      (record { connect_fails = false; migrate_fails = false })
      (λ name. none)
      false
      "postgresql://app:p%40ss@db/chat"
    ≡ (err (value_error "invalid interpolation syntax"), [])
environment_refused_example =
    environment_refused (record { connect_fails = false; migrate_fails = false }) (λ name. none)
      false "postgresql://app:p%40ss@db/chat" refl
