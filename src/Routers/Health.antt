-- ===== src/Routers/Health.antt =====
-- app/routers/health.py, with `HealthResponse` of app/schemas/common.py.
use real_time_ai_chat_backen.Base.{
  String, Bool, true, false, not, Option, List, [], ◌∷◌, ◌++◌, str_eq, if◌then◌else◌,
}
use real_time_ai_chat_backen.Errors.{runtime_error, Result, ok, err}
use real_time_ai_chat_backen.Config.{Settings, Environment, development, testing, production}
use real_time_ai_chat_backen.Platform.{Platform}
use real_time_ai_chat_backen.Session.{Server, Action, pure, ◌>>=◌, require, statement}
use real_time_ai_chat_backen.Routers.{Response, success, fine}

pub record HealthResponse : Type 0 where
  pub status : String
  pub version : String
  pub environment : String
  pub checks : List (String × String)

abbrev pub environment_str : Environment → String
environment_str development = "development"
environment_str testing = "testing"
environment_str production = "production"

-- `checks` and `overall_status`
pub record Probes : Type 0 where
  pub checks : List (String × String)
  pub overall_status : String

-- A `try` around a probe.
abbrev pub probed : String → Bool → Probes → Probes
probed name true p = record p { checks = p.checks ++ (name, "ok") ∷ [] }
probed name false p = record {
  checks = p.checks ++ (name, "error") ∷ [];
  overall_status = "degraded";
}

abbrev pub is_ok : {A : Type 0} → Result A → Bool
is_ok (ok a) = true
is_ok (err e) = false

-- `db.execute(text("SELECT 1"))`, which counts as failed whatever it raises.
abbrev pub probe_database : Server → Action Bool
unfolding statement
probe_database server s = let (r, s') = statement server s in (ok (is_ok r), s')

module _ (platform : Platform) (settings : Settings) where
  abbrev pub health_response : String → List (String × String) → HealthResponse
  health_response status checks = record {
    status = platform.trim status;
    version = platform.trim settings.app_version;
    environment = platform.trim (environment_str settings.app_env);
    checks = checks;
  }

  -- `health_check` and `liveness`
  unfoldable pub health_check : Action (Response HealthResponse)
  health_check = pure (fine (health_response "ok" []))

  -- `pings` is whether the client answers, and there is none before `init_redis`.
  unfoldable pub readiness : Server → Option Bool → Action (Response HealthResponse)
  unfolding probe_database
  readiness server client = do
    pings ←
        require client (runtime_error "Redis client is not initialised. Call init_redis() first.")
    works ← probe_database server
    let p =
        probed "redis" pings
          (probed "database" works (record { checks = []; overall_status = "ok" }))
    pure (record {
      status = if not (str_eq p.overall_status "ok") then 503 else 200;
      body = success (health_response p.overall_status p.checks);
    })
