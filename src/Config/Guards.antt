-- ===== src/Config/Guards.antt =====
-- What holds of settings that app/config.py has accepted.
use real_time_ai_chat_backen.Base.{◌≡◌, ◌<◌, ◌↔◌, ◌&&◌, false, arith}
use real_time_ai_chat_backen.Config.{Settings, loaded, is_production, is_weak_jwt_secret, validate}

-- What the validators promise.
pub record IsSafe (s : Settings) : Type 0 where
  pub access_positive : 0 < s.access_token_expire_minutes
  pub refresh_positive : 0 < s.refresh_token_expire_days
  pub strong_secret : (is_production s.app_env && is_weak_jwt_secret s.jwt_secret_key) ≡ false
  pub no_debug : (is_production s.app_env && s.debug) ≡ false

pub accepted-IsSafe : (s t : Settings) → validate s ≡ loaded t → IsSafe s × (t ≡ s)
unfolding validate
accepted-IsSafe s t h = ground arith

IsSafe-accepted : (s : Settings) → IsSafe s → validate s ≡ loaded s
unfolding validate
IsSafe-accepted s h = ground arith

-- Settings load exactly if both lifetimes are positive and, in production, the secret is none of
-- the published ones and `debug` is off.
pub validate_iff : (s : Settings) → ((t : Settings) × (validate s ≡ loaded t)) ↔ IsSafe s
validate_iff s = (λ r. (accepted-IsSafe s r.0 r.1).0, λ h. (s, IsSafe-accepted s h))
