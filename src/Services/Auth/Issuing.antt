-- ===== src/Services/Auth/Issuing.antt =====
-- When `_issue_tokens` of app/services/auth.py does not raise.
use real_time_ai_chat_backen.Base.{ℕ, ◌+◌, ◌≡◌, refl, String, false, some, leb}
use real_time_ai_chat_backen.Errors.{ok}
use real_time_ai_chat_backen.Models.{Uuid, Time}
use real_time_ai_chat_backen.Config.{Settings}
use real_time_ai_chat_backen.Platform.{Platform, payload_of}
use real_time_ai_chat_backen.Security.{
  TokenType, access, refresh, token_type_str, timestamp, build_token, create_access_token,
  create_refresh_token, access_lifetime, refresh_lifetime, end_of_time,
}
use real_time_ai_chat_backen.Session.{Server, session_actions}
use real_time_ai_chat_backen.Session.Atomic.{IsTotal}
use real_time_ai_chat_backen.Services.Auth.{issue_tokens}

-- `jwt.encode` accepts the algorithm and the key of the settings, and no token would expire after
-- the year 9999.
pub record CanIssue (platform : Platform) (server : Server) (settings : Settings) : Type 0 where
  pub encodes :
      (sub kind : String) (iat exp : ℕ)
      → (token : String) × (platform.jwt_encode
            (payload_of sub kind iat exp)
            settings.jwt_secret_key
            settings.jwt_algorithm
          ≡ some token)
  pub access_in_range :
      (n : ℕ) → leb end_of_time (server.clock_at n + access_lifetime settings) ≡ false
  pub refresh_in_range :
      (n : ℕ) → leb end_of_time (server.clock_at n + refresh_lifetime settings) ≡ false

module _ (platform : Platform) (server : Server) (settings : Settings)
    (issuing : CanIssue platform server settings) (n : ℕ) (i : Uuid) where
  build_token_ok :
      (token_type : TokenType) (lifetime : Time)
      → leb end_of_time (server.clock_at n + lifetime) ≡ false
      → (token : String) × (build_token platform (server.clock_at n) i token_type lifetime settings
          ≡ ok token)
  unfolding build_token
  build_token_ok token_type lifetime in_range =
      let now = server.clock_at n in
      let (token, encoded) =
        issuing.encodes (platform.uuid_str i) (token_type_str token_type) (timestamp now)
          (timestamp (now + lifetime)) in
      (token, rw (in_range, encoded) refl)

  pub create_access_token_ok :
      (token : String) × (create_access_token platform (server.clock_at n) i settings ≡ ok token)
  unfolding create_access_token
  create_access_token_ok =
      build_token_ok access (access_lifetime settings) (issuing.access_in_range n)

  pub create_refresh_token_ok :
      (token : String) × (create_refresh_token platform (server.clock_at n) i settings ≡ ok token)
  unfolding create_refresh_token
  create_refresh_token_ok =
      build_token_ok refresh (refresh_lifetime settings) (issuing.refresh_in_range n)

module _ (platform : Platform) (server : Server) (settings : Settings)
    (issuing : CanIssue platform server settings) where
  pub issue_tokens-IsTotal : (i : Uuid) → IsTotal (issue_tokens platform server settings i)
  unfolding issue_tokens session_actions
  issue_tokens-IsTotal i = record {
    returns = λ s.
        let (a, made) = create_access_token_ok platform server settings issuing s.tick i in
        let (r, made') = create_refresh_token_ok platform server settings issuing (s.tick + 1) i in
        (record { access_token = a; refresh_token = r }, simp (made, made') refl);
  }
