-- ===== src/Tests/Accounts.antt =====
-- The theorems on accounts and tokens at the sample rows.
use real_time_ai_chat_backen.Security.{hash_password}
use real_time_ai_chat_backen.Base.{strip, ◌==◌, if◌then◌else◌}
use real_time_ai_chat_backen.Services.Auth.{normalize_email}
use real_time_ai_chat_backen.Session.{statement, Server}
use real_time_ai_chat_backen.Base.{◌≡◌, ◌≢◌, ◌↔◌, refl, String, none, some, [], ◌∷◌, arith}
use real_time_ai_chat_backen.Errors.{Result, ok, err, jwt_error}
use real_time_ai_chat_backen.Models.{User, insert_user, apply_write, check_write}
use real_time_ai_chat_backen.Security.{
  access, build_token, create_access_token, create_refresh_token,
}
use real_time_ai_chat_backen.Security.Tokens.{get_user_id-build_token}
use real_time_ai_chat_backen.Security.Acceptance.{Identifies, get_user_id_from_token-Identifies}
use real_time_ai_chat_backen.Platform.{Platform, Claims, claims}
use real_time_ai_chat_backen.Session.Atomic.{IsCleanFailure}
use real_time_ai_chat_backen.Services.Auth.{
  AuthTokens, Credentials, email_taken, register_user, login, refresh_access_token,
  get_current_user,
}
use real_time_ai_chat_backen.Services.Auth.Issuing.{CanIssue, create_refresh_token_ok}
use real_time_ai_chat_backen.Services.Auth.Behaviour.{Admits, login_iff}
use real_time_ai_chat_backen.Services.Auth.Tokens.{
  get_current_user-create_access_token, refresh_access_token-create_refresh_token,
  token_types_apart,
}
use real_time_ai_chat_backen.Services.Auth.Race.{opened, register_user_race}
use real_time_ai_chat_backen.Services.Auth.Register.{
  registered, login-register_user, register_user_unissued,
}
use real_time_ai_chat_backen.Services.Atomic.{register_user-IsCleanFailure}
use real_time_ai_chat_backen.Tests.Platform.{toy, toy-IsLawful}
use real_time_ai_chat_backen.Tests.Server.{quick, quick-IsHealthy, quick-IsQuiet}
use real_time_ai_chat_backen.Tests.Data.{alice, sample, begun, settings}

pub quick-CanIssue : CanIssue toy quick settings
quick-CanIssue = record {
  encodes = λ sub kind iat exp. (_, refl);
  access_in_range = λ n. ground arith;
  refresh_in_range = λ n. ground arith;
}

-- A token, if there is one.
abbrev pub token_of : Result String → String
token_of (ok token) = token
token_of (err e) = ""

abbrev pub alice_access : String
alice_access = token_of (create_access_token toy 2_000_000 1 settings)

abbrev alice_refresh : String
alice_refresh = (create_refresh_token_ok toy quick settings quick-CanIssue 2 1).0

alice_access_lem : create_access_token toy 2_000_000 1 settings ≡ ok alice_access
unfolding create_access_token build_token
alice_access_lem = refl

alice_refresh_lem : create_refresh_token toy 2_000_000 1 settings ≡ ok alice_refresh
alice_refresh_lem = (create_refresh_token_ok toy quick settings quick-CanIssue 2 1).1

abbrev bearer : String → Credentials
bearer token = record { scheme = "bearer"; credentials = token }

get_current_user-create_access_token_example :
    (get_current_user toy quick settings (some (bearer alice_access)) begun).0 ≡ ok alice
unfolding statement
get_current_user-create_access_token_example =
    get_current_user-create_access_token toy toy-IsLawful quick settings 2000000 1 begun {u = alice}
      {token = alice_access} "bearer" alice_access_lem refl (ground arith) refl refl refl

refresh_access_token-create_refresh_token_example :
    (refresh_access_token toy quick settings alice_refresh begun).0
    ≡ create_access_token toy 5_000_000 1 settings
unfolding statement
refresh_access_token-create_refresh_token_example =
    refresh_access_token-create_refresh_token toy toy-IsLawful quick settings 2_000_000 1 begun
      {u = alice} {token = alice_refresh} alice_refresh_lem (ground arith) refl refl refl

token_types_apart_example :
    ((get_current_user toy quick settings (some (bearer alice_refresh)) begun).0 ≢ ok alice)
    × ((refresh_access_token toy quick settings alice_access begun).0 ≢ ok "token")
token_types_apart_example =
    token_types_apart toy toy-IsLawful quick settings 2000000 1 begun "bearer" alice alice_access
      alice_refresh "token" alice_access_lem alice_refresh_lem

login_iff_example :
    ((tokens : AuthTokens) × ((login toy quick settings " alice@example.org" "correct horse"
          begun).0
        ≡ ok tokens))
    ↔ Admits toy quick settings (some alice) "correct horse"
unfolding statement normalize_email strip
login_iff_example =
    login_iff toy quick settings quick-CanIssue " alice@example.org" "correct horse" begun refl

-- The row of the registration in the examples.
abbrev carol : User
carol = registered toy quick settings quick-IsHealthy " carol@example.org " "swordfish" sample 3

login-register_user_example :
    (tokens : AuthTokens) × ((login toy quick settings "carol@example.org" "swordfish"
        (register_user toy quick settings " carol@example.org " "swordfish" begun).1).0
      ≡ ok tokens)
unfolding normalize_email strip check_write hash_password
login-register_user_example =
    login-register_user toy quick settings quick-IsHealthy " carol@example.org " "swordfish" sample
      3 toy-IsLawful quick-CanIssue "carol@example.org" refl refl refl

register_user-IsCleanFailure_example :
    IsCleanFailure begun (register_user toy quick settings "alice@example.org" "swordfish" begun)
register_user-IsCleanFailure_example =
    register_user-IsCleanFailure toy quick settings quick-IsQuiet quick-CanIssue "alice@example.org"
      "swordfish" begun

abbrev brief : String
brief = token_of (build_token toy 2000000 1 access 60000000 settings)

brief_lem : build_token toy 2000000 1 access 60000000 settings ≡ ok brief
unfolding build_token
brief_lem = refl

get_user_id_from_token-Identifies_example :
    (raw : Claims) × (toy.jwt_decode 4 brief settings.jwt_secret_key (settings.jwt_algorithm ∷ [])
      ≡ claims raw)
    × Identifies toy raw access 1
get_user_id_from_token-Identifies_example =
    get_user_id_from_token-Identifies toy 4000000 brief access settings 1 (
      get_user_id-build_token toy toy-IsLawful 2000000 4000000 60000000 1 access access settings
        brief brief_lem)

-- Someone else registers with the same email between the query and the INSERT.
abbrev overtaken : Server
overtaken = record quick {
  others_at = λ n t ws.
      if n == 51
      then (register_user toy quick settings " carol@example.org " "swordfish" begun).1.committed
      else t;
}

register_user_race_example :
    ((tokens : AuthTokens) × ((register_user toy quick settings " carol@example.org " "swordfish"
          begun).0
        ≡ ok tokens))
    × ((register_user toy overtaken settings "carol@example.org" "password" (opened sample 50)).0
        ≡ err (email_taken toy overtaken settings "carol@example.org"))
    × ((register_user toy overtaken settings "carol@example.org" "password"
          (opened sample 50)).1.committed
        ≡ apply_write (insert_user carol) sample)
    × ((register_user toy overtaken settings "carol@example.org" "password"
          (opened sample 50)).1.pending
        ≡ [])
unfolding normalize_email strip check_write hash_password
register_user_race_example =
    register_user_race toy settings quick overtaken sample 3 50 " carol@example.org "
      "carol@example.org" "swordfish" "password" quick-IsHealthy quick-CanIssue (λ n. refl) refl
      refl refl refl refl refl

-- python-jose refuses the algorithm of the settings.
abbrev unsigning : Platform
unsigning = record toy { jwt_encode = λ payload key algorithm. none }

register_user_unissued_example :
    let (r, s') = register_user unsigning quick settings " carol@example.org " "swordfish" begun in
    (r ≡ err jwt_error)
    × (s'.committed ≡ apply_write (insert_user carol) sample)
    × (s'.pending ≡ [])
    × ((register_user unsigning quick settings " carol@example.org " "swordfish" s').0
        ≡ err (email_taken unsigning quick settings "carol@example.org"))
unfolding normalize_email strip check_write hash_password create_access_token build_token
register_user_unissued_example =
    register_user_unissued unsigning quick settings quick-IsHealthy " carol@example.org "
      "swordfish" sample 3 jwt_error refl refl refl
