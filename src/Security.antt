-- ===== src/Security.antt =====
-- app/security.py. The clock is an argument, in microseconds: `_utc_now()` reads it.
pub mod Tokens
pub mod Acceptance
use real_time_ai_chat_backen.Base.{
  ℕ, ◌+◌, ◌*◌, ◌/◌, leb, String, ◌<>◌, Bool, true, false, Option, none, some, [], ◌∷◌, str_eq,
  is_empty, if◌then◌else◌,
}
use real_time_ai_chat_backen.Errors.{
  Error, app_error, authentication, jwt_error, overflow_error, Result, ok, err, raise_if, ◌>>=◌,
  ◌>>◌,
}
use real_time_ai_chat_backen.Models.{Uuid, Time}
use real_time_ai_chat_backen.Config.{Settings}
use real_time_ai_chat_backen.Platform.{
  Platform, ℤ, Claim, null, boolean, integer, text, other, Claims, claim, Decoded, claims,
  expired_signature, invalid_token, payload_of,
}

pub data TokenType : Type 0 where
  access refresh : TokenType

abbrev pub token_type_str : TokenType → String
token_type_str access = "access"
token_type_str refresh = "refresh"

-- `token_type != expected_type`
abbrev pub differs : TokenType → TokenType → Bool
differs access access = false
differs refresh refresh = false
differs _ _ = true

pub record TokenPayload : Type 0 where
  pub sub : String
  pub kind : TokenType
  pub exp : ℤ
  pub iat : ℤ

abbrev pub authentication_error : String → Error
authentication_error message = app_error (authentication message)

unfoldable pub get_subject_of : Option Claim → Result String
get_subject_of (some (text sub)) =
    if is_empty sub then err (authentication_error "Token is missing the 'sub' claim") else ok sub
get_subject_of _ = err (authentication_error "Token is missing the 'sub' claim")

-- `_get_subject`
unfoldable pub get_subject : Claims → Result String
unfolding get_subject_of
get_subject payload = get_subject_of (claim "sub" payload)

unfoldable pub get_token_type_of : Option Claim → Result TokenType
get_token_type_of (some (text kind)) =
    if str_eq kind "access"
    then ok access
    else if str_eq kind "refresh"
    then ok refresh
    else err (authentication_error "Token has an invalid 'type' claim")
get_token_type_of _ = err (authentication_error "Token has an invalid 'type' claim")

-- `_get_token_type`
unfoldable pub get_token_type : Claims → Result TokenType
unfolding get_token_type_of
get_token_type payload = get_token_type_of (claim "type" payload)

unfoldable pub get_int_claim_of : String → Option Claim → Result ℤ
get_int_claim_of name (some (integer value)) = ok value
get_int_claim_of name _ = err (authentication_error ("Token is missing the '" <> name <> "' claim"))

-- `_get_int_claim`: a Boolean is an `int` of Python, and is refused first.
unfoldable pub get_int_claim : Claims → String → Result ℤ
unfolding get_int_claim_of
get_int_claim payload name = get_int_claim_of name (claim name payload)

-- `int(t.timestamp())`
abbrev pub timestamp : Time → ℕ
timestamp t = t / 1_000_000

-- The first time that a `datetime` cannot hold, the start of the year 10000.
abbrev pub end_of_time : Time
end_of_time = 253_402_300_800_000_000

-- `timedelta(minutes=settings.access_token_expire_minutes)`, and the days of a refresh token.
abbrev pub access_lifetime : Settings → Time
access_lifetime settings = settings.access_token_expire_minutes * 60 * 1_000_000

abbrev pub refresh_lifetime : Settings → Time
refresh_lifetime settings = settings.refresh_token_expire_days * 86_400 * 1_000_000

abbrev pub or_jwt_error : Option String → Result String
or_jwt_error none = err jwt_error
or_jwt_error (some token) = ok token

module _ (platform : Platform) where
  unfoldable pub hash_password : ℕ → String → String
  hash_password salt plain_password = platform.argon2_hash salt plain_password

  abbrev pub false_on_error : Option Bool → Bool
  false_on_error none = false
  false_on_error (some matches) = matches

  unfoldable pub verify_password : String → String → Bool
  verify_password plain_password hashed_password =
      false_on_error (platform.argon2_verify plain_password hashed_password)

  unfoldable pub password_needs_rehash : String → Bool
  password_needs_rehash hashed_password = platform.argon2_needs_update hashed_password

  -- `_build_token`; the lifetime is in microseconds. The sum and `jwt.encode` may raise; a lifetime
  -- that is too long for a `timedelta` is too long for the sum.
  unfoldable pub build_token : Time → Uuid → TokenType → Time → Settings → Result String
  build_token now user_id token_type expire_delta settings = do
    raise_if (leb end_of_time (now + expire_delta)) overflow_error
    or_jwt_error (
        platform.jwt_encode
          (payload_of (platform.uuid_str user_id) (token_type_str token_type) (timestamp now)
            (timestamp (now + expire_delta)))
          settings.jwt_secret_key settings.jwt_algorithm)

  unfoldable pub create_access_token : Time → Uuid → Settings → Result String
  unfolding build_token
  create_access_token now user_id settings =
      build_token now user_id access (access_lifetime settings) settings

  unfoldable pub create_refresh_token : Time → Uuid → Settings → Result String
  unfolding build_token
  create_refresh_token now user_id settings =
      build_token now user_id refresh (refresh_lifetime settings) settings

  unfoldable pub validate_claims : Claims → TokenType → Result TokenPayload
  unfolding get_token_type get_subject get_int_claim
  validate_claims raw expected_type = do
    token_type ← get_token_type raw
    raise_if (differs token_type expected_type) (
        authentication_error (
          "Expected a '"
          <> token_type_str expected_type
          <> "' token but received '"
          <> token_type_str token_type
          <> "'"))
    sub ← get_subject raw
    exp ← get_int_claim raw "exp"
    iat ← get_int_claim raw "iat"
    ok (record { sub = sub; kind = token_type; exp = exp; iat = iat })

  unfoldable pub decode_raw : Decoded → TokenType → Result TokenPayload
  unfolding validate_claims
  decode_raw (claims raw) expected_type = validate_claims raw expected_type
  decode_raw expired_signature _ = err (authentication_error "Token has expired")
  decode_raw invalid_token _ = err (authentication_error "Token is invalid or tampered")

  unfoldable pub decode_token : Time → String → TokenType → Settings → Result TokenPayload
  unfolding decode_raw
  decode_token now token expected_type settings =
      decode_raw
        (platform.jwt_decode (timestamp now) token settings.jwt_secret_key
          (settings.jwt_algorithm ∷ []))
        expected_type

  abbrev pub or_invalid_uuid : String → Option Uuid → Result Uuid
  or_invalid_uuid sub none =
      err (authentication_error ("Token 'sub' claim is not a valid UUID: " <> platform.repr sub))
  or_invalid_uuid sub (some user_id) = ok user_id

  unfoldable pub get_user_id_from_payload : TokenPayload → Result Uuid
  get_user_id_from_payload payload =
      if is_empty payload.sub
      then err (authentication_error "Token payload is missing the 'sub' claim")
      else or_invalid_uuid payload.sub (platform.uuid_parse payload.sub)

  unfoldable pub get_user_id_from_token : Time → String → TokenType → Settings → Result Uuid
  unfolding decode_token get_user_id_from_payload
  get_user_id_from_token now token expected_type settings = do
    payload ← decode_token now token expected_type settings
    get_user_id_from_payload payload
