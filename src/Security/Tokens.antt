-- ===== src/Security/Tokens.antt =====
-- Tokens that app/security.py issued, read back by it.
use real_time_ai_chat_backen.Base.{
  ℕ, ◌≡◌, refl, Bool, true, false, ◌+◌, arith, leb, String, Option, none, some, if◌then◌else◌,
}
use real_time_ai_chat_backen.Errors.{Result, ok, err, overflow_error, raise_if, ◌>>=◌, ◌>>◌}
use real_time_ai_chat_backen.Models.{Uuid, Time}
use real_time_ai_chat_backen.Config.{Settings}
use real_time_ai_chat_backen.Platform.{Platform, IsLawful, claims, expired_signature, payload_of}
use real_time_ai_chat_backen.Security.{
  TokenType, access, refresh, token_type_str, timestamp, authentication_error, build_token,
  decode_token, get_user_id_from_token, decode_raw, get_user_id_from_payload, or_jwt_error,
  end_of_time,
}

module _ (platform : Platform) (lawful : IsLawful platform) where
  -- What the reader of a token makes of one that `_build_token` made.
  abbrev pub verdict : Bool → TokenType → TokenType → Uuid → Result Uuid
  verdict false issued expected user_id = err (authentication_error "Token has expired")
  verdict true access access user_id = ok user_id
  verdict true refresh refresh user_id = ok user_id
  verdict true access refresh user_id =
      err (authentication_error "Expected a 'refresh' token but received 'access'")
  verdict true refresh access user_id =
      err (authentication_error "Expected a 'access' token but received 'refresh'")

  read_back :
      (fresh : Bool) (iat exp : ℕ) (user_id : Uuid) (issued expected : TokenType)
      → (decode_raw platform
            (if fresh
              then claims (payload_of (platform.uuid_str user_id) (token_type_str issued) iat exp)
              else expired_signature)
            expected
          >>= get_user_id_from_payload platform)
        ≡ verdict fresh issued expected user_id
  unfolding decode_raw get_user_id_from_payload
  read_back false iat exp user_id access expected = refl
  read_back false iat exp user_id refresh expected = refl
  read_back true iat exp user_id access access =
      ground (arith, lawful.parse-str user_id, lawful.str_nonempty user_id)
  read_back true iat exp user_id refresh refresh =
      ground (arith, lawful.parse-str user_id, lawful.str_nonempty user_id)
  read_back true iat exp user_id access refresh = refl
  read_back true iat exp user_id refresh access = refl

  encoded_if_ok :
      (late : Bool) (encoded : Option String) (token : String)
      → (raise_if late overflow_error >> or_jwt_error encoded) ≡ ok token
      → encoded ≡ some token
  encoded_if_ok true encoded token h = absurd (cc)
  encoded_if_ok false none token h = absurd (cc)
  encoded_if_ok false (some token') token h = cc

  -- A token that `_build_token` returns is what `jwt.encode` made of its claims.
  pub jwt_encode-build_token :
      (issued_at lifetime : Time) (user_id : Uuid) (issued : TokenType) (settings : Settings)
      (token : String)
      → build_token platform issued_at user_id issued lifetime settings ≡ ok token
      → platform.jwt_encode
          (payload_of
            (platform.uuid_str user_id)
            (token_type_str issued)
            (timestamp issued_at)
            (timestamp (issued_at + lifetime)))
          settings.jwt_secret_key
          settings.jwt_algorithm
        ≡ some token
  unfolding build_token
  jwt_encode-build_token issued_at lifetime user_id issued settings token h =
      encoded_if_ok (leb end_of_time (issued_at + lifetime)) _ token h

  -- With lawful packages, a token that `_build_token` made is accepted exactly by a reader that
  -- expects its type, up to the second of its expiry, and yields the user it was made for; at
  -- another type and after that second it is refused with the message for that case.
  pub get_user_id-build_token :
      (issued_at now lifetime : Time) (user_id : Uuid) (issued expected : TokenType)
      (settings : Settings) (token : String)
      → build_token platform issued_at user_id issued lifetime settings ≡ ok token
      → get_user_id_from_token platform now token expected settings
        ≡ verdict (leb (timestamp now) (timestamp (issued_at + lifetime))) issued expected user_id
  unfolding get_user_id_from_token decode_token
  get_user_id-build_token issued_at now lifetime user_id issued expected settings token made =
      let encoded = jwt_encode-build_token issued_at lifetime user_id issued settings token made in
      rw (lawful.decode-encode _ _ _ _ _ _ _ _ encoded) (
        read_back (leb (timestamp now) (timestamp (issued_at + lifetime))) (timestamp issued_at)
          (timestamp (issued_at + lifetime)) user_id issued expected)
