-- ===== src/Security/Acceptance.antt =====
-- The tokens that app/security.py accepts, whoever made them, and what their claims are.
use real_time_ai_chat_backen.Base.{
  ◌≡◌, ◌<>◌, ap, refl, String, false, Option, none, some, [], ◌∷◌, arith, str_eq, eq_iff,
  Bool-cases, inl, inr,
}
use real_time_ai_chat_backen.Errors.{Error, Result, ok, err, ◌>>=◌, ◌>>◌, raise_if}
use real_time_ai_chat_backen.Models.{Uuid, Time}
use real_time_ai_chat_backen.Config.{Settings}
use real_time_ai_chat_backen.Platform.{
  Platform, ℤ, Claim, null, boolean, integer, text, other, Claims, claim, Decoded, claims,
  expired_signature, invalid_token,
}
use real_time_ai_chat_backen.Security.{
  TokenType, differs, authentication_error, access, refresh, token_type_str, TokenPayload,
  get_subject, get_subject_of, get_token_type, get_token_type_of, get_int_claim, get_int_claim_of,
  timestamp, validate_claims, decode_raw, decode_token, get_user_id_from_payload,
  get_user_id_from_token,
}

module _ (platform : Platform) where
  -- The claims name the user and the type, and have both times.
  pub record Identifies (raw : Claims) (expected : TokenType) (user_id : Uuid) : Type 0 where
    pub sub : String
    pub iat : ℤ
    pub exp : ℤ
    pub sub_claim : claim "sub" raw ≡ some (text sub)
    pub type_claim : claim "type" raw ≡ some (text (token_type_str expected))
    pub iat_claim : claim "iat" raw ≡ some (integer iat)
    pub exp_claim : claim "exp" raw ≡ some (integer exp)
    pub parsed : platform.uuid_parse sub ≡ some user_id

  get_subject-claim :
      (found : Option Claim) (sub : String)
      → get_subject_of found ≡ ok sub
      → found ≡ some (text sub)
  unfolding get_subject_of
  get_subject-claim (some (text s)) sub h = ground arith
  get_subject-claim none sub h = absurd (cc)
  get_subject-claim (some null) sub h = absurd (cc)
  get_subject-claim (some (boolean b)) sub h = absurd (cc)
  get_subject-claim (some (integer n)) sub h = absurd (cc)
  get_subject-claim (some other) sub h = absurd (cc)

  get_token_type-claim :
      (found : Option Claim) (kind : TokenType)
      → get_token_type_of found ≡ ok kind
      → found ≡ some (text (token_type_str kind))
  unfolding get_token_type_of
  get_token_type-claim (some (text s)) kind h = elim (Bool-cases (str_eq s "access")) [
    | inl first ↦ ground (arith, first, (eq_iff s "access").0)
    | inr later ↦ ground (arith, later, (eq_iff s "refresh").0)
  ]
  get_token_type-claim none kind h = absurd (cc)
  get_token_type-claim (some null) kind h = absurd (cc)
  get_token_type-claim (some (boolean b)) kind h = absurd (cc)
  get_token_type-claim (some (integer n)) kind h = absurd (cc)
  get_token_type-claim (some other) kind h = absurd (cc)

  get_int_claim-claim :
      (name : String) (found : Option Claim) (n : ℤ)
      → get_int_claim_of name found ≡ ok n
      → found ≡ some (integer n)
  unfolding get_int_claim_of
  get_int_claim-claim name (some (integer m)) n h = ground arith
  get_int_claim-claim name none n h = absurd (cc)
  get_int_claim-claim name (some null) n h = absurd (cc)
  get_int_claim-claim name (some (boolean b)) n h = absurd (cc)
  get_int_claim-claim name (some (text s)) n h = absurd (cc)
  get_int_claim-claim name (some other) n h = absurd (cc)

  same_type : (kind expected : TokenType) → differs kind expected ≡ false → kind ≡ expected
  same_type access access h = refl
  same_type refresh refresh h = refl
  same_type access refresh h = absurd (cc)
  same_type refresh access h = absurd (cc)

  parsed_of :
      (payload : TokenPayload) (user_id : Uuid)
      → get_user_id_from_payload platform payload ≡ ok user_id
      → platform.uuid_parse payload.sub ≡ some user_id
  unfolding get_user_id_from_payload
  parsed_of payload user_id h = ground arith

  -- `decode_token`, from what its helpers return.
  abbrev assemble :
      (TokenType → Error)
      → Result TokenType
      → Result String
      → Result ℤ
      → Result ℤ
      → TokenType
      → Result TokenPayload
  assemble refusal kind_read sub_read exp_read iat_read expected = do
    kind ← kind_read
    raise_if (differs kind expected) (refusal kind)
    sub ← sub_read
    exp ← exp_read
    iat ← iat_read
    ok (record { sub = sub; kind = kind; exp = exp; iat = iat })

  all_read :
      (refusal : TokenType → Error) (kind_read : Result TokenType) (sub_read : Result String)
      (exp_read iat_read : Result ℤ) (expected : TokenType) (user_id : Uuid)
      → (assemble refusal kind_read sub_read exp_read iat_read expected
          >>= get_user_id_from_payload platform)
        ≡ ok user_id
      → (sub : String) × (exp : ℤ) × (iat : ℤ) × (kind_read ≡ ok expected)
        × (sub_read ≡ ok sub)
        × (exp_read ≡ ok exp)
        × (iat_read ≡ ok iat)
        × (platform.uuid_parse sub ≡ some user_id)
  all_read refusal (ok kind) (ok sub) (ok exp) (ok iat) expected user_id h =
      elim (Bool-cases (differs kind expected)) [
        | inl wrong ↦ absurd (ground (arith, wrong))
        | inr same ↦ (
          sub,
          exp,
          iat,
          ap ok (same_type kind expected same),
          refl,
          refl,
          refl,
          parsed_of (record { sub = sub; kind = kind; exp = exp; iat = iat }) user_id
              (rw same at h),
        )
      ]
  all_read refusal (err e) sub_read exp_read iat_read expected user_id h = absurd (cc)
  all_read refusal (ok kind) (err e) exp_read iat_read expected user_id h = absurd (ground arith)
  all_read refusal (ok kind) (ok sub) (err e) iat_read expected user_id h = absurd (ground arith)
  all_read refusal (ok kind) (ok sub) (ok exp) (err e) expected user_id h = absurd (ground arith)

  claims_of :
      (raw : Claims) (expected : TokenType) (user_id : Uuid)
      → (validate_claims platform raw expected >>= get_user_id_from_payload platform) ≡ ok user_id
      → Identifies raw expected user_id
  unfolding validate_claims get_subject get_token_type get_int_claim
  claims_of raw expected user_id h =
      let (sub, exp, iat, kind_lem, sub_lem, exp_lem, iat_lem, parsed) =
        all_read
          (λ kind. authentication_error (
            "Expected a '"
            <> token_type_str expected
            <> "' token but received '"
            <> token_type_str kind
            <> "'"))
          (get_token_type_of (claim "type" raw)) (get_subject_of (claim "sub" raw))
          (get_int_claim_of "exp" (claim "exp" raw)) (get_int_claim_of "iat" (claim "iat" raw))
          expected user_id h in
      record {
        sub = sub;
        iat = iat;
        exp = exp;
        sub_claim = get_subject-claim (claim "sub" raw) sub sub_lem;
        type_claim = get_token_type-claim (claim "type" raw) expected kind_lem;
        iat_claim = get_int_claim-claim "iat" (claim "iat" raw) iat iat_lem;
        exp_claim = get_int_claim-claim "exp" (claim "exp" raw) exp exp_lem;
        parsed = parsed;
      }

  accepted :
      (decoded : Decoded) (expected : TokenType) (user_id : Uuid)
      → (decode_raw platform decoded expected >>= get_user_id_from_payload platform) ≡ ok user_id
      → (raw : Claims) × (decoded ≡ claims raw) × Identifies raw expected user_id
  unfolding decode_raw
  accepted (claims raw) expected user_id h = (raw, refl, claims_of raw expected user_id h)
  accepted expired_signature expected user_id h = absurd (cc)
  accepted invalid_token expected user_id h = absurd (cc)

  -- A token is accepted for a user only if python-jose, with the configured key and the one
  -- configured algorithm, has decoded it at that second, and its claims are of the expected type,
  -- have both times, and name that user.
  pub get_user_id_from_token-Identifies :
      (now : Time) (token : String) (expected : TokenType) (settings : Settings) (user_id : Uuid)
      → get_user_id_from_token platform now token expected settings ≡ ok user_id
      → (raw : Claims) × (platform.jwt_decode
            (timestamp now)
            token
            settings.jwt_secret_key
            (settings.jwt_algorithm ∷ [])
          ≡ claims raw)
        × Identifies raw expected user_id
  unfolding get_user_id_from_token decode_token
  get_user_id_from_token-Identifies now token expected settings user_id h =
      accepted
        (platform.jwt_decode (timestamp now) token settings.jwt_secret_key
          (settings.jwt_algorithm ∷ []))
        expected user_id h
