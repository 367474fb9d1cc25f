-- ===== src/Platform.antt =====
-- What the program takes from Python and from its packages: `uuid`, `str.lower`, `repr`, passlib's
-- argon2 and python-jose. Each is a parameter; the laws are what their documentation promises.
use real_time_ai_chat_backen.Base.{
  ℕ, ◌≡◌, ◌≢◌, ◌≤◌, String, Bool, true, false, Option, none, some, List, [], ◌∷◌, leb, count, strip,
  str_eq, is_empty, if◌then◌else◌,
}
use real_time_ai_chat_backen.Models.{Uuid}

-- An integer of Python; `negsuc n` is -(n + 1).
pub data ℤ : Type 0 where
  pos : ℕ → ℤ
  negsuc : ℕ → ℤ

-- A value in the payload of a token: JSON, with the values that the code only rejects as one.
pub data Claim : Type 0 where
  null : Claim
  boolean : Bool → Claim
  integer : ℤ → Claim
  text : String → Claim
  other : Claim

abbrev pub Claims : Type 0
Claims = List (String × Claim)

-- `payload.get(name)`
abbrev pub claim : String → Claims → Option Claim
claim name [] = none
claim name ((key, value) ∷ rest) = if str_eq key name then some value else claim name rest

-- What `jwt.decode` returns or raises.
pub data Decoded : Type 0 where
  claims : Claims → Decoded
  expired_signature : Decoded
  invalid_token : Decoded

pub record Platform : Type 0 where
  -- `str(u)`, and `uuid.UUID(s)`, which may raise a `ValueError`
  pub uuid_str : Uuid → String
  pub uuid_parse : String → Option Uuid
  pub lower : String → String
  pub repr : String → String
  -- how pydantic strips a text: by a table of white space of its own
  pub trim : String → String
  -- `argon2.hash(p)` with the salt that it draws; `argon2.verify(p, h)` may raise a `ValueError`
  pub argon2_hash : ℕ → String → String
  pub argon2_verify : String → String → Option Bool
  pub argon2_needs_update : String → Bool
  -- `jwt.encode(payload, key, alg)`, which may raise a `JWTError`; `jwt.decode(token, key, algs)` at a second of the clock
  pub jwt_encode : Claims → String → String → Option String
  pub jwt_decode : ℕ → String → String → List String → Decoded

-- A payload with the four registered claims that the program uses.
abbrev pub payload_of : String → String → ℕ → ℕ → Claims
payload_of sub kind iat exp =
    ("sub", text sub)
    ∷ ("type", text kind)
    ∷ ("iat", integer (pos iat))
    ∷ ("exp", integer (pos exp))
    ∷ []

pub record IsLawful (p : Platform) : Type 0 where
  pub parse-str : (u : Uuid) → p.uuid_parse (p.uuid_str u) ≡ some u
  pub str_nonempty : (u : Uuid) → is_empty (p.uuid_str u) ≡ false
  pub lower_idem : (s : String) → p.lower (p.lower s) ≡ p.lower s
  pub strip-lower : (s : String) → strip (p.lower s) ≡ p.lower (strip s)
  pub strip-trim : (s : String) → strip (p.trim s) ≡ strip s
  pub verify-hash : (salt : ℕ) (s : String) → p.argon2_verify s (p.argon2_hash salt s) ≡ some true
  pub count-hash : (salt : ℕ) (s : String) → count (p.argon2_hash salt s) ≤ 255
  pub encode_nonempty :
      (payload : Claims) (key algorithm token : String)
      → p.jwt_encode payload key algorithm ≡ some token
      → is_empty token ≡ false
  -- a signed token decodes to its payload until its last second, and is expired after it; under
  -- another key its signature is refused
  pub decode-encode :
      (now iat exp : ℕ) (sub kind key algorithm token : String)
      → p.jwt_encode (payload_of sub kind iat exp) key algorithm ≡ some token
      → p.jwt_decode now token key (algorithm ∷ [])
        ≡ (if leb now exp then claims (payload_of sub kind iat exp) else expired_signature)
  pub decode-encode_other_key :
      (now iat exp : ℕ) (sub kind key key' algorithm token : String)
      → p.jwt_encode (payload_of sub kind iat exp) key algorithm ≡ some token
      → key' ≢ key
      → p.jwt_decode now token key' (algorithm ∷ []) ≡ invalid_token
