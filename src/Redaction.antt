-- ===== src/Redaction.antt =====
-- `_redact_url` of app/database/session.py and of app/database/redis.py, which are the same, over
-- what `urlparse` makes of a URL.
pub mod Secrecy
use Prim.Native.Char.{Char, code}
use Prim.Native.String
use real_time_ai_chat_backen.Base.{
  ℕ, zero, suc, ◌-◌, String, ◌<>◌, count, Bool, true, false, ◌&&◌, ◌||◌, Option, none, some, ◌==◌,
  if◌then◌else◌,
}

-- The scheme, the part between the slashes, and the path with the query and the fragment.
pub record Url : Type 0 where
  pub scheme : String
  pub netloc : String
  pub path : String

-- `text.rpartition(c)[0]`, or nothing where the character does not occur.
abbrev pub before_last : ℕ → String → Option String
before_last c String.[] = none
before_last c (String.◌∷◌ x s) = elim (before_last c s) [
  | some t ↦ some (String.◌∷◌ x t)
  | none ↦ if code x == c then some "" else none
]

-- `text.partition(c)[2]`, or nothing where the character does not occur.
abbrev pub after_first : ℕ → String → Option String
after_first c String.[] = none
after_first c (String.◌∷◌ x s) = if code x == c then some s else after_first c s

abbrev pub secret_of : Option String → Option String
secret_of none = none
secret_of (some userinfo) = after_first 58 userinfo

-- `parsed.password`: what stands after the first colon before the last at sign.
unfoldable pub password : Url → Option String
password url = secret_of (before_last 64 url.netloc)

abbrev pub is_prefix : String → String → Bool
is_prefix String.[] s = true
is_prefix (String.◌∷◌ c p) String.[] = false
is_prefix (String.◌∷◌ c p) (String.◌∷◌ d s) = code c == code d && is_prefix p s

-- `text.replace(old, new)` for an `old` that is not empty, from the left; so many characters of the
-- text belong to the last occurrence.
unfoldable pub replace_from : String → String → ℕ → String → String
replace_from old new n String.[] = ""
replace_from old new (suc n) (String.◌∷◌ c s) = replace_from old new n s
replace_from old new zero (String.◌∷◌ c s) =
    let after = replace_from old new (count old - 1) s in
    let rest = replace_from old new 0 s in
    if is_prefix old (String.◌∷◌ c s) then new <> after else String.◌∷◌ c rest

unfoldable pub replace : String → String → String → String
unfolding replace_from
replace old new s = replace_from old new 0 s

-- `if parsed.password:`
abbrev pub redacted_by : Option String → Url → Url
redacted_by none url = url
redacted_by (some String.[]) url = url
redacted_by (some (String.◌∷◌ c p)) url = record url {
  netloc = replace (String.◌∷◌ c p) "****" url.netloc;
}

unfoldable pub redact_url : Url → Url
unfolding replace password
redact_url url = redacted_by (password url) url
