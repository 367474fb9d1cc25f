-- ===== src/Tests/Platform.antt =====
-- A platform whose laws hold: identifiers in unary, hashes that keep the start of a password, and
-- tokens that spell out their key and their claims.
use Prim.Native.Char.{code}
use package.text.Mathlib.TextLemmas.{length-cons as count-cons}
use real_time_ai_chat_backen.Base.{
  ℕ, zero, suc, ◌≡◌, ◌≢◌, ◌≤◌, refl, sym, ap, ◌∙◌, String, Bool, false, Option, none, some, List,
  [], ◌∷◌, arith, ◌==◌, ◌&&◌, count, leb, strip, strip-strip, str_eq, eq_iff, eq_refl, ◌||◌,
  if◌then◌else◌, Bool-cases, inl, inr,
}
use real_time_ai_chat_backen.Models.{Uuid}
use real_time_ai_chat_backen.Platform.{
  Platform, IsLawful, Claim, Claims, claim, text, integer, pos, Decoded, claims, expired_signature,
  invalid_token, payload_of,
}

abbrev pub unary : ℕ → String
unary zero = ""
unary (suc n) = String.◌∷◌ "x" (unary n)

pub count-unary : (n : ℕ) → count (unary n) ≡ n
count-unary zero = refl
count-unary (suc n) = count-cons "x" (unary n) ∙ ap suc (count-unary n)

abbrev parse : String → Option Uuid
parse String.[] = none
parse (String.◌∷◌ c s) = some (count s)

-- The first characters of a text.
abbrev prefix : ℕ → String → String
prefix zero s = ""
prefix (suc n) String.[] = ""
prefix (suc n) (String.◌∷◌ c s) = String.◌∷◌ c (prefix n s)

count-prefix : (n : ℕ) (s : String) → count (prefix n s) ≤ n
count-prefix zero s = ground arith
count-prefix (suc n) String.[] = ground arith
count-prefix (suc n) (String.◌∷◌ c s) = ground (arith, count-prefix n s, count-cons c (prefix n s))

-- A text and what follows it, in one: each of its characters behind a mark, then another mark.
abbrev pub pack : String → String → String
pack String.[] rest = String.◌∷◌ "0" rest
pack (String.◌∷◌ c s) rest = String.◌∷◌ "1" (String.◌∷◌ c (pack s rest))

abbrev pub unpack : String → String × String
unpack String.[] = ("", "")
unpack (String.◌∷◌ m String.[]) = ("", "")
unpack (String.◌∷◌ m (String.◌∷◌ c s)) =
    let (a, rest) = unpack s in
    if code m == 48 then ("", String.◌∷◌ c s) else (String.◌∷◌ c a, rest)

pub unpack-pack : (s rest : String) → unpack (pack s rest) ≡ (s, rest)
unpack-pack String.[] String.[] = refl
unpack-pack String.[] (String.◌∷◌ c rest) = refl
unpack-pack (String.◌∷◌ c s) rest = rw (unpack-pack s rest)

abbrev text_of : Option Claim → String
text_of (some (text s)) = s
text_of _ = ""

abbrev number_of : Option Claim → ℕ
number_of (some (integer (pos n))) = n
number_of _ = 0

abbrev encode : Claims → String → String → String
encode payload key algorithm = String.◌∷◌ "j" (
    pack key (
      pack algorithm (
        pack (text_of (claim "sub" payload)) (
          pack (text_of (claim "type" payload)) (
            pack (unary (number_of (claim "iat" payload)))
              (unary (number_of (claim "exp" payload))))))))

-- The fields of a token: the key, the algorithm, and the claims.
abbrev fields : String → String × String × Claims × ℕ
fields token =
    let (key, s₀) = unpack token in
    let (algorithm, s₁) = unpack s₀ in
    let (sub, s₂) = unpack s₁ in
    let (kind, s₃) = unpack s₂ in
    let (iat, exp) = unpack s₃ in
    (key, algorithm, payload_of sub kind (count iat) (count exp), count exp)

abbrev allows : List String → String → Bool
allows [] algorithm = false
allows (a ∷ rest) algorithm = str_eq a algorithm || allows rest algorithm

-- What a reader at a second of the clock makes of the fields.
abbrev judge : ℕ → String → List String → String × String × Claims × ℕ → Decoded
judge now key algorithms (k, algorithm, payload, exp) =
    if str_eq k key && allows algorithms algorithm
    then (if leb now exp then claims payload else expired_signature)
    else invalid_token

abbrev decode : ℕ → String → String → List String → Decoded
decode now String.[] key algorithms = invalid_token
decode now (String.◌∷◌ j token) key algorithms = judge now key algorithms (fields token)

abbrev pub toy : Platform
toy = record {
  uuid_str = λ n. String.◌∷◌ "u" (unary n);
  uuid_parse = parse;
  lower = λ s. s;
  repr = λ s. s;
  trim = strip;
  argon2_hash = λ salt s. prefix 128 s;
  argon2_verify = λ s h. some (str_eq (prefix 128 s) h);
  argon2_needs_update = λ h. false;
  jwt_encode = λ payload key algorithm. some (encode payload key algorithm);
  jwt_decode = decode;
}

fields-pack :
    (sub kind key algorithm : String) (iat exp : ℕ)
    → fields (pack key (pack algorithm (pack sub (pack kind (pack (unary iat) (unary exp))))))
      ≡ (key, algorithm, payload_of sub kind iat exp, exp)
fields-pack sub kind key algorithm iat exp = simp (unpack-pack, count-unary) refl

prefix_short : (s : String) → count (prefix 128 s) ≤ 255
prefix_short s = ground (arith, count-prefix 128 s)

str_eq_other : (s t : String) → t ≢ s → str_eq s t ≡ false
str_eq_other s t h = elim (Bool-cases (str_eq s t)) [
  | inl same ↦ absurd (h (sym ((eq_iff s t).0 same)))
  | inr other ↦ other
]

some_inj : {s t : String} → some s ≡ some t → s ≡ t
some_inj h = cc

pub toy-IsLawful : IsLawful toy
toy-IsLawful = record {
  parse-str = λ u. ap some (count-unary u);
  str_nonempty = λ u. refl;
  lower_idem = λ s. refl;
  strip-lower = λ s. refl;
  strip-trim = strip-strip;
  verify-hash = λ salt s. ap some (eq_refl (prefix 128 s));
  count-hash = λ salt s. prefix_short s;
  encode_nonempty = λ payload key algorithm token h. simp (sym (some_inj h)) refl;
  decode-encode = λ now iat exp sub kind key algorithm token h.
      ap (λ t. decode now t key (algorithm ∷ [])) (sym (some_inj h))
      ∙ ap (judge now key (algorithm ∷ [])) (fields-pack sub kind key algorithm iat exp)
      ∙ rw (eq_refl key, eq_refl algorithm) refl;
  decode-encode_other_key = λ now iat exp sub kind key key' algorithm token h other.
      ap (λ t. decode now t key' (algorithm ∷ [])) (sym (some_inj h))
      ∙ ap (judge now key' (algorithm ∷ [])) (fields-pack sub kind key algorithm iat exp)
      ∙ rw (str_eq_other key key' other) refl;
}
