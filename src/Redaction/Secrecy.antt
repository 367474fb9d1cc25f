-- ===== src/Redaction/Secrecy.antt =====
-- What `_redact_url` of app/database/session.py leaves of a password.
use Prim.Native.Char.{Char, code}
use package.text.Mathlib.TextLemmas.{nil-append, cons-append}
use real_time_ai_chat_backen.Base.{
  ℕ, zero, suc, ◌-◌, ◌≡◌, refl, String, ◌<>◌, count, Bool, true, false, ◌&&◌, ◌||◌, not, some, ◌==◌,
  if-holds, arith,
}
use real_time_ai_chat_backen.Redaction.{Url, password, is_prefix, replace_from, replace, redact_url}

abbrev pub is_starless : String → Bool
is_starless String.[] = true
is_starless (String.◌∷◌ c s) = not (code c == 42) && is_starless s

abbrev is_stars : String → Bool
is_stars String.[] = true
is_stars (String.◌∷◌ c s) = code c == 42 && is_stars s

-- The first text occurs somewhere in the second.
abbrev pub is_within : String → String → Bool
is_within p String.[] = is_prefix p String.[]
is_within p (String.◌∷◌ c s) = is_prefix p (String.◌∷◌ c s) || is_within p s

module _ (c : Char) (p : String) (free : is_starless (String.◌∷◌ c p) ≡ true) (e : Char)
    (stars : String) (h : is_stars (String.◌∷◌ e stars) ≡ true) where
  abbrev old : String
  old = String.◌∷◌ c p

  abbrev new : String
  new = String.◌∷◌ e stars

  -- A text without stars is no prefix of one that begins with a star.
  starred-ne-prefix :
      (d : Char) (q s : String)
      → is_starless (String.◌∷◌ d q) ≡ true
      → is_prefix (String.◌∷◌ d q) (new <> s) ≡ false
  starred-ne-prefix d q s free' = rw (cons-append e stars s) (ground (arith, h, free'))

  within-stars :
      (text s : String)
      → is_stars text ≡ true
      → is_within old s ≡ false
      → is_within old (text <> s) ≡ false
  within-stars String.[] s k out = rw (nil-append s) out
  within-stars (String.◌∷◌ d text) s k out =
      let rest = within-stars text s (ground (arith, k)) out in
      rw (cons-append d text s) (ground (arith, k, free, rest))

  -- Nothing without stars comes in front by the replacement.
  prefix-replace :
      (q s : String)
      → is_starless q ≡ true
      → is_prefix q (replace_from old new 0 s) ≡ true
      → is_prefix q s ≡ true
  unfolding replace_from
  prefix-replace String.[] s free' k = refl
  prefix-replace (String.◌∷◌ d q) String.[] free' k = k
  prefix-replace (String.◌∷◌ d q) (String.◌∷◌ x s) free' k =
      let after = replace_from old new (count old - 1) s in
      let rest = replace_from old new 0 s in
      let kept = prefix-replace q s in
      if-holds
        (λ (t : String).
          is_prefix (String.◌∷◌ d q) t ≡ true → is_prefix (String.◌∷◌ d q) (String.◌∷◌ x s) ≡ true)
        (is_prefix old (String.◌∷◌ x s)) {x = new <> after} {y = String.◌∷◌ x rest}
        (λ _ k'. absurd (ground (arith, starred-ne-prefix d q after free', k')))
        (λ _ k'. ground (arith, kept, k', free')) k

  -- No occurrence is left.
  replaced-ne-within : (n : ℕ) (s : String) → is_within old (replace_from old new n s) ≡ false
  unfolding replace_from
  replaced-ne-within n String.[] = refl
  replaced-ne-within (suc n) (String.◌∷◌ x s) = replaced-ne-within n s
  replaced-ne-within zero (String.◌∷◌ x s) =
      let n = count old - 1 in
      if-holds (λ (t : String). is_within old t ≡ false) (is_prefix old (String.◌∷◌ x s))
        (λ _. within-stars new (replace_from old new n s) h (replaced-ne-within n s))
        (λ there. ground (arith, prefix-replace p s, free, there, replaced-ne-within zero s))

-- If a URL has a password without stars, it does not occur between the slashes of the URL that goes
-- to the log, neither where it stood nor elsewhere, and the rest of the URL is as it was.
pub redact_url-hides :
    (url : Url) (c : Char) (p : String)
    → password url ≡ some (String.◌∷◌ c p)
    → is_starless (String.◌∷◌ c p) ≡ true
    → let after = redact_url url in
      (is_within (String.◌∷◌ c p) after.netloc ≡ false)
      × (after.scheme ≡ url.scheme)
      × (after.path ≡ url.path)
unfolding redact_url replace
redact_url-hides url c p h free =
    rw h (replaced-ne-within c p free _ _ refl 0 url.netloc, refl, refl)
