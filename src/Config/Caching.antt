-- ===== src/Config/Caching.antt =====
-- What the callers of `get_settings` of app/config.py can rely on.
use mathlib.Core.Path.{subst}
use real_time_ai_chat_backen.Base.{◌≡◌, refl, sym, Option, none, some, List, [], ◌∷◌}
use real_time_ai_chat_backen.Config.{Settings, Loaded, loaded, invalid}
use real_time_ai_chat_backen.Config.Guards.{IsSafe, accepted-IsSafe}
use real_time_ai_chat_backen.Config.Loading.{
  Variables, read_settings, validated, load, remember, get_settings,
}

-- The cache after calls at which the variables were these.
unfoldable pub cached : List Variables → Option Settings → Option Settings
unfolding get_settings
cached [] cache = cache
cached (v ∷ vs) cache = cached vs (get_settings v cache).1

abbrev IsKept : Option Settings → Type 0
IsKept none = Unit {0}
IsKept (some s) = IsSafe s

validated-IsSafe : (read : Option Settings) (s : Settings) → validated read ≡ loaded s → IsSafe s
validated-IsSafe none s h = absurd (cc)
validated-IsSafe (some t) s h =
    let (safe, same) = accepted-IsSafe t s h in subst IsSafe (sym same) safe

remember-IsKept : (r : Loaded) → ((s : Settings) → r ≡ loaded s → IsSafe s) → IsKept (remember r).1
remember-IsKept (loaded s) h = h s refl
remember-IsKept (invalid e) h = tt

get_settings-IsKept :
    (v : Variables) (cache : Option Settings) → IsKept cache → IsKept (get_settings v cache).1
unfolding get_settings
get_settings-IsKept v none h = remember-IsKept (load v) (validated-IsSafe (read_settings v))
get_settings-IsKept v (some s) h = h

cached-IsKept :
    (vs : List Variables) (cache : Option Settings) → IsKept cache → IsKept (cached vs cache)
unfolding cached
cached-IsKept [] cache h = h
cached-IsKept (v ∷ vs) cache h = cached-IsKept vs _ (get_settings-IsKept v cache h)

-- What a call returns is in the cache after it.
remember-returned :
    (r : Loaded) (s : Settings) → (remember r).0 ≡ loaded s → (remember r).1 ≡ some s
remember-returned (loaded t) s h = cc
remember-returned (invalid e) s h = absurd (cc)

get_settings-returned :
    (v : Variables) (cache : Option Settings) (s : Settings)
    → (get_settings v cache).0 ≡ loaded s
    → (get_settings v cache).1 ≡ some s
unfolding get_settings
get_settings-returned v none s h = remember-returned (load v) s h
get_settings-returned v (some t) s h = cc

cached_for_good : (vs : List Variables) (s : Settings) → cached vs (some s) ≡ some s
unfolding cached
cached_for_good [] s = refl
cached_for_good (v ∷ vs) s = cached_for_good vs s

-- Whatever the variables were at the calls before: the settings that a call of `get_settings`
-- returns have positive lifetimes and, in production, a secret that is not published and `debug`
-- off. Every later call returns the same settings, whatever becomes of the variables.
pub get_settings-IsSafe :
    (earlier between : List Variables) (v w : Variables) (s : Settings)
    → (get_settings v (cached earlier none)).0 ≡ loaded s
    → IsSafe s
      × ((get_settings w (cached between (get_settings v (cached earlier none)).1)).0 ≡ loaded s)
unfolding get_settings
get_settings-IsSafe earlier between v w s h =
    let cache = cached earlier none in
    let kept = get_settings-IsKept v cache (cached-IsKept earlier none tt) in
    let returned = get_settings-returned v cache s h in
    (subst IsKept returned kept, rw (returned, cached_for_good between s) refl)
