-- ===== src/App/Routing.antt =====
-- The routes of app/main.py and app/routers do not stand in each other's way.
use real_time_ai_chat_backen.Base.{
  ◌≡◌, ◌≤◌, ◌∙◌, sym, refl, String, Bool, true, false, not, ◌&&◌, ◌||◌, Option, none, some, List,
  [], ◌∷◌, length, filter, arith, str_eq, eq_iff, if-holds,
}
use real_time_ai_chat_backen.Config.{Settings, is_production}
use real_time_ai_chat_backen.App.{
  Method, Segment, literal, parameter, Endpoint, openapi, docs, docs_redirect, redoc, Route,
  documentation, register_routers, create_app, same_method, matches, accepts, endpoint_of, dispatch,
}

-- No path has both forms.
abbrev pub apart : List Segment → List Segment → Bool
apart [] [] = false
apart [] (t ∷ q) = true
apart (s ∷ p) [] = true
apart (literal a ∷ p) (literal b ∷ q) = not (str_eq a b) || apart p q
apart (s ∷ p) (t ∷ q) = apart p q

literal-apart :
    (a b given : String) → str_eq a given ≡ true → str_eq b given ≡ true → str_eq a b ≡ true
literal-apart a b given h k = (eq_iff a b).1 ((eq_iff a given).0 h ∙ sym ((eq_iff b given).0 k))

matches-apart :
    (p q : List Segment) (segments : List String)
    → apart p q ≡ true
    → matches p segments ≡ true
    → matches q segments ≡ false
matches-apart [] [] segments h k = absurd (cc)
matches-apart [] (t ∷ q) [] h k = refl
matches-apart [] (t ∷ q) (given ∷ segments) h k = absurd (cc)
matches-apart (s ∷ p) [] [] h k = absurd (cc)
matches-apart (s ∷ p) [] (given ∷ segments) h k = refl
matches-apart (s ∷ p) (t ∷ q) [] h k = refl
matches-apart (literal a ∷ p) (literal b ∷ q) (given ∷ segments) h k =
    ground (arith, matches-apart p q segments, literal-apart a b given)
matches-apart (literal a ∷ p) (parameter ∷ q) (given ∷ segments) h k =
    ground (arith, matches-apart p q segments)
matches-apart (parameter ∷ p) (t ∷ q) (given ∷ segments) h k =
    ground (arith, matches-apart p q segments)

abbrev pub clash : Route → Route → Bool
clash r r' = same_method r.method r'.method && not (apart r.path r'.path)

abbrev pub clashes_with_any : Route → List Route → Bool
clashes_with_any r [] = false
clashes_with_any r (r' ∷ rs) = clash r r' || clashes_with_any r rs

-- No two routes in the list take the same method and path.
abbrev pub are_clear : List Route → Bool
are_clear [] = true
are_clear (r ∷ rs) = not (clashes_with_any r rs) && are_clear rs

same_method_trans :
    (m n k : Method) → same_method m k ≡ true → same_method n k ≡ true → same_method m n ≡ true
same_method_trans m n k h j = ground arith

module _ (method : Method) (segments : List String) where
  clear-rejects :
      (r : Route) (rs : List Route)
      → clashes_with_any r rs ≡ false
      → accepts method segments r ≡ true
      → filter (accepts method segments) rs ≡ []
  clear-rejects r [] h k = refl
  clear-rejects r (r' ∷ rs) h k = ground (
    arith,
    clear-rejects r rs,
    same_method_trans r.method r'.method method,
    matches-apart r.path r'.path segments,
  )

  -- At most one of clear routes accepts a request.
  clear_unique :
      (rs : List Route) → are_clear rs ≡ true → length (filter (accepts method segments) rs) ≤ 1
  clear_unique [] h = ground arith
  clear_unique (r ∷ rs) h = ground (arith, clear-rejects r rs, clear_unique rs)

register_routers-clear :
    (hidden : Bool) → are_clear (register_routers (documentation hidden)) ≡ true
unfolding register_routers
register_routers-clear true = refl
register_routers-clear false = refl

create_app-clear : (settings : Settings) → are_clear (create_app settings).routes ≡ true
unfolding create_app
create_app-clear settings = register_routers-clear (is_production settings.app_env)

abbrev pub is_documentation : Endpoint → Bool
is_documentation openapi = true
is_documentation docs = true
is_documentation docs_redirect = true
is_documentation redoc = true
is_documentation _ = false

abbrev pub is_documented : Option Endpoint → Bool
is_documented none = false
is_documented (some e) = is_documentation e

abbrev undocumented : List Route → Bool
undocumented [] = true
undocumented (r ∷ rs) = not (is_documentation r.endpoint) && undocumented rs

undocumented-dispatch :
    (rs : List Route) (method : Method) (segments : List String)
    → undocumented rs ≡ true
    → is_documented (dispatch rs method segments) ≡ false
unfolding dispatch
undocumented-dispatch [] method segments h = refl
undocumented-dispatch (r ∷ rs) method segments h =
    if-holds (λ o. is_documented (endpoint_of o) ≡ false) (accepts method segments r)
      (λ _. ground (arith, h)) (λ _. undocumented-dispatch rs method segments (ground (arith, h)))

hidden-dispatch :
    (hidden : Bool) (method : Method) (segments : List String)
    → (is_documented (dispatch (register_routers (documentation hidden)) method segments) && hidden)
      ≡ false
unfolding register_routers
hidden-dispatch true method segments =
    rw (undocumented-dispatch (register_routers []) method segments refl) refl
hidden-dispatch false method segments = ground arith

-- Under whatever settings, at most one route of the application accepts a request, so that the
-- order of the routers does not matter, and in production no request gets to the documentation of
-- the API.
pub create_app-unambiguous :
    (settings : Settings) (method : Method) (segments : List String)
    → (length (filter (accepts method segments) (create_app settings).routes) ≤ 1)
      × ((is_documented (dispatch (create_app settings).routes method segments)
            && is_production settings.app_env)
          ≡ false)
unfolding create_app
create_app-unambiguous settings method segments = (
  clear_unique method segments (create_app settings).routes (create_app-clear settings),
  hidden-dispatch (is_production settings.app_env) method segments,
)
