-- ===== src/App.antt =====
-- `create_app` of app/main.py and `register_routers` of app/routers: the routes of the application,
-- as Starlette matches them.
pub mod Routing
use real_time_ai_chat_backen.Base.{
  ℕ, String, Bool, true, false, not, ◌&&◌, ◌||◌, Option, none, some, List, [], ◌∷◌, ◌++◌, map,
  str_eq, ◌==◌, find, if◌then◌else◌,
}
use real_time_ai_chat_backen.Config.{Settings, is_production}

pub data Method : Type 0 where
  get post patch delete websocket : Method

-- A segment between two slashes; a parameter takes any that is not empty.
pub data Segment : Type 0 where
  literal : String → Segment
  parameter : Segment

-- The functions that the routes lead to; the first four are FastAPI's own.
pub data Endpoint : Type 0 where
  openapi docs docs_redirect redoc : Endpoint
  health_check liveness readiness : Endpoint
  register login refresh me : Endpoint
  create_conversation list_conversations rename_conversation delete_conversation : Endpoint
  list_conversation_messages conversation_websocket : Endpoint

pub record Route : Type 0 where
  pub method : Method
  pub path : List Segment
  pub endpoint : Endpoint

abbrev pub route : Method → List Segment → Endpoint → Route
route method path endpoint = record { method = method; path = path; endpoint = endpoint }

-- `APIRouter(prefix=...)`
abbrev pub under : String → List Route → List Route
under prefix [] = []
under prefix (r ∷ rs) = record r { path = literal prefix ∷ r.path } ∷ under prefix rs

unfoldable pub health_router : List Route
health_router =
    route get (literal "health" ∷ []) health_check
    ∷ route get (literal "health" ∷ literal "live" ∷ []) liveness
    ∷ route get (literal "health" ∷ literal "ready" ∷ []) readiness
    ∷ []

unfoldable pub auth_router : List Route
auth_router = under "auth" (
    route post (literal "register" ∷ []) register
    ∷ route post (literal "login" ∷ []) login
    ∷ route post (literal "refresh" ∷ []) refresh
    ∷ route get (literal "me" ∷ []) me
    ∷ [])

unfoldable pub conversations_router : List Route
conversations_router = under "conversations" (
    route post [] create_conversation
    ∷ route get [] list_conversations
    ∷ route patch (parameter ∷ []) rename_conversation
    ∷ route delete (parameter ∷ []) delete_conversation
    ∷ route get (parameter ∷ literal "messages" ∷ []) list_conversation_messages
    ∷ [])

unfoldable pub ws_router : List Route
ws_router =
    route websocket (literal "ws" ∷ literal "conversations" ∷ parameter ∷ []) conversation_websocket
    ∷ []

-- The routes that FastAPI adds for the URLs that it is given.
abbrev pub documentation : Bool → List Route
documentation true = []
documentation false =
    route get (literal "openapi.json" ∷ []) openapi
    ∷ route get (literal "docs" ∷ []) docs
    ∷ route get (literal "docs" ∷ literal "oauth2-redirect" ∷ []) docs_redirect
    ∷ route get (literal "redoc" ∷ []) redoc
    ∷ []

unfoldable pub register_routers : List Route → List Route
unfolding health_router auth_router conversations_router ws_router
register_routers routes =
    routes ++ health_router ++ auth_router ++ conversations_router ++ ws_router

pub data Middleware : Type 0 where
  gzip : ℕ → Middleware
  cors : List String → Bool → Middleware

-- `middleware` has the outermost first, `routes` the first that is tried.
pub record FastApi : Type 0 where
  pub title : String
  pub version : String
  pub description : String
  pub middleware : List Middleware
  pub routes : List Route

-- Each `add_middleware` goes around what is there. The CORS headers are for every method and header.
unfoldable pub create_app : Settings → FastApi
unfolding register_routers
create_app settings = record {
  title = settings.app_name;
  version = settings.app_version;
  description = "FastAPI chat backend with PostgreSQL, Redis, and WebSockets";
  middleware = cors settings.cors_origins true ∷ gzip 1000 ∷ [];
  routes = register_routers (documentation (is_production settings.app_env));
}

abbrev pub method_number : Method → ℕ
method_number get = 0
method_number post = 1
method_number patch = 2
method_number delete = 3
method_number websocket = 4

abbrev pub same_method : Method → Method → Bool
same_method m n = method_number m == method_number n

abbrev pub fits : Segment → String → Bool
fits (literal s) given = str_eq s given
fits parameter given = not (str_eq given "")

abbrev pub matches : List Segment → List String → Bool
matches [] [] = true
matches (s ∷ path) (given ∷ segments) = fits s given && matches path segments
matches _ _ = false

abbrev pub accepts : Method → List String → Route → Bool
accepts method segments r = same_method r.method method && matches r.path segments

abbrev pub endpoint_of : Option Route → Option Endpoint
endpoint_of none = none
endpoint_of (some r) = some r.endpoint

-- The first route that accepts the request.
unfoldable pub dispatch : List Route → Method → List String → Option Endpoint
dispatch routes method segments = endpoint_of (find (accepts method segments) routes)
