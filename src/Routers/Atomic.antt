-- ===== src/Routers/Atomic.antt =====
-- What the requests of app/routers that write have committed, and the status that they answer with.
use real_time_ai_chat_backen.Base.{
  ℕ, ◌≡◌, ◌≤◌, refl, ◌⊎◌, inl, inr, String, Bool, true, false, Option, none, some,
}
use real_time_ai_chat_backen.Errors.{
  Error, runtime_error, request_validation_error, Result, ok, err,
}
use real_time_ai_chat_backen.Models.{Uuid}
use real_time_ai_chat_backen.Config.{Settings}
use real_time_ai_chat_backen.Platform.{Platform}
use real_time_ai_chat_backen.Services.Auth.{Credentials, require_active, get_current_user}
use real_time_ai_chat_backen.Models.{User}
use real_time_ai_chat_backen.Session.{Server, State, Action, require, rollback}
use real_time_ai_chat_backen.Session.Atomic.{
  IsQuiet, IsTentative, IsAtomic, tentative_rules, read_clock-IsTentative,
}
use real_time_ai_chat_backen.Services.Auth.Issuing.{CanIssue}
use real_time_ai_chat_backen.Services.Atomic.{
  atomic_rules, register-IsAtomic, create-IsAtomic, rename-IsAtomic, delete_conversation-IsAtomic,
}
use real_time_ai_chat_backen.Repositories.Tentative.{user_by_id-IsTentative}
use real_time_ai_chat_backen.Routers.{
  Request, Response, get_db, after_yield, respond, serve, serve_body, Payload, json, malformed,
}
use real_time_ai_chat_backen.Routers.Auth.{register}
use real_time_ai_chat_backen.Routers.Conversations.{
  create_conversation, rename_conversation, delete_conversation,
}
use real_time_ai_chat_backen.Routers.Statuses.{
  handle_error_lem, Answers, Answers-bind, Answers-pure,
}

-- The request was answered with the status, or with that of an error, and nothing is committed.
abbrev pub IsAllOrNothing : {A : Type 0} → ℕ → State → Response A × State → Type 0
IsAllOrNothing n s (response, s') =
    (response.status ≡ n) ⊎ ((400 ≤ response.status) × (s'.committed ≡ s.committed))

module _ (platform : Platform) (request : Request) where
  module _ {A : Type 0} (n : ℕ) where
    respond-IsAllOrNothing :
        (r : Result (Response A)) (s s' : State)
        → ((response : Response A) → r ≡ ok response → response.status ≡ n)
        → ((e : Error) → r ≡ err e → s'.committed ≡ s.committed)
        → (let (r', s'') = after_yield r s' in
            IsAllOrNothing n s (respond platform request r', s''))
    unfolding after_yield respond rollback
    respond-IsAllOrNothing (ok response) s s' good bad = inl (good response refl)
    respond-IsAllOrNothing (err e) s s' good bad =
        inr ((handle_error_lem platform request.request_id e).0, bad e refl)

    serve-IsAllOrNothing :
        (initialised : Bool) (m : Action (Response A)) (s : State)
        → IsAtomic m
        → Answers n m
        → IsAllOrNothing n s (serve platform initialised request m s)
    unfolding serve get_db
    serve-IsAllOrNothing true m s atomic answers =
        let (r, s') = m s in respond-IsAllOrNothing r s s' (answers.at s) (atomic.at s)
    serve-IsAllOrNothing false m s atomic answers =
        let e = runtime_error "AsyncSessionLocal is not initialised. Call init_db() first." in
        inr ((handle_error_lem platform request.request_id e).0, refl)

    serve_body-IsAllOrNothing :
        {B : Type 0} (initialised : Bool) (handler : B → Action (Response A)) (payload : Payload B)
        (s : State)
        → ((body : B) → IsAtomic (handler body) × Answers n (handler body))
        → IsAllOrNothing n s (serve_body platform initialised request handler payload s)
    unfolding serve_body respond
    serve_body-IsAllOrNothing initialised handler (json body) s h =
        serve-IsAllOrNothing initialised (handler body) s (h body).0 (h body).1
    serve_body-IsAllOrNothing initialised handler malformed s h =
        let e = request_validation_error request.issues in
        inr ((handle_error_lem platform request.request_id e).0, refl)

IsTentative-require : {A : Type 0} (given : Option A) (e : Error) → IsTentative (require given e)
unfolding require
IsTentative-require none e = search tentative_rules
IsTentative-require (some a) e = search tentative_rules

module _ (platform : Platform) (server : Server) (settings : Settings) (quiet : IsQuiet server)
    (issuing : CanIssue platform server settings) (email_str : String → Option String)
    (request : Request) where
  require_active-IsTentative :
      (found : Option User) → IsTentative (require_active platform server settings found)
  unfolding require_active
  require_active-IsTentative none = search tentative_rules
  require_active-IsTentative (some user) = search tentative_rules

  get_current_user-IsTentative :
      (c : Option Credentials) → IsTentative (get_current_user platform server settings c)
  unfolding get_current_user
  get_current_user-IsTentative none = search tentative_rules
  get_current_user-IsTentative (some c) =
      search
        (
          tentative_rules, require_active-IsTentative, read_clock-IsTentative,
          user_by_id-IsTentative,
        )
        depth 9

  register-Answers :
      (body : Option (String × String))
      → Answers 201 (register platform server settings email_str request body)
  unfolding register
  register-Answers body = search (Answers-bind, Answers-pure)

  register_request-IsAtomic :
      (body : Option (String × String))
      → IsAtomic (register platform server settings email_str request body)
  unfolding register
  register_request-IsAtomic body =
      search (
        atomic_rules,
        IsTentative-require,
        register-IsAtomic platform server settings quiet issuing,
      )

  create_request-IsAtomic :
      (title : Option String)
      → IsAtomic (create_conversation platform server settings request title)
        × Answers 201 (create_conversation platform server settings request title)
  unfolding create_conversation
  create_request-IsAtomic title = (
    search (atomic_rules, get_current_user-IsTentative, IsTentative-require, create-IsAtomic) depth
        9,
    search (Answers-bind, Answers-pure) depth 9,
  )

  rename_request-IsAtomic :
      (path : Option Uuid) (title : Option String)
      → IsAtomic (rename_conversation platform server settings request path title)
        × Answers 200 (rename_conversation platform server settings request path title)
  unfolding rename_conversation
  rename_request-IsAtomic path title = (
    search (atomic_rules, get_current_user-IsTentative, IsTentative-require, rename-IsAtomic) depth
        9,
    search (Answers-bind, Answers-pure) depth 9,
  )

  delete_request-IsAtomic :
      (path : Option Uuid)
      → IsAtomic (delete_conversation platform server settings request path)
        × Answers 204 (delete_conversation platform server settings request path)
  unfolding delete_conversation
  delete_request-IsAtomic path = (
    search
        (
          atomic_rules, get_current_user-IsTentative, IsTentative-require,
          delete_conversation-IsAtomic,
        )
        depth 9,
    search (Answers-bind, Answers-pure) depth 9,
  )

  -- If no other session writes meanwhile and tokens can be issued: a request to register, or to
  -- create, rename or delete a conversation, is answered with 201, 201, 200 and 204, or else with an
  -- error, and then nothing is committed, whatever the request holds and whatever fails.
  pub requests-IsAllOrNothing :
      (initialised : Bool) (account : Payload (Option (String × String)))
      (title : Payload (Option String)) (path : Option Uuid) (s : State)
      → IsAllOrNothing 201 s (
          serve_body platform initialised request
            (register platform server settings email_str request)
            account
            s)
        × IsAllOrNothing 201 s (
            serve_body platform initialised request
              (create_conversation platform server settings request)
              title
              s)
        × IsAllOrNothing 200 s (
            serve_body platform initialised request
              (rename_conversation platform server settings request path)
              title
              s)
        × IsAllOrNothing 204 s (
            serve platform initialised request
              (delete_conversation platform server settings request path)
              s)
  requests-IsAllOrNothing initialised account title path s =
      let deleted = delete_request-IsAtomic path in
      (
        serve_body-IsAllOrNothing platform request 201 initialised _ account s
            (λ body. (register_request-IsAtomic body, register-Answers body)),
        serve_body-IsAllOrNothing platform request 201 initialised _ title s
            create_request-IsAtomic,
        serve_body-IsAllOrNothing platform request 200 initialised _ title s
            (rename_request-IsAtomic path),
        serve-IsAllOrNothing platform request 204 initialised _ s deleted.0 deleted.1,
      )
