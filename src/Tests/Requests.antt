-- ===== src/Tests/Requests.antt =====
-- The theorems on requests, on the admission to the chat, on the life of the application, and on the
-- migration.
use real_time_ai_chat_backen.Base.{◌≡◌, refl, String, true, Option, some, none, [], ◌∷◌, strip}
use real_time_ai_chat_backen.Errors.{authentication, app_error, ok}
use real_time_ai_chat_backen.Errors.Handlers.{handle_error}
use real_time_ai_chat_backen.Platform.{pos}
use real_time_ai_chat_backen.Security.{create_access_token, build_token, get_user_id_from_token}
use real_time_ai_chat_backen.Session.{State, raise, statement, session_actions}
use real_time_ai_chat_backen.Services.Auth.{get_current_user, require_active}
use real_time_ai_chat_backen.Repositories.Users.{users_queries}
use real_time_ai_chat_backen.Repositories.Conversations.{conversations_queries}
use real_time_ai_chat_backen.Routers.{Request, serve, serve_body, json}
use real_time_ai_chat_backen.Routers.Auth.{me, register}
use real_time_ai_chat_backen.Routers.Conversations.{
  create_conversation, list_conversations, rename_conversation, delete_conversation,
  list_conversation_messages, title_request,
}
use real_time_ai_chat_backen.Routers.Refusals.{
  refusal, unauthenticated_refused, foreign_conversation_hidden,
}
use real_time_ai_chat_backen.Routers.Atomic.{IsAllOrNothing, requests-IsAllOrNothing}
use real_time_ai_chat_backen.Services.Conversation.{conversation_missing}
use real_time_ai_chat_backen.WebSocket.Endpoint.{admit, admitted}
use real_time_ai_chat_backen.WebSocket.Endpoint.Admission.{IsEntitled, admit-IsEntitled}
use real_time_ai_chat_backen.WebSocket.PubSub.{initial}
use real_time_ai_chat_backen.Lifecycle.{Application}
use real_time_ai_chat_backen.Migrations.{Schema, string}
use real_time_ai_chat_backen.Migrations.Initial.{column, when, upgrade, downgrade}
use real_time_ai_chat_backen.Migrations.Upgrade.{IsClear, upgraded, downgrade-upgrade}
use real_time_ai_chat_backen.Tests.Accounts.{quick-CanIssue, alice_access}
use real_time_ai_chat_backen.Tests.Platform.{toy}
use real_time_ai_chat_backen.Tests.Server.{quick, quick-IsQuiet}
use real_time_ai_chat_backen.Tests.Data.{alice, sample, begun, settings}

abbrev anonymous : Request
anonymous = record { request_id = some "r1"; credentials = none; issues = [] }

abbrev signed_in : Request
signed_in = record anonymous {
  credentials = some (record { scheme = "bearer"; credentials = alice_access });
}

abbrev any_email : String → Option String
any_email email = some email

unauthenticated_refused_example :
    let e = app_error (authentication "Authentication token is missing") in
    ((handle_error toy (some "r1") e).status_code ≡ 401)
    × (serve toy true anonymous (me toy quick settings any_email anonymous) begun
        ≡ (refusal toy anonymous e, begun))
    × (serve_body toy true anonymous
          (create_conversation toy quick settings anonymous)
          (json (some "Plans"))
          begun
        ≡ (refusal toy anonymous e, begun))
    × (serve toy true anonymous
          (list_conversations toy quick settings anonymous (some (pos 1, pos 20)))
          begun
        ≡ (refusal toy anonymous e, begun))
    × (serve_body toy true anonymous
          (rename_conversation toy quick settings anonymous (some 10))
          (json (some "Plans"))
          begun
        ≡ (refusal toy anonymous e, begun))
    × (serve toy true anonymous (delete_conversation toy quick settings anonymous (some 10)) begun
        ≡ (refusal toy anonymous e, begun))
    × (serve toy true anonymous
          (list_conversation_messages toy quick settings anonymous (some 10) (some (pos 1, pos 20)))
          begun
        ≡ (refusal toy anonymous e, begun))
unfolding get_current_user raise
unauthenticated_refused_example =
    unauthenticated_refused toy quick settings any_email anonymous begun
      "Authentication token is missing" (some "Plans") (some 10) (some (pos 1, pos 20)) refl

requests-IsAllOrNothing_example :
    IsAllOrNothing 201 begun (
      serve_body toy true signed_in
        (register toy quick settings any_email signed_in)
        (json (some ("carol@example.org", "pass phrase")))
        begun)
    × IsAllOrNothing 201 begun (
        serve_body toy true signed_in
          (create_conversation toy quick settings signed_in)
          (json (some "Plans"))
          begun)
    × IsAllOrNothing 200 begun (
        serve_body toy true signed_in
          (rename_conversation toy quick settings signed_in (some 10))
          (json (some "Plans"))
          begun)
    × IsAllOrNothing 204 begun (
        serve toy true signed_in (delete_conversation toy quick settings signed_in (some 10)) begun)
requests-IsAllOrNothing_example =
    requests-IsAllOrNothing toy quick settings quick-IsQuiet quick-CanIssue any_email signed_in true
      (json (some ("carol@example.org", "pass phrase"))) (json (some "Plans")) (some 10) begun

abbrev stopped : Application
stopped = record {
  engine = none;
  session_local = none;
  redis_client = none;
  made = 0;
  open_engines = [];
  open_clients = [];
  pubsub = initial;
}

abbrev known : State
known = record { committed = sample; pending = []; tick = 5 }

signed_in_lem : get_current_user toy quick settings signed_in.credentials begun ≡ (ok alice, known)
unfolding get_current_user session_actions create_access_token build_token get_user_id_from_token
    users_queries require_active
signed_in_lem = refl

foreign_conversation_hidden_example :
    let e = conversation_missing toy quick 11 in
    ((handle_error toy (some "r1") e).status_code ≡ 404)
    × (serve_body toy true signed_in
          (rename_conversation toy quick settings signed_in (some 11))
          (json (some "Mine"))
          begun
        ≡ (refusal toy signed_in e, record known { tick = 6 }))
    × (serve toy true signed_in (delete_conversation toy quick settings signed_in (some 11)) begun
        ≡ (refusal toy signed_in e, record known { tick = 6 }))
unfolding statement title_request strip
foreign_conversation_hidden_example =
    foreign_conversation_hidden toy quick settings signed_in alice 11 begun known "Mine" "Mine"
      signed_in_lem refl refl refl

admitted_lem : (admit toy quick settings true (some alice_access) 10 begun).0 ≡ ok (admitted 1)
unfolding admit session_actions create_access_token build_token get_user_id_from_token users_queries
    conversations_queries
admitted_lem = refl

admit-IsEntitled_example :
    (true ≡ true)
    × ((token : String) × (some alice_access ≡ some token)
        × IsEntitled toy quick settings token 10 1 begun)
admit-IsEntitled_example =
    admit-IsEntitled toy quick settings true (some alice_access) 10 1 begun admitted_lem

-- What Alembic keeps for itself.
abbrev pub versioned : Schema
versioned = record {
  enumerations = [];
  tables =
      record {
        name = "alembic_version";
        columns = column "version_num" (string 32) ∷ [];
        primary_key = "version_num";
        foreign_keys = [];
      }
      ∷ [];
  indexes = [];
}

pub versioned-IsClear : IsClear versioned
versioned-IsClear = record {
  no_users = refl;
  no_conversations = refl;
  no_messages = refl;
  no_references_users = refl;
  no_references_conversations = refl;
  no_references_messages = refl;
  no_index_users = refl;
  no_index_conversations = refl;
  no_index_messages = refl;
  no_users_email = refl;
  no_users_email_active = refl;
  no_owner_created = refl;
  no_owner_id = refl;
  no_messages_created = refl;
  no_role = refl;
  no_role_used = refl;
}

downgrade-upgrade_example :
    (upgrade versioned ≡ some (upgraded versioned))
    × (when (upgrade versioned) downgrade ≡ some versioned)
downgrade-upgrade_example = downgrade-upgrade versioned versioned-IsClear
