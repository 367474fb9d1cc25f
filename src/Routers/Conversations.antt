-- ===== src/Routers/Conversations.antt =====
-- app/routers/conversations.py, with the responses of app/schemas/conversation.py and
-- app/schemas/message.py. A handler is called with a body that is JSON: `serve_body` refuses another
-- one before the dependencies.
use real_time_ai_chat_backen.Base.{String, Option, none, some, map}
use real_time_ai_chat_backen.Models.{Uuid, Time, Conversation, MessageRole, Message}
use real_time_ai_chat_backen.Config.{Settings}
use real_time_ai_chat_backen.Platform.{Platform, ℤ}
use real_time_ai_chat_backen.Schemas.{ListResponse, create_list_response, validate_title}
use real_time_ai_chat_backen.Services.Auth.{get_current_user}
use real_time_ai_chat_backen.Services.Conversation
use real_time_ai_chat_backen.Services.Message
use real_time_ai_chat_backen.Session.{Server, Action, pure, ◌>>=◌, ◌>>◌}
use real_time_ai_chat_backen.Routers.{
  Request, Response, created, fine, no_content, valid, pagination,
}

pub record MessageResponse : Type 0 where
  pub id : Uuid
  pub conversation_id : Uuid
  pub sender_id : Option Uuid
  pub role : MessageRole
  pub content : String
  pub created_at : Time

module _ (platform : Platform) (server : Server) (settings : Settings) where
  -- `title` of a request, from the text in the body.
  unfoldable pub title_request : Option String → Option String
  unfolding validate_title
  title_request none = none
  title_request (some title) = validate_title platform title

  -- `ConversationResponse.model_validate` and `MessageResponse.model_validate`, which strip.
  unfoldable pub conversation_response : Conversation → Conversation
  conversation_response c = record c { title = platform.trim c.title }

  unfoldable pub message_response : Message → MessageResponse
  message_response m = record {
    id = m.id;
    conversation_id = m.conversation_id;
    sender_id = m.sender_id;
    role = m.role;
    content = platform.trim m.content;
    created_at = m.created_at;
  }

  unfoldable pub create_conversation : Request → Option String → Action (Response Conversation)
  unfolding title_request conversation_response
  create_conversation request body = do
    current_user ← get_current_user platform server settings request.credentials
    title ← valid request (title_request body)
    conversation ← Conversation.create_conversation platform server current_user.id title
    pure (created (conversation_response conversation))

  unfoldable pub list_conversations :
      Request → Option (ℤ × ℤ) → Action (Response (ListResponse Conversation))
  unfolding conversation_response create_list_response
  list_conversations request query = do
    current_user ← get_current_user platform server settings request.credentials
    given ← pagination request query
    params ← valid request given
    page ← Conversation.list_conversations platform server current_user.id params
    pure (
        fine (
          create_list_response (map conversation_response page.items) page.total page.page
            page.page_size))

  unfoldable pub rename_conversation :
      Request → Option Uuid → Option String → Action (Response Conversation)
  unfolding title_request conversation_response
  rename_conversation request path body = do
    current_user ← get_current_user platform server settings request.credentials
    conversation_id ← valid request path
    title ← valid request (title_request body)
    conversation ←
        Conversation.rename_conversation platform server conversation_id current_user.id title
    pure (fine (conversation_response conversation))

  unfoldable pub delete_conversation : Request → Option Uuid → Action (Response (Unit {0}))
  delete_conversation request path = do
    current_user ← get_current_user platform server settings request.credentials
    conversation_id ← valid request path
    Conversation.delete_conversation platform server conversation_id current_user.id
    pure (record { status = 204; body = no_content })

  unfoldable pub list_conversation_messages :
      Request → Option Uuid → Option (ℤ × ℤ) → Action (Response (ListResponse MessageResponse))
  unfolding message_response create_list_response
  list_conversation_messages request path query = do
    current_user ← get_current_user platform server settings request.credentials
    given ← pagination request query
    conversation_id ← valid request path
    params ← valid request given
    page ← Message.list_conversation_messages platform server conversation_id current_user.id params
    pure (
        fine (
          create_list_response (map message_response page.items) page.total page.page
            page.page_size))
