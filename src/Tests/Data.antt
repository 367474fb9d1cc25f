-- ===== src/Tests/Data.antt =====
-- Sample rows: two users, their conversations, and a history.
use real_time_ai_chat_backen.Base.{refl, true, false, none, some, [], ◌∷◌}
use real_time_ai_chat_backen.Models.{User, Conversation, Message, user_role, assistant_role, Tables}
use real_time_ai_chat_backen.Models.Validity.{IsValid}
use real_time_ai_chat_backen.Platform.{pos}
use real_time_ai_chat_backen.Config.{Settings, production}
use real_time_ai_chat_backen.Session.{State}
use real_time_ai_chat_backen.Schemas.{PaginationParams}

abbrev pub alice : User
alice = record {
  id = 1;
  email = "alice@example.org";
  password_hash = "correct horse";
  is_active = true;
  is_superuser = false;
  created_at = 1;
  updated_at = 1;
}

abbrev pub bob : User
bob = record {
  id = 2;
  email = "bob@example.org";
  password_hash = "battery staple";
  is_active = true;
  is_superuser = false;
  created_at = 2;
  updated_at = 2;
}

abbrev pub plans : Conversation
plans = record { id = 10; title = "Plans"; owner_id = 1; created_at = 5; updated_at = 5 }

abbrev pub notes : Conversation
notes = record { id = 11; title = "Notes"; owner_id = 2; created_at = 6; updated_at = 6 }

abbrev pub ideas : Conversation
ideas = record { id = 12; title = "Ideas"; owner_id = 1; created_at = 9; updated_at = 9 }

abbrev pub question : Message
question = record {
  id = 20;
  conversation_id = 10;
  sender_id = some 1;
  role = user_role;
  content = "When?";
  created_at = 7;
  updated_at = 7;
}

abbrev pub answer : Message
answer = record {
  id = 21;
  conversation_id = 10;
  sender_id = none;
  role = assistant_role;
  content = "Mock AI response: When?";
  created_at = 8;
  updated_at = 8;
}

abbrev pub sample : Tables
sample = record {
  users = alice ∷ bob ∷ [];
  conversations = plans ∷ notes ∷ ideas ∷ [];
  messages = answer ∷ question ∷ [];
}

pub sample-IsValid : IsValid sample
sample-IsValid = record {
  user_ids = (refl, (refl, tt));
  emails = (refl, (refl, tt));
  conversation_ids = (refl, (refl, (refl, tt)));
  message_ids = (refl, (refl, tt));
  owners = (refl, (refl, (refl, tt)));
  parents = ((refl, refl), ((refl, refl), tt));
}

abbrev pub begun : State
begun = record { committed = sample; pending = []; tick = 3 }

abbrev pub settings : Settings
settings = record {
  app_name = "Chat";
  app_version = "0.1.0";
  app_env = production;
  debug = false;
  cors_origins = "http://localhost:3000" ∷ [];
  host = "0.0.0.0";
  port = pos 8000;
  database_url = "postgresql+asyncpg://chat:secret@db/chat";
  db_pool_size = pos 10;
  db_max_overflow = pos 20;
  db_pool_timeout = pos 30;
  db_pool_recycle = pos 1800;
  db_echo = false;
  redis_url = "redis://cache:6379/0";
  redis_max_connections = pos 20;
  jwt_secret_key = "0123456789abcdef";
  jwt_algorithm = "HS256";
  access_token_expire_minutes = 15;
  refresh_token_expire_days = 7;
  log_level = "DEBUG";
  log_json = true;
}

abbrev pub first_page : PaginationParams
first_page = record { page = 1; page_size = 2 }
