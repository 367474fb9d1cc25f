-- ===== src/Repositories/Users.antt =====
-- `UserRepository` of app/repositories/user.py.
use real_time_ai_chat_backen.Base.{String, Bool, Option, is_some}
use real_time_ai_chat_backen.Models.{Uuid, User, insert_user, user_by_id, user_by_email}
use real_time_ai_chat_backen.Session.{
  Server, State, Action, gets, ◌>>=◌, ◌>>◌, select, flush, refresh, session_actions,
}

module _ (server : Server) where
  -- The row that a flush at this point inserts: the defaults of the columns are the server's.
  abbrev pub new_user : String → String → Bool → Bool → State → User
  new_user email password_hash is_active is_superuser s = record {
    id = server.uuid_at s.tick;
    email = email;
    password_hash = password_hash;
    is_active = is_active;
    is_superuser = is_superuser;
    created_at = server.now_at s.tick;
    updated_at = server.now_at s.tick;
  }

  unfoldable pub create : String → String → Bool → Bool → Action User
  create email password_hash is_active is_superuser = do
    user ← gets (new_user email password_hash is_active is_superuser)
    flush server (insert_user user)
    refresh server (λ t. user_by_id user.id t.users)

  unfoldable pub get_by_id : Uuid → Action (Option User)
  get_by_id user_id = select server (λ t. user_by_id user_id t.users)

  unfoldable pub get_by_email : String → Action (Option User)
  get_by_email email = select server (λ t. user_by_email email t.users)

  unfoldable pub exists_by_email : String → Action Bool
  exists_by_email email = select server (λ t. is_some (user_by_email email t.users))

-- To compute with the queries of this module, name this one.
unfoldable pub users_queries : Unit {0}
unfolding session_actions create get_by_id get_by_email exists_by_email
users_queries = tt
