-- ===== src/Services/Auth/Race.antt =====
-- Two registrations at the same time, by `register_user` of app/services/auth.py.
use real_time_ai_chat_backen.Base.{
  ℕ, ◌+◌, ◌≡◌, ◌∙◌, sym, ap, refl, String, true, false, none, some, [], arith, str_eq, count, ltb,
  find-snoc, eq_refl, counting,
}
use real_time_ai_chat_backen.Errors.{ok, err, integrity_error}
use real_time_ai_chat_backen.Models.{
  User, Tables, user_by_email, insert_user, check_write, apply_write,
}
use real_time_ai_chat_backen.Config.{Settings}
use real_time_ai_chat_backen.Platform.{Platform}
use real_time_ai_chat_backen.Security.{hash_password}
use real_time_ai_chat_backen.Session.{Server, State}
use real_time_ai_chat_backen.Session.Healthy.{IsHealthy}
use real_time_ai_chat_backen.Repositories.Users.{users_queries, new_user}
use real_time_ai_chat_backen.Services.Auth.{
  AuthTokens, normalize_email, create_user, register_user, email_taken,
}
use real_time_ai_chat_backen.Services.Auth.Issuing.{
  CanIssue, create_access_token_ok, create_refresh_token_ok,
}
use real_time_ai_chat_backen.Services.Auth.Register.{registered, register_user_new}

-- A session that has done nothing yet.
abbrev pub opened : Tables → ℕ → State
opened t tick = record { committed = t; pending = []; tick = tick }

module _ (platform : Platform) (server : Server) (settings : Settings) (email password : String)
    (t : Tables) (tick : ℕ) where
  abbrev hash : String
  hash = hash_password platform (tick + 1) password

  abbrev name : String
  name = normalize_email platform server settings email

  -- The row that loses: its email has been taken since the first query.
  abbrev row : User
  row = new_user server name hash true false (opened t (tick + 1))

  refused :
      (after : Tables) (u : User)
      → user_by_email name after.users ≡ some u
      → ltb 255 (count name) ≡ false
      → ltb 255 (count hash) ≡ false
      → check_write (insert_user row) after ≡ err integrity_error
  unfolding check_write
  refused after u taken short short' = ground (arith, taken, short, short')

  register_user_beaten :
      (after : Tables) (u : User)
      → ((n : ℕ) → server.fault_at n ≡ false)
      → server.others_at tick t [] ≡ t
      → server.others_at (tick + 1) t [] ≡ after
      → user_by_email name t.users ≡ none
      → user_by_email name after.users ≡ some u
      → ltb 255 (count name) ≡ false
      → ltb 255 (count hash) ≡ false
      → register_user platform server settings email password (opened t tick) ≡ (
        err (email_taken platform server settings name),
        record { committed = after; pending = []; tick = tick + 2 },
      )
  unfolding register_user create_user users_queries
  register_user_beaten after u works before between absent taken short short' =
      simp (works, before, between, absent, refused after u taken short short', counting) refl

short_of :
    (u : User) (t : Tables)
    → check_write (insert_user u) t ≡ ok tt
    → ltb 255 (count u.email) ≡ false
unfolding check_write
short_of u t h = ground arith

-- A registration whose email another one registers between its query and its INSERT: when neither
-- meets a fault, tokens can be issued to the other, whose row fits its table, and the password
-- hash of this one fits its column,
-- then the other succeeds, this one raises the same `AlreadyExistsError` as for an email that had
-- an account before, and what is committed in the end is the other's row and nothing else.
pub register_user_race :
    (platform : Platform) (settings : Settings) (first second : Server) (t : Tables)
    (first_tick second_tick : ℕ) (email email' password password' : String)
    (healthy : IsHealthy first)
    → CanIssue platform first settings
    → ((n : ℕ) → second.fault_at n ≡ false)
    → normalize_email platform first settings email
      ≡ normalize_email platform second settings email'
    → user_by_email (normalize_email platform first settings email) t.users ≡ none
    → check_write
        (insert_user (registered platform first settings healthy email password t first_tick))
        t
      ≡ ok tt
    → ltb 255 (count (hash_password platform (second_tick + 1) password')) ≡ false
    → second.others_at second_tick t [] ≡ t
    → second.others_at (second_tick + 1) t []
      ≡ (register_user platform first settings email password (opened t first_tick)).1.committed
    → let winner = registered platform first settings healthy email password t first_tick in
      let (r, s) = register_user platform first settings email password (opened t first_tick) in
      let (r', s') =
        register_user platform second settings email' password' (opened t second_tick) in
      ((tokens : AuthTokens) × (r ≡ ok tokens))
      × (r'
          ≡ err (
              email_taken platform second settings
                (normalize_email platform second settings email')))
      × (s'.committed ≡ apply_write (insert_user winner) t)
      × (s'.pending ≡ [])
unfolding apply_write
register_user_race platform settings first second t first_tick second_tick email email' password
      password' healthy issuing works same absent fits short before between =
    let winner = registered platform first settings healthy email password t first_tick in
    let (a, made) = create_access_token_ok platform first settings issuing (first_tick + 4) _ in
    let (r, made') = create_refresh_token_ok platform first settings issuing (first_tick + 5) _ in
    let won =
      register_user_new platform first settings healthy email password t first_tick a r made made'
        absent fits in
    let taken =
      find-snoc (λ u. str_eq u.email winner.email) t.users winner absent (eq_refl winner.email) in
    let lost =
      register_user_beaten platform second settings email' password' t second_tick
        (apply_write (insert_user winner) t) winner works before (between ∙ won.1)
        (rw (sym same) absent) (rw (sym same) taken) (rw (sym same) (short_of winner t fits))
        short in
    ((_, won.0), ap (λ x. x.0) lost, ap (λ x. x.1.committed) lost, ap (λ x. x.1.pending) lost)
