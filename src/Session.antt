-- ===== src/Session.antt =====
-- A SQLAlchemy `AsyncSession` over PostgreSQL, as the services use it: one transaction at a time,
-- whose rows no one else sees until `commit`. Other sessions commit between the statements.
pub mod Keeps
pub mod Atomic
pub mod Healthy
pub mod Ordering
use real_time_ai_chat_backen.Base.{
  ℕ, ◌+◌, Bool, true, false, Option, none, some, List, [], ◌∷◌, ◌++◌, foldl, take, drop,
  if◌then◌else◌,
}
use real_time_ai_chat_backen.Errors.{Error, Result, ok, err, integrity_error, database_error}
use real_time_ai_chat_backen.Models.{
  Uuid, Time, Conversation, Message, Tables, Write, apply_write, check_write,
}

-- What the program does not decide, numbered by the statements of the session: the values of
-- `gen_random_uuid()` and `now()`, the clock of the process, whether a statement fails for want
-- of a connection, what the other sessions have committed before it runs, and in which order
-- it reads the rows of a table.
pub record Server : Type 0 where
  pub uuid_at : ℕ → Uuid
  pub now_at : ℕ → Time
  pub clock_at : ℕ → Time
  pub fault_at : ℕ → Bool
  pub others_at : ℕ → Tables → List Write → Tables
  pub scan_conversations_at : ℕ → List Conversation → List Conversation
  pub scan_messages_at : ℕ → List Message → List Message

-- The committed tables, the writes of the open transaction, and the number of statements so far.
pub record State : Type 0 where
  pub committed : Tables
  pub pending : List Write
  pub tick : ℕ

abbrev pub apply_writes : Tables → List Write → Tables
apply_writes = foldl (λ t w. apply_write w t)

-- What a statement of the session reads.
abbrev pub view : State → Tables
view s = apply_writes s.committed s.pending

abbrev pub Action : Type 0 → Type 0
Action A = State → Result A × State

module _ {A : Type 0} where
  unfoldable pub pure : A → Action A
  pure a s = (ok a, s)

  unfoldable pub raise : Error → Action A
  raise e s = (err e, s)

  unfoldable pub gets : (State → A) → Action A
  gets f s = (ok (f s), s)

  unfoldable pub lift : Result A → Action A
  lift r s = (r, s)

abbrev pub continue : {A B : Type 0} → Result A → (A → Action B) → Action B
continue (ok a) f s = f a s
continue (err e) f s = (err e, s)

infixl 5 ◌>>=◌ ◌>>◌
unfoldable pub ◌>>=◌ : {A B : Type 0} → Action A → (A → Action B) → Action B
◌>>=◌ m f s = let (r, s') = m s in continue r f s'

abbrev pub ◌>>◌ : {A B : Type 0} → Action A → Action B → Action B
m >> k = m >>= λ _. k

unfoldable pub modify : (State → State) → Action (Unit {0})
modify f s = (ok tt, f s)

unfoldable pub require : {A : Type 0} → Option A → Error → Action A
require none e = raise e
require (some a) e = pure a

-- `if test: raise error`
unfoldable pub raise_if : Bool → Error → Action (Unit {0})
raise_if c e s = (if c then err e else ok tt, s)

abbrev pub on_integrity : {A : Type 0} → Action A → Result A × State → Result A × State
on_integrity handler (ok a, s) = (ok a, s)
on_integrity handler (err integrity_error, s) = handler s
on_integrity handler (err e, s) = (err e, s)

-- `try: body except IntegrityError: handler`
unfoldable pub except_integrity : {A : Type 0} → Action A → Action A → Action A
except_integrity body handler s = on_integrity handler (body s)

abbrev pub written : Write → Result (Unit {0}) → Action (Unit {0})
written w (ok _) s = (ok tt, record s { pending = s.pending ++ w ∷ [] })
written w (err e) s = (err e, s)

-- A statement that changes rows is refused if it breaks a constraint.
unfoldable pub write : Write → Action (Unit {0})
write w s = written w (check_write w (view s)) s

unfoldable pub rollback : Action (Unit {0})
rollback s = (ok tt, record s { pending = [] })

module _ (server : Server) where
  -- One round trip to the database.
  unfoldable pub statement : Action (Unit {0})
  statement s = (
    if server.fault_at s.tick then err database_error else ok tt,
    record s { committed = server.others_at s.tick s.committed s.pending; tick = s.tick + 1 },
  )

  -- A SELECT.
  unfoldable pub select : {A : Type 0} → (Tables → A) → Action A
  select f = do statement; gets (λ s. f (view s))

  -- The rows of a SELECT with an ORDER BY, an OFFSET and a LIMIT.
  unfoldable pub select_page :
      {A : Type 0} → (ℕ → List A → List A) → ℕ → ℕ → (Tables → List A) → Action (List A)
  select_page order limit offset f = do
    tick ← gets (λ s. s.tick)
    rows ← select f
    pure (take limit (drop offset (order tick rows)))

  -- `session.flush()` with one change to write.
  unfoldable pub flush : Write → Action (Unit {0})
  flush w = do statement; write w

  unfoldable pub commit : Action (Unit {0})
  commit = do statement; modify (λ s. record s { committed = view s; pending = [] })

  -- A reading of the clock of the process.
  unfoldable pub read_clock : Action Time
  read_clock s = (ok (server.clock_at s.tick), record s { tick = s.tick + 1 })

  -- `session.refresh(row)`: the row as the database has it, or an error if it is gone.
  unfoldable pub refresh : {A : Type 0} → (Tables → Option A) → Action A
  refresh f = do row ← select f; require row database_error

-- To compute with the actions of this module, name this one.
unfoldable pub session_actions : Unit {0}
unfolding pure raise gets lift require raise_if modify except_integrity ◌>>=◌ rollback statement
    select select_page write flush commit read_clock refresh
session_actions = tt
