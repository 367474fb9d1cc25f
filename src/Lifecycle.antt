-- ===== src/Lifecycle.antt =====
-- What the application holds while it runs: the pools of app/database/session.py and
-- app/database/redis.py, and the `lifespan` of app/main.py, which opens and closes them.
pub mod Cycle
use real_time_ai_chat_backen.Base.{
  ℕ, ◌+◌, Bool, true, false, Option, none, some, List, [], ◌∷◌, ◌==◌, if◌then◌else◌,
}
use real_time_ai_chat_backen.Errors.{
  Error, runtime_error, database_error, redis_error, Result, ok, err,
}
use real_time_ai_chat_backen.WebSocket.PubSub.{PubSub, start, begin_stop, end_stop}

-- The packages number what they make. `open_engines` and `open_clients` are what they hold open.
pub record Application : Type 0 where
  pub engine : Option ℕ
  pub session_local : Option ℕ
  pub redis_client : Option ℕ
  pub made : ℕ
  pub open_engines : List ℕ
  pub open_clients : List ℕ
  pub pubsub : PubSub

-- Which calls of the packages raise: `create_async_engine`, `ping`, `aclose` and `dispose`.
pub record Faults : Type 0 where
  pub create_fails : Bool
  pub ping_fails : Bool
  pub aclose_fails : Bool
  pub dispose_fails : Bool

abbrev pub Transition : Type 0
Transition = Application → Result (Unit {0}) × Application

abbrev pub remove : ℕ → List ℕ → List ℕ
remove n [] = []
remove n (m ∷ ms) = if m == n then ms else m ∷ remove n ms

abbrev pub when : Result (Unit {0}) × Application → Transition → Result (Unit {0}) × Application
when (ok _, a) next = next a
when (err e, a) next = (err e, a)

module _ (faults : Faults) where
  unfoldable pub init_db : Transition
  init_db a = if faults.create_fails then (err database_error, a) else (
    ok tt,
    record a {
      engine = some a.made;
      session_local = some a.made;
      made = a.made + 1;
      open_engines = a.made ∷ a.open_engines;
    },
  )

  abbrev pub dispose : Option ℕ → Transition
  dispose none a = (ok tt, a)
  dispose (some e) a = if faults.dispose_fails then (err database_error, a) else (
    ok tt,
    record a { engine = none; session_local = none; open_engines = remove e a.open_engines },
  )

  unfoldable pub close_db : Transition
  close_db a = dispose a.engine a

  -- The client is kept before the `ping` that tries it.
  unfoldable pub init_redis : Transition
  init_redis a = (
    if faults.ping_fails then err redis_error else ok tt,
    record a {
      redis_client = some a.made;
      made = a.made + 1;
      open_clients = a.made ∷ a.open_clients;
    },
  )

  abbrev pub aclose : Option ℕ → Transition
  aclose none a = (ok tt, a)
  aclose (some c) a =
      if faults.aclose_fails
      then (err redis_error, a)
      else (ok tt, record a { redis_client = none; open_clients = remove c a.open_clients })

  unfoldable pub close_redis : Transition
  close_redis a = aclose a.redis_client a

  -- `redis_websocket_pubsub.start()`, and its `stop()` with no other task between.
  abbrev pub start_pubsub : Transition
  unfolding start
  start_pubsub a = (ok tt, record a { pubsub = start a.pubsub })

  abbrev pub stop_pubsub : Transition
  unfolding begin_stop end_stop
  stop_pubsub a = (ok tt, record a { pubsub = end_stop (begin_stop a.pubsub) })

  -- `lifespan` up to its `yield`, and after it.
  unfoldable pub start_up : Transition
  unfolding init_db init_redis start_pubsub
  start_up a = when (when (init_db a) init_redis) start_pubsub

  unfoldable pub shut_down : Transition
  unfolding stop_pubsub close_redis close_db
  shut_down a = when (when (stop_pubsub a) close_redis) close_db

abbrev pub or_raise : Option ℕ → Error → Result ℕ
or_raise none e = err e
or_raise (some n) e = ok n

unfoldable pub get_engine : Application → Result ℕ
get_engine a =
    or_raise a.engine (runtime_error "Database engine is not initialised. Call init_db() first.")

unfoldable pub get_redis_client : Application → Result ℕ
get_redis_client a =
    or_raise a.redis_client
      (runtime_error "Redis client is not initialised. Call init_redis() first.")
