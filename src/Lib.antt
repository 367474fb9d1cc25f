-- ===== src/Lib.antt =====
-- A model of the chat backend: accounts, conversations and their history behind a REST interface,
-- and a WebSocket on which a client's message is stored, published to Redis, and answered.
--
-- Base holds what the modules share: Boolean tests, lists, and Python's `str.strip`.
-- Errors is app/exceptions/errors.py, and its Handlers app/exceptions/handlers.py; `Result` is a
-- call that may raise.
-- Models is app/models with the keys and limits of the tables: `check_write` is what PostgreSQL
-- says to a write, `apply_write` what the write does. Models/Validity states the constraints.
-- Session is a SQLAlchemy `AsyncSession`: a state with the committed tables, the writes of the open
-- transaction and the number of statements so far. `Server` holds what the program does not decide:
-- new identifiers, times, which statement fails, what other sessions commit before it, and in which
-- order it reads rows, which Ordering then sorts as ORDER BY says. Keeps and Atomic have one rule
-- for each way to build an action; Healthy is a server without faults and without other sessions.
-- Platform holds Python's and the packages' functions as parameters: `uuid`, `str.lower`, `repr`,
-- passlib's argon2, python-jose, pydantic's stripping. `IsLawful` is what their documentation says.
-- A token is a `Result`: `jwt.encode` may raise, and so may the date of its expiry. `CanIssue` of
-- Services/Auth/Issuing says when neither does.
-- Config is app/config.py with its reading and its cache, Security is app/security.py, and Schemas
-- is the validators of app/schemas with the page arithmetic.
-- Repositories has a module for each class of app/repositories, Services one for each class of
-- app/services; `get_current_user` of app/dependencies.py is in Services/Auth.
-- Routers is app/routers but for the WebSocket: a request is the action of its handler, under
-- `get_db` of app/database/session.py and the exception handlers. `serve_body` is for a route that
-- takes a body, which FastAPI reads first of all. Lifecycle is the `lifespan` of
-- app/main.py with the pools of app/database, and App its `create_app` with the routes. Logging is
-- app/logging_config.py, Redaction the `_redact_url` of app/database. Migrations is the one revision
-- in migrations, over a schema of tables, indexes and types, Metadata what the mapped classes of
-- app/models declare of them, and Relationships their relationships. Migrations/Environment is
-- migrations/env.py: what it has Alembic and the engine do, as a list.
-- WebSocket/Manager is app/websocket/manager.py, WebSocket/Protocol is app/websocket/protocol.py,
-- and WebSocket/Chat is app/services/chat.py over the `publish` of app/websocket/pubsub.py.
-- Protocol/Wire is the way of a frame through Redis: `_serialize`, `_decode` and its validation.
-- WebSocket/PubSub is the other operations of app/websocket/pubsub.py: the subscriptions, and their
-- tasks as machines that stop at each await. Loops looks at one task, Consistency at all of them.
-- WebSocket/Endpoint is the admission by app/routers/ws.py, and WebSocket/FanOut what follows it:
-- clients, tasks and the application act in any order on the sockets and the subscriptions, and the
-- frames of each socket are kept. WebSocket/Backend puts everything together: Chat/Turns cuts the
-- handling of a message at its commits and publications, and the turns of all clients, the steps of
-- FanOut and the commits of other sessions come in any order, on one database and on the channels
-- of one Redis.
-- Tests has a platform and a server that keep their promises, and examples.
--
-- The functions keep the names of the source, without a leading underscore. A method of a service
-- is an `Action`: it takes the state and returns its result with the state after it, also when it
-- raises. A coroutine of the chat service is a `Chat`, which also has the frames that were sent and
-- published. The message loop runs over the list of what the socket delivers, so no fuel is needed.
-- A UUID is the number that it stands for, a time is microseconds since the epoch, and a socket is
-- its identity. The dictionary of sockets is an association list; what other tasks do to it between
-- two critical sections is a parameter. Python's integers need no bound; a claim of a token may be
-- negative, so it is an integer. A fault of the database is one error whatever its cause.
--
-- A critical section of the subscriptions is one step; so is what a task or a client does between
-- two awaits, and a run is the list of these steps. A task that is cancelled takes the steps of its
-- `finally`. The sends of one broadcast are one step there; what other tasks do between its sections
-- is in WebSocket/Manager. Which frames a socket got from its own loop is kept apart in Backend, in
-- `replied`, from what it got from broadcasts. A removal does not wait there for the end of
-- the task that it cancels, which allows more orders than the program has. The seconds of the
-- back-off are whole numbers, as in the source. A number in the place of a date, which pydantic
-- reads too, is refused. FastAPI reads a request; its values come as options, nothing where FastAPI
-- or pydantic refuses them, with the report of pydantic as a parameter. App matches
-- paths as Starlette does.
--
-- In Backend a transaction of the chat is one turn, in which no other session commits; a listening
-- task gets only what was published on its channel, as often and in whatever order.
--
-- Not modelled: where pydantic-settings finds a variable and how it reads its value, what the
-- middleware does, the redirection of a path with a slash too many, and the texts of `__repr__`. Log
-- calls are left out of the modelled functions. EmailStr is a package's, and a parameter.
pub mod Base
pub mod Errors
pub mod Models
pub mod Session
pub mod Platform
pub mod Config
pub mod Security
pub mod Schemas
pub mod Services
pub mod Redaction
pub mod App
pub mod Logging
pub mod Routers
pub mod Lifecycle
pub mod Migrations
pub mod Repositories
pub mod WebSocket
pub mod Tests
