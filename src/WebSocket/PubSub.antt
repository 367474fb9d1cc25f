-- ===== src/WebSocket/PubSub.antt =====
-- `RedisWebSocketPubSub` of app/websocket/pubsub.py: its subscriptions, and the task that listens
-- for each. A critical section under its lock is one step, and so is what a task does between two
-- awaits. A `SubscriptionState` and its task are made together and share a number.
pub mod Loops
pub mod Consistency
use real_time_ai_chat_backen.Base.{
  ℕ, ◌+◌, ◌*◌, String, ◌<>◌, Bool, true, false, not, ◌&&◌, Option, none, some, List, [], ◌∷◌, leb,
  ltb, ◌==◌, length, is_some, Dict, entry, set_entry, pop_entry, if◌then◌else◌,
}
use real_time_ai_chat_backen.Models.{Uuid}
use real_time_ai_chat_backen.Platform.{Platform}
use real_time_ai_chat_backen.WebSocket.Manager.{WebSocket}
use real_time_ai_chat_backen.WebSocket.Protocol.Wire.{Raw}

abbrev pub Task : Type 0
Task = ℕ

-- Where a subscription loop is: at the test of the outer or of the inner `while`, in `subscribe`,
-- before `_mark_ready`, in `get_message`, in `_handle_message`, before the removal of the sockets
-- that a broadcast has lost, before `_mark_not_ready`, in `sleep`, in `unsubscribe` or `aclose` of
-- the `finally`, or at its end. The flag of `failing` and `sleeping` says whether there is a
-- `pubsub` to close, that of the `finally` whether a `CancelledError` is on its way through it.
pub data Stage : Type 0 where
  testing subscribing marking listening polling : Stage
  handling : Raw → Stage
  removing : List WebSocket → Stage
  failing sleeping unsubscribing closing : Bool → Stage
  ended : Stage

-- `backoff_seconds` is a whole number of seconds.
pub record Loop : Type 0 where
  pub stage : Stage
  pub backoff : ℕ

-- How an await of the loop ends: with nothing to report, with data from Redis, with sockets that
-- the broadcast has lost, or with an exception.
pub data Event : Type 0 where
  quiet : Event
  received : Raw → Event
  lost_sockets : List WebSocket → Event
  failure : Event

-- `conversation_channel`
unfoldable pub conversation_channel : Platform → Uuid → String
conversation_channel platform conversation_id =
    "chat:conversation:" <> platform.uuid_str conversation_id

-- `min(backoff_seconds * 2, 30.0)`
abbrev pub next_backoff : ℕ → ℕ
next_backoff b = if leb (b * 2) 30 then b * 2 else 30

abbrev pub at : Stage → ℕ → Loop
at stage backoff = record { stage = stage; backoff = backoff }

abbrev pub after_poll : ℕ → Event → Loop
after_poll b quiet = at listening b
after_poll b (received raw) = at (handling raw) b
after_poll b (lost_sockets ws) = at listening b
after_poll b failure = at (failing true) b

abbrev pub after_broadcast : ℕ → Event → Loop
after_broadcast b quiet = at listening b
after_broadcast b (received raw) = at listening b
after_broadcast b (lost_sockets ws) = at (removing ws) b
after_broadcast b failure = at (failing true) b

abbrev pub after_subscribe : ℕ → Event → Loop
after_subscribe b quiet = at marking b
after_subscribe b (received raw) = at marking b
after_subscribe b (lost_sockets ws) = at marking b
after_subscribe b failure = at (failing true) b

-- After a test that holds comes `redis_factory`, which may raise.
abbrev pub after_factory : ℕ → Event → Loop
after_factory b failure = at (failing false) b
after_factory b _ = at subscribing b

-- An exception of `unsubscribe` is suppressed, with the `aclose` behind it.
abbrev pub after_unsubscribe : ℕ → Event → Loop
after_unsubscribe b failure = at testing b
after_unsubscribe b _ = at (closing false) b

-- One step of `_subscription_loop`, where the flag is what `_is_subscribed` says.
unfoldable pub advance : Stage → ℕ → Bool → Event → Loop
advance testing b subscribed e = if subscribed then after_factory b e else at ended b
advance subscribing b subscribed e = after_subscribe b e
advance marking b subscribed e = at listening 1
advance listening b subscribed e = if subscribed then at polling b else at (unsubscribing false) b
advance polling b subscribed e = after_poll b e
advance (handling raw) b subscribed e = after_broadcast b e
advance (removing ws) b subscribed e = at listening b
advance (failing opened) b subscribed e = at (sleeping opened) b
advance (sleeping opened) b subscribed e =
    at (if opened then unsubscribing false else testing) (next_backoff b)
advance (unsubscribing raising) b subscribed e = after_unsubscribe b e
advance (closing raising) b subscribed e = at testing b
advance ended b subscribed e = at ended b

abbrev pub unwound : ℕ → Event → Loop
unwound b failure = at ended b
unwound b _ = at (closing true) b

-- A step of a cancelled loop: the `CancelledError` goes through the `finally`, if there is something
-- to close. In the `finally` itself it is not suppressed.
unfoldable pub unwind : Stage → ℕ → Event → Loop
unwind testing b e = at ended b
unwind (failing false) b e = at ended b
unwind (sleeping false) b e = at ended b
unwind (unsubscribing false) b e = at ended b
unwind (unsubscribing true) b e = unwound b e
unwind (closing raising) b e = at ended b
unwind ended b e = at ended b
unwind _ b e = at (unsubscribing true) b

pub record SubscriptionState : Type 0 where
  pub conversation_id : Uuid
  pub loop : Loop
  pub cancelled : Bool
  pub ready : Bool

-- The states that have been made are those with a number below `created`.
pub record PubSub : Type 0 where
  pub subscriptions : Dict Task
  pub states : Task → SubscriptionState
  pub created : ℕ
  pub started : Bool
  pub stopping : Bool

abbrev pub update : {A : Type 0} → (ℕ → A) → ℕ → A → ℕ → A
update f i a j = if i == j then a else f j

abbrev pub cancel : Task → (Task → SubscriptionState) → Task → SubscriptionState
cancel t states = update states t (record (states t) { cancelled = true })

abbrev pub cancel_all : Dict Task → (Task → SubscriptionState) → Task → SubscriptionState
cancel_all [] states = states
cancel_all ((_, t) ∷ d) states = cancel_all d (cancel t states)

abbrev pub is_ended : Stage → Bool
is_ended ended = true
is_ended _ = false

-- `state.task.done()`
abbrev pub done : PubSub → Task → Bool
done p t = is_ended (p.states t).loop.stage

unfoldable pub start : PubSub → PubSub
start p = record p { started = true; stopping = false }

-- `stop`, up to the wait for the cancelled tasks, and after it.
unfoldable pub begin_stop : PubSub → PubSub
begin_stop p = record p {
  stopping = true;
  subscriptions = [];
  states = cancel_all p.subscriptions p.states;
}

unfoldable pub end_stop : PubSub → PubSub
end_stop p = record p { started = false }

abbrev pub new_state : Uuid → SubscriptionState
new_state conversation_id = record {
  conversation_id = conversation_id;
  loop = at testing 1;
  cancelled = false;
  ready = false;
}

abbrev pub create_subscription : Uuid → PubSub → Task × PubSub
create_subscription conversation_id p = (
  p.created,
  record p {
    subscriptions = set_entry conversation_id p.created p.subscriptions;
    states = update p.states p.created (new_state conversation_id);
    created = p.created + 1;
    started = true;
  },
)

abbrev pub ensure : Uuid → PubSub → Option Task → Task × PubSub
ensure conversation_id p none = create_subscription conversation_id p
ensure conversation_id p (some t) =
    if done p t then create_subscription conversation_id p else (t, record p { started = true })

abbrev pub to_wait_for : Task × PubSub → Option Task × PubSub
to_wait_for (t, p) = (some t, p)

-- The critical section of `subscribe_conversation`, with the state to wait for.
unfoldable pub enter_subscription : Uuid → PubSub → Option Task × PubSub
enter_subscription conversation_id p =
    if p.stopping
    then (none, p)
    else to_wait_for (ensure conversation_id p (entry conversation_id p.subscriptions))

abbrev pub pop_subscription : Uuid → PubSub → Option Task → PubSub
pop_subscription conversation_id p none = p
pop_subscription conversation_id p (some t) = record p {
  subscriptions = pop_entry conversation_id p.subscriptions;
  states = cancel t p.states;
}

-- `unsubscribe_conversation`; `connections` is what the connection manager counts.
unfoldable pub unsubscribe_conversation : Bool → ℕ → Uuid → PubSub → PubSub
unsubscribe_conversation force connections conversation_id p =
    if not force && ltb 0 connections
    then p
    else pop_subscription conversation_id p (entry conversation_id p.subscriptions)

unfoldable pub active_subscription_count : PubSub → ℕ
active_subscription_count p = length p.subscriptions

unfoldable pub is_subscribed : Uuid → PubSub → Bool
is_subscribed conversation_id p = is_some (entry conversation_id p.subscriptions) && not p.stopping

abbrev pub set_ready : Bool → Option Task → PubSub → PubSub
set_ready ready none p = p
set_ready ready (some t) p = record p {
  states = update p.states t (record (p.states t) { ready = ready });
}

-- `_mark_ready` and `_mark_not_ready`
unfoldable pub mark : Bool → Uuid → PubSub → PubSub
mark ready conversation_id p = set_ready ready (entry conversation_id p.subscriptions) p

-- What a step of the loop does to the subscriptions.
abbrev pub effect : Stage → Uuid → PubSub → PubSub
effect marking conversation_id p = mark true conversation_id p
effect (failing opened) conversation_id p = mark false conversation_id p
effect _ conversation_id p = p

abbrev pub set_loop : Task → Loop → PubSub → PubSub
set_loop t l p = record p { states = update p.states t (record (p.states t) { loop = l }) }

-- A step of a task.
unfoldable pub run_task : Task → Event → PubSub → PubSub
unfolding advance unwind mark is_subscribed
run_task t e p =
    let s = p.states t in
    if s.cancelled
    then set_loop t (unwind s.loop.stage s.loop.backoff e) p
    else set_loop t (advance s.loop.stage s.loop.backoff (is_subscribed s.conversation_id p) e)
        (effect s.loop.stage s.conversation_id p)

-- The object that `__init__` makes.
abbrev pub initial : PubSub
initial = record {
  subscriptions = [];
  states = λ t. record { conversation_id = 0; loop = at ended 1; cancelled = true; ready = false };
  created = 0;
  started = false;
  stopping = false;
}
