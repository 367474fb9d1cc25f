-- ===== src/WebSocket/PubSub/Consistency.antt =====
-- The invariant of `RedisWebSocketPubSub` in app/websocket/pubsub.py, and the steps that it meets.
pub mod Tasks
use real_time_ai_chat_backen.Base.{
  ℕ, ◌≡◌, ◌<◌, refl, Bool, true, false, not, ◌&&◌, Option, none, some, [], ◌∷◌, arith, ltb, ◌==◌,
  Dict, entry, entry-set, entry-pop, Bool-cases, inl, inr, if-holds,
}
use real_time_ai_chat_backen.Models.{Uuid}
use real_time_ai_chat_backen.WebSocket.PubSub.{
  Task, Stage, testing, subscribing, marking, listening, polling, handling, removing, failing,
  sleeping, ended, Loop, Event, quiet, received, lost_sockets, failure, at, advance,
  SubscriptionState, PubSub, cancel, cancel_all, is_ended, start, begin_stop, end_stop,
  create_subscription, ensure, enter_subscription, pop_subscription, unsubscribe_conversation,
  is_subscribed, set_ready, mark, effect, set_loop, run_task, initial,
}

-- Every entry of the dictionary has a task of its own that is neither cancelled nor at its end,
-- every other task that was made is cancelled, and there is no entry while it stops.
pub record IsConsistent (p : PubSub) : Type 0 where
  pub entries :
      (i : Uuid) (t : Task)
      → entry i p.subscriptions ≡ some t
      → (t < p.created)
        × ((p.states t).conversation_id ≡ i)
        × ((p.states t).cancelled ≡ false)
        × (is_ended (p.states t).loop.stage ≡ false)
  pub live :
      (t : Task)
      → t < p.created
      → (p.states t).cancelled ≡ false
      → entry (p.states t).conversation_id p.subscriptions ≡ some t
  pub stopped : p.stopping ≡ true → (i : Uuid) → entry i p.subscriptions ≡ none

pub initial-IsConsistent : IsConsistent initial
initial-IsConsistent = record {
  entries = λ i t h. absurd (cc);
  live = λ t h k. absurd (cc);
  stopped = λ h i. refl;
}

pub start-IsConsistent : (p : PubSub) → IsConsistent p → IsConsistent (start p)
unfolding start
start-IsConsistent p h = record { entries = h.entries; live = h.live; stopped = λ q. absurd (cc) }

pub end_stop-IsConsistent : (p : PubSub) → IsConsistent p → IsConsistent (end_stop p)
unfolding end_stop
end_stop-IsConsistent p h = record { entries = h.entries; live = h.live; stopped = h.stopped }

cancel_all-keeps :
    (d : Dict Task) (states : Task → SubscriptionState) (t : Task)
    → (states t).cancelled ≡ true
    → (cancel_all d states t).cancelled ≡ true
cancel_all-keeps [] states t h = h
cancel_all-keeps ((j, u) ∷ d) states t h = cancel_all-keeps d (cancel u states) t (ground arith)

cancel_all-cancels :
    (d : Dict Task) (states : Task → SubscriptionState) (i : Uuid) (t : Task)
    → entry i d ≡ some t
    → (cancel_all d states t).cancelled ≡ true
cancel_all-cancels [] states i t h = absurd (cc)
cancel_all-cancels ((j, u) ∷ d) states i t h = elim (Bool-cases (j == i)) [
  | inl here ↦ cancel_all-keeps d (cancel u states) t (ground arith)
  | inr there ↦ cancel_all-cancels d (cancel u states) i t (rw there at h)
]

cancel_all-conversation :
    (d : Dict Task) (states : Task → SubscriptionState) (t : Task)
    → ((cancel_all d states t).cancelled ≡ false → (states t).cancelled ≡ false)
      × ((cancel_all d states t).conversation_id ≡ (states t).conversation_id)
cancel_all-conversation [] states t = (λ h. h, refl)
cancel_all-conversation ((j, u) ∷ d) states t =
    let rest = cancel_all-conversation d (cancel u states) t in ground (arith, rest.0, rest.1)

pub begin_stop-IsConsistent : (p : PubSub) → IsConsistent p → IsConsistent (begin_stop p)
unfolding begin_stop
begin_stop-IsConsistent p h = record {
  entries = λ i t q. absurd (cc);
  live = λ t q k. absurd (
      ground (
        arith,
        h.live t,
        cancel_all-conversation p.subscriptions p.states t,
        cancel_all-cancels p.subscriptions p.states (p.states t).conversation_id t,
      ));
  stopped = λ q i. refl;
}

-- A new entry for a conversation that has none.
create-IsConsistent :
    (i : Uuid) (p : PubSub)
    → IsConsistent p
    → entry i p.subscriptions ≡ none
    → p.stopping ≡ false
    → IsConsistent (create_subscription i p).1
create-IsConsistent i p h absent going = record {
  entries = λ j t q. ground (arith, entry-set i j p.created p.subscriptions, h.entries j t);
  live = λ t q k. ground (
    arith,
    entry-set i (p.states t).conversation_id p.created p.subscriptions,
    entry-set i i p.created p.subscriptions,
    h.live t,
  );
  stopped = λ q. absurd (cc);
}

ensure-IsConsistent :
    (i : Uuid) (p : PubSub) (o : Option Task)
    → IsConsistent p
    → entry i p.subscriptions ≡ o
    → p.stopping ≡ false
    → IsConsistent (ensure i p o).1
ensure-IsConsistent i p none h absent going = create-IsConsistent i p h absent going
ensure-IsConsistent i p (some t) h found going =
    rw (h.entries i t found).3
      (record { entries = h.entries; live = h.live; stopped = λ q. h.stopped q })

pub enter_subscription-IsConsistent :
    (i : Uuid) (p : PubSub) → IsConsistent p → IsConsistent (enter_subscription i p).1
unfolding enter_subscription
enter_subscription-IsConsistent i p h =
    if-holds (λ (r : Option Task × PubSub). IsConsistent r.1) p.stopping (λ stops. h)
      (λ going. ensure-IsConsistent i p (entry i p.subscriptions) h refl going)

pop-IsConsistent :
    (i : Uuid) (p : PubSub) (t : Task)
    → IsConsistent p
    → entry i p.subscriptions ≡ some t
    → IsConsistent (pop_subscription i p (some t))
pop-IsConsistent i p t h found = record {
  entries =
      λ j u q. ground (arith, entry-pop i j p.subscriptions, h.entries j u, h.entries i t found);
  live = λ u q k. ground (
    arith,
    entry-pop i (p.states u).conversation_id p.subscriptions,
    h.live u,
    h.entries i t found,
  );
  stopped = λ q j. ground (arith, entry-pop i j p.subscriptions, h.stopped q j);
}

pop_found-IsConsistent :
    (i : Uuid) (p : PubSub) (o : Option Task)
    → IsConsistent p
    → entry i p.subscriptions ≡ o
    → IsConsistent (pop_subscription i p o)
pop_found-IsConsistent i p none h absent = h
pop_found-IsConsistent i p (some t) h found = pop-IsConsistent i p t h found

pub unsubscribe-IsConsistent :
    (force : Bool) (n : ℕ) (i : Uuid) (p : PubSub)
    → IsConsistent p
    → IsConsistent (unsubscribe_conversation force n i p)
unfolding unsubscribe_conversation
unsubscribe-IsConsistent force n i p h =
    if-holds IsConsistent (not force && ltb 0 n) (λ kept. h)
      (λ dropped. pop_found-IsConsistent i p (entry i p.subscriptions) h refl)
