-- ===== src/WebSocket/PubSub/Consistency/Tasks.antt =====
-- The invariant of `RedisWebSocketPubSub` in app/websocket/pubsub.py under the steps of its tasks.
use real_time_ai_chat_backen.Base.{
  ℕ, ◌≡◌, ◌<◌, refl, Bool, true, false, Option, none, some, arith, entry, Bool-cases, inl, inr,
  if-holds,
}
use real_time_ai_chat_backen.Models.{Uuid}
use real_time_ai_chat_backen.WebSocket.PubSub.{
  Task, Stage, testing, subscribing, marking, listening, polling, handling, removing, failing,
  sleeping, unsubscribing, closing, ended, Loop, Event, quiet, received, lost_sockets, failure,
  advance, unwind, PubSub, is_ended, is_subscribed, set_ready, mark, effect, set_loop, run_task,
}
use real_time_ai_chat_backen.WebSocket.PubSub.Consistency.{IsConsistent}

set_ready-IsConsistent :
    (ready : Bool) (o : Option Task) (p : PubSub)
    → IsConsistent p
    → IsConsistent (set_ready ready o p)
set_ready-IsConsistent ready none p h = h
set_ready-IsConsistent ready (some u) p h = record {
  entries = λ i t q. ground (arith, h.entries i t);
  live = λ t q k. ground (arith, h.live t);
  stopped = h.stopped;
}

effect-IsConsistent :
    (s : Stage) (i : Uuid) (p : PubSub) → IsConsistent p → IsConsistent (effect s i p)
unfolding mark
effect-IsConsistent marking i p h = set_ready-IsConsistent true (entry i p.subscriptions) p h
effect-IsConsistent (failing opened) i p h =
    set_ready-IsConsistent false (entry i p.subscriptions) p h
effect-IsConsistent _ i p h = h

set_loop-IsConsistent :
    (t : Task) (l : Loop) (p : PubSub)
    → IsConsistent p
    → ((p.states t).cancelled ≡ false → is_ended l.stage ≡ false)
    → IsConsistent (set_loop t l p)
set_loop-IsConsistent t l p h k = record {
  entries = λ i u q. ground (arith, h.entries i u, k);
  live = λ u q c. ground (arith, h.live u);
  stopped = h.stopped;
}

-- A task that the dictionary names goes on.
advance-goes_on :
    (s : Stage) (b : ℕ) (e : Event)
    → is_ended s ≡ false
    → is_ended (advance s b true e).stage ≡ false
unfolding advance
advance-goes_on testing b quiet h = refl
advance-goes_on testing b (received raw) h = refl
advance-goes_on testing b (lost_sockets ws) h = refl
advance-goes_on testing b failure h = refl
advance-goes_on subscribing b quiet h = refl
advance-goes_on subscribing b (received raw) h = refl
advance-goes_on subscribing b (lost_sockets ws) h = refl
advance-goes_on subscribing b failure h = refl
advance-goes_on marking b e h = refl
advance-goes_on listening b e h = refl
advance-goes_on polling b quiet h = refl
advance-goes_on polling b (received raw) h = refl
advance-goes_on polling b (lost_sockets ws) h = refl
advance-goes_on polling b failure h = refl
advance-goes_on (handling raw) b quiet h = refl
advance-goes_on (handling raw) b (received x) h = refl
advance-goes_on (handling raw) b (lost_sockets ws) h = refl
advance-goes_on (handling raw) b failure h = refl
advance-goes_on (removing ws) b e h = refl
advance-goes_on (failing opened) b e h = refl
advance-goes_on (sleeping true) b e h = refl
advance-goes_on (sleeping false) b e h = refl
advance-goes_on (unsubscribing raising) b quiet h = refl
advance-goes_on (unsubscribing raising) b (received raw) h = refl
advance-goes_on (unsubscribing raising) b (lost_sockets ws) h = refl
advance-goes_on (unsubscribing raising) b failure h = refl
advance-goes_on (closing raising) b e h = refl
advance-goes_on ended b e h = absurd (cc)

-- While a conversation has an entry, nothing has stopped.
entry-is_subscribed :
    (i : Uuid) (t : Task) (p : PubSub)
    → IsConsistent p
    → entry i p.subscriptions ≡ some t
    → is_subscribed i p ≡ true
unfolding is_subscribed
entry-is_subscribed i t p h found = elim (Bool-cases p.stopping) [
  | inl stops ↦ absurd (ground (arith, h.stopped stops i))
  | inr going ↦ rw (found, going) refl
]

pub run_task-IsConsistent :
    (t : Task) (e : Event) (p : PubSub)
    → IsConsistent p
    → t < p.created
    → IsConsistent (run_task t e p)
unfolding run_task
run_task-IsConsistent t e p h made =
    let s = p.states t in
    if-holds IsConsistent s.cancelled
      (λ out. set_loop-IsConsistent t (unwind s.loop.stage s.loop.backoff e) p h (λ q. absurd (cc)))
      (λ going.
        let found = h.live t made going in
        let goes_on =
          advance-goes_on s.loop.stage s.loop.backoff e (h.entries s.conversation_id t found).3 in
        set_loop-IsConsistent t
          (advance s.loop.stage s.loop.backoff (is_subscribed s.conversation_id p) e)
          (effect s.loop.stage s.conversation_id p)
          (effect-IsConsistent s.loop.stage s.conversation_id p h)
          (λ _. rw (entry-is_subscribed s.conversation_id t p h found) goes_on))
