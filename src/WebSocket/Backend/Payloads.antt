-- ===== src/WebSocket/Backend/Payloads.antt =====
-- The payloads that the subscription tasks of app/websocket/pubsub.py have in hand.
use real_time_ai_chat_backen.Base.{
  ℕ, ◌≡◌, refl, Bool, true, false, Option, none, some, [], ◌∷◌, arith, ◌==◌, Dict, entry, if-holds,
}
use real_time_ai_chat_backen.Models.{Uuid}
use real_time_ai_chat_backen.Platform.{Platform}
use real_time_ai_chat_backen.WebSocket.Manager.{Connections, SendOutcome, WebSocket}
use real_time_ai_chat_backen.WebSocket.Protocol.Wire.{Wire, Raw}
use real_time_ai_chat_backen.WebSocket.PubSub.{
  Task, Stage, testing, subscribing, marking, listening, polling, handling, removing, failing,
  sleeping, unsubscribing, closing, ended, Event, quiet, received, lost_sockets, failure, advance,
  unwind, after_broadcast, SubscriptionState, PubSub, update, cancel, cancel_all, start, begin_stop,
  end_stop, done, create_subscription, ensure, enter_subscription, pop_subscription,
  unsubscribe_conversation, is_subscribed, set_ready, mark, effect, run_task,
}
use real_time_ai_chat_backen.WebSocket.FanOut.{report}

-- A cancelled task takes nothing more in hand.
unwind-ne-handling :
    (s : Stage) (b : ℕ) (e : Event) (raw : Raw) → (unwind s b e).stage ≡ handling raw → ⊥
unfolding unwind
unwind-ne-handling testing b e raw h = cc
unwind-ne-handling (failing true) b e raw h = cc
unwind-ne-handling (failing false) b e raw h = cc
unwind-ne-handling (sleeping true) b e raw h = cc
unwind-ne-handling (sleeping false) b e raw h = cc
unwind-ne-handling (unsubscribing false) b e raw h = cc
unwind-ne-handling (unsubscribing true) b quiet raw h = cc
unwind-ne-handling (unsubscribing true) b (received x) raw h = cc
unwind-ne-handling (unsubscribing true) b (lost_sockets ws) raw h = cc
unwind-ne-handling (unsubscribing true) b failure raw h = cc
unwind-ne-handling (closing raising) b e raw h = cc
unwind-ne-handling ended b e raw h = cc
unwind-ne-handling subscribing b e raw h = cc
unwind-ne-handling marking b e raw h = cc
unwind-ne-handling listening b e raw h = cc
unwind-ne-handling polling b e raw h = cc
unwind-ne-handling (handling x) b e raw h = cc
unwind-ne-handling (removing ws) b e raw h = cc

module _ (P : Uuid → Raw → Type 0) where
  -- A payload that a task has in hand has the property.
  abbrev pub Carries : SubscriptionState → Type 0
  Carries st = (raw : Raw) → st.loop.stage ≡ handling raw → P st.conversation_id raw

  abbrev pub AllCarry : PubSub → Type 0
  AllCarry p = (t : Task) → Carries (p.states t)

  update-Carries :
      (states : Task → SubscriptionState) (t : Task) (st : SubscriptionState)
      → Carries st
      → ((u : Task) → Carries (states u))
      → (u : Task) → Carries (update states t st u)
  update-Carries states t st h k u = if-holds Carries (t == u) (λ _. h) (λ _. k u)

  cancel_all-Carries :
      (d : Dict Task) (states : Task → SubscriptionState)
      → ((u : Task) → Carries (states u))
      → (u : Task) → Carries (cancel_all d states u)
  cancel_all-Carries [] states h u = h u
  cancel_all-Carries ((i, t) ∷ d) states h u =
      cancel_all-Carries d (cancel t states)
        (update-Carries states t (record (states t) { cancelled = true }) (h t) h) u

  pub start-AllCarry : (p : PubSub) → AllCarry p → AllCarry (start p)
  unfolding start
  start-AllCarry p h = h

  pub begin_stop-AllCarry : (p : PubSub) → AllCarry p → AllCarry (begin_stop p)
  unfolding begin_stop
  begin_stop-AllCarry p h = cancel_all-Carries p.subscriptions p.states h

  pub end_stop-AllCarry : (p : PubSub) → AllCarry p → AllCarry (end_stop p)
  unfolding end_stop
  end_stop-AllCarry p h = h

  create-AllCarry : (i : Uuid) (p : PubSub) → AllCarry p → AllCarry (create_subscription i p).1
  create-AllCarry i p h = update-Carries p.states p.created _ (λ raw e. absurd (cc)) h

  ensure-AllCarry :
      (i : Uuid) (p : PubSub) (o : Option Task) → AllCarry p → AllCarry (ensure i p o).1
  ensure-AllCarry i p none h = create-AllCarry i p h
  ensure-AllCarry i p (some t) h =
      if-holds (λ (r : Task × PubSub). AllCarry r.1) (done p t) (λ _. create-AllCarry i p h)
        (λ _. h)

  pub enter-AllCarry : (i : Uuid) (p : PubSub) → AllCarry p → AllCarry (enter_subscription i p).1
  unfolding enter_subscription
  enter-AllCarry i p h =
      if-holds (λ (r : Option Task × PubSub). AllCarry r.1) p.stopping (λ _. h)
        (λ _. ensure-AllCarry i p (entry i p.subscriptions) h)

  pop-AllCarry :
      (i : Uuid) (p : PubSub) (o : Option Task) → AllCarry p → AllCarry (pop_subscription i p o)
  pop-AllCarry i p none h = h
  pop-AllCarry i p (some t) h =
      update-Carries p.states t (record (p.states t) { cancelled = true }) (h t) h

  pub unsubscribe-AllCarry :
      (force : Bool) (n : ℕ) (i : Uuid) (p : PubSub)
      → AllCarry p
      → AllCarry (unsubscribe_conversation force n i p)
  unfolding unsubscribe_conversation
  unsubscribe-AllCarry force n i p h =
      if-holds AllCarry _ (λ _. h) (λ _. pop-AllCarry i p (entry i p.subscriptions) h)

  set_ready-AllCarry :
      (ready : Bool) (o : Option Task) (p : PubSub) → AllCarry p → AllCarry (set_ready ready o p)
  set_ready-AllCarry ready none p h = h
  set_ready-AllCarry ready (some t) p h =
      update-Carries p.states t (record (p.states t) { ready = ready }) (h t) h

  effect-AllCarry : (s : Stage) (i : Uuid) (p : PubSub) → AllCarry p → AllCarry (effect s i p)
  unfolding mark
  effect-AllCarry marking i p h = set_ready-AllCarry true (entry i p.subscriptions) p h
  effect-AllCarry (failing opened) i p h = set_ready-AllCarry false (entry i p.subscriptions) p h
  effect-AllCarry _ i p h = h

  set_ready-conversation :
      (ready : Bool) (o : Option Task) (p : PubSub) (t : Task)
      → ((set_ready ready o p).states t).conversation_id ≡ (p.states t).conversation_id
  set_ready-conversation ready none p t = refl
  set_ready-conversation ready (some u) p t = ground arith

  effect-conversation :
      (s : Stage) (i : Uuid) (p : PubSub) (t : Task)
      → ((effect s i p).states t).conversation_id ≡ (p.states t).conversation_id
  unfolding mark
  effect-conversation marking i p t = set_ready-conversation true (entry i p.subscriptions) p t
  effect-conversation (failing opened) i p t =
      set_ready-conversation false (entry i p.subscriptions) p t
  effect-conversation _ i p t = refl

  run_task-AllCarry :
      (t : Task) (e : Event) (p : PubSub)
      → AllCarry p
      → ((raw : Raw)
          → let st = p.states t in
            let l = advance st.loop.stage st.loop.backoff (is_subscribed st.conversation_id p) e in
            l.stage ≡ handling raw → P (p.states t).conversation_id raw)
      → AllCarry (run_task t e p)
  unfolding run_task
  run_task-AllCarry t e p h k =
      let st = p.states t in
      let i = st.conversation_id in
      let q = effect st.loop.stage i p in
      if-holds AllCarry st.cancelled
        (λ _.
          update-Carries p.states t (record st { loop = unwind st.loop.stage st.loop.backoff e })
            (λ raw q. absurd (unwind-ne-handling st.loop.stage st.loop.backoff e raw q)) h)
        (λ _.
          update-Carries q.states t _
            (λ raw e. rw (effect-conversation st.loop.stage i p t) (k raw e))
            (effect-AllCarry st.loop.stage i p h))

after_broadcast-ne-handling :
    (b : ℕ) (e : Event) (raw : Raw) → (after_broadcast b e).stage ≡ handling raw → ⊥
after_broadcast-ne-handling b quiet raw h = cc
after_broadcast-ne-handling b (received x) raw h = cc
after_broadcast-ne-handling b (lost_sockets ws) raw h = cc
after_broadcast-ne-handling b failure raw h = cc

module _ (platform : Platform) (wire : Wire) where
  -- A task takes in hand only what its `get_message` has returned.
  received_of :
      (s : Stage) (b : ℕ) (subscribed : Bool) (i : Uuid) (m : Connections) (e : Event)
      (outcome : WebSocket → SendOutcome) (raw : Raw)
      → (advance s b subscribed (report platform wire s i m e outcome)).stage ≡ handling raw
      → e ≡ received raw
  unfolding advance report
  received_of testing b true i m quiet outcome raw h = absurd (cc)
  received_of testing b true i m (received x) outcome raw h = absurd (cc)
  received_of testing b true i m (lost_sockets ws) outcome raw h = absurd (cc)
  received_of testing b true i m failure outcome raw h = absurd (cc)
  received_of testing b false i m e outcome raw h = absurd (cc)
  received_of subscribing b subscribed i m quiet outcome raw h = absurd (cc)
  received_of subscribing b subscribed i m (received x) outcome raw h = absurd (cc)
  received_of subscribing b subscribed i m (lost_sockets ws) outcome raw h = absurd (cc)
  received_of subscribing b subscribed i m failure outcome raw h = absurd (cc)
  received_of marking b subscribed i m e outcome raw h = absurd (cc)
  received_of listening b true i m e outcome raw h = absurd (cc)
  received_of listening b false i m e outcome raw h = absurd (cc)
  received_of polling b subscribed i m quiet outcome raw h = absurd (cc)
  received_of polling b subscribed i m (received x) outcome raw h = cc
  received_of polling b subscribed i m (lost_sockets ws) outcome raw h = absurd (cc)
  received_of polling b subscribed i m failure outcome raw h = absurd (cc)
  received_of (handling x) b subscribed i m e outcome raw h =
      absurd (after_broadcast-ne-handling b _ raw h)
  received_of (removing ws) b subscribed i m e outcome raw h = absurd (cc)
  received_of (failing opened) b subscribed i m e outcome raw h = absurd (cc)
  received_of (sleeping true) b subscribed i m e outcome raw h = absurd (cc)
  received_of (sleeping false) b subscribed i m e outcome raw h = absurd (cc)
  received_of (unsubscribing raising) b subscribed i m quiet outcome raw h = absurd (cc)
  received_of (unsubscribing raising) b subscribed i m (received x) outcome raw h = absurd (cc)
  received_of (unsubscribing raising) b subscribed i m (lost_sockets ws) outcome raw h = absurd (cc)
  received_of (unsubscribing raising) b subscribed i m failure outcome raw h = absurd (cc)
  received_of (closing raising) b subscribed i m e outcome raw h = absurd (cc)
  received_of ended b subscribed i m e outcome raw h = absurd (cc)

  -- A step of a task keeps the property, if it holds of what Redis delivers to the task.
  pub step-AllCarry :
      (P : Uuid → Raw → Type 0) (t : Task) (e : Event) (m : Connections)
      (outcome : WebSocket → SendOutcome) (p : PubSub)
      → ((raw : Raw) → e ≡ received raw → P (p.states t).conversation_id raw)
      → AllCarry P p
      → let st = p.states t in
        AllCarry P
          (run_task t (report platform wire st.loop.stage st.conversation_id m e outcome) p)
  step-AllCarry P t e m outcome p k h =
      let st = p.states t in
      run_task-AllCarry P t _ p h (λ raw q. k raw (
        received_of st.loop.stage st.loop.backoff (is_subscribed st.conversation_id p)
          st.conversation_id m e outcome raw q))
