-- ===== src/WebSocket/FanOut/Coverage/Tasks.antt =====
-- A step of a listening task of app/websocket/pubsub.py keeps the registered clients listened for.
use real_time_ai_chat_backen.Base.{
  ◌≡◌, ◌∙◌, refl, Bool, true, false, Option, none, some, List, arith, entry, if-holds,
}
use real_time_ai_chat_backen.Models.{Uuid}
use real_time_ai_chat_backen.Platform.{Platform}
use real_time_ai_chat_backen.WebSocket.Manager.{WebSocket, Connections, SendOutcome, remove_all}
use real_time_ai_chat_backen.WebSocket.Manager.Invariant.{IsValid, connected}
use real_time_ai_chat_backen.WebSocket.Manager.Broadcast.{remove_all-IsValid, connected-remove_all}
use real_time_ai_chat_backen.WebSocket.Protocol.Wire.{Wire}
use real_time_ai_chat_backen.WebSocket.PubSub.{
  Task, Event, Stage, PubSub, run_task, set_ready, effect, mark, marking, failing, removing,
}
use real_time_ai_chat_backen.WebSocket.FanOut.{
  Phase, waiting, Client, System, listener_step, report, sweep, rouse, woken_phase, is_waiting_for,
}
use real_time_ai_chat_backen.WebSocket.FanOut.Coverage.{is_attached, is_failing, IsCovered}

set_ready-subscriptions :
    (ready : Bool) (o : Option Task) (p : PubSub)
    → ((set_ready ready o p).subscriptions ≡ p.subscriptions)
      × ((set_ready ready o p).stopping ≡ p.stopping)
set_ready-subscriptions ready none p = (refl, refl)
set_ready-subscriptions ready (some t) p = (refl, refl)

effect-subscriptions :
    (stage : Stage) (i : Uuid) (p : PubSub)
    → ((effect stage i p).subscriptions ≡ p.subscriptions)
      × ((effect stage i p).stopping ≡ p.stopping)
unfolding mark
effect-subscriptions marking i p = set_ready-subscriptions true (entry i p.subscriptions) p
effect-subscriptions (failing opened) i p =
    set_ready-subscriptions false (entry i p.subscriptions) p
effect-subscriptions _ i p = (refl, refl)

pub run_task-subscriptions :
    (t : Task) (e : Event) (p : PubSub)
    → ((run_task t e p).subscriptions ≡ p.subscriptions) × ((run_task t e p).stopping ≡ p.stopping)
unfolding run_task
run_task-subscriptions t e p =
    if-holds (λ (q : PubSub). (q.subscriptions ≡ p.subscriptions) × (q.stopping ≡ p.stopping))
      (p.states t).cancelled (λ _. (refl, refl))
      (λ _. effect-subscriptions (p.states t).loop.stage (p.states t).conversation_id p)

remove_all-Shrinks :
    (i j : Uuid) (ws : List WebSocket) (d : WebSocket) (m : Connections)
    → IsValid m
    → connected j d (remove_all i ws m) ≡ true
    → connected j d m ≡ true
remove_all-Shrinks i j ws d m h q = ground (arith, connected-remove_all i j ws d m h)

pub sweep-IsValid :
    (stage : Stage) (i : Uuid) (m : Connections) → IsValid m → IsValid (sweep stage i m)
unfolding sweep
sweep-IsValid (removing ws) i m h = remove_all-IsValid i ws m h
sweep-IsValid _ i m h = h

pub sweep-Shrinks :
    (stage : Stage) (i j : Uuid) (d : WebSocket) (m : Connections)
    → IsValid m
    → connected j d (sweep stage i m) ≡ true
    → connected j d m ≡ true
unfolding sweep
sweep-Shrinks (removing ws) i j d m h q = remove_all-Shrinks i j ws d m h q
sweep-Shrinks _ i j d m h q = q

abbrev pub SameKind : Client → Client → Type 0
SameKind x y =
    (x.conversation_id ≡ y.conversation_id)
    × (is_attached x.phase ≡ is_attached y.phase)
    × (is_failing x.phase ≡ is_failing y.phase)

woken_phase-keeps :
    (phase : Phase)
    → (is_attached (woken_phase phase) ≡ is_attached phase)
      × (is_failing (woken_phase phase) ≡ is_failing phase)
woken_phase-keeps (waiting t woken) = (refl, refl)
woken_phase-keeps _ = (refl, refl)

-- Waking changes no conversation, and neither attaches nor fails a client.
pub rouse-keeps :
    (stage : Stage) (o : Option Task) (clients : WebSocket → Client) (d : WebSocket)
    → SameKind (rouse stage o clients d) (clients d)
rouse-keeps marking o clients d =
    if-holds (λ x. SameKind x (clients d)) (is_waiting_for o (clients d).phase)
      (λ _. let kept = woken_phase-keeps (clients d).phase in (refl, kept.0, kept.1))
      (λ _. (refl, refl, refl))
rouse-keeps _ o clients d = (refl, refl, refl)

module _ (platform : Platform) (wire : Wire) where
  pub listener-IsCovered :
      (t : Task) (e : Event) (outcome : WebSocket → SendOutcome) (s : System)
      → IsCovered s
      → IsCovered (listener_step platform wire t e outcome s)
  unfolding listener_step
  listener-IsCovered t e outcome s h =
      let st = s.pubsub.states t in
      let i = st.conversation_id in
      let e' = report platform wire st.loop.stage i s.manager e outcome in
      let q = run_task-subscriptions t e' s.pubsub in
      let o = entry i s.pubsub.subscriptions in
      if-holds IsCovered st.cancelled
        (λ _. record {
          valid = h.valid;
          runs = q.1 ∙ h.runs;
          no_failure = h.no_failure;
          listened = λ d a k. rw q.0 (h.listened d a k);
        })
        (λ _. record {
          valid = sweep-IsValid st.loop.stage i s.manager h.valid;
          runs = q.1 ∙ h.runs;
          no_failure = λ d. (rouse-keeps st.loop.stage o s.clients d).2 ∙ h.no_failure d;
          listened = λ d a k.
              let same = rouse-keeps st.loop.stage o s.clients d in
              let before =
                sweep-Shrinks st.loop.stage i (s.clients d).conversation_id d s.manager in
              ground (arith, same, before h.valid, h.listened d, q.0);
        })
