-- ===== src/WebSocket/FanOut/Stopping.antt =====
-- What `stop` of app/websocket/pubsub.py leaves, whatever goes on meanwhile.
use real_time_ai_chat_backen.Base.{
  ℕ, ◌-◌, ◌≤◌, if◌then◌else◌, ◌≡◌, ◌<◌, ◌∙◌, refl, Bool, true, false, Option, none, some, List, [],
  ◌∷◌, arith, ltb, entry, if-holds, Bool-cases, inl, inr,
}
use real_time_ai_chat_backen.Models.{Uuid}
use real_time_ai_chat_backen.Platform.{Platform}
use real_time_ai_chat_backen.WebSocket.Manager.{WebSocket, SendOutcome, connect}
use real_time_ai_chat_backen.WebSocket.Protocol.Wire.{Wire}
use real_time_ai_chat_backen.WebSocket.PubSub.{
  Task, Event, PubSub, begin_stop, end_stop, enter_subscription, unsubscribe_conversation,
  pop_subscription, run_task, is_ended, Stage, testing, failing, sleeping, unsubscribing, closing,
  ended, quiet, received, lost_sockets, failure, unwind,
}
use real_time_ai_chat_backen.WebSocket.PubSub.Consistency.{initial-IsConsistent}
use real_time_ai_chat_backen.WebSocket.FanOut.{
  Phase, accepting, entering, waiting, timed_out, refused, dropping, serving, leaving, released,
  gone, System, Action, client, time_out, listener, starting, begin_stopping, end_stopping,
  after_connect, after_enter, client_step, time_out_step, disconnected, unsubscribed, listener_step,
  perform, run, report, final, fresh,
}
use real_time_ai_chat_backen.WebSocket.FanOut.Exclusive.{IsSound, perform-IsSound, run-IsSound}
use real_time_ai_chat_backen.WebSocket.FanOut.Coverage.Tasks.{run_task-subscriptions}

-- The application does not start again.
abbrev pub never_starts : List Action → Bool
never_starts [] = true
never_starts (starting ∷ rest) = false
never_starts (_ ∷ rest) = never_starts rest

-- The steps that are left to a cancelled task.
abbrev left : Stage → ℕ
left testing = 1
left (failing opened) = if opened then 3 else 1
left (sleeping opened) = if opened then 3 else 1
left (unsubscribing raising) = if raising then 2 else 1
left (closing raising) = 1
left ended = 0
left _ = 3

unwind-left : (s : Stage) (b : ℕ) (e : Event) → left (unwind s b e).stage ≤ left s - 1
unfolding unwind
unwind-left (failing true) b e = omega arith
unwind-left (failing false) b e = omega arith
unwind-left (sleeping true) b e = omega arith
unwind-left (sleeping false) b e = omega arith
unwind-left (unsubscribing false) b e = omega arith
unwind-left (unsubscribing true) b quiet = omega arith
unwind-left (unsubscribing true) b (received x) = omega arith
unwind-left (unsubscribing true) b (lost_sockets ws) = omega arith
unwind-left (unsubscribing true) b failure = omega arith
unwind-left s b e = ground arith

left-le : (s : Stage) → left s ≤ 3
left-le s = ground arith

ended_of_left : (s : Stage) → left s ≤ 0 → is_ended s ≡ true
ended_of_left s h = ground arith

abbrev Stopping : System → Type 0
Stopping s = s.pubsub.stopping ≡ true

after_connect-Stopping :
    (c : WebSocket) (r : Bool × _) (s : System) → Stopping s → Stopping (after_connect c r s)
after_connect-Stopping c (true, m) s h = h
after_connect-Stopping c (false, m) s h = h

after_enter-Stopping :
    (c : WebSocket) (i : Uuid) (s : System)
    → Stopping s
    → Stopping (after_enter c (enter_subscription i s.pubsub) s)
unfolding enter_subscription
after_enter-Stopping c i s h =
    if-holds (λ r. Stopping (after_enter c r s)) s.pubsub.stopping (λ _. h)
      (λ going. absurd (ground (arith, h, going)))

pop-Stopping :
    (i : Uuid) (o : Option Task) (p : PubSub)
    → p.stopping ≡ true
    → (pop_subscription i p o).stopping ≡ true
pop-Stopping i none p h = h
pop-Stopping i (some t) p h = h

unsubscribed-Stopping :
    (c : WebSocket) (i : Uuid) (force : Bool) (phase : Phase) (s : System)
    → Stopping s
    → Stopping (unsubscribed c i force phase s)
unfolding unsubscribed unsubscribe_conversation
unsubscribed-Stopping c i force phase s h =
    if-holds (λ (p : PubSub). p.stopping ≡ true) _ (λ _. h)
      (λ _. pop-Stopping i (entry i s.pubsub.subscriptions) s.pubsub h)

client_step-Stopping :
    (phase : Phase) (c : WebSocket) (i : Uuid) (ok : Bool) (s : System)
    → Stopping s
    → Stopping (client_step phase c i ok s)
unfolding client_step disconnected
client_step-Stopping accepting c i ok s h =
    after_connect-Stopping c (connect (λ _. ok) i c s.manager) s h
client_step-Stopping entering c i ok s h = after_enter-Stopping c i s h
client_step-Stopping (waiting t true) c i ok s h = h
client_step-Stopping (waiting t false) c i ok s h = h
client_step-Stopping timed_out c i ok s h = unsubscribed-Stopping c i true refused s h
client_step-Stopping refused c i ok s h = h
client_step-Stopping dropping c i ok s h = unsubscribed-Stopping c i true gone s h
client_step-Stopping serving c i ok s h = h
client_step-Stopping leaving c i ok s h = h
client_step-Stopping released c i ok s h = unsubscribed-Stopping c i false gone s h
client_step-Stopping gone c i ok s h = h

time_out_step-Stopping :
    (phase : Phase) (c : WebSocket) (s : System) → Stopping s → Stopping (time_out_step phase c s)
time_out_step-Stopping (waiting t woken) c s h = h
time_out_step-Stopping _ c s h = h

module _ (platform : Platform) (wire : Wire) where
  listener_step-Stopping :
      (t : Task) (e : Event) (outcome : WebSocket → SendOutcome) (s : System)
      → Stopping s
      → Stopping (listener_step platform wire t e outcome s)
  unfolding listener_step
  listener_step-Stopping t e outcome s h =
      let st = s.pubsub.states t in
      let e' = report platform wire st.loop.stage st.conversation_id s.manager e outcome in
      let kept = (run_task-subscriptions t e' s.pubsub).1 ∙ h in
      if-holds Stopping st.cancelled (λ _. kept) (λ _. kept)

  run-Stopping :
      (actions : List Action) (s : System)
      → never_starts actions ≡ true
      → Stopping s
      → Stopping (run platform wire actions s)
  unfolding run perform begin_stop end_stop
  run-Stopping [] s g h = h
  run-Stopping (client c ok ∷ rest) s g h =
      run-Stopping rest _ g
        (client_step-Stopping (s.clients c).phase c (s.clients c).conversation_id ok s h)
  run-Stopping (time_out c ∷ rest) s g h =
      run-Stopping rest _ g (time_out_step-Stopping (s.clients c).phase c s h)
  run-Stopping (listener t e outcome ∷ rest) s g h = run-Stopping rest _ g (
      if-holds Stopping (ltb t s.pubsub.created) (λ _. listener_step-Stopping t e outcome s h)
        (λ _. h))
  run-Stopping (starting ∷ rest) s g h = absurd (cc)
  run-Stopping (begin_stopping ∷ rest) s g h = run-Stopping rest _ g refl
  run-Stopping (end_stopping ∷ rest) s g h = run-Stopping rest _ g h

  begin_stopping-Stopping : (s : System) → Stopping (perform platform wire begin_stopping s)
  unfolding perform begin_stop
  begin_stopping-Stopping s = refl

  -- While it stops, every task that was made is cancelled.
  all_cancelled :
      (t : Task) (s : System)
      → IsSound s
      → Stopping s
      → t < s.pubsub.created
      → (s.pubsub.states t).cancelled ≡ true
  all_cancelled t s h stops made = elim (Bool-cases (s.pubsub.states t).cancelled) [
    | inl cancelled ↦ cancelled
    | inr going ↦
        absurd
          (ground (arith, h.live t made going, h.stopped stops (s.pubsub.states t).conversation_id))
  ]

  run_task-unwinds :
      (t : Task) (e : Event) (p : PubSub)
      → (p.states t).cancelled ≡ true
      → let q = run_task t e p in
        (q.created ≡ p.created)
        × ((q.states t).cancelled ≡ true)
        × (left (q.states t).loop.stage ≤ left (p.states t).loop.stage - 1)
  unfolding run_task
  run_task-unwinds t e p cancelled =
      let st = p.states t in ground (arith, cancelled, unwind-left st.loop.stage st.loop.backoff e)

  -- The task has been made and is cancelled, and has at most so many steps to go.
  abbrev IsUnwinding : Task → ℕ → System → Type 0
  IsUnwinding t n s =
      (t < s.pubsub.created)
      × ((s.pubsub.states t).cancelled ≡ true)
      × (left (s.pubsub.states t).loop.stage ≤ n)

  listener-unwinds :
      (t : Task) (n : ℕ) (e : Event) (outcome : WebSocket → SendOutcome) (s : System)
      → IsUnwinding t n s
      → IsUnwinding t (n - 1) (perform platform wire (listener t e outcome) s)
  unfolding perform listener_step
  listener-unwinds t n e outcome s (made, cancelled, few) =
      let st = s.pubsub.states t in
      let e' = report platform wire st.loop.stage st.conversation_id s.manager e outcome in
      let next = run_task-unwinds t e' s.pubsub cancelled in
      if-holds (IsUnwinding t (n - 1)) (ltb t s.pubsub.created)
        (λ _.
          if-holds (IsUnwinding t (n - 1)) st.cancelled
            (λ _. (omega (arith, next.0, made), next.1, omega (arith, next.2, few)))
            (λ going. absurd (ground (arith, cancelled, going))))
        (λ none_such. absurd (ground (arith, made, none_such)))

  -- Once the application has begun to stop and does not start again: whatever the clients, the
  -- tasks and Redis do then, and whatever has been before, the dictionary has no subscription, every
  -- task that was ever made is cancelled, and three steps of any of them, which leave the loop and
  -- go through its `finally`, bring it to its end.
  pub run-stopped :
      (conversation_of : WebSocket → Uuid) (before after : List Action) (i : Uuid) (t : Task)
      (e₁ e₂ e₃ : Event) (outcome : WebSocket → SendOutcome)
      → never_starts after ≡ true
      → let stopped =
          perform platform wire begin_stopping (final platform wire conversation_of before) in
        let later = run platform wire after stopped in
        t < later.pubsub.created
        → let stopped =
            perform platform wire begin_stopping (final platform wire conversation_of before) in
          let later = run platform wire after stopped in
          let next =
            run platform wire
              (listener t e₁ outcome ∷ listener t e₂ outcome ∷ listener t e₃ outcome ∷ [])
              later in
          (entry i later.pubsub.subscriptions ≡ none)
          × ((later.pubsub.states t).cancelled ≡ true)
          × (is_ended (next.pubsub.states t).loop.stage ≡ true)
  unfolding final run
  run-stopped conversation_of before after i t e₁ e₂ e₃ outcome stays made =
      let s = run platform wire before (fresh conversation_of) in
      let first = perform platform wire begin_stopping s in
      let later = run platform wire after first in
      let sound = run-IsSound platform wire after first (
        perform-IsSound platform wire begin_stopping s
          (run-IsSound platform wire before (fresh conversation_of) initial-IsConsistent)) in
      let stops = run-Stopping after first stays (begin_stopping-Stopping s) in
      let cancelled = all_cancelled t later sound stops made in
      let one = perform platform wire (listener t e₁ outcome) later in
      let two = perform platform wire (listener t e₂ outcome) one in
      let three = perform platform wire (listener t e₃ outcome) two in
      let out = listener-unwinds t 1 e₃ outcome two (
        listener-unwinds t 2 e₂ outcome one (
          listener-unwinds t 3 e₁ outcome later
            (made, cancelled, left-le (later.pubsub.states t).loop.stage))) in
      (sound.stopped stops i, cancelled, ended_of_left (three.pubsub.states t).loop.stage out.2)
