-- ===== src/Tests/FanOut.antt =====
-- The theorems on subscriptions at two clients of one conversation.
use real_time_ai_chat_backen.Base.{
  strip, ◌≡◌, refl, ap, ◌∙◌, true, false, some, List, [], ◌∷◌, arith, entry,
}
use real_time_ai_chat_backen.WebSocket.Manager.{send_all, WebSocket, delivered}
use real_time_ai_chat_backen.WebSocket.Manager.Invariant.{connected}
use real_time_ai_chat_backen.WebSocket.PubSub.{
  handling, Task, Stage, failing, sleeping, marking, subscribing, create_subscription, set_loop,
  set_ready, Event, quiet, failure, polling, listening, testing, at, is_ended, is_subscribed,
}
use real_time_ai_chat_backen.WebSocket.PubSub.Loops.{
  run_loop, is_connected, failed_attempts, run_loop_ends, run_loop_recovers, run_loop_backoff,
}
use real_time_ai_chat_backen.WebSocket.FanOut.{
  listener_step, entering, waiting, set_phase, wake, Action, client, time_out, listener, serving,
  timed_out, System, perform, run, final, fresh,
}
use real_time_ai_chat_backen.WebSocket.FanOut.Exclusive.{run-listens_once}
use real_time_ai_chat_backen.WebSocket.FanOut.Coverage.Runs.{run-listens}
use real_time_ai_chat_backen.WebSocket.Protocol.{Outbound, error}
use real_time_ai_chat_backen.WebSocket.Protocol.Wire.{characters, serialize}
use real_time_ai_chat_backen.WebSocket.FanOut.Feeding.{listener_step-streams}
use real_time_ai_chat_backen.WebSocket.FanOut.Orphans.{run-orphans}
use real_time_ai_chat_backen.Tests.Platform.{toy}
use real_time_ai_chat_backen.Tests.Wire.{toy_wire, toy_wire-IsFaithful}

run_loop_ends_example :
    is_ended
      (run_loop false
        (failure ∷ quiet ∷ quiet ∷ quiet ∷ quiet ∷ quiet ∷ quiet ∷ [])
        (at polling 1)).stage
    ≡ true
run_loop_ends_example =
    run_loop_ends (failure ∷ quiet ∷ quiet ∷ quiet ∷ quiet ∷ quiet ∷ quiet ∷ []) (at polling 1)
      (ground arith)

run_loop_recovers_example :
    is_connected
      (run_loop true
        (quiet ∷ quiet ∷ quiet ∷ quiet ∷ quiet ∷ quiet ∷ quiet ∷ [])
        (at testing 4)).stage
    ≡ true
run_loop_recovers_example =
    run_loop_recovers (quiet ∷ quiet ∷ quiet ∷ quiet ∷ quiet ∷ quiet ∷ quiet ∷ []) (at testing 4)
      (tt, (tt, (tt, (tt, (tt, (tt, (tt, tt))))))) refl (ground arith)

run_loop_backoff_example : run_loop true (failed_attempts 3) (at testing 1) ≡ at testing 8
run_loop_backoff_example = run_loop_backoff 3

abbrev pub same_room : WebSocket → WebSocket
same_room c = 10

abbrev pub hear : Event → Action
hear e = listener 0 e (λ w. delivered)

-- One client comes, and its task subscribes.
abbrev pub first_comes : List Action
first_comes =
    client 1 true ∷ client 1 true ∷ hear quiet ∷ hear quiet ∷ hear quiet ∷ client 1 true ∷ []

-- Then Redis fails, and a second client waits in vain.
abbrev second_fails : List Action
second_fails =
    hear quiet ∷ hear failure ∷ hear quiet ∷ client 2 true ∷ client 2 true ∷ time_out 2 ∷ []

-- A run with the states on the way, so that each of its steps is computed from the last state.
data Reaches : System → List Action → System → Type 0 where
  here : {s : System} → Reaches s [] s
  step :
      {s s'' : System} (s' : System) {a : Action} {rest : List Action}
      → perform toy toy_wire a s ≡ s'
      → Reaches s' rest s''
      → Reaches s (a ∷ rest) s''

run_of :
    {s s' : System} {actions : List Action} → Reaches s actions s' → run toy toy_wire actions s ≡ s'
unfolding run
run_of here = refl
run_of (step s' {rest = rest} e r) = ap (run toy toy_wire rest) e ∙ run_of r

abbrev pub start₀ : System
start₀ = fresh same_room

abbrev pub connected₁ : System
connected₁ = set_phase 1 entering (record start₀ { manager = (10, 1 ∷ []) ∷ [] })

abbrev pub waiting₁ : System
waiting₁ =
    set_phase 1 (waiting 0 false)
      (record connected₁ { pubsub = (create_subscription 10 start₀.pubsub).1 })

abbrev pub with_loop : Stage → System → System
with_loop stage s = record s { pubsub = set_loop 0 (at stage 1) s.pubsub }

abbrev pub marking₁ : System
marking₁ = with_loop marking (with_loop subscribing waiting₁)

abbrev pub woken₁ : System
woken₁ = record marking₁ {
  pubsub = set_loop 0 (at listening 1) (set_ready true (some 0) marking₁.pubsub);
  clients = wake (some 0) marking₁.clients;
}

abbrev pub serving₁ : System
serving₁ = set_phase 1 serving woken₁

first-Reaches : Reaches start₀ first_comes serving₁
unfolding perform
first-Reaches = step connected₁ refl (
    step waiting₁ refl (
      step (with_loop subscribing waiting₁) refl
        (step marking₁ refl (step woken₁ refl (step serving₁ refl here)))))

pub first_lem : final toy toy_wire same_room first_comes ≡ serving₁
unfolding final
first_lem = run_of first-Reaches

run-listens_once_example :
    (◌≡◌ {A = Task} 0 0)
    × (entry
          ((final toy toy_wire same_room first_comes).pubsub.states 0).conversation_id
          (final toy toy_wire same_room first_comes).pubsub.subscriptions
        ≡ some 0)
    × (is_ended ((final toy toy_wire same_room first_comes).pubsub.states 0).loop.stage ≡ false)
run-listens_once_example =
    run-listens_once toy toy_wire same_room first_comes 0 0 (rw first_lem (ground arith))
      (rw first_lem (ground arith)) (ap (λ (s : System). (s.pubsub.states 0).cancelled) first_lem)
      (ap (λ (s : System). (s.pubsub.states 0).cancelled) first_lem) refl

run-listens_example :
    (t : Task) × (entry
        ((final toy toy_wire same_room first_comes).clients 1).conversation_id
        (final toy toy_wire same_room first_comes).pubsub.subscriptions
      ≡ some t)
    × (((final toy toy_wire same_room first_comes).pubsub.states t).cancelled ≡ false)
    × (is_ended ((final toy toy_wire same_room first_comes).pubsub.states t).loop.stage ≡ false)
run-listens_example =
    run-listens toy toy_wire same_room first_comes 1 refl
      (ap (λ (s : System). (s.clients 1).phase) first_lem)
      (ap (λ (s : System). connected (s.clients 1).conversation_id 1 s.manager) first_lem)

abbrev polling₁ : System
polling₁ = with_loop (failing true) (with_loop polling serving₁)

abbrev sleeping₁ : System
sleeping₁ = record polling₁ {
  pubsub = set_loop 0 (at (sleeping true) 1) (set_ready false (some 0) polling₁.pubsub);
}

abbrev connected₂ : System
connected₂ = set_phase 2 entering (record sleeping₁ { manager = (10, 1 ∷ 2 ∷ []) ∷ [] })

abbrev waiting₂ : System
waiting₂ =
    set_phase 2 (waiting 0 false)
      (record connected₂ { pubsub = record connected₂.pubsub { started = true } })

-- The second client has come to the forced removal.
abbrev late₂ : System
late₂ = set_phase 2 timed_out waiting₂

second-Reaches : Reaches serving₁ second_fails late₂
unfolding perform
second-Reaches = step (with_loop polling serving₁) refl (
    step polling₁ refl
      (step sleeping₁ refl (step connected₂ refl (step waiting₂ refl (step late₂ refl here)))))

run-orphans_example :
    (connected 10 1 (perform toy toy_wire (client 2 true) late₂).manager ≡ true)
    × (((run toy toy_wire (hear quiet ∷ []) (perform toy toy_wire (client 2 true) late₂)).clients
          1).phase
        ≡ serving)
    × (is_subscribed 10
          (run toy toy_wire (hear quiet ∷ []) (perform toy toy_wire (client 2 true) late₂)).pubsub
        ≡ false)
run-orphans_example =
    run-orphans toy toy_wire late₂ 1 2 true (hear quiet ∷ []) refl refl refl refl refl

abbrev apology : Outbound
apology = error "failed" " Sorry "

abbrev handling₁ : System
handling₁ = with_loop (handling (characters (serialize toy toy_wire apology))) serving₁

listener_step-streams_example :
    (listener_step toy toy_wire 0 quiet (λ w. delivered) handling₁).streams 1
    ≡ error "failed" "Sorry" ∷ []
unfolding send_all strip
listener_step-streams_example =
    listener_step-streams toy toy_wire toy_wire-IsFaithful 0 quiet (λ w. delivered) handling₁
      apology 1 refl refl refl
