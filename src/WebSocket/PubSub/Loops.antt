-- ===== src/WebSocket/PubSub/Loops.antt =====
-- `_subscription_loop` of app/websocket/pubsub.py on its own: how it ends, how it recovers, and how
-- long it sleeps.
use real_time_ai_chat_backen.Base.{
  ℕ, zero, suc, ◌-◌, ◌^◌, ◌≡◌, ◌≤◌, refl, ap, ◌∙◌, Bool, true, false, List, [], ◌∷◌, arith, leb,
  length, All, if◌then◌else◌,
}
use real_time_ai_chat_backen.WebSocket.PubSub.{
  Stage, testing, subscribing, marking, listening, polling, handling, removing, failing, sleeping,
  unsubscribing, closing, unsubscribing, closing, ended, Loop, Event, quiet, received, lost_sockets,
  failure, at, next_backoff, advance, is_ended,
}

-- The loop under a constant answer of `_is_subscribed`, with what its awaits come back with.
abbrev pub run_loop : Bool → List Event → Loop → Loop
run_loop subscribed [] l = l
run_loop subscribed (e ∷ es) l = run_loop subscribed es (advance l.stage l.backoff subscribed e)

-- The steps that are left to a loop that finds itself unsubscribed.
abbrev distance : Stage → ℕ
distance testing = 1
distance subscribing = 6
distance marking = 5
distance listening = 4
distance polling = 7
distance (handling raw) = 6
distance (removing ws) = 5
distance (failing opened) = if opened then 5 else 3
distance (sleeping opened) = if opened then 4 else 2
distance (unsubscribing raising) = 3
distance (closing raising) = 2
distance ended = 0

advance-distance :
    (s : Stage) (b : ℕ) (e : Event) → distance (advance s b false e).stage ≤ distance s - 1
unfolding advance
advance-distance testing b e = ground arith
advance-distance subscribing b quiet = ground arith
advance-distance subscribing b failure = ground arith
advance-distance subscribing b (received raw) = ground arith
advance-distance subscribing b (lost_sockets ws) = ground arith
advance-distance polling b quiet = ground arith
advance-distance polling b failure = ground arith
advance-distance polling b (received raw) = ground arith
advance-distance polling b (lost_sockets ws) = ground arith
advance-distance (handling raw) b quiet = ground arith
advance-distance (handling raw) b failure = ground arith
advance-distance (handling raw) b (received _) = ground arith
advance-distance (handling raw) b (lost_sockets ws) = ground arith
advance-distance (failing true) b e = ground arith
advance-distance (failing false) b e = ground arith
advance-distance (sleeping true) b e = ground arith
advance-distance (sleeping false) b e = ground arith
advance-distance (unsubscribing raising) b quiet = ground arith
advance-distance (unsubscribing raising) b failure = ground arith
advance-distance (unsubscribing raising) b (received _) = ground arith
advance-distance (unsubscribing raising) b (lost_sockets ws) = ground arith
advance-distance s b e = ground arith

distance-run_loop :
    (es : List Event) (l : Loop)
    → distance (run_loop false es l).stage ≤ distance l.stage - length es
distance-run_loop [] l = ground arith
distance-run_loop (e ∷ es) l = ground (
  arith,
  advance-distance l.stage l.backoff e,
  distance-run_loop es (advance l.stage l.backoff false e),
)

distance-le : (s : Stage) → distance s ≤ 7
distance-le s = ground arith

ended_of_distance : (s : Stage) → distance s ≤ 0 → is_ended s ≡ true
ended_of_distance s h = ground arith

-- Wherever it is and whatever its awaits come back with, a loop whose conversation is no longer
-- subscribed ends within seven of its steps.
pub run_loop_ends :
    (es : List Event) (l : Loop) → 7 ≤ length es → is_ended (run_loop false es l).stage ≡ true
run_loop_ends es l h =
    ended_of_distance (run_loop false es l).stage
      (omega (arith, distance-run_loop es l, distance-le l.stage))

-- Subscribed in Redis, and told so.
abbrev pub is_connected : Stage → Bool
is_connected listening = true
is_connected polling = true
is_connected (handling raw) = true
is_connected (removing ws) = true
is_connected _ = false

abbrev pub Succeeds : Event → Type 0
Succeeds failure = ⊥
Succeeds _ = Unit

-- The steps before a loop is connected, while nothing fails.
abbrev delay : Stage → ℕ
delay testing = 3
delay subscribing = 2
delay marking = 1
delay (failing opened) = if opened then 7 else 5
delay (sleeping opened) = if opened then 6 else 4
delay (unsubscribing raising) = 5
delay (closing raising) = 4
delay _ = 0

advance-delay :
    (s : Stage) (b : ℕ) (e : Event)
    → Succeeds e
    → is_ended s ≡ false
    → (delay (advance s b true e).stage ≤ delay s - 1)
      × (is_ended (advance s b true e).stage ≡ false)
unfolding advance
advance-delay s b quiet h k = ground arith
advance-delay s b (received raw) h k = ground arith
advance-delay s b (lost_sockets ws) h k = ground arith
advance-delay s b failure h k = absurd h

delay-run_loop :
    (es : List Event) (l : Loop)
    → All Succeeds es
    → is_ended l.stage ≡ false
    → (delay (run_loop true es l).stage ≤ delay l.stage - length es)
      × (is_ended (run_loop true es l).stage ≡ false)
delay-run_loop [] l h k = ground arith
delay-run_loop (e ∷ es) l h k =
    let step = advance-delay l.stage l.backoff e h.0 k in
    let rest = delay-run_loop es (advance l.stage l.backoff true e) h.1 step.1 in
    (omega (arith, step.0, rest.0), rest.1)

delay-le : (s : Stage) → delay s ≤ 7
delay-le s = ground arith

connected_of_delay : (s : Stage) → delay s ≤ 0 → is_ended s ≡ false → is_connected s ≡ true
connected_of_delay s h k = ground arith

-- Wherever it is, a loop that has not ended and stays subscribed is connected to Redis within seven
-- of its steps in which nothing fails, and as long as nothing fails.
pub run_loop_recovers :
    (es : List Event) (l : Loop)
    → All Succeeds es
    → is_ended l.stage ≡ false
    → 7 ≤ length es
    → is_connected (run_loop true es l).stage ≡ true
run_loop_recovers es l h k n =
    let r = delay-run_loop es l h k in
    connected_of_delay (run_loop true es l).stage (omega (arith, r.0, delay-le l.stage)) r.1

-- What the awaits of `n` attempts to subscribe come back with, if each fails.
abbrev pub failed_attempts : ℕ → List Event
failed_attempts zero = []
failed_attempts (suc n) = quiet ∷ failure ∷ quiet ∷ quiet ∷ quiet ∷ quiet ∷ failed_attempts n

abbrev doublings : ℕ → ℕ → ℕ
doublings zero b = b
doublings (suc n) b = doublings n (next_backoff b)

run_loop-failed_attempts :
    (n b : ℕ) → run_loop true (failed_attempts n) (at testing b) ≡ at testing (doublings n b)
unfolding advance
run_loop-failed_attempts zero b = refl
run_loop-failed_attempts (suc n) b = run_loop-failed_attempts n (next_backoff b)

doublings_capped : (n : ℕ) → doublings n 30 ≡ 30
doublings_capped zero = refl
doublings_capped (suc n) = doublings_capped n

doublings_of_one : (n : ℕ) → doublings n 1 ≡ (if leb 5 n then 30 else 2 ^ n)
doublings_of_one zero = refl
doublings_of_one (suc zero) = refl
doublings_of_one (suc (suc zero)) = refl
doublings_of_one (suc (suc (suc zero))) = refl
doublings_of_one (suc (suc (suc (suc zero)))) = refl
doublings_of_one (suc (suc (suc (suc (suc n))))) = ground (arith, doublings_capped n)

-- After `n` attempts to subscribe that have all failed, a loop that stays subscribed is about to
-- try again, and would then sleep for 2 ^ n seconds, but for no more than 30.
pub run_loop_backoff :
    (n : ℕ)
    → run_loop true (failed_attempts n) (at testing 1) ≡ at testing (if leb 5 n then 30 else 2 ^ n)
run_loop_backoff n = run_loop-failed_attempts n 1 ∙ ap (at testing) (doublings_of_one n)
