-- ===== src/WebSocket/FanOut/Coverage/Clients.antt =====
-- A step of a client of app/routers/ws.py keeps the registered clients listened for.
use real_time_ai_chat_backen.Base.{
  ◌≡◌, ◌≢◌, ◌∙◌, ap, refl, Bool, true, false, Option, none, some, List, [], ◌∷◌, arith, ltb, ◌==◌,
  length, entry, entry-set, entry-pop, if-holds, Bool-cases, inl, inr, ==_iff,
}
use real_time_ai_chat_backen.Models.{Uuid}
use real_time_ai_chat_backen.WebSocket.Manager.{
  WebSocket, Connections, connection_count, connect, disconnect, sockets, contains,
}
use real_time_ai_chat_backen.WebSocket.Manager.Invariant.{
  connected, insert-IsValid, connected-insert, connected-remove_connection,
  remove_connection-IsValid,
}
use real_time_ai_chat_backen.WebSocket.PubSub.{
  Task, PubSub, enter_subscription, unsubscribe_conversation, ensure, done, create_subscription,
  pop_subscription,
}
use real_time_ai_chat_backen.WebSocket.FanOut.{
  Phase, accepting, entering, waiting, timed_out, refused, dropping, serving, leaving, released,
  gone, System, set_phase, after_enter, client_step, disconnected, unsubscribed,
}
use real_time_ai_chat_backen.WebSocket.FanOut.Coverage.{is_attached, is_failing, IsCovered}

set_phase-IsCovered :
    (c : WebSocket) (phase : Phase) (s : System)
    → is_failing phase ≡ false
    → (is_attached phase ≡ true → is_attached (s.clients c).phase ≡ true)
    → IsCovered s
    → IsCovered (set_phase c phase s)
set_phase-IsCovered c phase s ne k h = record {
  valid = h.valid;
  runs = h.runs;
  no_failure = λ d. ground (arith, h.no_failure d);
  listened = λ d. ground (arith, h.listened d);
}

contains-length :
    (w : WebSocket) (ws : List WebSocket) → contains w ws ≡ true → ltb 0 (length ws) ≡ true
contains-length w [] h = absurd (cc)
contains-length w (v ∷ ws) h = ground arith

insert-IsCovered :
    (c : WebSocket) (ok : Bool) (s : System)
    → IsCovered s
    → IsCovered (client_step accepting c (s.clients c).conversation_id ok s)
unfolding client_step connect
insert-IsCovered c false s h = set_phase-IsCovered c gone s refl (λ q. absurd (cc)) h
insert-IsCovered c true s h = record {
  valid = insert-IsValid (s.clients c).conversation_id c s.manager h.valid;
  runs = h.runs;
  no_failure = λ d. ground (arith, h.no_failure d);
  listened = λ d a k. ground (
    arith,
    h.listened d,
    connected-insert (s.clients c).conversation_id (s.clients d).conversation_id c d s.manager,
  );
}

disconnect-IsCovered :
    (c : WebSocket) (phase : Phase) (s : System)
    → is_failing phase ≡ false
    → is_attached phase ≡ false
    → IsCovered s
    → IsCovered (disconnected c (s.clients c).conversation_id phase s)
unfolding disconnected disconnect
disconnect-IsCovered c phase s ne na h = record {
  valid = remove_connection-IsValid (s.clients c).conversation_id c s.manager h.valid;
  runs = h.runs;
  no_failure = λ d. ground (arith, h.no_failure d);
  listened = λ d a k. ground (
    arith,
    h.listened d,
    connected-remove_connection (s.clients c).conversation_id (s.clients d).conversation_id c d
        s.manager h.valid,
  );
}

-- A client goes on with a step of the subscriptions.
pubsub-IsCovered :
    (c : WebSocket) (phase : Phase) (q : PubSub) (s : System)
    → is_failing phase ≡ false
    → q.stopping ≡ false
    → (is_attached phase ≡ true → entry (s.clients c).conversation_id q.subscriptions ≢ none)
    → ((d : WebSocket)
        → (c == d) ≡ false
        → connected (s.clients d).conversation_id d s.manager ≡ true
        → entry (s.clients d).conversation_id s.pubsub.subscriptions ≢ none
        → entry (s.clients d).conversation_id q.subscriptions ≢ none)
    → IsCovered s
    → IsCovered (set_phase c phase (record s { pubsub = q }))
pubsub-IsCovered c phase q s ne going own others h = record {
  valid = h.valid;
  runs = going;
  no_failure = λ d. ground (arith, h.no_failure d);
  listened = λ d a k. ground (arith, h.listened d, others d);
}

-- What entering a subscription does while nothing stops.
record Enters (i : Uuid) (p q : PubSub) : Type 0 where
  goes_on : q.stopping ≡ false
  found : entry i q.subscriptions ≢ none
  kept : (j : Uuid) → entry j p.subscriptions ≢ none → entry j q.subscriptions ≢ none

create-Enters :
    (i : Uuid) (p : PubSub) → p.stopping ≡ false → Enters i p (create_subscription i p).1
create-Enters i p going = record {
  goes_on = going;
  found = ground (arith, entry-set i i p.created p.subscriptions);
  kept = λ j h. ground (arith, entry-set i j p.created p.subscriptions);
}

ensure-Enters :
    (i : Uuid) (p : PubSub) (o : Option Task)
    → p.stopping ≡ false
    → entry i p.subscriptions ≡ o
    → Enters i p (ensure i p o).1
ensure-Enters i p none going e = create-Enters i p going
ensure-Enters i p (some t) going e =
    if-holds (λ (r : Task × PubSub). Enters i p r.1) (done p t) (λ _. create-Enters i p going)
      (λ _. record { goes_on = going; found = ground (arith, e); kept = λ j h. h })

enter-IsCovered :
    (c : WebSocket) (ok : Bool) (s : System)
    → IsCovered s
    → IsCovered (client_step entering c (s.clients c).conversation_id ok s)
unfolding client_step enter_subscription
enter-IsCovered c ok s h =
    let i = (s.clients c).conversation_id in
    let (t, q) = ensure i s.pubsub (entry i s.pubsub.subscriptions) in
    let e = ensure-Enters i s.pubsub (entry i s.pubsub.subscriptions) h.runs refl in
    if-holds (λ r. IsCovered (after_enter c r s)) s.pubsub.stopping
      (λ stops. absurd (ground (arith, h.runs)))
      (λ _.
        pubsub-IsCovered c (waiting t (q.states t).ready) q s refl e.goes_on (λ _. e.found)
          (λ d _ _ n. e.kept (s.clients d).conversation_id n) h)

pop-keeps :
    (i j : Uuid) (o : Option Task) (p : PubSub)
    → (i == j) ≡ false
    → entry j p.subscriptions ≢ none
    → entry j (pop_subscription i p o).subscriptions ≢ none
pop-keeps i j none p ne h = h
pop-keeps i j (some t) p ne h = ground (arith, entry-pop i j p.subscriptions)

pop-runs :
    (i : Uuid) (o : Option Task) (p : PubSub) → (pop_subscription i p o).stopping ≡ p.stopping
pop-runs i none p = refl
pop-runs i (some t) p = refl

registered-elsewhere :
    (i j : Uuid) (d : WebSocket) (m : Connections)
    → connected j d m ≡ true
    → ltb 0 (length (sockets i m)) ≡ false
    → (i == j) ≡ false
registered-elsewhere i j d m k none_left = elim (Bool-cases (i == j)) [
  | inl same ↦
      absurd (let e = contains-length d (sockets j m) k in ground (arith, (==_iff i j).0 same))
  | inr elsewhere ↦ elsewhere
]

-- A client that leaves takes no entry from a conversation with a registered socket.
unsubscribe-IsCovered :
    (c : WebSocket) (ok : Bool) (s : System)
    → IsCovered s
    → IsCovered (client_step released c (s.clients c).conversation_id ok s)
unfolding client_step unsubscribed unsubscribe_conversation connection_count
unsubscribe-IsCovered c ok s h =
    let i = (s.clients c).conversation_id in
    let n = length (sockets i s.manager) in
    let o = entry i s.pubsub.subscriptions in
    if-holds (λ q. IsCovered (set_phase c gone (record s { pubsub = q }))) (ltb 0 n)
      (λ _. set_phase-IsCovered c gone s refl (λ q. absurd (cc)) h)
      (λ none_left.
        pubsub-IsCovered c gone (pop_subscription i s.pubsub o) s refl
          (pop-runs i o s.pubsub ∙ h.runs) (λ q. absurd (cc))
          (λ d ne k m.
            pop-keeps i (s.clients d).conversation_id o s.pubsub
              (registered-elsewhere i (s.clients d).conversation_id d s.manager k none_left) m)
          h)

pub client_step-IsCovered :
    (phase : Phase) (c : WebSocket) (ok : Bool) (s : System)
    → (s.clients c).phase ≡ phase
    → IsCovered s
    → IsCovered (client_step phase c (s.clients c).conversation_id ok s)
unfolding client_step
client_step-IsCovered accepting c ok s here h = insert-IsCovered c ok s h
client_step-IsCovered entering c ok s here h = enter-IsCovered c ok s h
client_step-IsCovered (waiting t true) c ok s here h =
    set_phase-IsCovered c serving s refl (λ _. ap is_attached here) h
client_step-IsCovered (waiting t false) c ok s here h = h
client_step-IsCovered timed_out c ok s here h = absurd (ground (arith, here, h.no_failure c))
client_step-IsCovered refused c ok s here h = absurd (ground (arith, here, h.no_failure c))
client_step-IsCovered dropping c ok s here h = absurd (ground (arith, here, h.no_failure c))
client_step-IsCovered serving c ok s here h =
    set_phase-IsCovered c leaving s refl (λ q. absurd (cc)) h
client_step-IsCovered leaving c ok s here h = disconnect-IsCovered c released s refl refl h
client_step-IsCovered released c ok s here h = unsubscribe-IsCovered c ok s h
client_step-IsCovered gone c ok s here h = h
