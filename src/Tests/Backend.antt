-- ===== src/Tests/Backend.antt =====
-- The theorems on the whole chat at a client whose message comes back to it.
use mathlib.Core.List.{Memᴰ}
use mathlib.Core.Path.{subst}
use real_time_ai_chat_backen.Base.{
  arith, strip, ◌≡◌, ◌≤◌, refl, true, none, some, entry, drop, List, [], ◌∷◌, All,
}
use real_time_ai_chat_backen.Models.{
  Uuid, user_role, Message, insert_message, apply_write, check_write,
}
use real_time_ai_chat_backen.WebSocket.Manager.{WebSocket, delivered}
use real_time_ai_chat_backen.WebSocket.Protocol.{
  validate_inbound, Outbound, message_created, assistant_message,
}
use real_time_ai_chat_backen.WebSocket.Protocol.Wire.{Raw, characters, serialize}
use real_time_ai_chat_backen.WebSocket.PubSub.{
  is_ended, quiet, received, polling, handling, update, conversation_channel,
}
use real_time_ai_chat_backen.Session.{session_actions}
use real_time_ai_chat_backen.Schemas.{bounded_text}
use real_time_ai_chat_backen.Repositories.Messages.{messages_queries}
use real_time_ai_chat_backen.WebSocket.Chat.{
  persist, in_session, save_message, try_else, lift, created_frame, publish_frame, publish, frame,
  Surroundings, ◌>>=◌, pure, mock_assistant_reply, assistant_frame,
}
use real_time_ai_chat_backen.WebSocket.Chat.Turns.{
  receive, resume, begin, idle, publishing, replying,
}
use real_time_ai_chat_backen.WebSocket.FanOut.{
  System, Action, client, begin_stopping, perform, run, final,
}
use real_time_ai_chat_backen.WebSocket.FanOut.Stopping.{run-stopped}
use real_time_ai_chat_backen.WebSocket.Backend.{
  Backend, Step, fan_out, receiving, resuming, proceed, IsAllowed, Reachable, opened, stepped,
}
use real_time_ai_chat_backen.WebSocket.Backend.Balance.{answers, questions, question}
use real_time_ai_chat_backen.WebSocket.Backend.Order.{IsOrdered}
use real_time_ai_chat_backen.WebSocket.Backend.Answers.{reachable-IsOrdered}
use real_time_ai_chat_backen.WebSocket.Backend.Once.{IsUnrepeated}
use real_time_ai_chat_backen.WebSocket.Backend.Unrepeated.{reachable-IsUnrepeated}
use real_time_ai_chat_backen.WebSocket.Backend.Delivery.{IsGenuine, reachable-IsGenuine}
use real_time_ai_chat_backen.Tests.Platform.{toy}
use real_time_ai_chat_backen.Tests.Wire.{toy_wire, toy_wire-IsFaithful}
use real_time_ai_chat_backen.Tests.Server.{quick-IsQuiet}
use real_time_ai_chat_backen.Tests.Data.{sample, begun}
use real_time_ai_chat_backen.Tests.Sockets.{calm, greeting}
use real_time_ai_chat_backen.Tests.FanOut.{
  same_room, hear, first_comes, first_lem, connected₁, waiting₁, with_loop, marking₁, woken₁,
  serving₁,
}
use real_time_ai_chat_backen.WebSocket.PubSub.{subscribing}

abbrev everywhere : WebSocket → Surroundings
everywhere c = calm

abbrev alice : WebSocket → Uuid
alice c = 1

abbrev Comes : Backend → Type 0
Comes = Reachable toy toy_wire everywhere alice same_room

-- One more step, whose result is written out.
next :
    {b : Backend} (x : Step) (b' : Backend)
    → IsAllowed toy toy_wire everywhere alice x b
    → proceed toy toy_wire everywhere alice x b ≡ b'
    → Comes b
    → Comes b'
next x b' allowed e r = subst Comes e (stepped x r allowed)

abbrev before : System → Backend
before s = record {
  store = begun;
  published = [];
  system = s;
  progress = λ c. idle;
  replied = λ c. [];
}

serving-Comes : Comes (before serving₁)
unfolding proceed
serving-Comes = next (fan_out (client 1 true)) (before serving₁) tt refl (
    next (fan_out (hear quiet)) (before woken₁) tt refl (
      next (fan_out (hear quiet)) (before marking₁) tt refl (
        next (fan_out (hear quiet)) (before (with_loop subscribing waiting₁)) tt refl (
          next (fan_out (client 1 true)) (before waiting₁) tt refl
            (next (fan_out (client 1 true)) (before connected₁) tt refl (opened begun))))))

abbrev hello : Message
hello = record {
  id = 103;
  conversation_id = 10;
  sender_id = some 1;
  role = user_role;
  content = "Hello";
  created_at = 103;
  updated_at = 103;
}

abbrev hello_frame : Outbound
hello_frame =
    message_created (record {
      id = 103;
      conversation_id = 10;
      sender_id = 1;
      content = "Hello";
      created_at = 103;
    })

-- The client's message is stored, then published.
abbrev stored₁ : Backend
stored₁ = record {
  store = record { committed = apply_write (insert_message hello) sample; pending = []; tick = 6 };
  published = [];
  system = record serving₁ { streams = update serving₁.streams 1 [] };
  progress = update (λ c. idle) 1 (publishing "Hello" hello_frame);
  replied = update (λ c. []) 1 [];
}

abbrev published₁ : Backend
published₁ = record stored₁ {
  published = (10, hello_frame) ∷ [];
  system = record stored₁.system { streams = update stored₁.system.streams 1 [] };
  progress = update stored₁.progress 1 (replying "Hello");
  replied = update stored₁.replied 1 [];
}

abbrev polling₁ : Backend
polling₁ = record published₁ { system = with_loop polling published₁.system }

abbrev payload : Raw
payload = characters (serialize toy toy_wire hello_frame)

abbrev handling₁ : Backend
handling₁ = record polling₁ { system = with_loop (handling payload) polling₁.system }

stored-Comes : Comes stored₁
unfolding proceed receive begin persist in_session save_message try_else ◌>>=◌ pure lift
    session_actions messages_queries check_write apply_write validate_inbound created_frame strip
    bounded_text drop
stored-Comes = next (receiving 1 (frame greeting)) stored₁ tt refl serving-Comes

published-Comes : Comes published₁
unfolding proceed resume publish_frame publish try_else ◌>>=◌ pure drop
published-Comes = next (resuming 1) published₁ tt refl stored-Comes

handling-Comes : Comes handling₁
unfolding proceed conversation_channel
handling-Comes =
    next (fan_out (hear (received payload))) handling₁ (10, hello_frame, Memᴰ.head refl, refl, refl)
      refl (next (fan_out (hear quiet)) polling₁ tt refl published-Comes)

-- The client has got its own message.
shown-Comes : Comes (proceed toy toy_wire everywhere alice (fan_out (hear quiet)) handling₁)
shown-Comes = stepped (fan_out (hear quiet)) handling-Comes tt

-- The answer is stored, then published.
abbrev answered₁ : Backend
answered₁ =
    proceed toy toy_wire everywhere alice (resuming 1)
      (proceed toy toy_wire everywhere alice (resuming 1) published₁)

answered-Comes : Comes answered₁
answered-Comes = stepped (resuming 1) (stepped (resuming 1) published-Comes tt) tt

abbrev answer_frame : Outbound
answer_frame = assistant_message (record {
  id = 106;
  conversation_id = 10;
  content = "Mock AI response: Hello";
  created_at = 106;
})

abbrev both : List (Uuid × Outbound)
both = (10, hello_frame) ∷ (10, answer_frame) ∷ []

reachable-IsOrdered_example : IsOrdered [] both × (answers 10 "Mock AI response: Hello" both ≤ 1)
unfolding proceed resume publish_frame publish persist in_session save_message try_else ◌>>=◌ pure
    session_actions messages_queries check_write apply_write mock_assistant_reply assistant_frame
    answers questions question
reachable-IsOrdered_example =
    reachable-IsOrdered toy toy_wire toy_wire-IsFaithful everywhere (λ c. quick-IsQuiet) alice
      same_room answered₁ 10 "Mock AI response: Hello" answered-Comes

reachable-IsUnrepeated_example : IsUnrepeated both
unfolding proceed resume publish_frame publish persist in_session save_message try_else ◌>>=◌ pure
    session_actions messages_queries check_write apply_write mock_assistant_reply assistant_frame
reachable-IsUnrepeated_example =
    reachable-IsUnrepeated toy toy_wire toy_wire-IsFaithful everywhere (λ c. quick-IsQuiet) alice
      same_room answered₁ answered-Comes

reachable-IsGenuine_example :
    All
      (IsGenuine alice same_room toy toy_wire
        (proceed toy toy_wire everywhere alice (fan_out (hear quiet)) handling₁)
        1)
      (hello_frame ∷ [])
unfolding proceed strip serialize
reachable-IsGenuine_example =
    reachable-IsGenuine toy toy_wire toy_wire-IsFaithful everywhere (λ c. quick-IsQuiet) alice
      same_room (proceed toy toy_wire everywhere alice (fan_out (hear quiet)) handling₁) 1
      shown-Comes

abbrev leaves : List Action
leaves = client 1 true ∷ []

abbrev stopped : System
stopped = perform toy toy_wire begin_stopping (final toy toy_wire same_room first_comes)

run-stopped_example :
    (entry 10 (run toy toy_wire leaves stopped).pubsub.subscriptions ≡ none)
    × (((run toy toy_wire leaves stopped).pubsub.states 0).cancelled ≡ true)
    × (is_ended
          ((run toy toy_wire
              (hear quiet ∷ hear quiet ∷ hear quiet ∷ [])
              (run toy toy_wire leaves stopped)).pubsub.states
            0).loop.stage
        ≡ true)
unfolding run
run-stopped_example =
    run-stopped toy toy_wire same_room first_comes leaves 10 0 quiet quiet quiet (λ w. delivered)
      refl (rw first_lem (ground arith))
