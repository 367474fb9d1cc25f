-- ===== src/Tests/Sockets.antt =====
-- The theorems on sockets and frames at a conversation of the sample.
use real_time_ai_chat_backen.Base.{◌≡◌, ◌↔◌, refl, true, false, some, [], ◌∷◌, ◌==◌, if◌then◌else◌}
use real_time_ai_chat_backen.Errors.{ok}
use real_time_ai_chat_backen.Models.{insert_message, apply_write, check_write}
use real_time_ai_chat_backen.WebSocket.Protocol.{
  message_created, error, message_send, validate_inbound, Fields, Json, text, object, field, end,
}
use real_time_ai_chat_backen.WebSocket.Protocol.Limits.{
  IsMessageSend, validate_inbound-message_send,
}
use real_time_ai_chat_backen.WebSocket.Manager.{
  WebSocket, Connections, SendOutcome, delivered, lost, contains, broadcast_to_conversation,
}
use real_time_ai_chat_backen.WebSocket.Manager.Invariant.{IsValid, connected}
use real_time_ai_chat_backen.WebSocket.Manager.Broadcast.{broadcast_to_conversation_lem}
use real_time_ai_chat_backen.WebSocket.Chat.{
  World, Surroundings, handle_message_send, assistant_frame,
}
use real_time_ai_chat_backen.WebSocket.Chat.Exchange.{
  asked, replied, handle_message_send_exchange, handle_message_send_undelivered,
}
use real_time_ai_chat_backen.Tests.Platform.{toy}
use real_time_ai_chat_backen.Tests.Server.{quick, quick-IsHealthy}
use real_time_ai_chat_backen.Tests.Data.{sample, begun}

abbrev open_room : Connections
open_room = (10, 1 ∷ 2 ∷ 3 ∷ []) ∷ []

open_room-IsValid : IsValid open_room
open_room-IsValid = (refl, λ h. cc, (refl, (refl, (refl, tt))), tt)

abbrev second_lost : WebSocket → SendOutcome
second_lost w = if w == 2 then lost else delivered

broadcast_to_conversation_lem_example :
    (contains 2 (broadcast_to_conversation second_lost (λ m. m) 10 open_room).0.reached ≡ false)
    × (connected 10 2 (broadcast_to_conversation second_lost (λ m. m) 10 open_room).1 ≡ false)
    × IsValid (broadcast_to_conversation second_lost (λ m. m) 10 open_room).1
unfolding broadcast_to_conversation
broadcast_to_conversation_lem_example =
    broadcast_to_conversation_lem second_lost (λ m. m) 10 10 2 open_room open_room-IsValid refl

-- Nothing fails but, in the second, every publication.
abbrev pub calm : Surroundings
calm = record {
  server = quick;
  send_fails = λ n. false;
  publish_fails = λ n. false;
  validation_message = λ raw. "Field required";
}

abbrev cut_off : Surroundings
cut_off = record calm { publish_fails = λ n. true }

abbrev pub greeting_fields : Fields
greeting_fields =
    field "type" (text "message.send")
      (field "payload" (object (field "content" (text "Hello") end)) end)

abbrev pub greeting : Json
greeting = object greeting_fields

abbrev pub quiet_room : World
quiet_room = record { store = begun; sent = []; published = [] }

handle_message_send_exchange_example : handle_message_send toy calm 10 1 "Hello" quiet_room ≡ (
  ok tt,
  record {
    store = record {
      committed =
          apply_write
            (insert_message (replied toy calm quick-IsHealthy 10 1 "Hello" sample 3 [] []))
            (apply_write
              (insert_message (asked toy calm quick-IsHealthy 10 1 "Hello" sample 3 [] []))
              sample);
      pending = [];
      tick = 9;
    };
    sent = [];
    published =
        (
          10,
          message_created (record {
            id = 103;
            conversation_id = 10;
            sender_id = 1;
            content = "Hello";
            created_at = 103;
          }),
        )
        ∷ (10, assistant_frame (replied toy calm quick-IsHealthy 10 1 "Hello" sample 3 [] []))
        ∷ [];
  },
)
unfolding check_write apply_write
handle_message_send_exchange_example =
    handle_message_send_exchange toy calm quick-IsHealthy 10 1 "Hello" sample 3 [] [] (λ n. refl)
      refl refl

handle_message_send_undelivered_example :
    handle_message_send toy cut_off 10 1 "Hello" quiet_room ≡ (
      ok tt,
      record {
        store = record {
          committed =
              apply_write
                (insert_message (asked toy cut_off quick-IsHealthy 10 1 "Hello" sample 3 [] []))
                sample;
          pending = [];
          tick = 6;
        };
        sent = error "message_publish_failed" "Message was saved but could not be delivered" ∷ [];
        published = [];
      },
    )
unfolding check_write
handle_message_send_undelivered_example =
    handle_message_send_undelivered toy cut_off quick-IsHealthy 10 1 "Hello" sample 3 [] [] refl
      refl refl

validate_inbound-message_send_example :
    (validate_inbound toy (object greeting_fields) ≡ some (message_send "Hello"))
    ↔ IsMessageSend toy greeting_fields "Hello"
validate_inbound-message_send_example = validate_inbound-message_send toy greeting_fields "Hello"
