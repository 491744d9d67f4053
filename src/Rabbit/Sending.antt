-- ===== src/Rabbit/Sending.antt =====
-- What a producer of net/rabbitmq publishes. The message is given before its encoding in JSON, and an
-- int is a word of 64 bits. `publish` is what the library answers; a text is an error.
use soelib.Common.{ℕ, ◌*◌, ◌%◌, ◌^◌, List, [], ◌∷◌, Option, none, some, if◌then◌else◌}
use soelib.Common.Text.{String, is_empty, text_eq}

pub record DlxMessage : Type 0 where
  pub queue_name : String
  pub content : String
  pub notify_count : ℕ

-- A persistent message of plain text, with the header of its delay if there is one.
pub record Publishing : Type 0 where
  pub exchange : String
  pub routing_key : String
  pub delay : Option ℕ
  pub message : DlxMessage

pub data Sent : Type 0 where
  no_producers no_queue no_exchange : Sent
  failed : String → Sent
  sent : Publishing → Sent

abbrev pub published : (Publishing → Option String) → Publishing → Sent
published publish p = elim (publish p) [ none ↦ sent p | some e ↦ failed e ]

abbrev pub message_to : String → String → DlxMessage
message_to queue body = record { queue_name = queue; content = body; notify_count = 1 }

abbrev pub cancel_order_delay_queue : String
cancel_order_delay_queue = "soesoft.cancel.order.delay.queue"

abbrev pub delay_exchange : String
delay_exchange = "soesoft.delay.exchange"

-- The delay is in minutes.
unfoldable pub send_auto_cancel_order_message : (Publishing → Option String) → String → ℕ → Sent
send_auto_cancel_order_message publish body auto_cancel_time = published publish (record {
  exchange = delay_exchange;
  routing_key = cancel_order_delay_queue;
  delay = some (auto_cancel_time * 60 * 1000 % 2 ^ 64);
  message = message_to cancel_order_delay_queue body;
})

-- The exchange of a queue, "" if the map has none.
abbrev pub exchange_of : List (String × String) → String → String
exchange_of [] queue = ""
exchange_of ((k, v) ∷ m) queue =
    let rest = exchange_of m queue in if text_eq.beq queue k then v else rest

abbrev pub send_to : (Publishing → Option String) → String → String → String → Sent
send_to publish body queue exchange =
    if is_empty queue
    then no_queue
    else if is_empty exchange
    then no_exchange
    else published publish (record {
      exchange = exchange;
      routing_key = queue;
      delay = none;
      message = message_to queue body;
    })

unfoldable pub send_message :
    (Publishing → Option String) → List (String × String) → String → String → Sent
send_message publish [] body queue = no_producers
send_message publish (p ∷ m) body queue = send_to publish body queue (exchange_of (p ∷ m) queue)
