-- ===== src/Rabbit/Samples.antt =====
-- A producer of net/rabbitmq that makes its connection again and is closed, and a consumer of two
-- queues whose connection is lost.
use soelib.Common.{ℕ, List, [], ◌∷◌, none, some, true, false, ◌≡◌, refl, if◌then◌else◌}
use soelib.Common.Int.{pos}
use soelib.Common.Bytes.{codes, decimal}
use soelib.Common.Text.{text_eq}
use soelib.Rabbit.Config.{Rabbit, RabbitConsumerInfo, rabbit_url, ali_rabbit_url}
use soelib.Rabbit.Topology.{
  Server, Consumers, queue_declare, create_rabbit_mq_consumer, create_consumer,
}
use soelib.Rabbit.Submitted.{Begun, create_rabbit_mq_consumer-Begun}
use soelib.Rabbit.Process.{
  Connection, lost_conn, lost_ch, close_process, ended, producer_turn, consumer_turn, dialed, lose,
  ran, empty, init_rabbit_mq_producer, init_rabbit_mq_consumer, with_channel,
}
use soelib.Rabbit.Leaks.{LeftOpen, init_rabbit_mq_producer-leaves}
use soelib.Rabbit.Closed.{final, init_rabbit_mq_consumer-Closed}
use soelib.Rabbit.Sending.{send_message, sent, message_to}

abbrev no_connection : Connection
no_connection = record {
  conn = 0;
  ch = none;
  next_conn = 1;
  next_ch = 0;
  open_conns = λ i. false;
  tasks = 0;
  submitted = [];
}

none_open : (i : ℕ) → no_connection.open_conns i ≡ false
none_open i = refl

-- Connection 1 is lost, and connection 2 is still open at the end.
abbrev left_open : Connection
left_open = lose (with_channel (dialed (lose (with_channel (dialed no_connection) true) 1)) true) 1

closes_after_redial :
    init_rabbit_mq_producer false empty true true no_connection
      (lost_conn true true true ∷ close_process ∷ [])
    ≡ ran (ended left_open)
unfolding init_rabbit_mq_producer producer_turn
closes_after_redial = refl

still_open : left_open.open_conns 2 ≡ true
still_open = refl

init_rabbit_mq_producer-leaves_example : LeftOpen no_connection left_open
init_rabbit_mq_producer-leaves_example =
    init_rabbit_mq_producer-leaves false empty true true no_connection
      (lost_conn true true true ∷ close_process ∷ []) left_open none_open closes_after_redial

abbrev two_queues : List RabbitConsumerInfo
two_queues =
    record { exchange_name = "ex"; queue_name = "a"; exchange_type = "direct" }
    ∷ record { exchange_name = "ex"; queue_name = "b"; exchange_type = "direct" }
    ∷ []

abbrev willing : Server
willing asked o = none

abbrev after_consumer : Connection
after_consumer = record no_connection {
  conn = 1;
  ch = some 1;
  next_conn = 2;
  next_ch = 2;
  open_conns = (lose (lose (dialed no_connection) 1) 1).open_conns;
  tasks = 1;
  submitted = "b" ∷ "a" ∷ [];
}

loses_channel :
    final (
      init_rabbit_mq_consumer false empty true willing two_queues no_connection
        (lost_ch false true ∷ []))
    ≡ some after_consumer
unfolding init_rabbit_mq_consumer consumer_turn create_rabbit_mq_consumer create_consumer
loses_channel = refl

init_rabbit_mq_consumer-Closed_example : after_consumer.open_conns 1 ≡ false
init_rabbit_mq_consumer-Closed_example =
    init_rabbit_mq_consumer-Closed false empty true willing two_queues no_connection after_consumer
      (lost_ch false true ∷ []) none_open loses_channel 1

-- The second queue cannot be declared.
abbrev unwilling : Server
unwilling asked o = elim o [
  | queue_declare q ↦ if text_eq.beq q "b" then some "busy" else none
  | _ ↦ none
]

abbrev no_submissions : Consumers
no_submissions = record { asked = []; submitted = []; channels = 0; ch = none }

create_rabbit_mq_consumer-Begun_example :
    Begun two_queues no_submissions (create_rabbit_mq_consumer unwilling two_queues no_submissions)
create_rabbit_mq_consumer-Begun_example =
    create_rabbit_mq_consumer-Begun unwilling two_queues no_submissions

second_refused :
    (create_rabbit_mq_consumer unwilling two_queues no_submissions).0.submitted ≡ "a" ∷ []
unfolding create_rabbit_mq_consumer create_consumer
second_refused = refl

sent_to_exchange :
    send_message (λ p. none) (("a", "ex") ∷ []) "hello" "a"
    ≡ sent (record {
      exchange = "ex";
      routing_key = "a";
      delay = none;
      message = message_to "a" "hello";
    })
unfolding send_message
sent_to_exchange = refl

abbrev sample_rabbit : Rabbit
sample_rabbit = record {
  host = codes "mq";
  port = pos 5672;
  username = codes "soe";
  password = codes "pw";
  vhost = codes "crm";
}

sample_urls :
    (rabbit_url sample_rabbit ≡ codes "amqp://soe:pw@mq:5672/")
    × (ali_rabbit_url sample_rabbit ≡ codes "amqp://soe:pw@mq:5672/crm")
unfolding rabbit_url ali_rabbit_url decimal
sample_urls = (refl, refl)
