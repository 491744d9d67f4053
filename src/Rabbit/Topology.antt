-- ===== src/Rabbit/Topology.antt =====
-- `CreateRabbitMQConsumer` of net/rabbitmq/consumer.go: what is asked of the server for each consumer,
-- and the handlers that are given to `ants.SubmitTask`, which drops one if the global pool is nil or
-- refuses it (tools/ants/work.go), and returns nothing. What the server answers, from what it was asked before, is a
-- parameter; a text is an error.
use soelib.Common.{ℕ, suc, List, [], ◌∷◌, Option, none, some}
use soelib.Common.Text.{String}
use soelib.Rabbit.Config.{RabbitConsumerInfo}

pub data Operation : Type 0 where
  open_channel : Operation
  exchange_declare : String → String → Operation
  queue_declare : String → Operation
  queue_bind : String → String → String → Operation
  consume : String → Operation

abbrev pub Server : Type 0
Server = List Operation → Operation → Option String

pub data CreateError : Type 0 where
  no_consumers : CreateError
  channel_failed bind_failed consume_failed : String → CreateError
  exchange_failed queue_failed : String → String → CreateError

-- `asked` has the latest operation first; `submitted` has the queues whose handlers were
-- given to `ants.SubmitTask`, the latest first; `ch` is the channel of the connection, none if it is nil, by the number of those opened.
pub record Consumers : Type 0 where
  pub asked : List Operation
  pub submitted : List String
  pub channels : ℕ
  pub ch : Option ℕ

-- The operations for a consumer after its channel is open, with their errors.
abbrev pub declarations : RabbitConsumerInfo → List (Operation × (String → CreateError))
declarations v =
    (exchange_declare v.exchange_name v.exchange_type, exchange_failed v.exchange_name)
    ∷ (queue_declare v.queue_name, queue_failed v.queue_name)
    ∷ (queue_bind v.queue_name v.queue_name v.exchange_name, bind_failed)
    ∷ (consume v.queue_name, consume_failed)
    ∷ []

abbrev pub ask : Consumers → Operation → Consumers
ask s o = record s { asked = o ∷ s.asked }

-- The first error ends it.
abbrev pub ask_all :
    Server → List (Operation × (String → CreateError)) → Consumers → Consumers × Option CreateError
ask_all server [] s = (s, none)
ask_all server ((o, failed) ∷ rest) s =
    let go_on = ask_all server rest (ask s o) in
    elim (server s.asked o) [ some e ↦ (ask s o, some (failed e)) | none ↦ go_on ]

abbrev pub channel_opened : Consumers → Consumers
channel_opened s = record (ask s open_channel) { channels = suc s.channels; ch = some s.channels }

abbrev pub submit_handler : String → Consumers × Option CreateError → Consumers × Option CreateError
submit_handler queue (s, some e) = (s, some e)
submit_handler queue (s, none) = (record s { submitted = queue ∷ s.submitted }, none)

-- One round of the loop.
unfoldable pub create_consumer :
    Server → RabbitConsumerInfo → Consumers → Consumers × Option CreateError
create_consumer server v s = elim (server s.asked open_channel) [
  | some e ↦ (record (ask s open_channel) { ch = none }, some (channel_failed e))
  | none ↦ submit_handler v.queue_name (ask_all server (declarations v) (channel_opened s))
]

-- The loop ends with the first error.
abbrev pub create_loop :
    Server
    → List RabbitConsumerInfo
    → Consumers × Option CreateError
    → Consumers × Option CreateError
create_loop server vs (s, some e) = (s, some e)
create_loop server [] (s, none) = (s, none)
create_loop server (v ∷ vs) (s, none) = create_loop server vs (create_consumer server v s)

unfoldable pub create_rabbit_mq_consumer :
    Server → List RabbitConsumerInfo → Consumers → Consumers × Option CreateError
create_rabbit_mq_consumer server [] s = (s, some no_consumers)
create_rabbit_mq_consumer server (v ∷ vs) s = create_loop server (v ∷ vs) (s, none)
