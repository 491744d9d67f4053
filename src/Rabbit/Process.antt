-- ===== src/Rabbit/Process.antt =====
-- The processes of net/rabbitmq: `InitRabbitMQProducer` with `ProducerReConnect`, and
-- `InitRabbitMQConsumer` with `ConsumerReConnect`. What the server does and what the library of AMQP
-- answers comes as events. The library closes the channels that it has notified, and closes what is
-- sent on them; connections and channels are numbers, and `open` is whether a connection is open.
use soelib.Common.{
  ℕ, suc, List, [], ◌∷◌, Option, none, some, Bool, true, false, if◌then◌else◌, ◌==◌,
}
use soelib.Common.Text.{String}
use soelib.Rabbit.Config.{RabbitConsumerInfo}
use soelib.Rabbit.Topology.{Server, Consumers, CreateError, create_rabbit_mq_consumer}

abbrev pub update {ℓ} : {A : Type ℓ} → (ℕ → A) → ℕ → A → ℕ → A
update f i v = λ j. if j == i then v else f j

-- The `Connection` that is shared: its connection, its channel (none if it is nil) and the next number
-- of each; `tasks` is how often a new process has been submitted, and `submitted` has the queues whose
-- handlers have been submitted.
pub record Connection : Type 0 where
  pub conn : ℕ
  pub ch : Option ℕ
  pub next_conn : ℕ
  pub next_ch : ℕ
  pub open_conns : ℕ → Bool
  pub tasks : ℕ
  pub submitted : List String

-- What a process meets at its `select`. `lost_conn`: the connection is lost; what `IsClosed` says, and
-- whether dialling and opening a channel succeed. `lost_ch`: the channel is lost; what `IsClosed` says,
-- and whether opening a channel succeeds. `close_process`: a value comes from `CloseProcess`.
pub data Event : Type 0 where
  lost_conn : Bool → Bool → Bool → Event
  lost_ch : Bool → Bool → Event
  close_process : Event

-- Where a process is after an event: at the `select` again, after the loop, or in a panic.
pub data Turn : Type 0 where
  waits ended panics : Connection → Turn

abbrev pub lose : Connection → ℕ → Connection
lose c i = record c { open_conns = update c.open_conns i false }

-- `dial`
abbrev pub dialed : Connection → Connection
dialed c = record c {
  conn = c.next_conn;
  next_conn = suc c.next_conn;
  open_conns = update c.open_conns c.next_conn true;
}

-- `conn.Channel()`, whose error leaves nil.
abbrev pub with_channel : Connection → Bool → Connection
with_channel c true = record c { ch = some c.next_ch; next_ch = suc c.next_ch }
with_channel c false = record c { ch = none }

-- `ants.SubmitTask` with the initialisation.
abbrev pub submit_init : Connection → Connection
submit_init c = record c { tasks = suc c.tasks }

-- `Conn.IsClosed` and `Conn.Close`: in both cases the connection is not open after it.
abbrev pub after_loss : Connection → Bool → Connection
after_loss c is_closed = lose c c.conn

-- The top of the loop: `Ch.NotifyClose` of a nil channel is a panic.
abbrev pub listens : Connection → Turn
listens c = elim c.ch [ none ↦ panics c | some i ↦ waits c ]

-- A round of the loop of `ProducerReConnect` from its `select`. Where no channel can be opened on a
-- connection that is open, the value is sent on a channel that the library closes.
unfoldable pub producer_turn : Connection → Event → Turn
producer_turn c (lost_conn is_closed dials opens) =
    let c' = after_loss c is_closed in
    if dials then listens (with_channel (dialed c') opens) else ended (submit_init c')
producer_turn c (lost_ch true opens) = ended (submit_init (lose c c.conn))
producer_turn c (lost_ch false true) = listens (with_channel c true)
producer_turn c (lost_ch false false) = panics c
producer_turn c close_process = ended c

-- A round of the loop of `ConsumerReConnect`: it makes no connection itself.
unfoldable pub consumer_turn : Connection → Event → Turn
consumer_turn c (lost_conn is_closed dials opens) = ended (submit_init (after_loss c is_closed))
consumer_turn c (lost_ch is_closed opens) = ended (submit_init (after_loss c is_closed))
consumer_turn c close_process = ended c

-- The loop, over the events that come.
abbrev pub turns : (Connection → Event → Turn) → Turn → List Event → Turn
turns turn t [] = t
turns turn (waits c) (e ∷ es) = turns turn (turn c e) es
turns turn (ended c) (e ∷ es) = ended c
turns turn (panics c) (e ∷ es) = panics c

-- What an initialisation comes to: the loop's turn (after which the deferred `Close` has closed the
-- connection that it has dialled itself), a new task after a wait of five seconds, or an end with no
-- new task. None of the three: `CloseProcess <- true` is blocked.
pub data Outcome : Type 0 where
  ran : Turn → Outcome
  retried gave_up : Connection → Outcome
  blocked : Outcome

-- The deferred calls of `Close`.
abbrev pub deferred : ℕ → Turn → Turn
deferred first (waits c) = waits c
deferred first (ended c) = ended (lose c first)
deferred first (panics c) = panics (lose c first)

-- `CloseProcess`: nil, or a channel for one value.
pub data CloseProcess : Type 0 where
  nil empty full : CloseProcess

abbrev pub can_close : Bool → CloseProcess → Bool
can_close false p = true
can_close true nil = false
can_close true empty = true
can_close true full = false

-- `InitRabbitMQProducer` from its dialling: whether the server answers it, and the opening of a
-- channel, and what comes after it. The connection is taken over only with a channel.
abbrev pub produce : Bool → Bool → Connection → List Event → Outcome
produce false opens c events = retried (submit_init c)
produce true false c events = gave_up (record (lose (dialed c) c.next_conn) { conn = c.conn })
produce true true c events =
    ran (deferred c.next_conn (turns producer_turn (listens (with_channel (dialed c) true)) events))

unfoldable pub init_rabbit_mq_producer :
    Bool → CloseProcess → Bool → Bool → Connection → List Event → Outcome
init_rabbit_mq_producer is_close p dials opens c events =
    if can_close is_close p then produce dials opens c events else blocked

-- `CreateRabbitMQConsumer` on the new connection.
abbrev pub created : Server → List RabbitConsumerInfo → Connection → Consumers × Option CreateError
created server consumers c =
    create_rabbit_mq_consumer server consumers
      (record { asked = []; submitted = c.submitted; channels = c.next_ch; ch = c.ch })

abbrev pub with_consumers : Connection → Consumers → Connection
with_consumers c s = record c { ch = s.ch; next_ch = s.channels; submitted = s.submitted }

abbrev pub run_consumer : ℕ → Connection → List Event → Consumers × Option CreateError → Outcome
run_consumer first c events (s, some e) = gave_up (lose (with_consumers c s) first)
run_consumer first c events (s, none) =
    ran (deferred first (turns consumer_turn (listens (with_consumers c s)) events))

-- `InitRabbitMQConsumer` from its dialling, with what the server answers on the new connection.
abbrev pub consume_from :
    Bool → Server → List RabbitConsumerInfo → Connection → List Event → Outcome
consume_from false server consumers c events = retried (submit_init c)
consume_from true server consumers c events =
    run_consumer c.next_conn (dialed c) events (created server consumers (dialed c))

unfoldable pub init_rabbit_mq_consumer :
    Bool
    → CloseProcess
    → Bool
    → Server
    → List RabbitConsumerInfo
    → Connection
    → List Event
    → Outcome
init_rabbit_mq_consumer is_close p dials server consumers c events =
    if can_close is_close p then consume_from dials server consumers c events else blocked
