-- ===== src/Rabbit/Closed.antt =====
-- A consumer's process of net/rabbitmq leaves no connection open.
use mathlib.Core.Option.{some-ne-none}
use soelib.Common.{
  ℕ, List, [], ◌∷◌, Option, none, some, Bool, true, false, ◌==◌, Bool-cases, ◌≡◌, inl, inr, refl,
  sym,
}
use soelib.KeyLock.Counting.{some-value}
use soelib.Rabbit.Config.{RabbitConsumerInfo}
use soelib.Rabbit.Topology.{Server, Consumers, CreateError}
use soelib.Rabbit.Process.{
  Connection, Event, lost_conn, lost_ch, close_process, Turn, waits, ended, panics, consumer_turn,
  turns, listens, update, lose, deferred, dialed, Outcome, ran, retried, gave_up, blocked,
  CloseProcess, can_close, consume_from, run_consumer, with_consumers, created, submit_init,
  init_rabbit_mq_consumer,
}

-- The shared connection after a process that has left its loop or has not come to it.
abbrev pub final : Outcome → Option Connection
final (ran (waits c)) = none
final (ran (ended c)) = some c
final (ran (panics c)) = some c
final (retried c) = some c
final (gave_up c) = some c
final blocked = none

-- Only the connection `first` may be open.
Others : ℕ → Turn → Type 0
Others first (waits c) = (i : ℕ) → (i == first) ≡ false → c.open_conns i ≡ false
Others first (ended c) = (i : ℕ) → (i == first) ≡ false → c.open_conns i ≡ false
Others first (panics c) = (i : ℕ) → (i == first) ≡ false → c.open_conns i ≡ false

lost_others :
    (first : ℕ) (c : Connection) (i : ℕ)
    → ((j : ℕ) → (j == first) ≡ false → c.open_conns j ≡ false)
    → (i == first) ≡ false
    → update c.open_conns c.conn false i ≡ false
lost_others first c i h n = elim (Bool-cases (i == c.conn)) [
  | inl e ↦ rw e refl
  | inr e ↦ rw e (h i n)
]

consumer_turns-Others :
    (first : ℕ) (u : Turn) (es : List Event)
    → Others first u
    → Others first (turns consumer_turn u es)
unfolding Others consumer_turn
consumer_turns-Others first u [] h = h
consumer_turns-Others first (waits c) (lost_conn is_closed dials opens ∷ es) h =
    consumer_turns-Others first (consumer_turn c (lost_conn is_closed dials opens)) es
      (λ i n. lost_others first c i h n)
consumer_turns-Others first (waits c) (lost_ch is_closed opens ∷ es) h =
    consumer_turns-Others first (consumer_turn c (lost_ch is_closed opens)) es
      (λ i n. lost_others first c i h n)
consumer_turns-Others first (waits c) (close_process ∷ es) h =
    consumer_turns-Others first (consumer_turn c close_process) es h
consumer_turns-Others first (ended c) (e ∷ es) h = h
consumer_turns-Others first (panics c) (e ∷ es) h = h

listens-Others :
    (first : ℕ) (c : Connection)
    → ((i : ℕ) → (i == first) ≡ false → c.open_conns i ≡ false)
    → (ch : Option ℕ) → Others first (listens (record c { ch = ch }))
unfolding Others
listens-Others first c h none = h
listens-Others first c h (some i) = h

all_closed :
    (first : ℕ) (c : Connection)
    → ((i : ℕ) → (i == first) ≡ false → c.open_conns i ≡ false)
    → (i : ℕ) → (lose c first).open_conns i ≡ false
all_closed first c h i = elim (Bool-cases (i == first)) [ inl e ↦ rw e refl | inr e ↦ rw e (h i e) ]

-- What is left at the end of an outcome has no connection open.
abbrev pub Closed : Outcome → Type 0
Closed o = (d : Connection) → final o ≡ some d → (i : ℕ) → d.open_conns i ≡ false

same_conns :
    (b d : Connection)
    → ((i : ℕ) → b.open_conns i ≡ false)
    → some b ≡ some d
    → (i : ℕ) → d.open_conns i ≡ false
same_conns b d h e = rw (sym (some-value e)) h

deferred-Closed : (first : ℕ) (u : Turn) → Others first u → Closed (ran (deferred first u))
unfolding Others
deferred-Closed first (waits c) h d e = absurd (some-ne-none d (sym e))
deferred-Closed first (ended c) h d e = same_conns (lose c first) d (all_closed first c h) e
deferred-Closed first (panics c) h d e = same_conns (lose c first) d (all_closed first c h) e

dialed_others :
    (c : Connection)
    → ((i : ℕ) → c.open_conns i ≡ false)
    → (i : ℕ) → (i == c.next_conn) ≡ false
    → (dialed c).open_conns i ≡ false
dialed_others c h i n = rw n (h i)

run_consumer-Closed :
    (c : Connection) (events : List Event) (r : Consumers × Option CreateError)
    → ((i : ℕ) → c.open_conns i ≡ false)
    → Closed (run_consumer c.next_conn (dialed c) events r)
run_consumer-Closed c events (s, some x) h = λ d e.
    same_conns _ d (all_closed c.next_conn (with_consumers (dialed c) s) (dialed_others c h)) e
run_consumer-Closed c events (s, none) h = deferred-Closed c.next_conn _ (
    consumer_turns-Others c.next_conn (listens (with_consumers (dialed c) s)) events
      (listens-Others c.next_conn (with_consumers (dialed c) s) (dialed_others c h) s.ch))

consume_from-Closed :
    (dials : Bool) (server : Server) (consumers : List RabbitConsumerInfo) (c : Connection)
    (events : List Event)
    → ((i : ℕ) → c.open_conns i ≡ false)
    → Closed (consume_from dials server consumers c events)
consume_from-Closed false server consumers c events h = λ d e. same_conns (submit_init c) d h e
consume_from-Closed true server consumers c events h =
    run_consumer-Closed c events (created server consumers (dialed c)) h

-- A consumer's process that starts with no connection open leaves none open, however it ends: closed,
-- after a loss, in a panic, or because the server did not answer or refused a declaration.
pub init_rabbit_mq_consumer-Closed :
    (is_close : Bool) (p : CloseProcess) (dials : Bool) (server : Server)
    (consumers : List RabbitConsumerInfo) (c d : Connection) (events : List Event)
    → ((i : ℕ) → c.open_conns i ≡ false)
    → final (init_rabbit_mq_consumer is_close p dials server consumers c events) ≡ some d
    → (i : ℕ) → d.open_conns i ≡ false
unfolding init_rabbit_mq_consumer
init_rabbit_mq_consumer-Closed is_close p dials server consumers c d events h e =
    elim (Bool-cases (can_close is_close p)) [
      | inl x ↦ consume_from-Closed dials server consumers c events h d (rw x at e)
      | inr x ↦ absurd (some-ne-none d (sym (rw x at e)))
    ]
