-- ===== src/Rabbit/Submitted.antt =====
-- Which handlers `CreateRabbitMQConsumer` of net/rabbitmq has given to `ants.SubmitTask`, and which
-- channel is kept.
use soelib.Common.{
  ℕ, zero, suc, ◌+◌, ◌<◌, List, [], ◌∷◌, Option, none, some, Option-cases, length, take, ◌≡◌, ◌≢◌,
  ◌⊎◌, inl, inr, refl, ap, ◌∙◌, arith,
}
use soelib.Common.Text.{String}
use soelib.Rabbit.Config.{RabbitConsumerInfo}
use soelib.Rabbit.Topology.{
  Server, Operation, open_channel, CreateError, Consumers, declarations, ask, ask_all,
  channel_opened, submit_handler, create_consumer, create_loop, create_rabbit_mq_consumer,
}

-- The handlers of consumers, submitted after others.
abbrev pub after : List RabbitConsumerInfo → List String → List String
after [] submitted = submitted
after (v ∷ vs) submitted = after vs (v.queue_name ∷ submitted)

-- The channel that is kept after `n` consumers: the last one.
abbrev pub last_channel : ℕ → Consumers → Option ℕ
last_channel zero s = s.ch
last_channel (suc m) s = some (s.channels + m)

-- What a loop over `vs` has come to, with the `n` first consumers.
abbrev pub Came : List RabbitConsumerInfo → Consumers → Consumers × Option CreateError → ℕ → Type 0
Came vs s r n =
    (r.0.submitted ≡ after (take n vs) s.submitted)
    × (((r.1 ≡ none)
          × (n ≡ length vs)
          × (r.0.channels ≡ s.channels + n)
          × (r.0.ch ≡ last_channel n s))
        ⊎ ((r.1 ≢ none) × (n < length vs)))

some-ne : {e : CreateError} → some e ≢ none
some-ne h = absurd (cc h)

-- The declarations ask, and leave the rest.
ask_all-rest :
    (server : Server) (ds : List (Operation × (String → CreateError))) (s : Consumers)
    → ((ask_all server ds s).0.submitted ≡ s.submitted)
      × ((ask_all server ds s).0.channels ≡ s.channels)
      × ((ask_all server ds s).0.ch ≡ s.ch)
ask_all-rest server [] s = (refl, refl, refl)
ask_all-rest server ((o, failed) ∷ rest) s = elim (Option-cases (server s.asked o)) [
  | inl e ↦ rw (e, ask_all) (ask_all-rest server rest (ask s o))
  | inr x ↦ rw (x.1, ask_all) (refl, refl, refl)
]

-- One consumer: an error and no new handler, or its handler and one channel more, which is kept.
abbrev OneMore : RabbitConsumerInfo → Consumers → Consumers × Option CreateError → Type 0
OneMore v s r =
    ((r.1 ≢ none) × (r.0.submitted ≡ s.submitted))
    ⊎ ((r.1 ≡ none)
        × (r.0.submitted ≡ v.queue_name ∷ s.submitted)
        × (r.0.channels ≡ suc s.channels)
        × (r.0.ch ≡ some s.channels))

submit_handler-OneMore :
    (v : RabbitConsumerInfo) (s : Consumers) (r : Consumers × Option CreateError)
    → (r.0.submitted ≡ s.submitted) × (r.0.channels ≡ suc s.channels) × (r.0.ch ≡ some s.channels)
    → OneMore v s (submit_handler v.queue_name r)
submit_handler-OneMore v s (t, some e) h = inl (some-ne, h.0)
submit_handler-OneMore v s (t, none) h =
    inr (refl, ap (λ (l : List String). v.queue_name ∷ l) h.0, h.1, h.2)

create_consumer-OneMore :
    (server : Server) (v : RabbitConsumerInfo) (s : Consumers)
    → OneMore v s (create_consumer server v s)
unfolding create_consumer
create_consumer-OneMore server v s = elim (Option-cases (server s.asked open_channel)) [
  | inl e ↦
      rw (e, create_consumer)
        (submit_handler-OneMore v s _ (ask_all-rest server (declarations v) (channel_opened s)))
  | inr x ↦ rw (x.1, create_consumer) (inl (some-ne, refl))
]

last_channel-suc :
    (s t : Consumers) (n : ℕ)
    → t.channels ≡ suc s.channels
    → t.ch ≡ some s.channels
    → last_channel n t ≡ last_channel (suc n) s
last_channel-suc s t zero h e = e ∙ ap some (omega arith)
last_channel-suc s t (suc m) h e = ap some (omega (arith, h))

next-Came :
    (server : Server) (v : RabbitConsumerInfo) (vs : List RabbitConsumerInfo) (s : Consumers)
    (r : Consumers × Option CreateError)
    → OneMore v s r
    → ((t : Consumers) → (n : ℕ) × Came vs t (create_loop server vs (t, none)) n)
    → (n : ℕ) × Came (v ∷ vs) s (create_loop server vs r) n
next-Came server v vs s (t, some e) (inl x) rest = (0, (x.1, inr (some-ne, omega arith)))
next-Came server v vs s (t, some e) (inr x) rest = absurd (some-ne x.0)
next-Came server v vs s (t, none) (inl x) rest = absurd (x.0 refl)
next-Came server v vs s (t, none) (inr x) rest =
    let w = rest t in
    (
      suc w.0,
      (
        w.1.0 ∙ ap (after (take w.0 vs)) x.1,
        elim w.1.1 [
          | inl y ↦
              inl (y.0, ap suc y.1, omega (arith, y.2, x.2), y.3 ∙ last_channel-suc s t w.0 x.2 x.3)
          | inr y ↦ inr (y.0, omega (arith, y.1))
        ],
      ),
    )

create_loop-Came :
    (server : Server) (vs : List RabbitConsumerInfo) (s : Consumers)
    → (n : ℕ) × Came vs s (create_loop server vs (s, none)) n
create_loop-Came server [] s = (0, (refl, inl (refl, refl, omega arith, refl)))
create_loop-Came server (v ∷ vs) s =
    next-Came server v vs s (create_consumer server v s) (create_consumer-OneMore server v s)
      (create_loop-Came server vs)

-- What a run over `vs` has come to, with the consumers whose handlers it has submitted.
abbrev pub Begun : List RabbitConsumerInfo → Consumers → Consumers × Option CreateError → Type 0
Begun vs s r =
    (n : ℕ) × (r.0.submitted ≡ after (take n vs) s.submitted)
    × (((r.1 ≡ none)
          × (n ≡ length vs)
          × (r.0.channels ≡ s.channels + n)
          × (r.0.ch ≡ last_channel n s))
        ⊎ ((r.1 ≢ none) × ((n < length vs) ⊎ (vs ≡ []))))

-- The handlers of some first consumers of the list have been given to `ants.SubmitTask`, in its order.
-- Without an error these are all, each has had a channel, and the connection keeps the last of the
-- channels; with an error they are fewer, or the list is empty.
pub create_rabbit_mq_consumer-Begun :
    (server : Server) (vs : List RabbitConsumerInfo) (s : Consumers)
    → Begun vs s (create_rabbit_mq_consumer server vs s)
unfolding create_rabbit_mq_consumer
create_rabbit_mq_consumer-Begun server [] s = (0, refl, inr (some-ne, inr refl))
create_rabbit_mq_consumer-Begun server (v ∷ vs) s =
    let w = create_loop-Came server (v ∷ vs) s in
    (w.0, w.1.0, elim w.1.1 [ inl y ↦ inl y | inr y ↦ inr (y.0, inl y.1) ])
