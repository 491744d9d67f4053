-- ===== src/Rabbit/Leaks.antt =====
-- Which connections a process of net/rabbitmq leaves open.
use soelib.Common.{
  ℕ, suc, ◌<◌, List, [], ◌∷◌, Bool, true, false, not, ◌&&◌, ◌==◌, Bool-cases, ◌≡◌, ◌⊎◌, inl, inr,
  refl, sym, ap, ◌∙◌, arith,
}
use soelib.Rabbit.Process.{
  Connection, Event, lost_conn, lost_ch, close_process, Turn, waits, ended, panics, producer_turn,
  turns, listens, with_channel, update, lose, deferred, dialed, ran, CloseProcess, can_close,
  produce, init_rabbit_mq_producer,
}

-- Before the loop ends, only the connection in use is open; the number of tasks is `t`.
record IsRunning (t : ℕ) (c : Connection) : Type 0 where
  only : (i : ℕ) → c.open_conns i ≡ (i == c.conn)
  below : c.conn < c.next_conn
  kept : c.tasks ≡ t

-- After it, either no task has been submitted and the connection in use is open, or one has been and
-- none is open.
Left : ℕ → Turn → Type 0
Left t (waits c) = IsRunning t c
Left t (ended c) =
    ((c.tasks ≡ t) × ((i : ℕ) → c.open_conns i ≡ (i == c.conn)))
    ⊎ ((c.tasks ≡ suc t) × ((i : ℕ) → c.open_conns i ≡ false))
Left t (panics c) = Unit

lost-closed :
    (t : ℕ) (c : Connection) → IsRunning t c → (i : ℕ) → update c.open_conns c.conn false i ≡ false
lost-closed t c h i = elim (Bool-cases (i == c.conn)) [
  | inl e ↦ rw e refl
  | inr e ↦ rw e (h.only i ∙ e)
]

producer_turn-Left :
    (t : ℕ) (c : Connection) (e : Event) → IsRunning t c → Left t (producer_turn c e)
unfolding producer_turn Left
producer_turn-Left t c (lost_conn is_closed true true) h = record {
  only = λ i. elim (Bool-cases (i == c.next_conn)) [
    | inl e ↦ rw e refl
    | inr e ↦ rw e (lost-closed t c h i)
  ];
  below = omega arith;
  kept = h.kept;
}
producer_turn-Left t c (lost_conn is_closed true false) h = tt
producer_turn-Left t c (lost_conn is_closed false opens) h = inr (ap suc h.kept, lost-closed t c h)
producer_turn-Left t c (lost_ch true opens) h = inr (ap suc h.kept, lost-closed t c h)
producer_turn-Left t c (lost_ch false true) h = record {
  only = h.only;
  below = h.below;
  kept = h.kept;
}
producer_turn-Left t c (lost_ch false false) h = tt
producer_turn-Left t c close_process h = inl (h.kept, h.only)

producer_turns-Left :
    (t : ℕ) (u : Turn) (es : List Event) → Left t u → Left t (turns producer_turn u es)
unfolding Left
producer_turns-Left t u [] h = h
producer_turns-Left t (waits c) (e ∷ es) h =
    producer_turns-Left t (producer_turn c e) es (producer_turn-Left t c e h)
producer_turns-Left t (ended c) (e ∷ es) h = h
producer_turns-Left t (panics c) (e ∷ es) h = h

-- What a producer leaves open after its deferred calls.
abbrev pub LeftOpen : Connection → Connection → Type 0
LeftOpen c d =
    ((d.tasks ≡ c.tasks) × ((i : ℕ) → d.open_conns i ≡ (i == d.conn && not (i == c.next_conn))))
    ⊎ ((d.tasks ≡ suc c.tasks) × ((i : ℕ) → d.open_conns i ≡ false))

lose-conn :
    (b : Connection) (first i : ℕ)
    → b.open_conns i ≡ (i == b.conn)
    → (lose b first).open_conns i ≡ (i == b.conn && not (i == first))
lose-conn b first i e = elim (Bool-cases (i == first)) [
  | inl x ↦ rw x (elim (Bool-cases (i == b.conn)) [ inl y ↦ rw y refl | inr y ↦ rw y refl ])
  | inr x ↦ rw (x, e) (elim (Bool-cases (i == b.conn)) [ inl y ↦ rw y refl | inr y ↦ rw y refl ])
]

lose-false :
    (b : Connection) (first i : ℕ) → b.open_conns i ≡ false → (lose b first).open_conns i ≡ false
lose-false b first i e = elim (Bool-cases (i == first)) [ inl x ↦ rw x refl | inr x ↦ rw x e ]

deferred-LeftOpen :
    (c d : Connection) (u : Turn) → Left c.tasks u → deferred c.next_conn u ≡ ended d → LeftOpen c d
unfolding Left
deferred-LeftOpen c d (waits b) h e = absurd (cc e)
deferred-LeftOpen c d (panics b) h e = absurd (cc e)
deferred-LeftOpen c d (ended b) h e =
    let e' : lose b c.next_conn ≡ d = ap (λ t. elim t [ ended x ↦ x | _ ↦ d ]) e in
    rw (sym e') (elim h [
      | inl x ↦ inl (x.0, λ i. lose-conn b c.next_conn i (x.1 i))
      | inr x ↦ inr (x.0, λ i. lose-false b c.next_conn i (x.1 i))
    ])

ran_inj : {u v : Turn} → ran u ≡ ran v → u ≡ v
ran_inj {u} e = ap (λ o. elim o [ ran t ↦ t | _ ↦ u ]) e

dialed-IsRunning :
    (c : Connection)
    → ((i : ℕ) → c.open_conns i ≡ false)
    → IsRunning c.tasks (with_channel (dialed c) true)
dialed-IsRunning c closed = record {
  only = λ i. elim (Bool-cases (i == c.next_conn)) [ inl e ↦ rw e refl | inr e ↦ rw e (closed i) ];
  below = omega arith;
  kept = refl;
}

produce-leaves :
    (dials opens : Bool) (c : Connection) (events : List Event) (d : Connection)
    → ((i : ℕ) → c.open_conns i ≡ false)
    → produce dials opens c events ≡ ran (ended d)
    → LeftOpen c d
unfolding Left
produce-leaves false opens c events d closed e = absurd (cc e)
produce-leaves true false c events d closed e = absurd (cc e)
produce-leaves true true c events d closed e =
    deferred-LeftOpen c d _
      (producer_turns-Left c.tasks (listens (with_channel (dialed c) true)) events
        (dialed-IsRunning c closed))
      (ran_inj e)

-- A producer's process that starts with no connection open, and whose loop has ended, has either
-- submitted one new task and left no connection open; or it has submitted none, and has left open
-- exactly the connection in use, unless this is the one that it has dialled first.
pub init_rabbit_mq_producer-leaves :
    (is_close : Bool) (p : CloseProcess) (dials opens : Bool) (c : Connection) (events : List Event)
    (d : Connection)
    → ((i : ℕ) → c.open_conns i ≡ false)
    → init_rabbit_mq_producer is_close p dials opens c events ≡ ran (ended d)
    → LeftOpen c d
unfolding init_rabbit_mq_producer
init_rabbit_mq_producer-leaves is_close p dials opens c events d closed e =
    elim (Bool-cases (can_close is_close p)) [
      | inr x ↦ absurd (cc (rw x at e))
      | inl x ↦ produce-leaves dials opens c events d closed (rw x at e)
    ]
