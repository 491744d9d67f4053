-- ===== src/Ants/Monitor.antt =====
-- The life of the monitor goroutines of tools/ants/work.go.
use soelib.Common.{
  ℕ, ◌+◌, ◌<◌, List, [], ◌∷◌, Option, none, some, true, false, All, Bool-cases, inl, inr, ◌≡◌, refl,
  ap, ◌∙◌, arith, ◌↔◌, if◌then◌else◌, ◌⊎◌, ◌≢◌, Bool, sym, Option-cases,
}
use soelib.Ants.Global.{
  MonitorConfig, Loop, Global, Ran, done, deadlock, panicked, is_closed, stop_global_monitor,
  GlobalPoolConfig, and_then, with_lock, stop_locked, stop_running, start_locked, init_with,
  init_coroutine_pool_with_config, start_global_monitor, set_monitor_config, live, loops_return,
  launched, launch_if, filled_in, no_globals,
}
use soelib.Ants.Types.{Pool, PoolError}
use soelib.Ants.Options.{Options, Setter, NewLibraryPool}

-- The goroutines that go on: one while the monitor runs, on the channel that a stop would close,
-- and none otherwise. All channels so far are below the next one.
pub record IsSound (g : Global) : Type 0 where
  pub running :
      g.monitor_running ≡ true
      → (c : MonitorConfig) × (h : ℕ) × (g.monitor_stop_ch ≡ some h)
        × (live g.closed g.loops ≡ record { channel = h; config = c } ∷ [])
  pub stopped : g.monitor_running ≡ false → live g.closed g.loops ≡ []
  pub closed_below : All (λ c. c < g.next_channel) g.closed
  pub loops_below : All (λ l. l.channel < g.next_channel) g.loops

-- An operation that ends leaves a sound state and the mutex free, one that waits has changed nothing
-- in which a state is sound, and none closes a channel twice.
abbrev pub Sound : Ran → Type 0
Sound (done g) = IsSound g × (g.locked ≡ false)
Sound (deadlock g) = IsSound g × (g.locked ≡ true)
Sound panicked = ⊥

-- The same for what runs with the mutex.
abbrev SoundInside : Ran → Type 0
SoundInside (done g) = IsSound g
SoundInside (deadlock g) = IsSound g × (g.locked ≡ true)
SoundInside panicked = ⊥

if-Sound :
    (b : Bool) (x y : Ran)
    → (b ≡ true → Sound x)
    → (b ≡ false → Sound y)
    → Sound (if b then x else y)
if-Sound true x y f g = f refl
if-Sound false x y f g = g refl

if-same : {A : Type 0} (b : Bool) (x y z : A) → x ≡ z → y ≡ z → (if b then x else y) ≡ z
if-same true x y z e f = e
if-same false x y z e f = f

if-true : {A : Type 0} (b : Bool) (x y : A) → b ≡ true → (if b then x else y) ≡ x
if-true true x y e = refl
if-true false x y e = absurd (cc e)

if-false : {A : Type 0} (b : Bool) (x y : A) → b ≡ false → (if b then x else y) ≡ y
if-false true x y e = absurd (cc e)
if-false false x y e = refl

locked-IsSound : (g : Global) (b : Bool) → IsSound g → IsSound (record g { locked = b })
locked-IsSound g b s = record {
  running = s.running;
  stopped = s.stopped;
  closed_below = s.closed_below;
  loops_below = s.loops_below;
}

unlocked-Sound :
    (r : Ran) → SoundInside r → Sound (and_then r (λ h. done (record h { locked = false })))
unlocked-Sound (done g) s = (locked-IsSound g false s, refl)
unlocked-Sound (deadlock g) s = s
unlocked-Sound panicked s = s

with_lock-Sound :
    (body : Global → Ran) (g : Global)
    → IsSound g
    → g.locked ≡ false
    → SoundInside (body (record g { locked = true }))
    → Sound (with_lock body g)
with_lock-Sound body g s free inside = rw free (unlocked-Sound _ inside)

live-head :
    (closed : List ℕ) (ls : List Loop) {l : Loop} {r : List Loop}
    → live closed ls ≡ l ∷ r
    → is_closed closed l.channel ≡ false
live-head closed [] e = absurd (cc)
live-head closed (k ∷ ls) {l} {r} e = elim (Bool-cases (is_closed closed k.channel)) [
  | inl shut ↦ live-head closed ls (rw shut at e)
  | inr up ↦ let same : k ≡ l = ground arith in rw same at up
]

-- Closing one more channel stops those among the live goroutines that wait on it.
live-close :
    (h : ℕ) (closed : List ℕ) (ls : List Loop)
    → live (h ∷ closed) ls ≡ live (h ∷ []) (live closed ls)
live-close h closed [] = refl
live-close h closed (l ∷ ls) = ground (arith, live-close h closed ls)

live-live : (closed : List ℕ) (ls : List Loop) → live closed (live closed ls) ≡ live closed ls
live-live closed [] = refl
live-live closed (l ∷ ls) = ground (arith, live-live closed ls)

live-below :
    (n : ℕ) (closed : List ℕ) (ls : List Loop)
    → All (λ l. l.channel < n) ls
    → All (λ l. l.channel < n) (live closed ls)
live-below n closed [] h = tt
live-below n closed (l ∷ ls) h = elim (Bool-cases (is_closed closed l.channel)) [
  | inl shut ↦ rw shut (live-below n closed ls h.1)
  | inr up ↦ rw up (h.0, live-below n closed ls h.1)
]

not_closed : (n : ℕ) (closed : List ℕ) → All (λ c. c < n) closed → is_closed closed n ≡ false
not_closed n [] h = refl
not_closed n (c ∷ closed) h = ground (arith, h.0, not_closed n closed h.1)

weaken : (n : ℕ) (xs : List ℕ) → All (λ c. c < n) xs → All (λ c. c < n + 1) xs
weaken n [] h = tt
weaken n (x ∷ xs) h = (omega arith, weaken n xs h.1)

weaken_loops :
    (n : ℕ) (ls : List Loop) → All (λ l. l.channel < n) ls → All (λ l. l.channel < n + 1) ls
weaken_loops n [] h = tt
weaken_loops n (l ∷ ls) h = (omega arith, weaken_loops n ls h.1)

live_self :
    (h : ℕ) (c : MonitorConfig) → live (h ∷ []) (record { channel = h; config = c } ∷ []) ≡ []
live_self h c = ground arith

-- The monitor goes on, and the channel of its goroutine is closed.
stopped-IsSound :
    (g : Global) (h : ℕ) (c : MonitorConfig)
    → IsSound g
    → live g.closed g.loops ≡ record { channel = h; config = c } ∷ []
    → IsSound
        (record g { monitor_running = false; monitor_stop_ch = some h; closed = h ∷ g.closed })
stopped-IsSound g h c s one = record {
  running = λ q. absurd (cc);
  stopped = λ q. live-close h g.closed g.loops ∙ ap (live (h ∷ [])) one ∙ live_self h c;
  closed_below =
      ((rw one at (live-below g.next_channel g.closed g.loops s.loops_below)).0, s.closed_below);
  loops_below = s.loops_below;
}

stop_locked-SoundInside : (g : Global) → IsSound g → SoundInside (stop_locked g)
stop_locked-SoundInside g s = elim (Bool-cases g.monitor_running) [
  | inr off ↦ rw off (record {
    running = λ q. absurd (cc);
    stopped = λ q. s.stopped off;
    closed_below = s.closed_below;
    loops_below = s.loops_below;
  })
  | inl on ↦
      let (c, h, ch, one) = s.running on in
      rw on (rw ch (rw (live-head g.closed g.loops one) (stopped-IsSound g h c s one)))
]

stop-Sound : (g : Global) → IsSound g → g.locked ≡ false → Sound (stop_global_monitor g)
unfolding stop_global_monitor
stop-Sound g s free =
    with_lock-Sound stop_locked g s free (stop_locked-SoundInside _ (locked-IsSound g true s))

pub launched-IsSound :
    (g : Global) (c : MonitorConfig)
    → IsSound g
    → g.monitor_running ≡ false
    → IsSound (launched g c)
launched-IsSound g c s off = record {
  running = λ q. (
    c,
    g.next_channel,
    refl,
    rw (not_closed g.next_channel g.closed s.closed_below) (
        ap (λ (ls : List Loop). record { channel = g.next_channel; config = c } ∷ ls)
          (s.stopped off)),
  );
  stopped = λ q. absurd (cc);
  closed_below = weaken g.next_channel g.closed s.closed_below;
  loops_below = (omega arith, weaken_loops g.next_channel g.loops s.loops_below);
}

launch_if-IsSound :
    (o : Option Pool) (g : Global) (c : MonitorConfig)
    → IsSound g
    → g.monitor_running ≡ false
    → IsSound (launch_if o g c)
launch_if-IsSound none g c s off = s
launch_if-IsSound (some p) g c s off = launched-IsSound g c s off

-- With the mutex held the stop of a running monitor waits for it.
stop_running-waits :
    (g : Global) → g.locked ≡ true → g.monitor_running ≡ true → stop_running g ≡ deadlock g
unfolding stop_global_monitor
stop_running-waits g held on = rw (on, held) refl

stop_running-off : (g : Global) → g.monitor_running ≡ false → stop_running g ≡ done g
stop_running-off g off = if-false g.monitor_running _ _ off

start_locked-SoundInside :
    (g : Global) (c : MonitorConfig) → IsSound g → g.locked ≡ true → SoundInside (start_locked c g)
start_locked-SoundInside g c s held = elim (Bool-cases g.monitor_running) [
  | inl on ↦ rw (stop_running-waits g held on) (s, held)
  | inr off ↦ rw (stop_running-off g off) (launch_if-IsSound g.ants_pool g (filled_in c) s off)
]

start-Sound :
    (g : Global) (c : MonitorConfig)
    → IsSound g
    → g.locked ≡ false
    → Sound (start_global_monitor g c)
unfolding start_global_monitor
start-Sound g c s free =
    with_lock-Sound (start_locked c) g s free
      (start_locked-SoundInside _ c (locked-IsSound g true s) refl)

set-Sound :
    (g : Global) (c : MonitorConfig) → IsSound g → g.locked ≡ false → Sound (set_monitor_config g c)
unfolding set_monitor_config
set-Sound g c s free =
    if-Sound c.enabled _ _ (λ on. start-Sound g c s free) (λ off. stop-Sound g s free)

-- Another pool is no change in which a state is sound.
pub pool-IsSound :
    (g : Global) (o : Option Pool)
    → IsSound g
    → IsSound (record g { ants_pool = o; once_done = true })
pool-IsSound g o s = record {
  running = s.running;
  stopped = s.stopped;
  closed_below = s.closed_below;
  loops_below = s.loops_below;
}

module _ (apply : Setter → Options → Options) (new_pool : NewLibraryPool) (num_cpu : ℕ) where
  init_with-Sound :
      (r : PoolError ⊎ Pool) (g : Global) (config : GlobalPoolConfig)
      → IsSound g
      → g.locked ≡ false
      → Sound (init_with apply new_pool num_cpu r g config)
  init_with-Sound (inl e) g config s free = (pool-IsSound g _ s, free)
  init_with-Sound (inr p) g config s free =
      if-Sound config.monitor.enabled _ _
        (λ on. start-Sound _ config.monitor (pool-IsSound g _ s) free)
        (λ off. (pool-IsSound g _ s, free))

  init-Sound :
      (g : Global) (config : GlobalPoolConfig)
      → IsSound g
      → g.locked ≡ false
      → Sound (init_coroutine_pool_with_config apply new_pool num_cpu g config)
  unfolding init_coroutine_pool_with_config
  init-Sound g config s free =
      if-Sound g.once_done _ _ (λ already. (s, free)) (λ first. init_with-Sound _ g config s free)

  -- With the mutex free and the monitor goroutines in their select: the creation of the global pool, the
  -- start, the stop and the change of the configuration of the monitor, and the return of goroutines
  -- keep at most one monitor goroutine alive, one exactly while the monitor is said to run, also if they
  -- wait for the mutex for ever; if they return, the mutex is free; and none of them closes a channel
  -- that is closed.
  pub set_monitor_config-Sound :
      (g : Global) (c : MonitorConfig) (config : GlobalPoolConfig)
      → IsSound g
      → g.locked ≡ false
      → Sound (set_monitor_config g c)
        × Sound (start_global_monitor g c)
        × Sound (stop_global_monitor g)
        × Sound (init_coroutine_pool_with_config apply new_pool num_cpu g config)
        × IsSound (loops_return g)
  unfolding loops_return
  set_monitor_config-Sound g c config s free = (
    set-Sound g c s free,
    start-Sound g c s free,
    stop-Sound g s free,
    init-Sound g config s free,
    record {
      running =
          λ q. let (k, h, ch, one) = s.running q in (k, h, ch, live-live g.closed g.loops ∙ one);
      stopped = λ q. live-live g.closed g.loops ∙ s.stopped q;
      closed_below = s.closed_below;
      loops_below = live-below g.next_channel g.closed g.loops s.loops_below;
    },
  )

pub no_globals-IsSound : IsSound no_globals
no_globals-IsSound = record {
  running = λ q. absurd (cc);
  stopped = λ q. refl;
  closed_below = tt;
  loops_below = tt;
}

abbrev pub held : Global → Global
held g = record g { locked = true }

-- The stop of a monitor that is held by nobody returns or panics.
abbrev Returns : Ran → Type 0
Returns (done g) = Unit
Returns (deadlock g) = ⊥
Returns panicked = Unit

stop-Returns : (g : Global) → g.locked ≡ false → Returns (stop_global_monitor g)
unfolding stop_global_monitor
stop-Returns g free = rw free (elim (Bool-cases g.monitor_running) [
  | inr off ↦ rw off tt
  | inl on ↦ rw on (elim (Option-cases g.monitor_stop_ch) [
    | inl e ↦ rw e tt
    | inr (c, e) ↦
        rw e (elim (Bool-cases (is_closed g.closed c)) [ inl x ↦ rw x tt | inr x ↦ rw x tt ])
  ])
])

start-Returns :
    (g : Global) (c : MonitorConfig)
    → g.locked ≡ false
    → g.monitor_running ≡ false
    → Returns (start_global_monitor g c)
unfolding start_global_monitor
start-Returns g c free off = rw free (rw (stop_running-off (held g) off) tt)

start-waits :
    (g : Global) (c : MonitorConfig)
    → g.locked ≡ false
    → g.monitor_running ≡ true
    → start_global_monitor g c ≡ deadlock (held g)
unfolding start_global_monitor
start-waits g c free on = rw free (rw (stop_running-waits (held g) refl on) refl)

Returns-ne : (r : Ran) (h : Global) → Returns r → r ≢ deadlock h
Returns-ne r h x e = subst_Returns r (deadlock h) e x
  where
    subst_Returns : (r t : Ran) → r ≡ t → Returns r → Returns t
    subst_Returns r t e x = rw (sym e) x

-- A change of the configuration with the mutex free never returns exactly if the monitor runs and is to
-- be enabled. It then holds the mutex for good, so that no later change of the configuration, no start
-- and no stop returns either.
pub set_monitor_config-deadlock_iff :
    (g : Global) (c d : MonitorConfig)
    → g.locked ≡ false
    → ((set_monitor_config g c ≡ deadlock (held g))
        ↔ ((c.enabled ≡ true) × (g.monitor_running ≡ true)))
      × (set_monitor_config (held g) d ≡ deadlock (held g))
      × (start_global_monitor (held g) d ≡ deadlock (held g))
      × (stop_global_monitor (held g) ≡ deadlock (held g))
unfolding set_monitor_config start_global_monitor stop_global_monitor
set_monitor_config-deadlock_iff g c d free = (
  (
    λ e. elim (Bool-cases c.enabled) [
      | inr off ↦
          absurd
            (Returns-ne _ (held g) (stop-Returns g free) (sym (if-false c.enabled _ _ off) ∙ e))
      | inl on ↦ elim (Bool-cases g.monitor_running) [
        | inl runs ↦ (on, runs)
        | inr idle ↦ absurd (
            Returns-ne _ (held g) (start-Returns g c free idle)
              (sym (if-true c.enabled _ _ on) ∙ e))
      ]
    ],
    λ h. if-true c.enabled _ _ h.0 ∙ start-waits g c free h.1,
  ),
  if-same d.enabled _ _ _ refl refl,
  refl,
  refl,
)
