-- ===== src/Ants/Options.antt =====
-- `New` and `NewWithOptions` of tools/ants/pool.go. The options and their setters are those of
-- panjf2000/ants: what applying a setter does is a parameter, and `documented` says what its
-- documentation promises.
use Prim.Native.String.{String}
use soelib.Common.{
  ℕ, ◌*◌, List, [], ◌∷◌, ◌++◌, Option, none, some, Bool, true, false, if◌then◌else◌, ltb, ◌⊎◌, inl,
  inr, ◌≡◌, refl, ap, ◌∙◌, arith,
}
use soelib.Ants.Types.{create_pool, PoolError, default_health_config, Pool}

pub record Options : Type 0 where
  pub expiry_duration : ℕ
  pub max_blocking_tasks : ℕ
  pub panic_handler : Bool
  pub pre_alloc : Bool
  pub nonblocking : Bool
  pub logger : Option ℕ

-- `ants.Options{}`
abbrev pub no_options : Options
no_options = record {
  expiry_duration = 0;
  max_blocking_tasks = 0;
  panic_handler = false;
  pre_alloc = false;
  nonblocking = false;
  logger = none;
}

-- An `ants.Option` value.
pub data Setter : Type 0 where
  with_expiry_duration with_max_blocking_tasks with_logger : ℕ → Setter
  with_panic_handler with_pre_alloc with_nonblocking : Setter

-- What the documentation of the setters says.
abbrev pub documented : Setter → Options → Options
documented (with_expiry_duration d) o = record o { expiry_duration = d }
documented (with_max_blocking_tasks n) o = record o { max_blocking_tasks = n }
documented (with_logger l) o = record o { logger = some l }
documented with_panic_handler o = record o { panic_handler = true }
documented with_pre_alloc o = record o { pre_alloc = true }
documented with_nonblocking o = record o { nonblocking = true }

abbrev pub minute : ℕ
minute = 60000000000

unfoldable pub pool_size : ℕ → ℕ → ℕ
pool_size num_cpu size = if ltb 0 size then size else num_cpu * 2

unfoldable pub default_options : ℕ → List Setter
default_options size =
    with_expiry_duration minute ∷ with_max_blocking_tasks (size * 3) ∷ with_panic_handler ∷ []

abbrev pub logger_setter : Option ℕ → List Setter
logger_setter none = []
logger_setter (some l) = with_logger l ∷ []

-- The options are turned into setters again, those that are set.
unfoldable pub option_slice : Options → List Setter
option_slice o =
    (if ltb 0 o.expiry_duration then with_expiry_duration o.expiry_duration ∷ [] else [])
    ++ ((if ltb 0 o.max_blocking_tasks
          then with_max_blocking_tasks o.max_blocking_tasks ∷ []
          else [])
        ++ ((if o.panic_handler then with_panic_handler ∷ [] else [])
            ++ ((if o.pre_alloc then with_pre_alloc ∷ [] else [])
                ++ ((if o.nonblocking then with_nonblocking ∷ [] else [])
                    ++ logger_setter o.logger))))

-- `ants.NewPool` is a parameter: the error that it returns for a size and setters, if any.
abbrev pub NewLibraryPool : Type 0
NewLibraryPool = ℕ → List Setter → Option String

abbrev pub created : String → ℕ → Pool
created name size = record {
  name = name;
  total_tasks = 0;
  failed_tasks = 0;
  error_callbacks = [];
  task_execution_times = [];
  max_task_execution_time = 0;
  min_task_execution_time = 0;
  goroutines_created = size;
  goroutines_destroyed = 0;
  last_queue_length = 0;
  health_config = default_health_config;
  tracked_tasks = 0;
  slow_task_records = [];
  failed_task_records = [];
}

abbrev pub creation : Option String → String → ℕ → PoolError ⊎ Pool
creation (some e) name size = inl (record { code = create_pool; message = "创建线程池失败"; err = some e })
creation none name size = inr (created name size)

abbrev pub apply_all : (Setter → Options → Options) → List Setter → Options → Options
apply_all apply [] o = o
apply_all apply (s ∷ ss) o = apply_all apply ss (apply s o)

module _ (apply : Setter → Options → Options) (new_pool : NewLibraryPool) where
  -- `user` is the effect of the caller's option functions.
  unfoldable pub new_with_options : ℕ → String → ℕ → (Options → Options) → PoolError ⊎ Pool
  unfolding pool_size default_options option_slice
  new_with_options num_cpu name size user =
      let n = pool_size num_cpu size in
      let options = user (apply_all apply (default_options n) no_options) in
      creation (new_pool n (option_slice options)) name n

  -- `New`: the size is optional.
  unfoldable pub new : ℕ → String → Option ℕ → PoolError ⊎ Pool
  unfolding new_with_options
  new num_cpu name none = new_with_options num_cpu name 0 (λ o. o)
  new num_cpu name (some size) = new_with_options num_cpu name size (λ o. o)

documented_slice : (o : Options) → apply_all documented (option_slice o) no_options ≡ o
unfolding option_slice
documented_slice o = ground arith

apply_all-eq :
    (apply : Setter → Options → Options)
    → ((s : Setter) (o : Options) → apply s o ≡ documented s o)
    → (ss : List Setter) (o : Options) → apply_all apply ss o ≡ apply_all documented ss o
apply_all-eq apply h [] o = refl
apply_all-eq apply h (s ∷ ss) o =
    ap (apply_all apply ss) (h s o) ∙ apply_all-eq apply h ss (documented s o)

-- The setters that are made of options set those options again and lose none of them, if each
-- setter does what its documentation says.
pub apply_all-option_slice :
    (apply : Setter → Options → Options)
    → ((s : Setter) (o : Options) → apply s o ≡ documented s o)
    → (o : Options) → apply_all apply (option_slice o) no_options ≡ o
apply_all-option_slice apply h o =
    apply_all-eq apply h (option_slice o) no_options ∙ documented_slice o
