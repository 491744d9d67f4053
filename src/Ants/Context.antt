-- ===== src/Ants/Context.antt =====
-- `SubmitWithContext` and `SubmitWithTimeout` of tools/ants/pool.go: when the wrapped task gets its
-- turn it looks at its context, and is not called if that is done.
use Prim.Native.String.{String}
use soelib.Common.{
  ℕ, ◌+◌, ◌<◌, Option, none, some, Bool, true, false, if◌then◌else◌, leb, ltb, ◌≡◌, refl, arith,
}
use soelib.Ants.Types.{Pool, context_canceled, call_error_callbacks}
use soelib.Ants.Pool.{with_context, Outcome, finish, fail, record_time}

-- How a call of the caller's function would go.
pub record TaskRun : Type 0 where
  pub duration : ℕ
  pub panic_err : Option String

-- The turn of a wrapped task at a time: whether the function is called, and the outcome that the
-- deferred function sees. A turn that finds the context done takes no time worth counting.
pub record Turn : Type 0 where
  pub called : Bool
  pub outcome : Outcome

unfoldable pub context_turn : Option String → TaskRun → ℕ → Turn
context_turn (some e) run now = record {
  called = false;
  outcome = record { execution_time = 0; panic_err = none; ctx_canceled = some e; now = now };
}
context_turn none run now = record {
  called = true;
  outcome = record {
    execution_time = run.duration;
    panic_err = run.panic_err;
    ctx_canceled = none;
    now = now + run.duration;
  };
}

-- `ctx.Err()` of `context.WithTimeout`, `waited` after its creation. `returned` is the time after which
-- the deferred `cancel` of `SubmitWithTimeout` has run, which it does as soon as the submission
-- returns; none if it has not. What makes the context done first is its error from then on.
unfoldable pub timeout_err : ℕ → ℕ → Option ℕ → Option String
timeout_err timeout waited none =
    if leb timeout waited then some "context deadline exceeded" else none
timeout_err timeout waited (some returned) =
    if ltb returned timeout
    then some "context canceled"
    else (if leb timeout waited then some "context deadline exceeded" else none)

unfoldable pub timeout_turn : ℕ → ℕ → Option ℕ → TaskRun → ℕ → Turn
unfolding context_turn timeout_err
timeout_turn timeout waited returned run now =
    context_turn (timeout_err timeout waited returned) run now

-- A task of `SubmitWithTimeout` whose turn comes after the submission has returned, before the timeout,
-- is not called, also after the timeout, and is reported as canceled and counts as failed.
timeout_turn_returned :
    (p : Pool) (timeout waited returned now : ℕ) (run : TaskRun)
    → returned < timeout
    → let turn = timeout_turn timeout waited (some returned) run now in
      (turn.called ≡ false)
      × ((finish p with_context turn.outcome).0.failed_tasks ≡ p.failed_tasks + 1)
      × ((finish p with_context turn.outcome).1
          ≡ call_error_callbacks p (record {
            code = context_canceled;
            message = "上下文已取消";
            err = some "context canceled";
          }))
unfolding timeout_turn finish fail record_time
timeout_turn_returned p timeout waited returned now run h =
    let soon : ltb returned timeout ≡ true = ground (arith, h) in rw soon (refl, refl, refl)

-- A task whose turn comes before is called and runs to its end, also past its timeout.
timeout_turn_early :
    (p : Pool) (timeout waited now : ℕ) (run : TaskRun)
    → waited < timeout
    → let turn = timeout_turn timeout waited none run now in
      (turn.called ≡ true)
      × (turn.outcome.execution_time ≡ run.duration)
      × (turn.outcome.ctx_canceled ≡ none)
unfolding timeout_turn
timeout_turn_early p timeout waited now run h = ground arith
