-- ===== src/Common/PeriodicExecutor.antt =====
-- lib/common/periodic_executor.h, periodic_executor.cpp: TPeriodicExecutor, and TErrorOr with the task that
-- TInvoker of threadpool.h makes of a function.
pub mod Stopped
use my_orm.Prelude.{
  ℕ, suc, ◌+◌, ◌-◌, ◌<◌, Bool, true, false, Option, none, some, Outcome, ok, err, if◌then◌else◌,
}

-- TErrorOrBase
pub data ErrorOr {ℓ κ} (E : Type ℓ) (A : Type κ) : Type (ℓ ⊔ κ) where
  okay : A → ErrorOr E A
  failed : E → ErrorOr E A

-- ValueOrThrow
unfoldable pub value_or_throw {ℓ κ} : {E : Type ℓ} {A : Type κ} → ErrorOr E A → Outcome E A
value_or_throw (okay a) = ok a
value_or_throw (failed e) = err e

-- Value, which throws std::bad_variant_access (none) on an error.
unfoldable pub value_of_ok {ℓ κ} : {E : Type ℓ} {A : Type κ} → ErrorOr E A → Option A
value_of_ok (okay a) = some a
value_of_ok (failed e) = none

unfoldable pub is_okay {ℓ κ} : {E : Type ℓ} {A : Type κ} → ErrorOr E A → Bool
is_okay (okay a) = true
is_okay (failed e) = false

-- How a function ends: with a value, a std::exception, or another exception.
pub data Ending {ℓ κ} (E : Type ℓ) (A : Type κ) : Type (ℓ ⊔ κ) where
  returns : A → Ending E A
  throws : E → Ending E A
  throws_other : Ending E A

-- The task of TInvoker::Run: what it sets the promise to; none if the exception leaves the worker.
unfoldable pub run_task {ℓ κ} : {E : Type ℓ} {A : Type κ} → Ending E A → Option (ErrorOr E A)
run_task (returns a) = some (okay a)
run_task (throws e) = some (failed e)
run_task throws_other = none

-- The flag and the chains of tasks that calls of Start have begun, counted by where they stand: the task
-- enqueued, between the test of the flag and the callback, in the callback, and in the sleep. `calls`
-- counts the calls of the callback. The flag is one atomic variable, and a load is taken to see the
-- last store: with relaxed ones, the calls are counted from when the store has come to the worker.
pub record PeriodicExecutor : Type 0 where
  pub stop_flag : Bool
  pub scheduled : ℕ
  pub tested : ℕ
  pub calling : ℕ
  pub sleeping : ℕ
  pub calls : ℕ

abbrev pub new_executor : PeriodicExecutor
new_executor = record {
  stop_flag = false;
  scheduled = 0;
  tested = 0;
  calling = 0;
  sleeping = 0;
  calls = 0;
}

-- ScheduleNext, which enqueues the worker unless the flag is set.
unfoldable pub schedule_next : PeriodicExecutor → PeriodicExecutor
schedule_next e = if e.stop_flag then e else record e { scheduled = e.scheduled + 1 }

-- A task of the queue that is run when the executor is gone.
unfoldable pub expire : PeriodicExecutor → PeriodicExecutor
expire e = record e { scheduled = e.scheduled - 1 }

-- The start of Worker, with its test.
unfoldable pub test_flag : PeriodicExecutor → PeriodicExecutor
test_flag e =
    if e.stop_flag
    then record e { scheduled = e.scheduled - 1 }
    else record e { scheduled = e.scheduled - 1; tested = e.tested + 1 }

-- The call of Callback_.
unfoldable pub call : PeriodicExecutor → PeriodicExecutor
call e = record e { tested = e.tested - 1; calling = e.calling + 1; calls = suc e.calls }

-- What Worker does with the end of the callback: an exception is thrown again, into the future that
-- nobody reads.
unfoldable pub after_callback : Ending ℕ Bool → PeriodicExecutor → PeriodicExecutor
after_callback (returns should_stop) e =
    if should_stop
    then record e { stop_flag = true; calling = e.calling - 1 }
    else record e { calling = e.calling - 1; sleeping = e.sleeping + 1 }
after_callback (throws thrown) e = record e { calling = e.calling - 1 }
after_callback throws_other e = record e { calling = e.calling - 1 }

-- The end of the sleep.
unfoldable pub end_sleep : PeriodicExecutor → PeriodicExecutor
unfolding schedule_next
end_sleep e = schedule_next (record e { sleeping = e.sleeping - 1 })

-- Stop
unfoldable pub stop : PeriodicExecutor → PeriodicExecutor
stop e = record e { stop_flag = true }

-- A step of a thread. Start and Stop may be called at any time, and any number of times.
pub data Step : PeriodicExecutor → PeriodicExecutor → Type 0 where
  starts : (e : PeriodicExecutor) → Step e (schedule_next e)
  expires : (e : PeriodicExecutor) → 0 < e.scheduled → Step e (expire e)
  tests : (e : PeriodicExecutor) → 0 < e.scheduled → Step e (test_flag e)
  calls_back : (e : PeriodicExecutor) → 0 < e.tested → Step e (call e)
  ends :
      (e : PeriodicExecutor) (ending : Ending ℕ Bool)
      → 0 < e.calling
      → Step e (after_callback ending e)
  wakes : (e : PeriodicExecutor) → 0 < e.sleeping → Step e (end_sleep e)
  stops : (e : PeriodicExecutor) → Step e (stop e)

pub data Steps : PeriodicExecutor → PeriodicExecutor → Type 0 where
  here : (e : PeriodicExecutor) → Steps e e
  then : (e f g : PeriodicExecutor) → Step e f → Steps f g → Steps e g
