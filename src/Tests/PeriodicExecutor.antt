-- ===== src/Tests/PeriodicExecutor.antt =====
-- An executor that is stopped between the test of the flag and the call.
use my_orm.Prelude.{ℕ, ◌+◌, ◌≤◌, ◌≡◌, refl, true, some, arith}
use my_orm.Common.PeriodicExecutor.{
  okay, failed, returns, throws, run_task, PeriodicExecutor, new_executor, schedule_next, test_flag,
  call, stop, calls_back, Steps,
}
use my_orm.Common.PeriodicExecutor.Stopped.{stopped_calls}

run_test :
    (run_task {E = ℕ} (returns true) ≡ some (okay true))
    × (run_task {A = ℕ} (throws true) ≡ some (failed true))
unfolding run_task
run_test = (refl, refl)

-- Two chains, of which one is between the test of the flag and the call.
abbrev stopped : PeriodicExecutor
stopped = stop (test_flag (schedule_next (schedule_next new_executor)))

abbrev called : PeriodicExecutor
called = call stopped

called_test : (called.calls ≡ 1) × (called.scheduled ≡ 1) × (stopped.stop_flag ≡ true)
unfolding stop test_flag schedule_next call
called_test = (refl, refl, refl)

stopped_calls_example : called.calls ≤ stopped.calls + stopped.tested
unfolding stop test_flag schedule_next call
stopped_calls_example =
    stopped_calls stopped called refl
      (Steps.then stopped called called (calls_back stopped (omega arith)) (Steps.here called))
