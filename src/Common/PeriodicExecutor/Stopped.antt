-- ===== src/Common/PeriodicExecutor/Stopped.antt =====
-- About TPeriodicExecutor after Stop (lib/common/periodic_executor.cpp).
use my_orm.Prelude.{◌+◌, ◌≤◌, ◌≡◌, true, arith}
use my_orm.Common.PeriodicExecutor.{
  returns, throws, throws_other, PeriodicExecutor, schedule_next, expire, test_flag, call,
  after_callback, end_sleep, stop, Step, starts, expires, tests, calls_back, ends, wakes, stops,
  Steps,
}

Step-due :
    (e f : PeriodicExecutor)
    → Step e f
    → e.stop_flag ≡ true
    → (f.stop_flag ≡ true) × (f.calls + f.tested ≤ e.calls + e.tested)
unfolding schedule_next expire test_flag call after_callback end_sleep stop
Step-due e _ (starts _) h = ground (arith, h)
Step-due e _ (expires _ some) h = ground (arith, some, h)
Step-due e _ (tests _ some) h = ground (arith, some, h)
Step-due e _ (calls_back _ some) h = ground (arith, some, h)
Step-due e _ (ends _ (returns b) some) h = ground (arith, some, h)
Step-due e _ (ends _ (throws x) some) h = ground (arith, some, h)
Step-due e _ (ends _ throws_other some) h = ground (arith, some, h)
Step-due e _ (wakes _ some) h = ground (arith, some, h)
Step-due e _ (stops _) h = ground (arith, h)

-- Once the flag is set, the callback is called at most as many times more as there were workers between
-- their test of the flag and the call, however often Start was called and is called. A load of the
-- flag is taken to see the last store.
pub stopped_calls :
    (e f : PeriodicExecutor) → e.stop_flag ≡ true → Steps e f → f.calls ≤ e.calls + e.tested
stopped_calls e _ h (Steps.here _) = omega arith
stopped_calls e g h (Steps.then _ f _ s more) =
    let (stays, less) = Step-due e f s h in let bound = stopped_calls f g stays more in omega arith
