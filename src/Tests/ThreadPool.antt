-- ===== src/Tests/ThreadPool.antt =====
-- A pool with two workers, and a task.
use my_orm.Prelude.{◌*◌, ◌≤◌, ◌≡◌, ◌⊎◌, refl, [], ◌∷◌, ◌++◌, arith}
use my_orm.Common.ThreadPool.{
  ThreadPool, new_pool, push, test_stop, take_task, shut_down, notify_all, Work, tests, takes,
  works, pushes, stops, announces, Reachable,
}
use my_orm.Common.ThreadPool.Order.{Reachable-InOrder}
use my_orm.Common.ThreadPool.Wakeup.{asleep_done}
use my_orm.Common.ThreadPool.Join.{Works, destructor_joins}

-- One worker takes the task 5 from the queue of 5 and 6.
abbrev taken : ThreadPool
taken = take_task (test_stop (push 6 (push 5 (new_pool 2))))

taken-Reachable : Reachable 2 taken
unfolding new_pool push test_stop
taken-Reachable =
    Reachable.after _ _
      (Reachable.after _ _
        (Reachable.after _ _ (Reachable.after _ _ Reachable.start (pushes _ 5 refl))
          (pushes _ 6 refl))
        (works _ _ (tests _ (omega arith))))
      (works _ _ (takes _ (omega arith)))

taken_test : (taken.started ≡ 5 ∷ []) × (taken.tasks ≡ 6 ∷ [])
unfolding new_pool push test_stop take_task
taken_test = (refl, refl)

Reachable-InOrder_example : taken.enqueued ≡ taken.started ++ taken.tasks
Reachable-InOrder_example = Reachable-InOrder 2 taken taken-Reachable

-- The only worker sleeps.
abbrev asleep : ThreadPool
asleep = take_task (test_stop (new_pool 1))

asleep-Reachable : Reachable 1 asleep
unfolding new_pool test_stop
asleep-Reachable =
    Reachable.after _ _ (Reachable.after _ _ Reachable.start (works _ _ (tests _ (omega arith))))
      (works _ _ (takes _ (omega arith)))

asleep_done_example : asleep.tasks ≡ []
unfolding new_pool test_stop take_task
asleep_done_example = asleep_done 0 asleep asleep-Reachable refl refl

-- The destructor comes before the worker has taken the task.
abbrev stopped : ThreadPool
stopped = notify_all (shut_down (push 5 (new_pool 1)))

stopped-Reachable : Reachable 1 stopped
unfolding new_pool push shut_down
stopped-Reachable =
    Reachable.after _ _
      (Reachable.after _ _ (Reachable.after _ _ Reachable.start (pushes _ 5 refl)) (stops _ refl))
      (announces _ refl refl)

-- All workers have returned, and the task is left in the queue.
dropped_test : ((test_stop stopped).returned ≡ 1) × ((test_stop stopped).tasks ≡ 5 ∷ [])
unfolding new_pool push shut_down notify_all test_stop
dropped_test = (refl, refl)

destructor_joins_example :
    (1 ≤ 3 * 1)
    × (((test_stop stopped).returned ≡ 1) ⊎ ((next : ThreadPool) × Work (test_stop stopped) next))
unfolding new_pool push shut_down notify_all
destructor_joins_example = destructor_joins 1 1 stopped (test_stop stopped) stopped-Reachable refl (
    Works.next 0 stopped (test_stop stopped) (test_stop stopped) (tests stopped (omega arith))
      (Works.rest (test_stop stopped)))
