-- ===== src/Common/ThreadPool/Wakeup.antt =====
-- About lost notifications in TThreadPool (lib/common/threadpool.h, threadpool.cpp).
use my_orm.Prelude.{
  ℕ, suc, ◌+◌, ◌≤◌, ◌<◌, ◌≡◌, refl, true, false, List, [], ◌∷◌, length, length-append, arith,
}
use my_orm.Common.ThreadPool.{
  Task, ThreadPool, new_pool, push, notify_one, test_stop, take_task, finish, wake, shut_down,
  notify_all, Work, tests, takes, finishes, wakes, Step, works, pushes, notifies, stops, announces,
  Reachable,
}

-- Every worker stands somewhere. While workers sleep and the pool is not stopped, there is for each
-- task a worker that is awake or a notification still to come. Once all are notified none sleeps.
pub record IsAwake (n : ℕ) (p : ThreadPool) : Type 0 where
  pub counted : p.looping + p.locking + p.waiting + p.running + p.returned ≡ n
  pub present : p.stop ≡ false → p.returned ≡ 0
  pub told :
      p.stop ≡ false
      → 0 < p.waiting
      → length p.tasks ≤ p.pushing + p.looping + p.locking + p.running
  pub quiet : p.announced ≡ true → (p.stop ≡ true) × (p.waiting ≡ 0)

new_pool-IsAwake : (n : ℕ) → IsAwake n (new_pool n)
unfolding new_pool
new_pool-IsAwake n = ground arith

Work-IsAwake : (n : ℕ) (p q : ThreadPool) → Work p q → IsAwake n p → IsAwake n q
unfolding test_stop take_task finish wake
Work-IsAwake n p _ (tests _ some) h = ground (arith, h)
Work-IsAwake n p _ (takes _ some) h = ground (arith, h)
Work-IsAwake n p _ (finishes _ some) h = ground (arith, h)
Work-IsAwake n p _ (wakes _ some) h = ground (arith, h)

Step-IsAwake : (n : ℕ) (p q : ThreadPool) → Step p q → IsAwake n p → IsAwake n q
unfolding push notify_one shut_down notify_all
Step-IsAwake n p q (works _ _ w) h = Work-IsAwake n p q w h
Step-IsAwake n p _ (pushes _ task live) h =
    let more = length-append p.tasks (task ∷ []) in ground (arith, h, more)
Step-IsAwake n p _ (notifies _ some) h = ground (arith, h)
Step-IsAwake n p _ (stops _ live) h = ground (arith, h)
Step-IsAwake n p _ (announces _ stopped first) h = ground (arith, h)

pub Reachable-IsAwake : (n : ℕ) (p : ThreadPool) → Reachable n p → IsAwake n p
Reachable-IsAwake n _ Reachable.start = new_pool-IsAwake n
Reachable-IsAwake n q (Reachable.after p _ r s) = Step-IsAwake n p q s (Reachable-IsAwake n p r)

-- No notification is lost: when no worker of a pool that is not stopped can go on without being woken
-- up, and no call of enqueue has still to notify, then no task is left, if there are workers.
pub asleep_done :
    (n : ℕ) (p : ThreadPool)
    → Reachable (suc n) p
    → p.stop ≡ false
    → p.pushing + p.looping + p.locking + p.running ≡ 0
    → p.tasks ≡ []
asleep_done n p r live asleep =
    let h = Reachable-IsAwake (suc n) p r in
    none_left p.tasks (ground (arith, h.counted, h.present live, h.told live))
  where
    none_left : (tasks : List Task) → length tasks ≤ 0 → tasks ≡ []
    none_left [] h = refl
    none_left (task ∷ rest) h = absurd (omega arith)
