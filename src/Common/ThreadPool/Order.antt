-- ===== src/Common/ThreadPool/Order.antt =====
-- About the order of the tasks in TThreadPool (lib/common/threadpool.h, threadpool.cpp).
use my_orm.Prelude.{ℕ, ◌≡◌, refl, ap, ◌∙◌, inl, inr, [], ◌∷◌, ◌++◌, append_assoc, arith}
use my_orm.Common.Text.Split.Trimmed.{List-cases}
use my_orm.Common.ThreadPool.{
  ThreadPool, new_pool, push, notify_one, test_stop, take_task, finish, wake, shut_down, notify_all,
  Work, tests, takes, finishes, wakes, Step, works, pushes, notifies, stops, announces, Reachable,
}

abbrev InOrder : ThreadPool → Type 0
InOrder p = p.enqueued ≡ p.started ++ p.tasks

Work-InOrder : (p q : ThreadPool) → Work p q → InOrder p → InOrder q
unfolding test_stop take_task finish wake
Work-InOrder p _ (tests _ some) h = ground (arith, h)
Work-InOrder p _ (takes _ some) h = elim (List-cases p.tasks) [
  | inl empty ↦ ground (arith, h, empty)
  | inr (task, rest, more) ↦
      let assoc = append_assoc p.started (task ∷ []) rest in ground (arith, h, more, assoc)
]
Work-InOrder p _ (finishes _ some) h = h
Work-InOrder p _ (wakes _ some) h = h

Step-InOrder : (p q : ThreadPool) → Step p q → InOrder p → InOrder q
unfolding push notify_one shut_down notify_all
Step-InOrder p q (works _ _ w) h = Work-InOrder p q w h
Step-InOrder p _ (pushes _ task live) h =
    ap (λ l. l ++ task ∷ []) h ∙ append_assoc p.started p.tasks (task ∷ [])
Step-InOrder p _ (notifies _ some) h = ground (arith, h)
Step-InOrder p _ (stops _ live) h = h
Step-InOrder p _ (announces _ stopped first) h = h

-- However the threads are interleaved: the tasks that the workers have taken, and behind them those in
-- the queue, are the tasks that were enqueued, each once and in their order.
pub Reachable-InOrder : (n : ℕ) (p : ThreadPool) → Reachable n p → p.enqueued ≡ p.started ++ p.tasks
unfolding new_pool
Reachable-InOrder n _ Reachable.start = refl
Reachable-InOrder n q (Reachable.after p _ r s) = Step-InOrder p q s (Reachable-InOrder n p r)
