-- ===== src/Common/ThreadPool.antt =====
-- lib/common/threadpool.h, threadpool.cpp: the queue of TThreadPool and its workers. The workers run the
-- same code and hold nothing but the task that they run, so a state counts how many stand at each
-- place. What a thread does under the mutex is one step.
pub mod Order
pub mod Wakeup
pub mod Join
use my_orm.Prelude.{
  ℕ, zero, suc, ◌+◌, ◌-◌, ◌<◌, ◌≡◌, Bool, true, false, ◌||◌, ◌&&◌, List, [], ◌∷◌, ◌++◌,
  if◌then◌else◌,
}

-- A task is a number that tells it from the others.
abbrev pub Task : Type 0
Task = ℕ

-- `looping` workers are at the test of the loop, `locking` ones before the mutex or woken up,
-- `waiting` ones asleep on the condition variable, `running` ones in a task, and `returned` ones are
-- done. `pushing` calls of enqueue have still to notify, and `announced` tells that the destructor has
-- called notify_all. `enqueued` and `started` record the tasks in the order in which they came, and in
-- which they were taken.
pub record ThreadPool : Type 0 where
  pub tasks : List Task
  pub stop : Bool
  pub announced : Bool
  pub looping : ℕ
  pub locking : ℕ
  pub waiting : ℕ
  pub running : ℕ
  pub returned : ℕ
  pub pushing : ℕ
  pub enqueued : List Task
  pub started : List Task

unfoldable pub new_pool : (num_threads : ℕ) → ThreadPool
new_pool num_threads = record {
  tasks = [];
  stop = false;
  announced = false;
  looping = num_threads;
  locking = 0;
  waiting = 0;
  running = 0;
  returned = 0;
  pushing = 0;
  enqueued = [];
  started = [];
}

-- enqueue, under the mutex.
unfoldable pub push : Task → ThreadPool → ThreadPool
push task p = record p {
  tasks = p.tasks ++ task ∷ [];
  pushing = p.pushing + 1;
  enqueued = p.enqueued ++ task ∷ [];
}

-- cv_.notify_one(): a worker that sleeps, if there is one, goes for the mutex.
unfoldable pub notify_one : ThreadPool → ThreadPool
notify_one p = elim p.waiting [
  | zero ↦ record p { pushing = p.pushing - 1 }
  | suc rest ↦ record p { pushing = p.pushing - 1; waiting = rest; locking = p.locking + 1 }
]

-- The test of the loop in Worker.
unfoldable pub test_stop : ThreadPool → ThreadPool
test_stop p =
    if p.stop
    then record p { looping = p.looping - 1; returned = p.returned + 1 }
    else record p { looping = p.looping - 1; locking = p.locking + 1 }

-- What Worker does under the mutex: the predicate of the wait, the return, and the take of the front.
unfoldable pub take_task : ThreadPool → ThreadPool
take_task p = elim p.tasks [
  | [] ↦
      if p.stop
      then record p { locking = p.locking - 1; returned = p.returned + 1 }
      else record p { locking = p.locking - 1; waiting = p.waiting + 1 }
  | task ∷ rest ↦ record p {
    locking = p.locking - 1;
    running = p.running + 1;
    tasks = rest;
    started = p.started ++ task ∷ [];
  }
]

-- The end of task().
unfoldable pub finish : ThreadPool → ThreadPool
finish p = record p { running = p.running - 1; looping = p.looping + 1 }

-- A wait may end without a notification.
unfoldable pub wake : ThreadPool → ThreadPool
wake p = record p { waiting = p.waiting - 1; locking = p.locking + 1 }

-- The destructor, under the mutex.
unfoldable pub shut_down : ThreadPool → ThreadPool
shut_down p = record p { stop = true }

-- cv_.notify_all() in the destructor.
unfoldable pub notify_all : ThreadPool → ThreadPool
notify_all p = record p { announced = true; waiting = 0; locking = p.locking + p.waiting }

-- A step of a worker.
pub data Work : ThreadPool → ThreadPool → Type 0 where
  tests : (p : ThreadPool) → 0 < p.looping → Work p (test_stop p)
  takes : (p : ThreadPool) → 0 < p.locking → Work p (take_task p)
  finishes : (p : ThreadPool) → 0 < p.running → Work p (finish p)
  wakes : (p : ThreadPool) → 0 < p.waiting → Work p (wake p)

-- A step of any thread; the owner of the pool enqueues, and destructs it once.
pub data Step : ThreadPool → ThreadPool → Type 0 where
  works : (p q : ThreadPool) → Work p q → Step p q
  pushes : (p : ThreadPool) (task : Task) → p.stop ≡ false → Step p (push task p)
  notifies : (p : ThreadPool) → 0 < p.pushing → Step p (notify_one p)
  stops : (p : ThreadPool) → p.stop ≡ false → Step p (shut_down p)
  announces : (p : ThreadPool) → p.stop ≡ true → p.announced ≡ false → Step p (notify_all p)

-- The states that interleaved steps lead to.
pub data Reachable (num_threads : ℕ) : ThreadPool → Type 0 where
  start : Reachable num_threads (new_pool num_threads)
  after : (p q : ThreadPool) → Reachable num_threads p → Step p q → Reachable num_threads q
