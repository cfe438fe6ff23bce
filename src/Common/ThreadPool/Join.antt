-- ===== src/Common/ThreadPool/Join.antt =====
-- About the destructor of TThreadPool (lib/common/threadpool.h, threadpool.cpp).
use my_orm.Prelude.{ℕ, zero, suc, ◌+◌, ◌*◌, ◌≤◌, ◌<◌, ◌≡◌, ◌⊎◌, inl, inr, refl, true, arith}
use my_orm.Common.ThreadPool.{
  ThreadPool, test_stop, take_task, finish, wake, Work, tests, takes, finishes, wakes, Reachable,
  works, after,
}
use my_orm.Common.ThreadPool.Wakeup.{Reachable-IsAwake}

-- A number of steps of workers one after the other.
pub data Works : ℕ → ThreadPool → ThreadPool → Type 0 where
  rest : (p : ThreadPool) → Works zero p p
  next : (k : ℕ) (p q r : ThreadPool) → Work p q → Works k q r → Works (suc k) p r

-- What the workers still have to do.
abbrev left : ThreadPool → ℕ
left p = 3 * p.locking + 2 * p.running + p.looping

Work-left :
    (p q : ThreadPool)
    → Work p q
    → p.stop ≡ true
    → p.waiting ≡ 0
    → (q.stop ≡ true) × (q.waiting ≡ 0) × (q.announced ≡ p.announced) × (left q < left p)
unfolding test_stop take_task finish wake
Work-left p _ (tests _ some) s w = ground (arith, s, w)
Work-left p _ (takes _ some) s w = ground (arith, s, w)
Work-left p _ (finishes _ some) s w = ground (arith, s, w)
Work-left p _ (wakes _ some) s w = absurd (omega arith)

Works-left :
    (n k : ℕ) (p q : ThreadPool)
    → Works k p q
    → Reachable n p
    → p.announced ≡ true
    → Reachable n q × (q.announced ≡ true) × (k + left q ≤ left p)
Works-left n zero p _ (rest _) r a = (r, a, omega arith)
Works-left n (suc k) p q (next _ _ m _ w ws) r a =
    let quiet = (Reachable-IsAwake n p r).quiet a in
    let (_, _, same, less) = Work-left p m w quiet.0 quiet.1 in
    let (reached, told, bound) =
      Works-left n k m q ws (after p m r (works p m w)) (ground (arith, same, a)) in
    (reached, told, omega arith)

-- A pool of n workers that is stopped, and whose workers were all notified: from there on the workers
-- take at most 3 n steps, all of them together, and as long as one of them has not returned, some
-- worker has a step. A task that runs is taken to end.
pub destructor_joins :
    (n k : ℕ) (p q : ThreadPool)
    → Reachable n p
    → p.announced ≡ true
    → Works k p q
    → (k ≤ 3 * n) × ((q.returned ≡ n) ⊎ ((next : ThreadPool) × Work q next))
destructor_joins n k p q r a ws =
    let (reached, told, bound) = Works-left n k p q ws r a in
    let now = Reachable-IsAwake n q reached in
    let before = (Reachable-IsAwake n p r).counted in
    (
      omega (arith, before, bound),
      some_step q.looping q.locking q.running refl refl refl now.counted (now.quiet told).1,
    )
  where
    some_step :
        (a b c : ℕ)
        → q.looping ≡ a
        → q.locking ≡ b
        → q.running ≡ c
        → q.looping + q.locking + q.waiting + q.running + q.returned ≡ n
        → q.waiting ≡ 0
        → (q.returned ≡ n) ⊎ ((next : ThreadPool) × Work q next)
    some_step (suc a) b c l m o sum w = inr (_, tests q (omega arith))
    some_step zero (suc b) c l m o sum w = inr (_, takes q (omega arith))
    some_step zero zero (suc c) l m o sum w = inr (_, finishes q (omega arith))
    some_step zero zero zero l m o sum w = inl (omega arith)
