-- ===== src/Common/RefCounter/Lifetime.antt =====
-- About interleaved operations on counted objects (lib/common/refcounted.h, refcounted.cpp).
use my_orm.Prelude.{ℕ, ◌+◌, ◌<◌, ◌≡◌, ◌≢◌, refl, Bool, true, false, ltb, nat_eq, ok, err, arith}
use my_orm.Common.RefCounter.{
  verify_failed, RefCounter, ref, unref, try_ref, weak_ref, weak_unref, Object, new_object, dropped,
  locked, weakly_dropped, destructed, Step, copy, release, lock, weaken, weak_release, destruct,
  assign, overwrite, is_counted,
}

abbrev pub count : Bool → ℕ
count true = 1
count false = 0

-- The strong counter counts the intrusive pointers, and the weak one the weak pointers and the object
-- while it is constructed. An object without intrusive pointers is about to be destructed as long as
-- it is constructed, and its memory is there while anything is counted.
pub record IsCounted (o : Object) : Type 0 where
  pub strong : o.counter.strong_ref_count ≡ o.intrusive
  pub weakly : o.counter.weak_ref_count ≡ o.weak + count o.constructed
  pub held : 0 < o.intrusive → (o.constructed ≡ true) × (o.destructing ≡ 0)
  pub unheld : o.intrusive ≡ 0 → o.destructing ≡ count o.constructed
  pub memory : o.allocated ≡ ltb 0 o.counter.weak_ref_count

pub IsCounted-new_object : IsCounted new_object
IsCounted-new_object = record {
  strong = refl;
  weakly = refl;
  held = λ h. (refl, refl);
  unheld = λ h. absurd (omega (arith, h));
  memory = refl;
}

copy-IsCounted :
    (o : Object) (c : RefCounter)
    → 0 < o.intrusive
    → ref o.counter 1 ≡ ok c
    → IsCounted o
    → IsCounted (record o { counter = c; intrusive = o.intrusive + 1 })
unfolding ref
copy-IsCounted o c p e h = record {
  strong = ground (arith, h.strong);
  weakly = ground (arith, h.weakly);
  held = λ _. h.held p;
  unheld = λ z. absurd (omega arith);
  memory = ground (arith, h.memory);
}

release-IsCounted :
    (o : Object) (r : RefCounter × Bool)
    → 0 < o.intrusive
    → unref o.counter 1 ≡ ok r
    → IsCounted o
    → IsCounted (dropped o r)
unfolding unref dropped
release-IsCounted o (c, last) p e h = record {
  strong = ground (arith, h.strong);
  weakly = ground (arith, h.weakly);
  held = λ q. ground (arith, h.held p, h.strong, q);
  unheld = λ z. ground (arith, h.held p, h.strong, z);
  memory = ground (arith, h.memory);
}

lock-IsCounted :
    (o : Object) (r : RefCounter × Bool)
    → 0 < o.weak
    → try_ref o.counter ≡ ok r
    → IsCounted o
    → IsCounted (locked o r)
unfolding try_ref locked
lock-IsCounted o (c, raised) p e h = record {
  strong = ground (arith, h.strong);
  weakly = ground (arith, h.weakly);
  held = λ q. ground (arith, h.held, h.strong, q);
  unheld = λ z. ground (arith, h.unheld, h.strong, z);
  memory = ground (arith, h.memory);
}

weaken-IsCounted :
    (o : Object) (c : RefCounter)
    → 0 < o.intrusive + o.weak
    → weak_ref o.counter ≡ ok c
    → IsCounted o
    → IsCounted (record o { counter = c; weak = o.weak + 1 })
unfolding weak_ref
weaken-IsCounted o c p e h = record {
  strong = ground (arith, h.strong);
  weakly = ground (arith, h.weakly);
  held = h.held;
  unheld = h.unheld;
  memory = ground (arith, h.memory);
}

weak_release-IsCounted :
    (o : Object) (r : RefCounter × Bool)
    → 0 < o.weak
    → weak_unref o.counter ≡ ok r
    → IsCounted o
    → IsCounted (weakly_dropped o r)
unfolding weak_unref weakly_dropped
weak_release-IsCounted o (c, last) p e h = record {
  strong = ground (arith, h.strong);
  weakly = ground (arith, h.weakly);
  held = h.held;
  unheld = h.unheld;
  memory = ground (arith, h.memory);
}

destruct-IsCounted :
    (o : Object) (r : RefCounter × Bool)
    → 0 < o.destructing
    → weak_unref o.counter ≡ ok r
    → IsCounted o
    → IsCounted (destructed o r)
unfolding weak_unref destructed
destruct-IsCounted o (c, last) p e h = record {
  strong = ground (arith, h.strong);
  weakly = ground (arith, h.weakly, h.unheld, h.held);
  held = λ q. absurd (ground (arith, h.held q));
  unheld = λ z. ground (arith, h.unheld z);
  memory = ground (arith, h.memory);
}

-- The states that interleaved operations on a new object lead to, as long as no weak pointer is
-- assigned.
pub data Reachable : Object → Type 0 where
  start : Reachable new_object
  after : (o o' : Object) → Reachable o → (s : Step o o') → is_counted s ≡ true → Reachable o'

Step-IsCounted : (o o' : Object) (s : Step o o') → is_counted s ≡ true → IsCounted o → IsCounted o'
unfolding is_counted
Step-IsCounted o _ (copy _ c p e) k h = copy-IsCounted o c p e h
Step-IsCounted o _ (release _ r p e) k h = release-IsCounted o r p e h
Step-IsCounted o _ (lock _ r p e) k h = lock-IsCounted o r p e h
Step-IsCounted o _ (weaken _ c p e) k h = weaken-IsCounted o c p e h
Step-IsCounted o _ (weak_release _ r p e) k h = weak_release-IsCounted o r p e h
Step-IsCounted o _ (destruct _ r p e) k h = destruct-IsCounted o r p e h
Step-IsCounted o _ (assign _ p) k h = cc
Step-IsCounted o _ (overwrite _ p) k h = cc

-- In every state that interleaved operations lead to, the counters count the pointers.
pub Reachable-IsCounted : (o : Object) → Reachable o → IsCounted o
Reachable-IsCounted _ Reachable.start = IsCounted-new_object
Reachable-IsCounted o' (Reachable.after o _ r s k) =
    Step-IsCounted o o' s k (Reachable-IsCounted o r)

-- However operations of threads that have the pointers they need are interleaved, as long as no weak
-- pointer is assigned by TWeakPtr::operator=, which does not count: while there is an
-- intrusive pointer, the object is constructed, its memory is there, and nothing is about to destruct
-- it; while there is a weak pointer, the memory is there; an object is destructed in its memory, and
-- once; and when there are no pointers and no destruction is to come, it is destructed and its memory
-- is freed.
pub lifetime :
    (o : Object)
    → Reachable o
    → (0 < o.intrusive → (o.constructed ≡ true) × (o.allocated ≡ true) × (o.destructing ≡ 0))
      × (0 < o.weak → o.allocated ≡ true)
      × (0 < o.destructing → (o.constructed ≡ true) × (o.allocated ≡ true) × (o.destructing ≡ 1))
      × (o.intrusive + o.weak + o.destructing ≡ 0 → (o.constructed ≡ false) × (o.allocated ≡ false))
lifetime o r =
    let h = Reachable-IsCounted o r in
    (
      λ p. ground (arith, h.held p, h.weakly, h.memory),
      λ p. ground (arith, h.weakly, h.memory),
      λ p. ground (arith, h.held, h.unheld, h.weakly, h.memory),
      λ z. ground (arith, h.unheld, h.weakly, h.memory),
    )

-- In every state that interleaved operations lead to, as long as no weak pointer is assigned by
-- TWeakPtr::operator=, no VERIFY fails in an operation of a thread that has the pointer it needs.
pub no_verify_fails :
    (o : Object)
    → Reachable o
    → (0 < o.intrusive
        → (ref o.counter 1 ≢ err verify_failed) × (unref o.counter 1 ≢ err verify_failed))
      × (0 < o.intrusive + o.weak → weak_ref o.counter ≢ err verify_failed)
      × (0 < o.weak
          → (try_ref o.counter ≢ err verify_failed) × (weak_unref o.counter ≢ err verify_failed))
      × (0 < o.destructing → weak_unref o.counter ≢ err verify_failed)
unfolding ref unref weak_ref try_ref weak_unref
no_verify_fails o r =
    let h = Reachable-IsCounted o r in
    (
      λ p. (ground (arith, h.held p, h.strong, h.weakly), ground (arith, h.strong)),
      λ p. ground (arith, h.held, h.weakly),
      λ p. (ground (arith, h.weakly), ground (arith, h.weakly)),
      λ p. ground (arith, h.held, h.unheld, h.weakly),
    )
