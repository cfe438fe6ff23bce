-- ===== src/Common/RefCounter.antt =====
-- lib/common/refcounted.h, refcounted.cpp: the two counters in front of a counted object, and what
-- Ref, Unref, TryRef, WeakRef and WeakUnref of the pointers do with them. Each atomic operation is one
-- step. A VERIFY that fails, which ends the program, is an error.
pub mod Lifetime
use my_orm.Prelude.{
  ℕ, zero, suc, ◌+◌, ◌-◌, ◌<◌, ◌≡◌, Bool, true, false, ltb, leb, ◌==◌, nat_eq, if◌then◌else◌,
  Outcome, ok, err, ensure, ◌>>=◌, ◌>>◌,
}

pub data Violation : Type 0 where
  verify_failed : Violation

pub record RefCounter : Type 0 where
  pub strong_ref_count : ℕ
  pub weak_ref_count : ℕ

abbrev pub new_counter : RefCounter
new_counter = record { strong_ref_count = 1; weak_ref_count = 1 }

unfoldable pub ref : RefCounter → ℕ → Outcome Violation RefCounter
ref c n = do
  ensure (ltb 0 c.strong_ref_count) verify_failed
  ensure (ltb 0 c.weak_ref_count) verify_failed
  ok (record c { strong_ref_count = c.strong_ref_count + n })

-- The result is true if the last reference is gone.
unfoldable pub unref : RefCounter → ℕ → Outcome Violation (RefCounter × Bool)
unref c n = do
  ensure (leb n c.strong_ref_count) verify_failed
  ok (record c { strong_ref_count = c.strong_ref_count - n }, c.strong_ref_count == n)

-- The loop ends at the value that the exchange finds; the result is true if it could be raised.
unfoldable pub try_ref : RefCounter → Outcome Violation (RefCounter × Bool)
try_ref c = do
  ensure (ltb 0 c.weak_ref_count) verify_failed
  if c.strong_ref_count == 0
      then ok (c, false)
      else ok (record c { strong_ref_count = c.strong_ref_count + 1 }, true)

unfoldable pub weak_ref : RefCounter → Outcome Violation RefCounter
weak_ref c = do
  ensure (ltb 0 c.weak_ref_count) verify_failed
  ok (record c { weak_ref_count = c.weak_ref_count + 1 })

unfoldable pub weak_unref : RefCounter → Outcome Violation (RefCounter × Bool)
weak_unref c = do
  ensure (ltb 0 c.weak_ref_count) verify_failed
  ok (record c { weak_ref_count = c.weak_ref_count - 1 }, c.weak_ref_count == 1)

-- An object with its counter, and the pointers to it: intrusive ones, weak ones, and the calls of
-- Unref that were told to destruct the object and have not done it yet.
pub record Object : Type 0 where
  pub counter : RefCounter
  pub intrusive : ℕ
  pub weak : ℕ
  pub destructing : ℕ
  pub constructed : Bool
  pub allocated : Bool

abbrev pub new_object : Object
new_object = record {
  counter = new_counter;
  intrusive = 1;
  weak = 0;
  destructing = 0;
  constructed = true;
  allocated = true;
}

-- Unref(obj) of the free functions: Destruct is still to come if the result is true.
unfoldable pub dropped : Object → RefCounter × Bool → Object
dropped o (c, last) = record o {
  counter = c;
  intrusive = o.intrusive - 1;
  destructing = if last then o.destructing + 1 else o.destructing;
}

-- TIntrusivePtr(ptr_, false) where TryRef gave true, and an empty pointer else.
unfoldable pub locked : Object → RefCounter × Bool → Object
locked o (c, raised) = record o {
  counter = c;
  intrusive = if raised then o.intrusive + 1 else o.intrusive;
}

-- WeakUnref(obj), which deallocates if the result is true.
unfoldable pub weakly_dropped : Object → RefCounter × Bool → Object
weakly_dropped o (c, last) = record o {
  counter = c;
  weak = o.weak - 1;
  allocated = if last then false else o.allocated;
}

-- Destruct(obj): the destructor, then WeakUnref.
unfoldable pub destructed : Object → RefCounter × Bool → Object
destructed o (c, last) = record o {
  counter = c;
  destructing = o.destructing - 1;
  constructed = false;
  allocated = if last then false else o.allocated;
}

-- TWeakPtr::operator= from a weak pointer to this object, to one that had another object or none: the
-- pointer is copied, and not counted.
unfoldable pub assigned : Object → Object
assigned o = record o { weak = o.weak + 1 }

-- TWeakPtr::operator= from a weak pointer to another object or none, to one to this object: it is not
-- given back.
unfoldable pub overwritten : Object → Object
overwritten o = record o { weak = o.weak - 1 }

-- One atomic operation of a thread that has the pointer it needs.
pub data Step : Object → Object → Type 0 where
  copy :
      (o : Object) (c : RefCounter)
      → 0 < o.intrusive
      → ref o.counter 1 ≡ ok c
      → Step o (record o { counter = c; intrusive = o.intrusive + 1 })
  release :
      (o : Object) (r : RefCounter × Bool)
      → 0 < o.intrusive
      → unref o.counter 1 ≡ ok r
      → Step o (dropped o r)
  lock :
      (o : Object) (r : RefCounter × Bool)
      → 0 < o.weak
      → try_ref o.counter ≡ ok r
      → Step o (locked o r)
  weaken :
      (o : Object) (c : RefCounter)
      → 0 < o.intrusive + o.weak
      → weak_ref o.counter ≡ ok c
      → Step o (record o { counter = c; weak = o.weak + 1 })
  weak_release :
      (o : Object) (r : RefCounter × Bool)
      → 0 < o.weak
      → weak_unref o.counter ≡ ok r
      → Step o (weakly_dropped o r)
  destruct :
      (o : Object) (r : RefCounter × Bool)
      → 0 < o.destructing
      → weak_unref o.counter ≡ ok r
      → Step o (destructed o r)
  assign : (o : Object) → 0 < o.weak → Step o (assigned o)
  overwrite : (o : Object) → 0 < o.weak → Step o (overwritten o)

-- The operations other than the assignment of weak pointers.
unfoldable pub is_counted : {o o' : Object} → Step o o' → Bool
is_counted (assign o p) = false
is_counted (overwrite o p) = false
is_counted step = true
