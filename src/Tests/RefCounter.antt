-- ===== src/Tests/RefCounter.antt =====
-- An object with an intrusive and a weak pointer, whose intrusive pointer is then released.
use my_orm.Prelude.{◌+◌, ◌<◌, ◌≡◌, ◌≢◌, refl, true, false, err, arith}
use my_orm.Common.RefCounter.{
  RefCounter, Object, new_object, ref, unref, weak_ref, try_ref, weak_unref, dropped, weaken,
  weakly_dropped, assigned, destructed, is_counted, release, verify_failed,
}
use my_orm.Common.RefCounter.Lifetime.{Reachable, lifetime, no_verify_fails}

abbrev counter_2 : RefCounter
counter_2 = record { strong_ref_count = 1; weak_ref_count = 2 }

abbrev watched : Object
watched = record new_object { counter = counter_2; weak = 1 }

abbrev counter_3 : RefCounter
counter_3 = record { strong_ref_count = 0; weak_ref_count = 2 }

abbrev orphan : Object
orphan = record new_object { counter = counter_3; intrusive = 0; weak = 1; destructing = 1 }

orphan-Reachable : Reachable orphan
unfolding dropped weak_ref unref is_counted
orphan-Reachable =
    Reachable.after watched orphan
      (Reachable.after new_object watched Reachable.start
        (weaken new_object counter_2 (omega arith) refl) refl)
      (release watched (counter_3, true) (omega arith) refl) refl

-- The copy that operator= makes is given back like the others: then a weak pointer is left to memory
-- that is freed, and a VERIFY fails when it is released.
abbrev dangling : Object
dangling =
    weakly_dropped
      (assigned (destructed orphan (record { strong_ref_count = 0; weak_ref_count = 1 }, false)))
      (record { strong_ref_count = 0; weak_ref_count = 0 }, true)

assigned_test :
    (dangling.weak ≡ 1)
    × (dangling.allocated ≡ false)
    × (weak_unref dangling.counter ≡ err verify_failed)
unfolding weakly_dropped assigned destructed weak_unref
assigned_test = (refl, refl, refl)

lifetime_example :
    (0 < orphan.intrusive
      → (orphan.constructed ≡ true) × (orphan.allocated ≡ true) × (orphan.destructing ≡ 0))
    × (0 < orphan.weak → orphan.allocated ≡ true)
    × (0 < orphan.destructing
        → (orphan.constructed ≡ true) × (orphan.allocated ≡ true) × (orphan.destructing ≡ 1))
    × (orphan.intrusive + orphan.weak + orphan.destructing ≡ 0
        → (orphan.constructed ≡ false) × (orphan.allocated ≡ false))
lifetime_example = lifetime orphan orphan-Reachable

no_verify_fails_example :
    (0 < orphan.intrusive
      → (ref orphan.counter 1 ≢ err verify_failed) × (unref orphan.counter 1 ≢ err verify_failed))
    × (0 < orphan.intrusive + orphan.weak → weak_ref orphan.counter ≢ err verify_failed)
    × (0 < orphan.weak
        → (try_ref orphan.counter ≢ err verify_failed)
          × (weak_unref orphan.counter ≢ err verify_failed))
    × (0 < orphan.destructing → weak_unref orphan.counter ≢ err verify_failed)
no_verify_fails_example = no_verify_fails orphan orphan-Reachable
