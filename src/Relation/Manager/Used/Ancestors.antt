-- ===== src/Relation/Manager/Used/Ancestors.antt =====
-- The objects above an object (lib/relation/relation_manager.cpp, GetObjectWithAncestors): the loop over
-- parents.
use my_orm.Prelude.{
  ℕ, zero, suc, ◌<◌, ◌≡◌, refl, Option, none, some, [], nat_eq, bytes_eq, ok, arith, Option-cases,
  inl, inr,
}
use mathlib.Core.Path.{subst}
use my_orm.Prelude.Map
use my_orm.Prelude.Map.{Map}
use my_orm.Relation.Path.{MessagePath}
use my_orm.Relation.Manager.{
  Runtime, MessageBase, of_field, pointer_of, get_path, RelationManager, hash,
}
use my_orm.Relation.Manager.Lookup.{
  put, get_parent_message, ancestors_from, get_message, get_field, get_object,
  get_object_with_ancestors,
}
use my_orm.Relation.Manager.WellFormed.{IsWellFormed}
use my_orm.Relation.Manager.Depth.{IsRanked}
use my_orm.Relation.Manager.Used.{Used, Used-IsWellFormed, remembered}

module _ (run : Runtime) where
  -- The loop over parents: each was made before its child.
  ancestors_from-ok :
      (fuel : ℕ) (parent : Option MessageBase) (m : RelationManager)
      (result : Map MessagePath MessageBase)
      → IsWellFormed run m
      → 0 < fuel
      → ((e : MessageBase) → parent ≡ some e → suc (pointer_of e) < fuel)
      → (all : Map MessagePath MessageBase) × (ancestors_from fuel parent m result ≡ ok all)
  unfolding ancestors_from get_parent_message
  ancestors_from-ok zero parent m result w some_fuel below = absurd (omega arith)
  ancestors_from-ok (suc fuel) none m result w some_fuel below = (result, refl)
  ancestors_from-ok (suc fuel) (some e) m result w some_fuel below =
      let less = below e refl in
      ancestors_from-ok fuel (get_parent_message e m) m (put (get_path e) e result) w (omega arith)
        (λ p q. let older = w.parents (pointer_of e) p q in omega arith)

  get_object-made :
      (path : MessagePath) (m : RelationManager) (object : MessageBase)
      → IsWellFormed run m
      → get_object run path m ≡ some object
      → pointer_of object < m.created
  unfolding get_object get_message get_field
  get_object-made path m object w found =
      elim (Option-cases (Map.lookup (hash run path) m.messages_by_path)) [
        | inr (message, there) ↦
            let same : message ≡ object = ground (arith, there, found) in
            subst (λ e. pointer_of e < m.created) same (w.messages (hash run path) message there).1
        | inl missing ↦ elim (Option-cases (Map.lookup (hash run path) m.fields_by_path)) [
          | inl nothing ↦ absurd (ground (arith, missing, nothing, found))
          | inr (field, there) ↦
              let same : of_field field ≡ object = ground (arith, missing, there, found) in
              subst (λ e. pointer_of e < m.created) same (w.fields (hash run path) field there).1
        ]
      ]

  -- In a manager that registrations, lookups and Clear in any order have led to, GetObjectWithAncestors
  -- ends: its loop has no more rounds than objects were made. The registered messages hold none
  -- that is nested in itself, and are less deep than the fuel.
  pub get_object_with_ancestors_ends :
      (fuel : ℕ) (rank : ℕ → ℕ) (m : RelationManager) (path : MessagePath)
      → IsRanked run.pool rank fuel
      → Used run fuel rank m
      → (result : _) × (get_object_with_ancestors run (suc m.created) path m ≡ ok result)
  unfolding get_object_with_ancestors get_parent_message
  get_object_with_ancestors_ends fuel rank m path deep used =
      let w = Used-IsWellFormed run fuel rank m deep used in
      elim (Option-cases (Map.lookup path m.object_with_ancestors_cache)) [
        | inr (known, found) ↦ ((known, m), ground (arith, found))
        | inl missing ↦ elim (Option-cases (get_object run path m)) [
          | inl nothing ↦ (([], remembered run path [] m), ground (arith, missing, nothing))
          | inr (object, there) ↦
              let made = get_object-made path m object w there in
              let (all, done) =
                ancestors_from-ok (suc m.created) (get_parent_message object m) m
                  (put (get_path object) object []) w (omega arith)
                  (λ e q. let older = w.parents (pointer_of object) e q in omega arith) in
              ((all, remembered run path all m), ground (arith, missing, there, done))
        ]
      ]
