-- ===== src/Relation/Manager/Used.antt =====
-- The relation manager in use (lib/relation/relation_manager.cpp): registrations, lookups with their
-- caches, and Clear, in any order.
pub mod Ancestors
use my_orm.Prelude.{
  ℕ, zero, suc, ◌<◌, ◌≡◌, refl, sym, ◌∙◌, Option, none, some, [], nat_eq, bytes_eq, ok, err, arith,
  Option-cases, inl, inr, >>=-eq-ok, ok-injective,
}
use mathlib.Core.Path.{subst}
use my_orm.Prelude.Map
use my_orm.Prelude.Map.{Map, Entries}
use my_orm.Relation.Path.{MessagePath}
use my_orm.Relation.Manager.{
  Runtime, TableConfig, RootMessage, FieldBase, MessageBase, of_field, pointer_of, get_path,
  out_of_range, RelationManager, new_manager, hash, find_table,
}
use my_orm.Relation.Manager.Register.{register_root_message}
use my_orm.Relation.Manager.Lookup.{
  put, subtree, get_messages_from_subtree, get_parent_message, ancestors_from, clear, get_message,
  get_root_message, get_primitive_field, get_field, get_parent_table, get_object,
  get_object_with_ancestors,
}
use my_orm.Relation.Manager.WellFormed.{IsWellFormed}
use my_orm.Relation.Manager.Registered.{new_manager-IsWellFormed, register_root_message-ok}
use my_orm.Relation.Manager.Depth.{IsRanked}

-- A call on the manager, with the manager that it leaves. The messages that are registered are of a
-- rank below the fuel.
pub data Step (run : Runtime) (fuel : ℕ) (rank : ℕ → ℕ)
    : RelationManager → RelationManager → Type 0 where
  registers :
      (config : TableConfig) (m m' : RelationManager)
      → ((d : ℕ) → run.pool.find_message_type config.scheme ≡ some d → rank d < fuel)
      → register_root_message run fuel config m ≡ ok m'
      → Step run fuel rank m m'
  asks_subtree :
      (path : MessagePath) (m : RelationManager)
      → Step run fuel rank m (get_messages_from_subtree path m).1
  asks_ancestors :
      (rounds : ℕ) (path : MessagePath) (m : RelationManager)
      (result : Map MessagePath MessageBase × RelationManager)
      → get_object_with_ancestors run rounds path m ≡ ok result
      → Step run fuel rank m result.1
  clears : (m : RelationManager) → Step run fuel rank m (clear m)

-- The managers that calls on the empty one lead to.
pub data Used (run : Runtime) (fuel : ℕ) (rank : ℕ → ℕ) : RelationManager → Type 0 where
  start : Used run fuel rank new_manager
  after :
      (m m' : RelationManager)
      → Used run fuel rank m
      → Step run fuel rank m m'
      → Used run fuel rank m'

module _ (run : Runtime) where
  clear-IsWellFormed : (m : RelationManager) → IsWellFormed run m → IsWellFormed run (clear m)
  unfolding clear Map.lookup
  clear-IsWellFormed m w = record {
    tables = w.tables;
    messages = λ h e. cc;
    fields = λ h f. cc;
    primitives = w.primitives;
    roots = w.roots;
    parents = λ k e. cc;
    listed = w.listed;
  }

  -- A manager that differs in its caches only.
  abbrev cached :
      RelationManager
      → Map MessagePath (Map MessagePath MessageBase)
      → Map MessagePath (Map MessagePath MessageBase)
      → RelationManager
  cached m subtrees ancestors = record m {
    messages_from_subtree_cache = subtrees;
    object_with_ancestors_cache = ancestors;
  }

  cached-IsWellFormed :
      (m : RelationManager) (subtrees ancestors : Map MessagePath (Map MessagePath MessageBase))
      → IsWellFormed run m
      → IsWellFormed run (cached m subtrees ancestors)
  cached-IsWellFormed m subtrees ancestors w = record {
    tables = w.tables;
    messages = w.messages;
    fields = w.fields;
    primitives = w.primitives;
    roots = w.roots;
    parents = w.parents;
    listed = w.listed;
  }

  abbrev pub remembered :
      MessagePath → Map MessagePath MessageBase → RelationManager → RelationManager
  remembered path all m = record m {
    object_with_ancestors_cache = Map.insert path all m.object_with_ancestors_cache;
  }

  -- A call that leaves the manager as it was but for the caches.
  IsCached : RelationManager → RelationManager → Type 0
  IsCached m m' =
      (subtrees ancestors : Map MessagePath (Map MessagePath MessageBase)) × (m'
        ≡ cached m subtrees ancestors)

  IsCached-IsWellFormed :
      (m m' : RelationManager) → IsCached m m' → IsWellFormed run m → IsWellFormed run m'
  unfolding IsCached
  IsCached-IsWellFormed m m' (subtrees, ancestors, same) w =
      subst (IsWellFormed run) (sym same) (cached-IsWellFormed m subtrees ancestors w)

  subtree-IsCached :
      (path : MessagePath) (m : RelationManager) → IsCached m (get_messages_from_subtree path m).1
  unfolding get_messages_from_subtree IsCached
  subtree-IsCached path m = elim (Option-cases (Map.lookup path m.messages_from_subtree_cache)) [
    | inl missing ↦ (
      Map.insert path (subtree path m) m.messages_from_subtree_cache,
      m.object_with_ancestors_cache,
      ground (arith, missing),
    )
    | inr (known, found) ↦
        (m.messages_from_subtree_cache, m.object_with_ancestors_cache, ground (arith, found))
  ]

  ancestors-IsCached :
      (fuel : ℕ) (path : MessagePath) (m : RelationManager)
      (result : Map MessagePath MessageBase × RelationManager)
      → get_object_with_ancestors run fuel path m ≡ ok result
      → IsCached m result.1
  unfolding get_object_with_ancestors IsCached
  ancestors-IsCached fuel path m result e =
      elim (Option-cases (Map.lookup path m.object_with_ancestors_cache)) [
        | inr (known, found) ↦
            (m.messages_from_subtree_cache, m.object_with_ancestors_cache, ground (arith, found, e))
        | inl missing ↦ elim (Option-cases (get_object run path m)) [
          | inl nothing ↦ (
            m.messages_from_subtree_cache,
            Map.insert path [] m.object_with_ancestors_cache,
            ground (arith, missing, nothing, e),
          )
          | inr (object, there) ↦
              let (all, _, done) =
                >>=-eq-ok
                  (ancestors_from fuel (get_parent_message object m) m
                    (put (get_path object) object []))
                  (λ all. ok (all, remembered path all m)) {b = result}
                  (ground (arith, missing, there, e)) in
              (
                m.messages_from_subtree_cache,
                Map.insert path all m.object_with_ancestors_cache,
                ground (arith, done),
              )
        ]
      ]

  Step-IsWellFormed :
      (fuel : ℕ) (rank : ℕ → ℕ) (m m' : RelationManager)
      → IsRanked run.pool rank fuel
      → Step run fuel rank m m'
      → IsWellFormed run m
      → IsWellFormed run m'
  Step-IsWellFormed fuel rank m m' ranked (registers config _ _ deep e) w =
      let (m2, e2, w2, _) = register_root_message-ok run rank fuel ranked config m deep w in
      subst (IsWellFormed run) (ok-injective m2 m' (sym e2 ∙ e)) w2
  Step-IsWellFormed fuel rank m _ deep (asks_subtree path _) w =
      IsCached-IsWellFormed m _ (subtree-IsCached path m) w
  Step-IsWellFormed fuel rank m _ deep (asks_ancestors rounds path _ result e) w =
      IsCached-IsWellFormed m result.1 (ancestors-IsCached rounds path m result e) w
  Step-IsWellFormed fuel rank m _ deep (clears _) w = clear-IsWellFormed m w

  pub Used-IsWellFormed :
      (fuel : ℕ) (rank : ℕ → ℕ) (m : RelationManager)
      → IsRanked run.pool rank fuel
      → Used run fuel rank m
      → IsWellFormed run m
  Used-IsWellFormed fuel rank _ deep Used.start = new_manager-IsWellFormed run
  Used-IsWellFormed fuel rank m' deep (Used.after m _ u s) =
      Step-IsWellFormed fuel rank m m' deep s (Used-IsWellFormed fuel rank m deep u)

  -- What the lookups by a path find, hash by hash: an object that was made for a path with that hash,
  -- and a primitive field where one is asked for. ParentTable_ names tables that are there.
  abbrev pub AreRight : MessagePath → RelationManager → Type 0
  AreRight path m =
      ((e : MessageBase) → get_message run path m ≡ some e → hash run (get_path e) ≡ hash run path)
      × ((f : FieldBase) → get_field run path m ≡ some f → hash run f.path ≡ hash run path)
      × ((f : FieldBase)
          → get_primitive_field run path m ≡ some f
          → (hash run f.path ≡ hash run path) × (f.primitive ≡ none → ⊥))
      × ((r : RootMessage) → get_root_message run path m ≡ some r → hash run r.path ≡ hash run path)
      × (get_parent_table run path m ≡ err out_of_range → ⊥)

  -- In a manager that registrations, lookups and Clear in any order have led to, what a lookup by path
  -- finds was made for a path with the same hash, a primitive field that is found is one, and
  -- GetParentTable finds the table of every path that ParentTable_ knows. The registered messages hold
  -- none that is nested in itself, and are less deep than the fuel.
  pub lookups_right :
      (fuel : ℕ) (rank : ℕ → ℕ) (m : RelationManager) (path : MessagePath)
      → IsRanked run.pool rank fuel
      → Used run fuel rank m
      → AreRight path m
  unfolding get_message get_field get_primitive_field get_root_message get_parent_table find_table
  lookups_right fuel rank m path deep used =
      let w = Used-IsWellFormed fuel rank m deep used in
      let h = hash run path in
      (
        (λ e q. (w.messages h e q).0),
        (λ f q. (w.fields h f q).0),
        (λ f q. ((w.primitives h f q).0.0, (w.primitives h f q).1)),
        (λ r q. (w.roots h r q).0),
        λ q. elim (Option-cases (Map.lookup h m.parent_table)) [
          | inl missing ↦ ground (arith, missing, q)
          | inr (t, placed) ↦
              let (table, known) = Map.contains_value t m.table_by_path (w.tables h t placed) in
              ground (arith, placed, known, q)
        ],
      )
