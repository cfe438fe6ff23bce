-- ===== src/Relation/Manager/Registered.antt =====
-- What a registered message is found as (lib/relation/message.cpp, relation_manager.cpp).
use my_orm.Prelude.{
  ℕ, ◌<◌, ◌≡◌, refl, ap, ◌∙◌, true, some, [], ◌∷◌, nat_eq, bytes_eq, ok, arith, Option-cases, inl,
  inr,
}
use my_orm.Prelude.Map
use my_orm.Prelude.Map.{Map, Entries}
use my_orm.Relation.Manager.{
  Runtime, TableConfig, RootMessage, FieldBase, MessageBase, of_root, of_field, pointer_of,
  TableInfo, RelationManager, new_manager, hash, add,
}
use my_orm.Relation.Manager.Register.{
  set_parent_message, name_entry, index_root, with_object, info_at, process_root, adopt_all,
  register_root, register_root_message,
}
use my_orm.Relation.Manager.Lookup.{get_root_message}
use my_orm.Relation.Manager.WellFormed.{
  IsBehind, IsWellFormed, Grows, Grows-refl, with_object-IsWellFormed,
  set_parent_message-IsWellFormed, name_entry-IsWellFormed,
}
use my_orm.Relation.Manager.WellFormed.Steps.{index_root-IsWellFormed, info_at-IsBehind}
use my_orm.Relation.Manager.Total.{Ends}
use my_orm.Relation.Manager.Depth.{IsRanked, process-ok, new_table-ok}

pub new_manager-IsWellFormed : (run : Runtime) → IsWellFormed run new_manager
unfolding new_manager Map.lookup
new_manager-IsWellFormed run = record {
  tables = λ h t. cc;
  messages = λ h e. cc;
  fields = λ h f. cc;
  primitives = λ h f. cc;
  roots = λ h r. cc;
  parents = λ k e. cc;
  listed = λ k i. cc;
}

-- The table of a root, before it is processed.
abbrev pub with_table_of : ℕ → TableInfo → RelationManager → RelationManager
with_table_of key table m = record m {
  table_by_path = Map.insert key table m.table_by_path;
  parent_table = Map.emplace key key m.parent_table;
}

pub with_table_of-ok :
    {run : Runtime} (key : ℕ) (table : TableInfo) (m : RelationManager)
    → IsWellFormed run m
    → IsWellFormed run (with_table_of key table m)
with_table_of-ok {run} key table m w = record {
  tables =
      Map.emplace-Entries key key m.parent_table
        (Map.contains-insert_self key table m.table_by_path)
        (λ h t q. Map.contains-insert key t table m.table_by_path (w.tables h t q));
  messages = w.messages;
  fields = w.fields;
  primitives = w.primitives;
  roots = w.roots;
  parents = w.parents;
  listed = w.listed;
}

-- A registration that succeeds, and the root that is found.
abbrev pub IsRegistered : Runtime → ℕ → TableConfig → RelationManager → Type 0
IsRegistered run fuel config m =
    (m' : RelationManager) × (register_root_message run fuel config m ≡ ok m')
    × IsWellFormed run m'
    × ((root : RootMessage) × (root.config ≡ config)
        × (get_root_message run (config.number ∷ []) m' ≡ some root))

module _ (run : Runtime) (rank : ℕ → ℕ) (fuel : ℕ) (ranked : IsRanked run.pool rank fuel) where
  process_root-ok :
      (root : RootMessage) (m : RelationManager)
      → ((d : ℕ) → root.descriptor ≡ some d → rank d < fuel)
      → IsWellFormed run m
      → root.pointer < m.created
      → Map.contains (hash run root.path) m.parent_table ≡ true
      → Ends run m (process_root run fuel root m)
  unfolding process_root
  process_root-ok root m h w made placed = elim (Option-cases root.descriptor) [
    | inl missing ↦ (m, ground (arith, missing), w, Grows-refl run m)
    | inr (d, there) ↦
        let (m', e, w', g') =
          process-ok run rank fuel ranked fuel d (h d there) (h d there) root.pointer root.path m w
            made placed in
        (m', ground (arith, there, e), w', g')
  ]

  adopt_all-ok :
      (parent : MessageBase) (fields : Map ℕ FieldBase) (m : RelationManager)
      → IsBehind (pointer_of parent) fields
      → IsWellFormed run m
      → IsWellFormed run (adopt_all run parent fields m)
        × Grows run m (adopt_all run parent fields m)
        × ((adopt_all run parent fields m).root_messages_by_path ≡ m.root_messages_by_path)
  unfolding set_parent_message
  adopt_all-ok parent [] m h w = (w, Grows-refl run m, refl)
  adopt_all-ok parent (entry ∷ fields) m (below, h) w =
      let next = set_parent_message (of_field entry.1) parent m in
      let (w', g', same) =
        adopt_all-ok parent fields next h
          (set_parent_message-IsWellFormed run (of_field entry.1) parent m below w) in
      (w', record { made = g'.made; kept = g'.kept }, same)

  -- RegisterRoot ends without an exception, keeps the manager well-formed, and the message is found.
  register_root-ok :
      (root : RootMessage) (m : RelationManager)
      → ((d : ℕ) → root.descriptor ≡ some d → rank d < fuel)
      → IsWellFormed run m
      → root.pointer < m.created
      → (m' : RelationManager) × (register_root run fuel root m ≡ ok m')
        × IsWellFormed run m'
        × Grows run m m'
        × (get_root_message run root.path m' ≡ some root)
  unfolding register_root name_entry index_root get_root_message
  register_root-ok root m h w made =
      let key = hash run root.path in
      let (table, t) =
        new_table-ok run rank fuel ranked fuel root.path root.descriptor (λ d e. (h d e, h d e)) in
      let placed = with_table_of key (record table { related_messages = add key [] }) m in
      let w0 = with_table_of-ok key (record table { related_messages = add key [] }) m w in
      let w1 =
        name_entry-IsWellFormed run key 0 root.config.number root.config.snake_case placed w0 in
      let (m2, e2, w2, g2) =
        process_root-ok root (name_entry key 0 root.config.snake_case root.config.number placed) h
          w1 made (Map.contains-emplace_self key key m.parent_table) in
      let w3 = index_root-IsWellFormed run key root m2 (refl, omega (arith, g2.made)) w2 in
      let (w4, g4, same) =
        adopt_all-ok (of_root root) (info_at root.pointer m2).fields (index_root key root m2)
          (info_at-IsBehind run root.pointer m2 w2) w3 in
      (
        adopt_all run (of_root root) (info_at root.pointer m2).fields (index_root key root m2),
        ground (arith, t, e2),
        w4,
        record {
          made = omega (arith, g2.made, g4.made);
          kept = λ x k. g4.kept x (g2.kept x (Map.contains-emplace key x key m.parent_table k));
        },
        ap (Map.lookup key) same ∙ Map.lookup-insert_self key root m2.root_messages_by_path,
      )

  -- The registration of a root message of the configuration, which holds no message that is nested in
  -- itself and is less deep than the fuel, throws nothing, keeps the manager well-formed, and the
  -- message is found at its path. Other messages of the pool may be nested in themselves.
  pub register_root_message-ok :
      (config : TableConfig) (m : RelationManager)
      → ((d : ℕ) → run.pool.find_message_type config.scheme ≡ some d → rank d < fuel)
      → IsWellFormed run m
      → IsRegistered run fuel config m
  unfolding register_root_message
  register_root_message-ok config m h w =
      let root : RootMessage = record {
        pointer = m.created;
        path = config.number ∷ [];
        config = config;
        descriptor = run.pool.find_message_type config.scheme;
      } in
      let (m', e, w', g', found) =
        register_root-ok root (with_object run m) h (with_object-IsWellFormed run m w)
          (omega arith) in
      (m', e, w', (root, refl, found))
