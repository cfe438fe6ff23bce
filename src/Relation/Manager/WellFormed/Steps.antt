-- ===== src/Relation/Manager/WellFormed/Steps.antt =====
-- The steps of a registration keep the relation manager well-formed (lib/relation/relation_manager.cpp).
use my_orm.Prelude.{
  ℕ, ◌≡◌, refl, true, none, nat_eq, bytes_eq, Outcome, ok, arith, Option-cases, inl, inr,
}
use my_orm.Prelude.Map
use my_orm.Prelude.Map.{Map, Entries}
use my_orm.Relation.Manager.{
  Runtime, RootMessage, FieldBase, of_root, of_field, get_path, MessageInfo, TableInfo, Failure,
  add, RelationManager, find_table, add_related_message, add_related_field,
}
use my_orm.Relation.Manager.Register.{change, index_message, index_primitive, index_root, info_at}
use my_orm.Relation.Manager.WellFormed.{IsBehind, IsAt, IsWellFormed, Grows}

module _ (run : Runtime) where
  -- A change of what a table lists.
  abbrev with_table : ℕ → TableInfo → RelationManager → RelationManager
  with_table table_hash table m = record m {
    table_by_path = Map.insert table_hash table m.table_by_path;
  }

  with_table-IsWellFormed :
      (table_hash : ℕ) (table : TableInfo) (m : RelationManager)
      → IsWellFormed run m
      → IsWellFormed run (with_table table_hash table m)
  with_table-IsWellFormed table_hash table m w = record {
    tables = λ h t q. Map.contains-insert table_hash t table m.table_by_path (w.tables h t q);
    messages = w.messages;
    fields = w.fields;
    primitives = w.primitives;
    roots = w.roots;
    parents = w.parents;
    listed = w.listed;
  }

  find_table-ok :
      (h : ℕ) (m : RelationManager)
      → IsWellFormed run m
      → Map.contains h m.parent_table ≡ true
      → (table_hash : ℕ) × (table : TableInfo) × (find_table run h m ≡ ok (table_hash, table))
  unfolding find_table
  find_table-ok h m w there =
      let (table_hash, placed) = Map.contains_value h m.parent_table there in
      let (table, known) =
        Map.contains_value table_hash m.table_by_path (w.tables h table_hash placed) in
      (table_hash, table, ground (arith, placed, known))

  -- A step that does not throw, and what it leaves.
  abbrev pub Succeeds : RelationManager → Outcome Failure RelationManager → Type 0
  Succeeds m result =
      (m' : RelationManager) × (result ≡ ok m')
      × IsWellFormed run m'
      × Grows run m m'
      × (m'.created ≡ m.created)

  pub add_related_message-ok :
      (h : ℕ) (m : RelationManager)
      → IsWellFormed run m
      → Map.contains h m.parent_table ≡ true
      → Succeeds m (add_related_message run h m)
  unfolding add_related_message
  add_related_message-ok h m w there =
      let (table_hash, table, found) = find_table-ok h m w there in
      let changed = record table { related_messages = add h table.related_messages } in
      (
        with_table table_hash changed m,
        ground (arith, found),
        with_table-IsWellFormed table_hash changed m w,
        record { made = omega arith; kept = λ asked k. k },
        refl,
      )

  pub add_related_field-ok :
      (h : ℕ) (m : RelationManager)
      → IsWellFormed run m
      → Map.contains h m.parent_table ≡ true
      → Succeeds m (add_related_field run h m)
  unfolding add_related_field
  add_related_field-ok h m w there =
      let (table_hash, table, found) = find_table-ok h m w there in
      let changed = record table { related_fields = add h table.related_fields } in
      (
        with_table table_hash changed m,
        ground (arith, found),
        with_table-IsWellFormed table_hash changed m w,
        record { made = omega arith; kept = λ asked k. k },
        refl,
      )

  pub index_message-IsWellFormed :
      (h : ℕ) (field : FieldBase) (m : RelationManager)
      → IsAt run m.created h field.pointer field.path
      → IsWellFormed run m
      → IsWellFormed run (index_message h field m)
  unfolding index_message get_path
  index_message-IsWellFormed h field m stands w = record {
    tables = w.tables;
    messages = Map.insert-Entries h (of_field field) m.messages_by_path stands w.messages;
    fields = Map.insert-Entries h field m.fields_by_path stands w.fields;
    primitives = w.primitives;
    roots = w.roots;
    parents = w.parents;
    listed = w.listed;
  }

  pub index_primitive-IsWellFormed :
      (h : ℕ) (field : FieldBase) (m : RelationManager)
      → IsAt run m.created h field.pointer field.path
      → (field.primitive ≡ none → ⊥)
      → IsWellFormed run m
      → IsWellFormed run (index_primitive h field m)
  unfolding index_primitive
  index_primitive-IsWellFormed h field m stands kind w = record {
    tables = w.tables;
    messages = w.messages;
    fields = Map.insert-Entries h field m.fields_by_path stands w.fields;
    primitives = Map.insert-Entries h field m.primitive_fields_by_path (stands, kind) w.primitives;
    roots = w.roots;
    parents = w.parents;
    listed = w.listed;
  }

  pub index_root-IsWellFormed :
      (h : ℕ) (root : RootMessage) (m : RelationManager)
      → IsAt run m.created h root.pointer root.path
      → IsWellFormed run m
      → IsWellFormed run (index_root h root m)
  unfolding index_root get_path
  index_root-IsWellFormed h root m stands w = record {
    tables = w.tables;
    messages = Map.insert-Entries h (of_root root) m.messages_by_path stands w.messages;
    fields = w.fields;
    primitives = w.primitives;
    roots = Map.insert-Entries h root m.root_messages_by_path stands w.roots;
    parents = w.parents;
    listed = w.listed;
  }

  pub info_at-IsBehind :
      (pointer : ℕ) (m : RelationManager)
      → IsWellFormed run m
      → IsBehind pointer (info_at pointer m).fields
  unfolding Map.lookup
  info_at-IsBehind pointer m w = elim (Option-cases (Map.lookup pointer m.processed)) [
    | inl missing ↦ ground (arith, missing)
    | inr (info, found) ↦ ground (arith, found, w.listed pointer info found)
  ]

  -- A change of what Process sets that keeps fields behind their owner.
  pub change-IsWellFormed :
      (f : MessageInfo → MessageInfo) (pointer : ℕ) (m : RelationManager)
      → ((info : MessageInfo) → IsBehind pointer info.fields → IsBehind pointer (f info).fields)
      → IsWellFormed run m
      → IsWellFormed run (change f pointer m)
  unfolding change Map.lookup
  change-IsWellFormed f pointer m keeps w = record {
    tables = w.tables;
    messages = w.messages;
    fields = w.fields;
    primitives = w.primitives;
    roots = w.roots;
    parents = w.parents;
    listed =
        Map.insert-Entries pointer (f (info_at pointer m)) m.processed
          (keeps (info_at pointer m) (info_at-IsBehind pointer m w)) w.listed;
  }
