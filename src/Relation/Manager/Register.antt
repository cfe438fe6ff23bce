-- ===== src/Relation/Manager/Register.antt =====
-- The registration of messages: RegisterRoot, RegisterField and SetParentMessage of relation_manager.cpp,
-- Process and what it calls in message.cpp (lib/relation).
use my_orm.Prelude.{
  ℕ, zero, suc, Option, none, some, [], ◌∷◌, Bytes, nat_eq, bytes_eq, if◌then◌else◌, Outcome, ok,
  err, ◌>>=◌,
}
use my_orm.Prelude.Map
use my_orm.Prelude.Map.{Map}
use my_orm.Relation.Path.{MessagePath, ◌/=◌, pop_entry, get_hash}
use my_orm.Relation.Descriptor.{FieldDescriptor, is_message}
use my_orm.Relation.Field.{primitive_field}
use my_orm.Relation.Manager.{
  Runtime, Failure, out_of_range, endless, TableConfig, RootMessage, FieldBase, MessageBase,
  of_root, of_field, pointer_of, MessageInfo, root_message, field_message, primitive_field_type,
  RelationManager, each, hash, new_table, add, add_related_message, add_related_field,
}

-- SetParentMessage, of an entity that is there.
unfoldable pub set_parent_message : MessageBase → MessageBase → RelationManager → RelationManager
unfolding Map.insert
set_parent_message entity parent m = record m {
  parent_map = Map.insert (pointer_of entity) parent m.parent_map;
  object_with_ancestors_cache = [];
}

abbrev names_at : ℕ → Map ℕ (Map Bytes ℕ) → Map Bytes ℕ
names_at h names = elim (Map.lookup h names) [ none ↦ [] | some known ↦ known ]

-- PathToEntryName_[h] = name, and EntryNameToEntry_[parent][name] = number.
unfoldable pub name_entry :
    (h parent : ℕ) (name : Bytes) (number : ℕ) → RelationManager → RelationManager
unfolding Map.lookup Map.insert
name_entry h parent name number m = record m {
  path_to_entry_name = Map.insert h name m.path_to_entry_name;
  entry_name_to_entry =
      Map.insert parent (Map.insert name number (names_at parent m.entry_name_to_entry))
        m.entry_name_to_entry;
}

-- ParentTable_.emplace(h, ParentTable_.at(parent))
unfoldable pub inherit_table : (h parent : ℕ) → RelationManager → Outcome Failure RelationManager
unfolding Map.lookup Map.emplace
inherit_table h parent m = elim (Map.lookup parent m.parent_table) [
  | none ↦ err out_of_range
  | some table_hash ↦ ok (record m { parent_table = Map.emplace h table_hash m.parent_table })
]

abbrev empty_info : MessageInfo
empty_info = record { message_name = []; fields = []; sub_messages = [] }

abbrev pub info_at : ℕ → RelationManager → MessageInfo
info_at pointer m = elim (Map.lookup pointer m.processed) [ none ↦ empty_info | some info ↦ info ]

-- A change of what Process sets in a message.
unfoldable pub change : (MessageInfo → MessageInfo) → ℕ → RelationManager → RelationManager
unfolding Map.lookup Map.insert
change f pointer m = record m { processed = Map.insert pointer (f (info_at pointer m)) m.processed }

-- MessagesByPath_, FieldsByPath_ and ObjectType_ of a TFieldMessage.
unfoldable pub index_message : ℕ → FieldBase → RelationManager → RelationManager
unfolding Map.insert
index_message h field m = record m {
  messages_by_path = Map.insert h (of_field field) m.messages_by_path;
  fields_by_path = Map.insert h field m.fields_by_path;
  object_type = Map.insert h field_message m.object_type;
}

unfoldable pub index_primitive : ℕ → FieldBase → RelationManager → RelationManager
unfolding Map.insert
index_primitive h field m = record m {
  fields_by_path = Map.insert h field m.fields_by_path;
  primitive_fields_by_path = Map.insert h field m.primitive_fields_by_path;
  object_type = Map.insert h primitive_field_type m.object_type;
}

unfoldable pub index_root : ℕ → RootMessage → RelationManager → RelationManager
unfolding Map.insert
index_root h root m = record m {
  messages_by_path = Map.insert h (of_root root) m.messages_by_path;
  root_messages_by_path = Map.insert h root m.root_messages_by_path;
  object_type = Map.insert h root_message m.object_type;
}

-- Process of the object with this number, descriptor and path.
abbrev pub Process : Type 0
Process =
    (pointer descriptor : ℕ) (path : MessagePath)
    → RelationManager
    → Outcome Failure RelationManager

module _ (run : Runtime) where
  -- The two branches of RegisterField.
  unfoldable pub list_field :
      Process → FieldBase → RelationManager → Outcome Failure RelationManager
  unfolding get_hash add_related_message add_related_field index_message index_primitive
  list_field process field m =
      let path_hash = hash run field.path in
      elim field.primitive [
        | none ↦ add_related_message run path_hash m >>= λ related.
            process field.pointer field.descriptor.message field.path
              (index_message path_hash field related)
        | some primitive ↦ add_related_field run path_hash m >>= λ related.
            ok (index_primitive path_hash field related)
      ]

  -- TRelationManager::RegisterField
  unfoldable pub register_field :
      Process → FieldBase → RelationManager → Outcome Failure RelationManager
  unfolding get_hash pop_entry name_entry inherit_table list_field
  register_field process field m =
      let path_hash = hash run field.path in
      let parent_hash = hash run (pop_entry field.path) in
      let named =
        name_entry path_hash parent_hash field.descriptor.name field.descriptor.number m in
      inherit_table path_hash parent_hash named >>= list_field process field

  -- std::make_shared of a field, at a path.
  unfoldable pub new_field : FieldDescriptor → MessagePath → RelationManager → FieldBase
  unfolding ◌/=◌ is_message primitive_field
  new_field field path m = record {
    pointer = m.created;
    path = path /= field.number;
    descriptor = field;
    primitive =
        if is_message field
        then none
        else some (primitive_field run.to_string32 run.to_string64 field);
  }

  abbrev pub with_object : RelationManager → RelationManager
  with_object m = record m { created = suc m.created }

  -- RegisterMessageField: the parent is looked up before the field is registered.
  unfoldable pub adopt : Option MessageBase → FieldBase → RelationManager → RelationManager
  unfolding set_parent_message
  adopt none field m = m
  adopt (some parent) field m = set_parent_message (of_field field) parent m

  unfoldable pub register_primitive_field :
      Process
      → FieldDescriptor
      → MessagePath
      → RelationManager
      → Outcome Failure (FieldBase × RelationManager)
  unfolding new_field register_field
  register_primitive_field process desc path m =
      let field = new_field desc path m in
      register_field process field (with_object m) >>= λ registered. ok (field, registered)

  unfoldable pub register_message_field :
      Process
      → FieldDescriptor
      → MessagePath
      → RelationManager
      → Outcome Failure (FieldBase × RelationManager)
  unfolding get_hash Map.lookup new_field register_field adopt
  register_message_field process desc path m =
      let field = new_field desc path m in
      let parent = Map.lookup (hash run path) m.messages_by_path in
      register_field process field (with_object m) >>= λ registered.
      ok (field, adopt parent field registered)

  abbrev pub note_entry : ℕ → MessageInfo → MessageInfo
  note_entry number info = record info { sub_messages = add number info.sub_messages }

  abbrev pub list_entry : ℕ → FieldBase → MessageInfo → MessageInfo
  list_entry number field info = record info { fields = Map.insert number field info.fields }

  -- The body of the loop of TMessageInfo::Process.
  unfoldable pub add_field :
      Process
      → (pointer : ℕ) (path : MessagePath) (desc : FieldDescriptor) → RelationManager
      → Outcome Failure RelationManager
  unfolding Map.insert is_message change register_primitive_field register_message_field
  add_field process pointer path desc m =
      (if is_message desc
        then register_message_field process desc path (change (note_entry desc.number) pointer m)
        else register_primitive_field process desc path m)
      >>= λ (field, registered). ok (change (list_entry desc.number field) pointer registered)

  -- TMessageInfo::Process, of a message that has a descriptor. It recurs for as long as messages hold
  -- messages.
  unfoldable pub process : (fuel : ℕ) → Process
  unfolding change add_field
  process zero pointer descriptor path m = err endless
  process (suc fuel) pointer descriptor path m =
      each (add_field (process fuel) pointer path) (run.pool.fields descriptor)
        (change (λ info. record info { message_name = run.pool.name descriptor }) pointer m)

  unfoldable pub process_root :
      (fuel : ℕ) → RootMessage → RelationManager → Outcome Failure RelationManager
  unfolding process
  process_root fuel root m = elim root.descriptor [
    | none ↦ ok m
    | some descriptor ↦ process fuel root.pointer descriptor root.path m
  ]

  -- The loop at the end of RegisterRoot.
  abbrev pub adopt_all : MessageBase → Map ℕ FieldBase → RelationManager → RelationManager
  adopt_all parent [] m = m
  adopt_all parent (entry ∷ fields) m =
      adopt_all parent fields (set_parent_message (of_field entry.1) parent m)

  -- TRelationManager::RegisterRoot
  unfoldable pub register_root :
      (fuel : ℕ) → RootMessage → RelationManager → Outcome Failure RelationManager
  unfolding get_hash Map.insert Map.emplace Map.lookup new_table name_entry process_root index_root
      set_parent_message
  register_root fuel root m =
      let h = hash run root.path in
      new_table run fuel root.path root.descriptor >>= λ table.
      let placed = record m {
        table_by_path = Map.insert h (record table { related_messages = add h [] }) m.table_by_path;
        parent_table = Map.emplace h h m.parent_table;
      } in
      process_root fuel root (name_entry h 0 root.config.snake_case root.config.number placed)
      >>= λ done.
          ok (adopt_all (of_root root) (info_at root.pointer done).fields (index_root h root done))

  -- RegisterRootMessage, of a configuration that is there.
  unfoldable pub register_root_message :
      (fuel : ℕ) → TableConfig → RelationManager → Outcome Failure RelationManager
  unfolding register_root
  register_root_message fuel config m =
      register_root fuel
        (record {
          pointer = m.created;
          path = config.number ∷ [];
          config = config;
          descriptor = run.pool.find_message_type config.scheme;
        })
        (with_object m)
