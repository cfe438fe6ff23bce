-- ===== src/Relation/Manager/Lookup.antt =====
-- The lookups of relation_manager.cpp, and what path.cpp reads of the relation manager: names and tables
-- (lib/relation).
use my_orm.Prelude.{
  ℕ, zero, suc, ◌||◌, Option, none, some, List, [], ◌∷◌, ◌++◌, Bytes, codes, nat_eq, bytes_eq,
  length, drop, if◌then◌else◌, Outcome, ok, err, ◌>>=◌,
}
use my_orm.Prelude.Map
use my_orm.Prelude.Map.{Map}
use my_orm.Common.Text.Split.{split}
use my_orm.Relation.Path.{MessagePath, eq, lt, is_ancestor_of, get_hash, get_next_path_entry_hash}
use my_orm.Relation.Manager.{
  Runtime, Failure, unknown_name, unknown_entry, endless, RootMessage, FieldBase, MessageBase,
  of_field, pointer_of, get_path, TableInfo, ObjectType, no_object, RelationManager, each, hash,
  find_table,
}

-- result[path] = value, in a std::map that is ordered by operator<.
unfoldable pub put :
    MessagePath → MessageBase → Map MessagePath MessageBase → Map MessagePath MessageBase
unfolding lt eq
put path value [] = (path, value) ∷ []
put path value (entry ∷ rest) =
    let later = put path value rest in
    if eq path entry.0
    then (path, value) ∷ rest
    else if lt path entry.0
    then (path, value) ∷ entry ∷ rest
    else entry ∷ later

-- The loop of GetMessagesFromSubtree.
unfoldable pub subtree_from :
    (root_path : MessagePath)
    → Map ℕ MessageBase
    → Map MessagePath MessageBase
    → Map MessagePath MessageBase
unfolding is_ancestor_of eq get_path put
subtree_from root_path [] result = result
subtree_from root_path (entry ∷ rest) result =
    let path = get_path entry.1 in
    let within = is_ancestor_of root_path path || eq root_path path in
    subtree_from root_path rest (if within then put path entry.1 result else result)

unfoldable pub subtree : MessagePath → RelationManager → Map MessagePath MessageBase
unfolding subtree_from
subtree [] m = []
subtree (number ∷ path) m = subtree_from (number ∷ path) m.messages_by_path []

-- GetMessagesFromSubtree, with its cache.
unfoldable pub get_messages_from_subtree :
    MessagePath → RelationManager → Map MessagePath MessageBase × RelationManager
unfolding Map.lookup Map.insert subtree
get_messages_from_subtree root_path m = elim (Map.lookup root_path m.messages_from_subtree_cache) [
  | some cached ↦ (cached, m)
  | none ↦ (
    subtree root_path m,
    record m {
      messages_from_subtree_cache =
          Map.insert root_path (subtree root_path m) m.messages_from_subtree_cache;
    },
  )
]

-- GetParentMessage, of an entity that is there.
unfoldable pub get_parent_message : MessageBase → RelationManager → Option MessageBase
unfolding Map.lookup
get_parent_message entity m = Map.lookup (pointer_of entity) m.parent_map

-- The loop of GetObjectWithAncestors.
unfoldable pub ancestors_from :
    (fuel : ℕ)
    → Option MessageBase
    → RelationManager
    → Map MessagePath MessageBase
    → Outcome Failure (Map MessagePath MessageBase)
unfolding get_path put get_parent_message
ancestors_from zero parent m result = err endless
ancestors_from (suc fuel) none m result = ok result
ancestors_from (suc fuel) (some parent) m result =
    ancestors_from fuel (get_parent_message parent m) m (put (get_path parent) parent result)

-- Clear
unfoldable pub clear : RelationManager → RelationManager
clear m = record m { messages_by_path = []; fields_by_path = []; parent_map = [] }

module _ (run : Runtime) where
  unfoldable pub get_message : MessagePath → RelationManager → Option MessageBase
  unfolding get_hash Map.lookup
  get_message path m = Map.lookup (hash run path) m.messages_by_path

  unfoldable pub get_root_message : MessagePath → RelationManager → Option RootMessage
  unfolding get_hash Map.lookup
  get_root_message path m = Map.lookup (hash run path) m.root_messages_by_path

  unfoldable pub get_primitive_field : MessagePath → RelationManager → Option FieldBase
  unfolding get_hash Map.lookup
  get_primitive_field path m = Map.lookup (hash run path) m.primitive_fields_by_path

  unfoldable pub get_field : MessagePath → RelationManager → Option FieldBase
  unfolding get_hash Map.lookup
  get_field path m = Map.lookup (hash run path) m.fields_by_path

  -- GetObject: a message, and else a field.
  unfoldable pub get_object : MessagePath → RelationManager → Option MessageBase
  unfolding get_message get_field
  get_object path m = elim (get_message path m) [
    | some message ↦ some message
    | none ↦ elim (get_field path m) [ none ↦ none | some field ↦ some (of_field field) ]
  ]

  unfoldable pub get_object_type : MessagePath → RelationManager → ObjectType
  unfolding get_hash Map.lookup
  get_object_type path m = elim (Map.lookup (hash run path) m.object_type) [
    | none ↦ no_object
    | some type ↦ type
  ]

  unfoldable pub get_parent_table : MessagePath → RelationManager → Outcome Failure TableInfo
  unfolding get_hash find_table
  get_parent_table path m = find_table run (hash run path) m >>= λ found. ok found.1

  -- GetObjectWithAncestors, with its cache.
  unfoldable pub get_object_with_ancestors :
      (fuel : ℕ)
      → MessagePath
      → RelationManager
      → Outcome Failure (Map MessagePath MessageBase × RelationManager)
  unfolding Map.lookup Map.insert get_object get_path put get_parent_message ancestors_from
  get_object_with_ancestors fuel path m = elim (Map.lookup path m.object_with_ancestors_cache) [
    | some cached ↦ ok (cached, m)
    | none ↦ elim (get_object path m) [
      | none ↦ ok ([], remember [])
      | some object ↦
          ancestors_from fuel (get_parent_message object m) m (put (get_path object) object [])
          >>= λ result. ok (result, remember result)
    ]
  ]
    where
      remember : Map MessagePath MessageBase → RelationManager
      remember result = record m {
        object_with_ancestors_cache = Map.insert path result m.object_with_ancestors_cache;
      }

  -- TMessagePath::name
  unfoldable pub name : MessagePath → RelationManager → Outcome Failure Bytes
  unfolding get_hash Map.lookup
  name path m = elim (Map.lookup (hash run path) m.path_to_entry_name) [
    | none ↦ err unknown_name
    | some text ↦ ok text
  ]

  -- TMessagePath::AppendEntry of a name. The lookup of the names leaves an empty map behind, which no
  -- other call tells from none.
  unfoldable pub append_entry : RelationManager → Bytes → MessagePath → Outcome Failure MessagePath
  unfolding get_hash Map.lookup
  append_entry m entry path = elim (Map.lookup (hash run path) m.entry_name_to_entry) [
    | none ↦ err unknown_entry
    | some names ↦ elim (Map.lookup entry names) [
      | none ↦ err unknown_entry
      | some number ↦ ok (path ++ number ∷ [])
    ]
  ]

  -- operator/=(const std::string&)
  unfoldable pub append_text : RelationManager → Bytes → MessagePath → Outcome Failure MessagePath
  unfolding split append_entry
  append_text m text path = elim (split text (codes "/") 0) [
    | none ↦ err endless
    | some entries ↦ each (append_entry m) entries path
  ]

  -- The loop of TMessagePath::String.
  unfoldable pub names_from : RelationManager → (hash_value : ℕ) → MessagePath → List Bytes
  unfolding get_next_path_entry_hash Map.lookup
  names_from m hash_value [] = []
  names_from m hash_value (entry ∷ path) =
      let next = get_next_path_entry_hash run.std_hash hash_value entry in
      let rest = names_from m next path in
      elim (Map.lookup next m.path_to_entry_name) [ none ↦ [] | some text ↦ text ∷ rest ]

  unfoldable pub string : MessagePath → RelationManager → List Bytes
  unfolding names_from
  string path m = names_from m 0 path

  -- TMessagePath::GetTablePath
  unfoldable pub get_table_path : MessagePath → RelationManager → Outcome Failure MessagePath
  unfolding get_parent_table
  get_table_path path m = get_parent_table path m >>= λ table. ok table.path

  -- TMessagePath::GetField
  unfoldable pub get_field_entries : MessagePath → RelationManager → Outcome Failure (List ℕ)
  unfolding get_table_path
  get_field_entries path m = get_table_path path m >>= λ table. ok (drop (length table) path)
