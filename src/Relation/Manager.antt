-- ===== src/Relation/Manager.antt =====
-- lib/relation/relation_manager.h, relation_manager.cpp, message.cpp and base.cpp: the relation manager,
-- and how the messages of a configuration are registered in it. A shared pointer to a field or to a
-- root is the number of the object with the members that never change; what Process changes of a
-- message is kept in `processed`, by that number.
pub mod Register
pub mod Lookup
pub mod WellFormed
pub mod Total
pub mod Registered
pub mod Recursion
pub mod Used
pub mod Depth
pub mod Subtree
use my_orm.Prelude.{
  ℕ, zero, suc, ◌+◌, Bool, true, false, ◌||◌, Option, none, some, List, [], ◌∷◌, Bytes, nat_eq,
  bytes_eq, ◌==◌, if◌then◌else◌, Outcome, ok, err, ◌>>=◌,
}
use my_orm.Prelude.Map
use my_orm.Prelude.Map.{Map}
use my_orm.Relation.Path.{MessagePath, ◌/=◌, pop_entry, get_hash}
use my_orm.Relation.Descriptor.{FieldDescriptor, Pool, is_message}
use my_orm.Relation.Field.{PrimitiveField, primitive_field}

-- std::hash, std::to_string of a float and of a double, and the pool of descriptors.
pub record Runtime : Type 0 where
  pub std_hash : ℕ → ℕ
  pub to_string32 : ℕ → Bytes
  pub to_string64 : ℕ → Bytes
  pub pool : Pool

-- The exceptions of `at` and of the ASSERTs, and more rounds than the fuel.
pub data Failure : Type 0 where
  out_of_range no_table unknown_name unknown_entry endless : Failure

-- TTableConfig
pub record TableConfig : Type 0 where
  pub number : ℕ
  pub snake_case : Bytes
  pub camel_case : Bytes
  pub scheme : Bytes

-- TRootMessage
pub record RootMessage : Type 0 where
  pub pointer : ℕ
  pub path : MessagePath
  pub config : TableConfig
  pub descriptor : Option ℕ

-- TFieldBase: a TPrimitiveFieldInfo where `primitive` is there, and else a TFieldMessage.
pub record FieldBase : Type 0 where
  pub pointer : ℕ
  pub path : MessagePath
  pub descriptor : FieldDescriptor
  pub primitive : Option PrimitiveField

-- TMessageBase
pub data MessageBase : Type 0 where
  of_root : RootMessage → MessageBase
  of_field : FieldBase → MessageBase

abbrev pub pointer_of : MessageBase → ℕ
pointer_of (of_root r) = r.pointer
pointer_of (of_field f) = f.pointer

-- TMessageBase::GetPath
unfoldable pub get_path : MessageBase → MessagePath
get_path (of_root r) = r.path
get_path (of_field f) = f.path

-- What TMessageInfo::Process sets.
pub record MessageInfo : Type 0 where
  pub message_name : Bytes
  pub fields : Map ℕ FieldBase
  pub sub_messages : List ℕ

pub record TableInfo : Type 0 where
  pub path : MessagePath
  pub related_messages : List ℕ
  pub related_fields : List ℕ
  pub primary_fields : List ℕ

-- EObjectType; `no_object` is None.
pub data ObjectType : Type 0 where
  no_object root_message field_message primitive_field_type : ObjectType

pub record RelationManager : Type 0 where
  pub created : ℕ
  pub processed : Map ℕ MessageInfo
  pub messages_by_path : Map ℕ MessageBase
  pub primitive_fields_by_path : Map ℕ FieldBase
  pub root_messages_by_path : Map ℕ RootMessage
  pub fields_by_path : Map ℕ FieldBase
  pub object_type : Map ℕ ObjectType
  pub parent_table : Map ℕ ℕ
  pub table_by_path : Map ℕ TableInfo
  pub path_to_entry_name : Map ℕ Bytes
  pub entry_name_to_entry : Map ℕ (Map Bytes ℕ)
  pub parent_map : Map ℕ MessageBase
  pub messages_from_subtree_cache : Map MessagePath (Map MessagePath MessageBase)
  pub object_with_ancestors_cache : Map MessagePath (Map MessagePath MessageBase)

unfoldable pub new_manager : RelationManager
new_manager = record {
  created = 0;
  processed = [];
  messages_by_path = [];
  primitive_fields_by_path = [];
  root_messages_by_path = [];
  fields_by_path = [];
  object_type = [];
  parent_table = [];
  table_by_path = [];
  path_to_entry_name = [];
  entry_name_to_entry = [];
  parent_map = [];
  messages_from_subtree_cache = [];
  object_with_ancestors_cache = [];
}

-- The loop of a range-based for.
abbrev pub each {ℓ κ} :
    {A : Type ℓ} {S : Type κ} → (A → S → Outcome Failure S) → List A → S → Outcome Failure S
each f [] s = ok s
each f (x ∷ xs) s = f x s >>= each f xs

abbrev contains_hash : ℕ → List ℕ → Bool
contains_hash h [] = false
contains_hash h (x ∷ xs) = x == h || contains_hash h xs

-- emplace into an unordered_set, and merge of two.
abbrev pub add : ℕ → List ℕ → List ℕ
add h set = if contains_hash h set then set else h ∷ set

abbrev pub merge : List ℕ → List ℕ → List ℕ
merge [] set = set
merge (h ∷ more) set = add h (merge more set)

abbrev pub is_true : Option Bool → Bool
is_true none = false
is_true (some b) = b

module _ (run : Runtime) where
  abbrev pub hash : MessagePath → ℕ
  hash path = get_hash run.std_hash path

  -- The body of the loop of FindPrimaryFields.
  unfoldable pub primary_field :
      (find : ℕ → MessagePath → Outcome Failure (List ℕ)) (base : MessagePath)
      (field : FieldDescriptor)
      → List ℕ
      → Outcome Failure (List ℕ)
  unfolding get_hash ◌/=◌ is_message
  primary_field find base field result =
      let field_path = base /= field.number in
      let own =
        if is_true field.options.primary_key then add (hash field_path) result else result in
      if field.is_repeated || field.is_map
      then ok result
      else if is_message field
      then (find field.message field_path >>= λ more. ok (merge more own))
      else ok own

  -- FindPrimaryFields, which recurs for as long as messages hold messages.
  unfoldable pub find_primary_fields :
      (fuel descriptor : ℕ) (base : MessagePath) → Outcome Failure (List ℕ)
  unfolding primary_field
  find_primary_fields zero descriptor base = err endless
  find_primary_fields (suc fuel) descriptor base =
      each (primary_field (find_primary_fields fuel) base) (run.pool.fields descriptor) []

  -- TTableInfo::TTableInfo
  unfoldable pub new_table : (fuel : ℕ) → MessagePath → Option ℕ → Outcome Failure TableInfo
  unfolding find_primary_fields
  new_table fuel path none =
      ok (record { path = path; related_messages = []; related_fields = []; primary_fields = [] })
  new_table fuel path (some descriptor) = find_primary_fields fuel descriptor path >>= λ keys.
      ok (record { path = path; related_messages = []; related_fields = []; primary_fields = keys })

  -- The hash of the table that GetParentTable finds, and the table.
  unfoldable pub find_table : ℕ → RelationManager → Outcome Failure (ℕ × TableInfo)
  unfolding Map.lookup
  find_table path_hash m = elim (Map.lookup path_hash m.parent_table) [
    | none ↦ err no_table
    | some table_hash ↦ elim (Map.lookup table_hash m.table_by_path) [
      | none ↦ err out_of_range
      | some table ↦ ok (table_hash, table)
    ]
  ]

  -- GetParentTable(...)->AddRelatedMessage(pathHash)
  unfoldable pub add_related_message : ℕ → RelationManager → Outcome Failure RelationManager
  unfolding find_table Map.insert
  add_related_message h m = do
    (table_hash, table) ← find_table h m
    let changed = record table { related_messages = add h table.related_messages }
    ok (record m { table_by_path = Map.insert table_hash changed m.table_by_path })

  unfoldable pub add_related_field : ℕ → RelationManager → Outcome Failure RelationManager
  unfolding find_table Map.insert
  add_related_field h m = do
    (table_hash, table) ← find_table h m
    let changed = record table { related_fields = add h table.related_fields }
    ok (record m { table_by_path = Map.insert table_hash changed m.table_by_path })
