-- ===== src/Tests/Manager.antt =====
-- A user with an address, as in tests/relation/relation_manager_test.cpp.
use my_orm.Prelude.{
  ℕ, zero, suc, ◌<◌, ◌≡◌, refl, true, false, Option, none, some, List, [], ◌∷◌, Bytes, codes,
  nat_eq, bytes_eq, Outcome, ok, err, All, arith,
}
use my_orm.Prelude.Map
use my_orm.Prelude.Map.{Map, Entries}
use my_orm.Prelude.Int.{pos}
use my_orm.QueryBuilder.Clause.{int32_info}
use my_orm.Relation.Path.{get_hash, MessagePath}
use my_orm.Relation.Descriptor.{
  ValueType, int32_type, message_type, string_type, FieldOptions, FieldDescriptor, singular,
  optional, get_field_type_info, is_message,
}
use my_orm.Relation.Field.{primitive_field}
use my_orm.Relation.Manager.{
  Runtime, Failure, TableConfig, MessageBase, of_root, get_path, ObjectType, root_message,
  field_message, primitive_field_type, no_object, RelationManager, new_manager, TableInfo, hash,
  endless,
}
use my_orm.Relation.Manager.Register.{register_root_message, process, with_object}
use my_orm.Relation.Manager.Lookup.{
  get_object_type, get_object_with_ancestors, get_messages_from_subtree, name, string, append_text,
  get_field_entries, clear,
}
use my_orm.Relation.Manager.Registered.{
  IsRegistered, new_manager-IsWellFormed, with_table_of, with_table_of-ok, register_root_message-ok,
}
use my_orm.Relation.Manager.WellFormed.{IsWellFormed, with_object-IsWellFormed}
use my_orm.Relation.Manager.Depth.{IsRanked}
use my_orm.Relation.Manager.Recursion.{process_endless}
use my_orm.Relation.Manager.Used.{Used, registers, AreRight, lookups_right}
use my_orm.Relation.Manager.Used.Ancestors.{get_object_with_ancestors_ends}
use my_orm.Relation.Manager.Subtree.{IsFound, IsWithin, subtree_exact}

abbrev no_options : FieldOptions
no_options = record {
  unique = none;
  required = none;
  primary_key = none;
  auto_increment = none;
  default_bool = none;
  default_int32 = none;
  default_uint32 = none;
  default_int64 = none;
  default_uint64 = none;
  default_float = none;
  default_double = none;
  default_string = none;
  default_bytes = none;
  default_enum = none;
}

abbrev field : ℕ → Bytes → ValueType → ℕ → FieldDescriptor
field number name type message = record {
  number = number;
  name = name;
  type = type;
  message = message;
  find_value = λ _. none;
  is_repeated = false;
  is_map = false;
  containing_oneof = none;
  has_presence = false;
  options = no_options;
}

abbrev id_field : FieldDescriptor
id_field = record (field 1 (codes "id") int32_type 0) {
  options = record no_options { primary_key = some true; auto_increment = some true };
}

-- The user is 0, and its address 1.
abbrev fields_of : ℕ → List FieldDescriptor
fields_of zero = id_field ∷ field 2 (codes "address") message_type 1 ∷ []
fields_of (suc zero) = field 1 (codes "city") string_type 0 ∷ []
fields_of (suc (suc n)) = []

abbrev runtime : (ℕ → List FieldDescriptor) → Runtime
runtime fields = record {
  std_hash = λ n. n;
  to_string32 = λ _. [];
  to_string64 = λ _. [];
  pool = record {
    name = λ _. codes "User";
    fields = fields;
    key_type = λ _. int32_type;
    find_message_type = λ _. some 0;
  };
}

abbrev users : Runtime
users = runtime fields_of

abbrev config : TableConfig
config = record {
  number = 7;
  snake_case = codes "user";
  camel_case = codes "User";
  scheme = codes "U";
}

-- AUTO_INCREMENT is read, and the type has no mark of it.
auto_increment_test :
    ((primitive_field (λ _. []) (λ _. []) id_field).auto_increment ≡ true)
    × ((primitive_field (λ _. []) (λ _. []) id_field).type_info ≡ int32_info (pos 0) false)
unfolding primitive_field
auto_increment_test = (refl, refl)

types_test :
    (get_field_type_info users.pool none ≡ singular)
    × (get_field_type_info users.pool (some (record id_field { has_presence = true })) ≡ optional)
unfolding get_field_type_info
types_test = (refl, refl)

abbrev registered : Outcome Failure RelationManager
registered = register_root_message users 2 config new_manager

abbrev paths : Map MessagePath MessageBase → List MessagePath
paths [] = []
paths (entry ∷ m) = entry.0 ∷ paths m

abbrev asks {ℓ} : {A : Type ℓ} → (RelationManager → A) → Option A
asks question = elim registered [ ok m ↦ some (question m) | err e ↦ none ]

types_of : List MessagePath → RelationManager → List ObjectType
unfolding get_object_type
types_of [] m = []
types_of (path ∷ more) m = get_object_type users path m ∷ types_of more m

objects_test :
    asks (types_of ((7 ∷ []) ∷ (7 ∷ 1 ∷ []) ∷ (7 ∷ 2 ∷ []) ∷ (7 ∷ 2 ∷ 1 ∷ []) ∷ (8 ∷ []) ∷ []))
    ≡ some (
        root_message ∷ primitive_field_type ∷ field_message ∷ primitive_field_type ∷ no_object ∷ [])
unfolding register_root_message new_manager types_of
objects_test = refl

name_test : asks (name users (7 ∷ 2 ∷ 1 ∷ [])) ≡ some (ok (codes "city"))
unfolding register_root_message new_manager name
name_test = refl

string_test :
    asks (string users (7 ∷ 2 ∷ 1 ∷ [])) ≡ some (codes "user" ∷ codes "address" ∷ codes "city" ∷ [])
unfolding register_root_message new_manager string
string_test = refl

append_test :
    asks (λ m. append_text users m (codes "user/address/city") []) ≡ some (ok (7 ∷ 2 ∷ 1 ∷ []))
unfolding register_root_message new_manager append_text
append_test = refl

get_field_test : asks (get_field_entries users (7 ∷ 2 ∷ 1 ∷ [])) ≡ some (ok (2 ∷ 1 ∷ []))
unfolding register_root_message new_manager get_field_entries
get_field_test = refl

subtree_test :
    asks (λ m. paths (get_messages_from_subtree (7 ∷ []) m).0) ≡ some ((7 ∷ []) ∷ (7 ∷ 2 ∷ []) ∷ [])
unfolding register_root_message new_manager get_messages_from_subtree
subtree_test = refl

abbrev ancestors :
    Outcome Failure (Map MessagePath MessageBase × RelationManager) → List MessagePath
ancestors (ok (found, m)) = paths found
ancestors (err e) = []

parent_test :
    asks (λ m. ancestors (get_object_with_ancestors users 9 (7 ∷ 2 ∷ []) m))
    ≡ some ((7 ∷ []) ∷ (7 ∷ 2 ∷ []) ∷ [])
unfolding register_root_message new_manager get_object_with_ancestors
parent_test = refl

-- The city, a primitive field of a nested message, has no parent: only itself is found.
orphan_test :
    asks (λ m. ancestors (get_object_with_ancestors users 9 (7 ∷ 2 ∷ 1 ∷ []) m))
    ≡ some ((7 ∷ 2 ∷ 1 ∷ []) ∷ [])
unfolding register_root_message new_manager get_object_with_ancestors
orphan_test = refl

-- What GetMessagesFromSubtree once found, it finds also after Clear.
stale_test :
    asks (λ m.
      paths (get_messages_from_subtree (7 ∷ []) (clear (get_messages_from_subtree (7 ∷ []) m).1)).0)
    ≡ some ((7 ∷ []) ∷ (7 ∷ 2 ∷ []) ∷ [])
unfolding register_root_message new_manager get_messages_from_subtree clear
stale_test = refl

abbrev rank : ℕ → ℕ
rank zero = 1
rank (suc n) = 0

users-IsRanked : IsRanked users.pool rank 2
unfolding is_message
users-IsRanked zero b = ((λ h. cc), ((λ h. omega arith), tt))
users-IsRanked (suc zero) b = ((λ h. cc), tt)
users-IsRanked (suc (suc n)) b = tt

below_2 : (d : ℕ) → rank d < 2
below_2 zero = omega arith
below_2 (suc d) = omega arith

register_root_message-ok_example : IsRegistered users 2 config new_manager
register_root_message-ok_example =
    register_root_message-ok users rank 2 users-IsRanked config new_manager (λ d h. below_2 d)
      (new_manager-IsWellFormed users)

abbrev done : IsRegistered users 2 config new_manager
done =
    register_root_message-ok users rank 2 users-IsRanked config new_manager (λ d h. below_2 d)
      (new_manager-IsWellFormed users)

done-Used : Used users 2 rank done.0
done-Used =
    Used.after new_manager done.0 Used.start
      (registers config new_manager done.0 (λ d h. below_2 d) done.1)

lookups_right_example : AreRight users (7 ∷ 2 ∷ []) done.0
lookups_right_example = lookups_right users 2 rank done.0 (7 ∷ 2 ∷ []) users-IsRanked done-Used

get_object_with_ancestors_ends_example :
    (result : Map MessagePath MessageBase × RelationManager) × (get_object_with_ancestors users
        (suc done.0.created)
        (7 ∷ 2 ∷ [])
        done.0
      ≡ ok result)
get_object_with_ancestors_ends_example =
    get_object_with_ancestors_ends users 2 rank done.0 (7 ∷ 2 ∷ []) users-IsRanked done-Used

-- A manager with one message.
abbrev one_message : RelationManager
one_message = record new_manager {
  messages_by_path =
      (5, of_root (record { pointer = 0; path = 7 ∷ []; config = config; descriptor = none })) ∷ [];
}

subtree_exact_example :
    (result : Map MessagePath MessageBase) × ((get_messages_from_subtree (7 ∷ []) one_message).0
      ≡ result)
    × Entries (IsFound (7 ∷ []) one_message.messages_by_path) result
    × All
        (λ entry.
          IsWithin (7 ∷ []) (get_path entry.1) → Map.contains (get_path entry.1) result ≡ true)
        one_message.messages_by_path
unfolding new_manager Map.lookup
subtree_exact_example = subtree_exact 7 [] one_message refl

abbrev node_field : FieldDescriptor
node_field = field 1 (codes "next") message_type 0

abbrev nodes : Runtime
nodes = runtime (λ n. node_field ∷ [])

abbrev node_table : TableInfo
node_table = record {
  path = 7 ∷ [];
  related_messages = [];
  related_fields = [];
  primary_fields = [];
}

-- A manager with a table, and one object.
abbrev with_node : RelationManager
with_node = with_table_of (hash nodes (7 ∷ [])) node_table (with_object nodes new_manager)

with_node-IsWellFormed : IsWellFormed nodes with_node
with_node-IsWellFormed =
    with_table_of-ok (hash nodes (7 ∷ [])) node_table (with_object nodes new_manager)
      (with_object-IsWellFormed nodes new_manager (new_manager-IsWellFormed nodes))

process_endless_example : process nodes 100 0 0 (7 ∷ []) with_node ≡ err endless
unfolding is_message Map.contains Map.emplace new_manager get_hash
process_endless_example =
    process_endless nodes 100 0 node_field [] refl refl refl 0 (7 ∷ []) with_node
      with_node-IsWellFormed (omega arith) refl
