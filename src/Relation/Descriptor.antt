-- ===== src/Relation/Descriptor.antt =====
-- What lib/relation reads of the descriptors of protobuf, and GetFieldTypeInfo of base.cpp.
use my_orm.Prelude.{ℕ, Bool, true, false, not, Option, none, some, List, Bytes, if◌then◌else◌}
use my_orm.Prelude.Int.{ℤ}

-- google::protobuf::FieldDescriptor::Type
pub data ValueType : Type 0 where
  double_type float_type int64_type uint64_type int32_type fixed64_type fixed32_type : ValueType
  bool_type string_type group_type message_type bytes_type uint32_type enum_type : ValueType
  sfixed32_type sfixed64_type sint32_type sint64_type : ValueType

-- The extensions of orm_core.proto, where `none` is one that HasExtension does not find.
pub record FieldOptions : Type 0 where
  pub unique : Option Bool
  pub required : Option Bool
  pub primary_key : Option Bool
  pub auto_increment : Option Bool
  pub default_bool : Option Bool
  pub default_int32 : Option ℤ
  pub default_uint32 : Option ℕ
  pub default_int64 : Option ℤ
  pub default_uint64 : Option ℕ
  pub default_float : Option ℕ
  pub default_double : Option ℕ
  pub default_string : Option Bytes
  pub default_bytes : Option Bytes
  pub default_enum : Option Bytes

pub record Oneof : Type 0 where
  pub index : ℕ
  pub is_synthetic : Bool

-- A FieldDescriptor. `message` is the descriptor that message_type() points to, and `find_value` gives
-- the index of an enumerator.
pub record FieldDescriptor : Type 0 where
  pub number : ℕ
  pub name : Bytes
  pub type : ValueType
  pub message : ℕ
  pub find_value : Bytes → Option ℕ
  pub is_repeated : Bool
  pub is_map : Bool
  pub containing_oneof : Option Oneof
  pub has_presence : Bool
  pub options : FieldOptions

-- The generated pool. A Descriptor is a number, as messages refer to one another.
pub record Pool : Type 0 where
  pub name : ℕ → Bytes
  pub fields : ℕ → List FieldDescriptor
  pub key_type : ℕ → ValueType
  pub find_message_type : Bytes → Option ℕ

-- TFieldTypeInfo and its subclasses.
pub data FieldTypeInfo : Type 0 where
  singular repeated optional : FieldTypeInfo
  map : ValueType → FieldTypeInfo
  oneof : ℕ → FieldTypeInfo

abbrev is_message_type : ValueType → Bool
is_message_type ValueType.message_type = true
is_message_type _ = false

-- field->type() == TYPE_MESSAGE
unfoldable pub is_message : FieldDescriptor → Bool
is_message field = is_message_type field.type

-- GetFieldTypeInfo
unfoldable pub get_field_type_info : Pool → Option FieldDescriptor → FieldTypeInfo
get_field_type_info pool none = singular
get_field_type_info pool (some field) =
    if field.is_map
    then map (pool.key_type field.message)
    else if field.is_repeated
    then repeated
    else elim field.containing_oneof [
      | none ↦ if field.has_presence then optional else singular
      | some group ↦
          if not group.is_synthetic
          then oneof group.index
          else if field.has_presence
          then optional
          else singular
    ]
