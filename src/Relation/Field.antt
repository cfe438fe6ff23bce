-- ===== src/Relation/Field.antt =====
-- TPrimitiveFieldInfo of lib/relation/field.cpp: its constructor and the handlers of the types.
use my_orm.Prelude.{ℕ, Bool, true, false, Option, none, some, [], ◌++◌, Bytes, codes, if◌then◌else◌}
use my_orm.Prelude.Int.{pos}
use my_orm.QueryBuilder.Clause.{
  TypeInfo, monostate_info, bool_info, int32_info, int64_info, uint32_info, uint64_info, float_info,
  double_info, string_info, bytes_info, enum_info,
}
use my_orm.QueryBuilder.Postgres.Text.{decimal, signed_decimal}
use my_orm.Relation.Descriptor.{
  ValueType, double_type, float_type, int64_type, uint64_type, int32_type, fixed64_type,
  fixed32_type, bool_type, string_type, group_type, message_type, bytes_type, uint32_type,
  enum_type, sfixed32_type, sfixed64_type, sint32_type, sint64_type, FieldOptions, FieldDescriptor,
}

-- The members that the constructor sets; `none` is a HasDefault_ that it leaves as it was.
pub record PrimitiveField : Type 0 where
  pub has_default : Option Bool
  pub unique : Bool
  pub is_required : Bool
  pub is_primary_key : Bool
  pub auto_increment : Bool
  pub default_value_string : Bytes
  pub type_info : TypeInfo

-- What a handler sets: HasDefault_, DefaultValueString_ and TypeInfo_. The member `increment` of a type
-- is not named, and so false.
abbrev pub Default : Type 0
Default = Option Bool × Bytes × TypeInfo

abbrev pub default_or {ℓ} :
    {A : Type ℓ} → Option A → (A → Bytes) → (A → TypeInfo) → Bytes → TypeInfo → Default
default_or none text info empty_text empty_info = (some false, empty_text, empty_info)
default_or (some value) text info empty_text empty_info = (some true, text value, info value)

unfoldable pub handle_bool_field : FieldOptions → Default
handle_bool_field o =
    default_or o.default_bool (λ b. if b then codes "true" else codes "false") bool_info
      (codes "false") (bool_info false)

unfoldable pub handle_int32_field : FieldOptions → Default
unfolding signed_decimal
handle_int32_field o =
    default_or o.default_int32 signed_decimal (λ z. int32_info z false) (codes "0")
      (int32_info (pos 0) false)

unfoldable pub handle_uint32_field : FieldOptions → Default
unfolding decimal
handle_uint32_field o =
    default_or o.default_uint32 decimal (λ n. uint32_info n false) (codes "0") (uint32_info 0 false)

unfoldable pub handle_int64_field : FieldOptions → Default
unfolding signed_decimal
handle_int64_field o =
    default_or o.default_int64 signed_decimal (λ z. int64_info z false) (codes "0")
      (int64_info (pos 0) false)

unfoldable pub handle_uint64_field : FieldOptions → Default
unfolding decimal
handle_uint64_field o =
    default_or o.default_uint64 decimal (λ n. uint64_info n false) (codes "0") (uint64_info 0 false)

unfoldable pub handle_string_field : FieldOptions → Default
handle_string_field o =
    default_or o.default_string (λ s. codes "\"" ++ (s ++ codes "\"")) string_info (codes "\"\"")
      (string_info [])

unfoldable pub handle_bytes_field : FieldOptions → Default
handle_bytes_field o =
    default_or o.default_bytes (λ s. codes "<bytes>") (λ s. bytes_info []) (codes "<empty>")
      (bytes_info [])

-- The name of an enumerator that is found is the name that was looked up.
unfoldable pub handle_enum_field : FieldDescriptor → Default
handle_enum_field field = elim field.options.default_enum [
  | none ↦ (some false, codes "unknown", enum_info (pos 0))
  | some name ↦ elim (field.find_value name) [
    | none ↦ (some true, codes "unknown", enum_info (pos 0))
    | some index ↦ (some true, name, enum_info (pos index))
  ]
]

abbrev option_or : Option Bool → Bool
option_or none = false
option_or (some b) = b

-- std::to_string of a float and of a double, on their bit patterns.
module _ (to_string32 to_string64 : ℕ → Bytes) where
  unfoldable pub handle_float_field : FieldOptions → Default
  handle_float_field o =
      default_or o.default_float to_string32 (λ n. float_info n false) (codes "0.0")
        (float_info 0 false)

  unfoldable pub handle_double_field : FieldOptions → Default
  handle_double_field o =
      default_or o.default_double to_string64 (λ n. double_info n false) (codes "0.0")
        (double_info 0 false)

  -- The switch over the type.
  unfoldable pub handle_field : FieldDescriptor → ValueType → Default
  unfolding handle_bool_field handle_int32_field handle_uint32_field handle_int64_field
      handle_uint64_field handle_float_field handle_double_field handle_string_field
      handle_bytes_field handle_enum_field
  handle_field field bool_type = handle_bool_field field.options
  handle_field field int32_type = handle_int32_field field.options
  handle_field field sint32_type = handle_int32_field field.options
  handle_field field sfixed32_type = handle_int32_field field.options
  handle_field field uint32_type = handle_uint32_field field.options
  handle_field field fixed32_type = handle_uint32_field field.options
  handle_field field int64_type = handle_int64_field field.options
  handle_field field sint64_type = handle_int64_field field.options
  handle_field field sfixed64_type = handle_int64_field field.options
  handle_field field uint64_type = handle_uint64_field field.options
  handle_field field fixed64_type = handle_uint64_field field.options
  handle_field field float_type = handle_float_field field.options
  handle_field field double_type = handle_double_field field.options
  handle_field field string_type = handle_string_field field.options
  handle_field field bytes_type = handle_bytes_field field.options
  handle_field field enum_type = handle_enum_field field
  handle_field field group_type = (none, [], monostate_info)
  handle_field field message_type = (none, [], monostate_info)

  -- TPrimitiveFieldInfo::TPrimitiveFieldInfo, of a descriptor that is there.
  unfoldable pub primitive_field : FieldDescriptor → PrimitiveField
  unfolding handle_field
  primitive_field field =
      let (has_default, text, info) = handle_field field field.type in
      record {
        has_default = has_default;
        unique = option_or field.options.unique;
        is_required = option_or field.options.required;
        is_primary_key = option_or field.options.primary_key;
        auto_increment = option_or field.options.auto_increment;
        default_value_string = text;
        type_info = info;
      }
