-- ===== src/QueryBuilder/Postgres/Definition.antt =====
-- Types, defaults and definitions of columns (lib/query_builder/builders/postgres.cpp).
use my_orm.Prelude.{
  ℕ, Option, none, some, List, [], ◌++◌, Bytes, codes, length, drop, if◌then◌else◌, Bool, Outcome,
  ok, err, ◌>>=◌,
}
use my_orm.Relation.Path.{MessagePath}
use my_orm.QueryBuilder.Clause.{
  TypeInfo, monostate_info, bool_info, int32_info, int64_info, uint32_info, uint64_info, float_info,
  double_info, string_info, bytes_info, enum_info, FieldInfo, AlterType, set_default, set_type,
  no_alteration, drop_default, set_required, drop_required, KeyType,
}
use my_orm.QueryBuilder.Postgres.Text.{
  Fault, unknown_alteration, unknown_table, decimal, signed_decimal, bool_text,
  escape_string_literal, simple_field, field_to_string, table_text,
}

-- What the builder uses of the standard library, for the bit patterns of float and double, and of
-- the relation manager: the path of the table that holds a path, if there is one, and the primitive
-- fields.
pub record Environment : Type 0 where
  pub to_string32 : ℕ → Bytes
  pub to_string64 : ℕ → Bytes
  pub stream32 : ℕ → Bytes
  pub stream64 : ℕ → Bytes
  pub get_table_path : MessagePath → Option MessagePath
  pub get_primitive_field : ℕ → Option FieldInfo

-- TMessagePath::GetTable, which throws if no table is known for the path.
unfoldable pub get_table : Environment → MessagePath → Outcome Fault MessagePath
get_table env path = elim (env.get_table_path path) [
  | none ↦ err unknown_table
  | some table ↦ ok table
]

-- TMessagePath::GetField
unfoldable pub get_field : Environment → MessagePath → Outcome Fault (List ℕ)
unfolding get_table
get_field env path = get_table env path >>= λ table. ok (drop (length table) path)

-- The table that a statement names, by a path in it.
unfoldable pub table_name : Environment → MessagePath → Outcome Fault Bytes
unfolding get_table
table_name env path = get_table env path >>= λ table. ok (table_text table)

unfoldable pub get_postgres_type : TypeInfo → Bytes
get_postgres_type monostate_info = codes "TEXT"
get_postgres_type (bool_info b) = codes "BOOLEAN"
get_postgres_type (int32_info z increment) = if increment then codes "SERIAL" else codes "INTEGER"
get_postgres_type (uint32_info n increment) = if increment then codes "SERIAL" else codes "INTEGER"
get_postgres_type (int64_info z increment) = if increment then codes "BIGSERIAL" else codes "BIGINT"
get_postgres_type (uint64_info n increment) =
    if increment then codes "BIGSERIAL" else codes "BIGINT"
get_postgres_type (float_info n increment) = codes "REAL"
get_postgres_type (double_info n increment) = codes "DOUBLE PRECISION"
get_postgres_type (string_info s) = codes "TEXT"
get_postgres_type (bytes_info s) = codes "BYTEA"
get_postgres_type (enum_info z) = codes "INTEGER"

unfoldable pub get_postgres_default : Environment → TypeInfo → Bytes
get_postgres_default env monostate_info = codes "NULL"
get_postgres_default env (bool_info b) = bool_text b
get_postgres_default env (int32_info z increment) =
    if increment then codes "NULL" else signed_decimal z
get_postgres_default env (uint32_info n increment) = if increment then codes "NULL" else decimal n
get_postgres_default env (int64_info z increment) =
    if increment then codes "NULL" else signed_decimal z
get_postgres_default env (uint64_info n increment) = if increment then codes "NULL" else decimal n
get_postgres_default env (float_info n increment) = env.to_string32 n
get_postgres_default env (double_info n increment) = env.to_string64 n
get_postgres_default env (string_info s) = escape_string_literal s
get_postgres_default env (bytes_info s) = codes "''::bytes"
get_postgres_default env (enum_info z) = signed_decimal z

-- ` DEFAULT ` and the value, which ColumnDefinition streams for a field that has a default.
unfoldable pub default_text : Environment → TypeInfo → Bytes
default_text env monostate_info = []
default_text env (bool_info b) = codes " DEFAULT " ++ bool_text b
default_text env (int32_info z increment) =
    if increment then [] else codes " DEFAULT " ++ signed_decimal z
default_text env (uint32_info n increment) =
    if increment then [] else codes " DEFAULT " ++ decimal n
default_text env (int64_info z increment) =
    if increment then [] else codes " DEFAULT " ++ signed_decimal z
default_text env (uint64_info n increment) =
    if increment then [] else codes " DEFAULT " ++ decimal n
default_text env (float_info n increment) = codes " DEFAULT " ++ env.stream32 n
default_text env (double_info n increment) = codes " DEFAULT " ++ env.stream64 n
default_text env (string_info s) = codes " DEFAULT " ++ escape_string_literal s
default_text env (bytes_info s) = []
default_text env (enum_info z) = codes " DEFAULT " ++ signed_decimal z

-- What ColumnDefinition streams behind the name.
unfoldable pub definition_text : Environment → FieldInfo → Bytes
unfolding get_postgres_type default_text
definition_text env field =
    codes " "
    ++ get_postgres_type field.type_info
    ++ (if field.is_required then codes " NOT NULL" else [])
    ++ (if field.has_default then default_text env field.type_info else [])
    ++ (if field.is_primary_key then codes " PRIMARY KEY" else [])

unfoldable pub column_definition : Environment → Option FieldInfo → Outcome Fault Bytes
unfolding get_field definition_text
column_definition env none = ok []
column_definition env (some field) =
    get_field env field.path >>= λ name. ok (simple_field name ++ definition_text env field)

-- BuildAlterColumn, from the field path of the column.
unfoldable pub alter_column_text : Environment → List ℕ → AlterType → Outcome Fault Bytes
unfolding get_postgres_type get_postgres_default
alter_column_text env path (set_type info) =
    ok (codes "ALTER COLUMN " ++ simple_field path ++ codes " TYPE " ++ get_postgres_type info)
alter_column_text env path (set_default info) = ok (
    codes "ALTER COLUMN "
    ++ simple_field path
    ++ codes " SET DEFAULT "
    ++ get_postgres_default env info)
alter_column_text env path drop_default =
    ok (codes "ALTER COLUMN " ++ simple_field path ++ codes " DROP NOT NULL")
alter_column_text env path set_required =
    ok (codes "ALTER COLUMN " ++ simple_field path ++ codes " SET NOT NULL")
alter_column_text env path drop_required =
    ok (codes "ALTER COLUMN " ++ simple_field path ++ codes " DROP NOT NULL")
alter_column_text env path no_alteration = err unknown_alteration

-- What BuildColumnDefinition reads of a TColumnDefinition.
pub record ColumnDefinition : Type 0 where
  pub field_path : List ℕ
  pub key_type : KeyType
  pub type_info : TypeInfo
  pub is_required : Bool
  pub has_default : Bool
  pub is_primary_key : Bool

-- BuildColumnDefinition
unfoldable pub build_column_definition : Environment → ColumnDefinition → Outcome Fault Bytes
unfolding get_postgres_type default_text field_to_string
build_column_definition env c = field_to_string c.field_path c.key_type >>= λ name. ok (
    name
    ++ codes " "
    ++ get_postgres_type c.type_info
    ++ (if c.is_required then codes " NOT NULL" else [])
    ++ (if c.has_default then default_text env c.type_info else [])
    ++ (if c.is_primary_key then codes " PRIMARY KEY" else []))
