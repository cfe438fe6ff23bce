-- ===== src/QueryBuilder/Postgres/Balance/Definitions.antt =====
-- About quotes and parentheses in column definitions (lib/query_builder/builders/postgres.cpp).
use my_orm.Prelude.{
  ℕ, ◌≡◌, refl, Bool, true, false, Option, none, some, List, [], ◌++◌, Bytes, codes, if◌then◌else◌,
  Outcome, ok, err, ◌>>=◌,
}
use my_orm.QueryBuilder.Clause.{
  TypeInfo, monostate_info, bool_info, int32_info, int64_info, uint32_info, uint64_info, float_info,
  double_info, string_info, bytes_info, enum_info, FieldInfo, AlterType, set_default, set_type,
  no_alteration, drop_default, set_required, drop_required,
}
use my_orm.QueryBuilder.Postgres.Text.{Fault, simple_field, escape_string_literal}
use my_orm.QueryBuilder.Postgres.Definition.{
  Environment, get_field, get_postgres_type, get_postgres_default, default_text, definition_text,
  column_definition, alter_column_text,
}
use my_orm.QueryBuilder.Postgres.Balance.{
  IsNeutral, nil-IsNeutral, ◌&&&◌, is_plain, plain-IsNeutral, decimal-IsNeutral,
  signed_decimal-IsNeutral, bool_text-IsNeutral, escape_string_literal-IsNeutral,
  simple_field-IsNeutral,
}

-- The standard library prints floating-point numbers without quotes and parentheses.
pub record PrintsPlainly (env : Environment) : Type 0 where
  pub plain_to_string32 : (x : ℕ) → is_plain (env.to_string32 x) ≡ true
  pub plain_to_string64 : (x : ℕ) → is_plain (env.to_string64 x) ≡ true
  pub plain_stream32 : (x : ℕ) → is_plain (env.stream32 x) ≡ true
  pub plain_stream64 : (x : ℕ) → is_plain (env.stream64 x) ≡ true

-- A predicate on what is returned, if nothing is thrown.
abbrev pub Yields {ℓ κ} : {A : Type ℓ} → (A → Type κ) → Outcome Fault A → Type κ
Yields P (ok a) = P a
Yields P (err e) = Unit

-- Whatever the first step returns, what is made of it has the property.
pub always-Yields {ℓ κ π} :
    {A : Type ℓ} {B : Type κ} (P : B → Type π) (m : Outcome Fault A) (f : A → B)
    → ((a : A) → P (f a))
    → Yields P (m >>= λ a. ok (f a))
always-Yields P (ok a) f h = h a
always-Yields P (err e) f h = tt

if-IsNeutral : (b : Bool) (s t : Bytes) → IsNeutral s → IsNeutral t → IsNeutral (if b then s else t)
if-IsNeutral true s t h k = h
if-IsNeutral false s t h k = k

pub type-IsNeutral : (info : TypeInfo) → IsNeutral (get_postgres_type info)
unfolding get_postgres_type
type-IsNeutral monostate_info = plain-IsNeutral (codes "TEXT") refl
type-IsNeutral (bool_info b) = plain-IsNeutral (codes "BOOLEAN") refl
type-IsNeutral (int32_info z increment) =
    if-IsNeutral increment _ _ (plain-IsNeutral (codes "SERIAL") refl)
      (plain-IsNeutral (codes "INTEGER") refl)
type-IsNeutral (uint32_info z increment) =
    if-IsNeutral increment _ _ (plain-IsNeutral (codes "SERIAL") refl)
      (plain-IsNeutral (codes "INTEGER") refl)
type-IsNeutral (int64_info z increment) =
    if-IsNeutral increment _ _ (plain-IsNeutral (codes "BIGSERIAL") refl)
      (plain-IsNeutral (codes "BIGINT") refl)
type-IsNeutral (uint64_info z increment) =
    if-IsNeutral increment _ _ (plain-IsNeutral (codes "BIGSERIAL") refl)
      (plain-IsNeutral (codes "BIGINT") refl)
type-IsNeutral (float_info x increment) = plain-IsNeutral (codes "REAL") refl
type-IsNeutral (double_info x increment) = plain-IsNeutral (codes "DOUBLE PRECISION") refl
type-IsNeutral (string_info s) = plain-IsNeutral (codes "TEXT") refl
type-IsNeutral (bytes_info s) = plain-IsNeutral (codes "BYTEA") refl
type-IsNeutral (enum_info z) = plain-IsNeutral (codes "INTEGER") refl

module _ (env : Environment) (plain : PrintsPlainly env) where
  null-IsNeutral : IsNeutral (codes "NULL")
  null-IsNeutral = plain-IsNeutral (codes "NULL") refl

  default-IsNeutral : (info : TypeInfo) → IsNeutral (get_postgres_default env info)
  unfolding get_postgres_default escape_string_literal
  default-IsNeutral monostate_info = null-IsNeutral
  default-IsNeutral (bool_info b) = bool_text-IsNeutral b
  default-IsNeutral (int32_info z increment) =
      if-IsNeutral increment _ _ null-IsNeutral (signed_decimal-IsNeutral z)
  default-IsNeutral (uint32_info n increment) =
      if-IsNeutral increment _ _ null-IsNeutral (decimal-IsNeutral n)
  default-IsNeutral (int64_info z increment) =
      if-IsNeutral increment _ _ null-IsNeutral (signed_decimal-IsNeutral z)
  default-IsNeutral (uint64_info n increment) =
      if-IsNeutral increment _ _ null-IsNeutral (decimal-IsNeutral n)
  default-IsNeutral (float_info x increment) = plain-IsNeutral _ (plain.plain_to_string32 x)
  default-IsNeutral (double_info x increment) = plain-IsNeutral _ (plain.plain_to_string64 x)
  default-IsNeutral (string_info s) = escape_string_literal-IsNeutral s
  default-IsNeutral (bytes_info s) =
      escape_string_literal-IsNeutral [] &&& plain-IsNeutral (codes "::bytes") refl
  default-IsNeutral (enum_info z) = signed_decimal-IsNeutral z

  word-IsNeutral : IsNeutral (codes " DEFAULT ")
  word-IsNeutral = plain-IsNeutral (codes " DEFAULT ") refl

  default_text-IsNeutral : (info : TypeInfo) → IsNeutral (default_text env info)
  unfolding default_text
  default_text-IsNeutral monostate_info = nil-IsNeutral
  default_text-IsNeutral (bool_info b) = word-IsNeutral &&& bool_text-IsNeutral b
  default_text-IsNeutral (int32_info z increment) =
      if-IsNeutral increment _ _ nil-IsNeutral (word-IsNeutral &&& signed_decimal-IsNeutral z)
  default_text-IsNeutral (uint32_info n increment) =
      if-IsNeutral increment _ _ nil-IsNeutral (word-IsNeutral &&& decimal-IsNeutral n)
  default_text-IsNeutral (int64_info z increment) =
      if-IsNeutral increment _ _ nil-IsNeutral (word-IsNeutral &&& signed_decimal-IsNeutral z)
  default_text-IsNeutral (uint64_info n increment) =
      if-IsNeutral increment _ _ nil-IsNeutral (word-IsNeutral &&& decimal-IsNeutral n)
  default_text-IsNeutral (float_info x increment) =
      word-IsNeutral &&& plain-IsNeutral _ (plain.plain_stream32 x)
  default_text-IsNeutral (double_info x increment) =
      word-IsNeutral &&& plain-IsNeutral _ (plain.plain_stream64 x)
  default_text-IsNeutral (string_info s) = word-IsNeutral &&& escape_string_literal-IsNeutral s
  default_text-IsNeutral (bytes_info s) = nil-IsNeutral
  default_text-IsNeutral (enum_info z) = word-IsNeutral &&& signed_decimal-IsNeutral z

  definition_text-IsNeutral : (field : FieldInfo) → IsNeutral (definition_text env field)
  unfolding definition_text
  definition_text-IsNeutral field =
      plain-IsNeutral (codes " ") refl
      &&& type-IsNeutral field.type_info
      &&& if-IsNeutral field.is_required _ _ (plain-IsNeutral (codes " NOT NULL") refl)
          nil-IsNeutral
      &&& if-IsNeutral field.has_default _ _ (default_text-IsNeutral field.type_info) nil-IsNeutral
      &&& if-IsNeutral field.is_primary_key _ _ (plain-IsNeutral (codes " PRIMARY KEY") refl)
          nil-IsNeutral

  pub definition-Yields :
      (field : Option FieldInfo) → Yields IsNeutral (column_definition env field)
  unfolding column_definition
  definition-Yields none = nil-IsNeutral
  definition-Yields (some field) =
      always-Yields IsNeutral (get_field env field.path) _
        λ name. simple_field-IsNeutral name &&& definition_text-IsNeutral field

  alter-IsNeutral :
      (path : List ℕ) (word : Bytes)
      → IsNeutral word
      → IsNeutral (codes "ALTER COLUMN " ++ simple_field path ++ word)
  alter-IsNeutral path word h =
      plain-IsNeutral (codes "ALTER COLUMN ") refl &&& simple_field-IsNeutral path &&& h

  pub alter_column_text-IsNeutral :
      (path : List ℕ) (type : AlterType) → Yields IsNeutral (alter_column_text env path type)
  unfolding alter_column_text
  alter_column_text-IsNeutral path (set_type info) =
      alter-IsNeutral path _ (plain-IsNeutral (codes " TYPE ") refl) &&& type-IsNeutral info
  alter_column_text-IsNeutral path (set_default info) =
      alter-IsNeutral path _ (plain-IsNeutral (codes " SET DEFAULT ") refl)
      &&& default-IsNeutral info
  alter_column_text-IsNeutral path drop_default =
      alter-IsNeutral path _ (plain-IsNeutral (codes " DROP NOT NULL") refl)
  alter_column_text-IsNeutral path set_required =
      alter-IsNeutral path _ (plain-IsNeutral (codes " SET NOT NULL") refl)
  alter_column_text-IsNeutral path drop_required =
      alter-IsNeutral path _ (plain-IsNeutral (codes " DROP NOT NULL") refl)
  alter_column_text-IsNeutral path no_alteration = tt
