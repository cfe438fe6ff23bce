-- ===== src/Requests/ExpressionType.antt =====
-- The enumerations of lib/relation/proto/query.proto, under the names of the generated code. An
-- enumeration of proto3 is open: `unrecognized` is a number with no enumerator.
use my_orm.Prelude.{ℕ}

pub data ExpressionType : Type 0 where
  unknown : ExpressionType
  add subtract multiply divide modulo exponent : ExpressionType
  equals not_equals greater_than less_than : ExpressionType
  greater_than_or_equals less_than_or_equals : ExpressionType
  and_ or_ not_ : ExpressionType
  like ilike similar_to regexp_match : ExpressionType
  is_null is_not_null between in_ not_in exists : ExpressionType
  count sum avg min max array_agg string_agg json_agg : ExpressionType
  abs round ceil floor sqrt log random sin cos tan power : ExpressionType
  concat lower upper substring length replace trim left right position split_part : ExpressionType
  case_ coalesce greatest least : ExpressionType
  unrecognized : ℕ → ExpressionType

pub data ColumnType : Type 0 where
  singular excluded : ColumnType
