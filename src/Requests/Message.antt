-- ===== src/Requests/Message.antt =====
-- The protobuf messages TClause and TQuery of lib/requests/proto/query.proto. Operands are indices
-- into the list of clauses.
use my_orm.Prelude.{ℕ, Bool, Option, List, Bytes}
use my_orm.Prelude.Int.{ℤ}
use my_orm.Relation.Path.{MessagePath}
use my_orm.Requests.Attribute.{ProtoAttribute}
use my_orm.Requests.ExpressionType.{ExpressionType, ColumnType}

-- NApi::TClause, a oneof
pub data ProtoClause : Type 0 where
  string : Bytes → ProtoClause
  integer : ℤ → ProtoClause
  float : ℕ → ProtoClause
  bool : Bool → ProtoClause
  expression : ExpressionType → List ℕ → ProtoClause
  column : MessagePath → ColumnType → ProtoClause
  all default : ProtoClause
  select :
      (table_num : ℕ) (selectors : List ℕ) (where_ group_by having order_by limit : Option ℕ)
      → ProtoClause
  insert : ℕ → Bool → List (List ProtoAttribute) → ProtoClause
  update : ℕ → List (List ProtoAttribute) → ProtoClause
  delete : ℕ → Option ℕ → ProtoClause
  truncate : ℕ → ProtoClause
  start_transaction commit_transaction rollback_transaction : ProtoClause
  value_not_set : ProtoClause

-- NApi::TQuery
pub record ProtoQuery : Type 0 where
  pub clauses : List ProtoClause
  pub start_points : List ℕ
