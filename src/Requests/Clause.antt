-- ===== src/Requests/Clause.antt =====
-- The clause trees of lib/requests/query.h: one constructor for each class that derives from
-- TClauseImpl, and `null` for a TClause that holds no implementation. A value of type double is
-- its bit pattern.
use my_orm.Prelude.{ℕ, Bool, List, Bytes}
use my_orm.Prelude.Int.{ℤ}
use my_orm.Relation.Path.{MessagePath}
use my_orm.Requests.Attribute.{Attribute}
use my_orm.Requests.ExpressionType.{ExpressionType, ColumnType}

mutual
  pub data Clause : Type 0 where
    null : Clause
    string : Bytes → Clause
    integer : ℤ → Clause
    float : ℕ → Clause
    bool : Bool → Clause
    expression : ExpressionType → Clauses → Clause
    column : MessagePath → ColumnType → Clause
    all : Clause
    default : Clause
    -- table, selectors, where, group by, having, order by, limit
    select : ℕ → Clauses → Clause → Clause → Clause → Clause → Clause → Clause
    -- table, update if exists, subrequests
    insert : ℕ → Bool → List (List Attribute) → Clause
    update : ℕ → List (List Attribute) → Clause
    delete : ℕ → Clause → Clause
    truncate : ℕ → Clause
    start_transaction commit_transaction rollback_transaction : Clause

  pub data Clauses : Type 0 where
    nil : Clauses
    cons : Clause → Clauses → Clauses
