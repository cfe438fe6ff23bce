-- ===== src/QueryBuilder/Clause.antt =====
-- lib/query_builder/builder_base.h: one constructor for each class that derives from TClause, with
-- its members in their order; `null` is a pointer that holds no clause. A value of type float or
-- double is its bit pattern. TColumnDefinition, which BuildClause never meets, is left out.
use my_orm.Prelude.{ℕ, Bool, List, Bytes, Option}
use my_orm.Prelude.Int.{ℤ}
use my_orm.Relation.Path.{MessagePath}
use my_orm.Requests.ExpressionType.{ExpressionType, ColumnType}

-- The alternatives of TValueInfo (relation/field.h): the default value and, for numbers, the
-- flag `increment`.
pub data TypeInfo : Type 0 where
  monostate_info : TypeInfo
  bool_info : Bool → TypeInfo
  int32_info int64_info : ℤ → Bool → TypeInfo
  uint32_info uint64_info float_info double_info : ℕ → Bool → TypeInfo
  string_info bytes_info : Bytes → TypeInfo
  enum_info : ℤ → TypeInfo

-- What the builder reads of a TPrimitiveFieldInfo.
pub record FieldInfo : Type 0 where
  pub path : MessagePath
  pub type_info : TypeInfo
  pub has_default : Bool
  pub is_required : Bool
  pub is_primary_key : Bool

-- EKeyType, where a value with no enumerator is `other_key`.
pub data KeyType : Type 0 where
  simple primary index other_key : KeyType

pub data JoinType : Type 0 where
  left_join inner_join exclusive_left_join : JoinType

-- EAlterType, with the TypeInfo_ of the kinds that read it.
pub data AlterType : Type 0 where
  set_default set_type : TypeInfo → AlterType
  no_alteration drop_default set_required drop_required : AlterType

mutual
  pub data Clause : Type 0 where
    null : Clause
    string : Bytes → Clause
    int : ℤ → Clause
    float : ℕ → Clause
    bool : Bool → Clause
    expression : ExpressionType → Clauses → Clause
    all default : Clause
    -- table path, field path
    column : List ℕ → List ℕ → KeyType → ColumnType → Clause
    table : MessagePath → Clause
    join : MessagePath → Clause → JoinType → Clause
    -- selectors, from, join, where, group by, having, order by, limit
    select : Clauses → Clause → Clauses → Clause → Clause → Clause → Clause → Clause → Clause
    -- table, selectors, is values, values, is do update, do update
    insert : MessagePath → Clauses → Bool → Rows → Bool → Updates → Clause
    update : MessagePath → Updates → Clause → Clause
    delete : MessagePath → Clause → Clause
    truncate : MessagePath → Clause
    -- read only
    start_transaction : Bool → Clause
    commit_transaction rollback_transaction : Clause
    -- path, related fields
    create_table : MessagePath → List ℕ → Clause
    drop_table : MessagePath → Clause
    alter_table : Clauses → Clause
    add_column drop_column : Option FieldInfo → Clause
    -- table path and field path of the column
    alter_column : List ℕ → List ℕ → AlterType → Clause

  pub data Clauses : Type 0 where
    nil : Clauses
    cons : Clause → Clauses → Clauses

  pub data Rows : Type 0 where
    no_rows : Rows
    row : Clauses → Rows → Rows

  pub data Updates : Type 0 where
    no_updates : Updates
    assign : Clause → Clause → Updates → Updates

-- EClauseType, of the clauses that BuildClause prints.
pub data ClauseType : Type 0 where
  string_type int_type float_type bool_type expression_type all_type column_type : ClauseType
  table_type default_type join_type select_type insert_type update_type : ClauseType
  delete_type truncate_type create_table_type alter_table_type drop_table_type : ClauseType
  start_transaction_type commit_transaction_type rollback_transaction_type : ClauseType
  create_column_type drop_column_type alter_column_type : ClauseType
