-- ===== src/QueryBuilder/Postgres/Build.antt =====
-- BuildClause (lib/query_builder/builder_base.cpp) with the methods of TPostgresBuilder that it calls
-- (lib/query_builder/builders/postgres.cpp). `stack` is Stack_, its top first: each method pushes its
-- clause type, and the guard pops it when the method is left, so that the callers see their own.
use my_orm.Prelude.{
  ℕ, suc, Bool, true, false, Option, none, some, List, [], ◌∷◌, ◌++◌, Bytes, codes, ◌==◌, bytes_eq,
  if◌then◌else◌, Outcome, ok, err, ensure, ◌>>=◌, ◌>>◌,
}
use my_orm.Requests.ExpressionType.{ColumnType, singular, excluded}
use my_orm.QueryBuilder.Clause.{
  FieldInfo, KeyType, JoinType, left_join, inner_join, exclusive_left_join, Clause, null, string,
  int, float, bool, expression, all, default, column, table, join, select, insert, update, delete,
  truncate, start_transaction, commit_transaction, rollback_transaction, create_table, drop_table,
  alter_table, add_column, drop_column, alter_column, Clauses, nil, cons, Rows, no_rows, row,
  Updates, no_updates, assign, ClauseType, expression_type, join_type, select_type, insert_type,
  update_type, delete_type, alter_table_type,
}
use my_orm.QueryBuilder.Postgres.Text
use my_orm.QueryBuilder.Postgres.Text.{
  Fault, invalid_operands, unknown_expression, null_field, signed_decimal, field_to_string,
  simple_field, table_text, escape_string_literal, bool_text,
}
use my_orm.QueryBuilder.Postgres.Expression.{template, accepts, fill, parens}
use my_orm.QueryBuilder.Postgres.Definition.{
  Environment, get_field, table_name, column_definition, alter_column_text,
}

unfoldable pub build_column : List ℕ → List ℕ → KeyType → ColumnType → Outcome Fault Bytes
build_column table_path field_path key excluded = do
  name ← field_to_string field_path key
  ok (codes "EXCLUDED." ++ name)
build_column [] field_path key singular = field_to_string field_path key
build_column (t ∷ ts) field_path key singular = do
  name ← field_to_string field_path key
  ok (table_text (t ∷ ts) ++ codes "." ++ name)

-- operands.size()
unfoldable pub operand_count : Clauses → ℕ
operand_count nil = 0
operand_count (cons c cs) = suc (operand_count cs)

unfoldable pub join_word : JoinType → Bytes
join_word left_join = codes "LEFT JOIN "
join_word inner_join = codes "INNER JOIN "
join_word exclusive_left_join = codes "LEFT OUTER JOIN "

-- The set withBraces of BuildSelect.
unfoldable pub with_braces : ClauseType → Bool
with_braces expression_type = true
with_braces select_type = true
with_braces update_type = true
with_braces insert_type = true
with_braces delete_type = true
with_braces other = false

-- The end of BuildSelect: a nested statement is put in parentheses.
unfoldable pub enclose : List ClauseType → Bytes → Bytes
unfolding with_braces
enclose [] text = text
enclose (parent ∷ stack) text = if with_braces parent then parens text else text

-- `if (part) oss << word << BuildClause(part);`, given what the call does.
unfoldable pub part_text : Bytes → Clause → Outcome Fault Bytes → Outcome Fault Bytes
part_text word null built = ok []
part_text word c built = do text ← built; ok (word ++ text)

unfoldable pub selectors_text : List Bytes → Bytes
selectors_text [] = codes "*"
selectors_text (t ∷ ts) = Text.join (codes ", ") (t ∷ ts)

-- The list of columns of BuildInsert.
unfoldable pub columns_text : List Bytes → Bytes
columns_text [] = []
columns_text (t ∷ ts) = codes "(" ++ Text.join (codes ", ") (t ∷ ts) ++ codes ") "

unfoldable pub values_text : List Bytes → Bytes
values_text [] = codes "DEFAULT VALUES"
values_text (t ∷ ts) = codes "VALUES " ++ Text.join (codes ", ") (t ∷ ts)

-- The loop over the joins of BuildSelect.
unfoldable pub joins_text : List Bytes → Bytes
joins_text [] = []
joins_text (t ∷ ts) = codes " " ++ t ++ joins_text ts

unfoldable pub definitions : Environment → List ℕ → Outcome Fault (List Bytes)
unfolding column_definition
definitions env [] = ok []
definitions env (i ∷ is) = do
  text ← column_definition env (env.get_primitive_field i)
  texts ← definitions env is
  ok (text ∷ texts)

-- A field that is null is dereferenced all the same: what then happens is not defined.
unfoldable pub table_of : Environment → Option FieldInfo → Outcome Fault Bytes
unfolding table_name
table_of env none = err null_field
table_of env (some field) = table_name env field.path

-- The table that BuildAlterTable names, from the first operation, whose field it dereferences.
unfoldable pub altered_table : Environment → Clauses → Outcome Fault Bytes
altered_table env (cons (add_column field) cs) = table_of env field
altered_table env (cons (drop_column field) cs) = table_of env field
altered_table env (cons (alter_column table_path field_path type) cs) = ok (table_text table_path)
altered_table env other = ok []

unfoldable mutual
  unfolding build_column join_word enclose part_text selectors_text columns_text values_text
      joins_text definitions altered_table operand_count table_name column_definition get_field

  pub build_clause : Environment → List ClauseType → Clause → Outcome Fault Bytes
  build_clause env stack null = ok []
  build_clause env stack (string s) = ok (escape_string_literal s)
  build_clause env stack (int z) = ok (signed_decimal z)
  build_clause env stack (float x) = ok (env.to_string64 x)
  build_clause env stack (bool b) = ok (bool_text b)
  build_clause env stack (expression type operands) = elim (template type) [
    | none ↦ err unknown_expression
    | some t ↦ do
      ensure (accepts t (operand_count operands)) invalid_operands
      texts ← build_vector env (expression_type ∷ stack) operands
      ok (fill t texts)
  ]
  build_clause env stack all = ok (codes "*")
  build_clause env stack default = ok (codes "DEFAULT")
  build_clause env stack (column table_path field_path key type) =
      build_column table_path field_path key type
  build_clause env stack (table path) = table_name env path
  build_clause env stack (join path condition type) = do
    name ← table_name env path
    on ← part_text (codes "ON ") condition (build_clause env (join_type ∷ stack) condition)
    ok (join_word type ++ name ++ codes " " ++ on)
  build_clause env stack (select selectors from joins wher group having order limit) = do
    let inner = select_type ∷ stack
    columns ← build_vector env inner selectors
    from' ← part_text (codes " FROM ") from (build_clause env inner from)
    joins' ← build_vector env inner joins
    wher' ← part_text (codes " WHERE ") wher (build_clause env inner wher)
    group' ← part_text (codes " GROUP BY ") group (build_clause env inner group)
    having' ← part_text (codes " HAVING ") having (build_clause env inner having)
    order' ← part_text (codes " ORDER BY ") order (build_clause env inner order)
    limit' ← part_text (codes " LIMIT ") limit (build_clause env inner limit)
    ok (
        enclose stack (
          codes "SELECT "
          ++ selectors_text columns
          ++ from'
          ++ joins_text joins'
          ++ wher'
          ++ group'
          ++ having'
          ++ order'
          ++ limit'))
  build_clause env stack (insert path selectors is_values values is_do_update do_update) = do
    let inner = insert_type ∷ stack
    columns ← build_vector env inner selectors
    values' ← elim is_values [
      | true ↦ do rows ← build_rows env inner values; ok (values_text rows)
      | false ↦ ok []
    ]
    updates ← elim is_do_update [
      | true ↦ do
        set ← build_updates env inner do_update
        ok (codes " ON CONFLICT DO UPDATE SET " ++ Text.join (codes ", ") set)
      | false ↦ ok []
    ]
    ok (
        codes "INSERT INTO "
        ++ table_text path
        ++ codes " "
        ++ columns_text columns
        ++ values'
        ++ updates)
  build_clause env stack (update path updates wher) = do
    name ← table_name env path
    set ← build_updates env (update_type ∷ stack) updates
    wher' ← part_text (codes " WHERE ") wher (build_clause env (update_type ∷ stack) wher)
    ok (codes "UPDATE " ++ name ++ codes " SET " ++ Text.join (codes ", ") set ++ wher')
  build_clause env stack (delete path wher) = do
    name ← table_name env path
    wher' ← part_text (codes " WHERE ") wher (build_clause env (delete_type ∷ stack) wher)
    ok (codes "DELETE FROM " ++ name ++ wher')
  build_clause env stack (truncate path) =
      table_name env path >>= λ name. ok (codes "TRUNCATE TABLE " ++ name)
  build_clause env stack (start_transaction read_only) =
      ok (codes "BEGIN" ++ (if read_only then codes " READ ONLY" else []))
  build_clause env stack commit_transaction = ok (codes "COMMIT")
  build_clause env stack rollback_transaction = ok (codes "ROLLBACK")
  build_clause env stack (create_table path fields) = do
    name ← table_name env path
    texts ← definitions env fields
    ok (codes "CREATE TABLE " ++ name ++ codes " (" ++ Text.join (codes ", ") texts ++ codes ")")
  build_clause env stack (drop_table path) =
      table_name env path >>= λ name. ok (codes "DROP TABLE " ++ name)
  build_clause env stack (alter_table operations) = do
    name ← altered_table env operations
    texts ← build_vector env (alter_table_type ∷ stack) operations
    ok (codes "ALTER TABLE " ++ name ++ Text.join (codes ", ") texts)
  build_clause env stack (add_column none) = ok []
  build_clause env stack (add_column (some field)) =
      column_definition env (some field) >>= λ text. ok (codes "ADD COLUMN " ++ text)
  build_clause env stack (drop_column none) = ok []
  build_clause env stack (drop_column (some field)) =
      get_field env field.path >>= λ name. ok (codes "DROP COLUMN " ++ simple_field name)
  build_clause env stack (alter_column table_path field_path type) =
      alter_column_text env field_path type

  -- The loops that build the clauses of a vector.
  pub build_vector : Environment → List ClauseType → Clauses → Outcome Fault (List Bytes)
  build_vector env stack nil = ok []
  build_vector env stack (cons c cs) = do
    text ← build_clause env stack c
    texts ← build_vector env stack cs
    ok (text ∷ texts)

  pub build_rows : Environment → List ClauseType → Rows → Outcome Fault (List Bytes)
  build_rows env stack no_rows = ok []
  build_rows env stack (row r rs) = do
    cells ← build_vector env stack r
    texts ← build_rows env stack rs
    ok (parens (Text.join (codes ", ") cells) ∷ texts)

  pub build_updates : Environment → List ClauseType → Updates → Outcome Fault (List Bytes)
  build_updates env stack no_updates = ok []
  build_updates env stack (assign c v us) = do
    target ← build_clause env stack c
    value ← build_clause env stack v
    texts ← build_updates env stack us
    ok ((target ++ codes " = " ++ value) ∷ texts)

-- JoinQueries: the separator stands before every query but the one at index 0.
unfoldable pub join_behind : List Bytes → Bytes
join_behind [] = []
join_behind (q ∷ qs) = (if q == [] then [] else codes "; " ++ q) ++ join_behind qs

unfoldable pub join_queries : List Bytes → Bytes
unfolding join_behind
join_queries [] = []
join_queries (q ∷ qs) = q ++ join_behind qs
