-- ===== src/QueryBuilder/Postgres/Success.antt =====
-- About the clauses that BuildClause (lib/query_builder) prints without throwing.
pub mod Statements
mod Parts
use my_orm.Prelude.{
  ℕ, ◌≡◌, refl, sym, ap, ◌∙◌, Bool, true, false, ◌&&◌, Option, none, some, Option-cases, inl, inr,
  List, [], ◌∷◌, ◌++◌, Bytes, codes, Outcome, ok, err, ensure, ◌>>=◌, ◌>>◌, arith,
}
use my_orm.Relation.Path.{MessagePath}
use my_orm.Requests.ExpressionType.{ExpressionType, ColumnType, singular, excluded}
use my_orm.QueryBuilder.Clause.{
  FieldInfo, KeyType, simple, primary, index, other_key, AlterType, set_default, set_type,
  no_alteration, drop_default, set_required, drop_required, Clause, null, string, int, float, bool,
  expression, all, default, column, table, join, select, insert, update, delete, truncate,
  start_transaction, commit_transaction, rollback_transaction, create_table, drop_table,
  alter_table, add_column, drop_column, alter_column, Clauses, nil, cons, Rows, no_rows, row,
  Updates, no_updates, assign, ClauseType, expression_type, join_type, select_type, insert_type,
  update_type, delete_type, alter_table_type,
}
use my_orm.QueryBuilder.Postgres.Text.{
  Fault, invalid_operands, unknown_expression, unknown_table, field_to_string,
}
use my_orm.QueryBuilder.Postgres.Expression.{Template, template, accepts, fill}
use my_orm.QueryBuilder.Postgres.Definition.{
  Environment, get_table, get_field, table_name, column_definition, alter_column_text,
}
use my_orm.QueryBuilder.Postgres.Build.{
  build_column, operand_count, definitions, part_text, altered_table, table_of, build_clause,
  build_vector, build_rows, build_updates,
}

unfoldable pub succeeded : {A : Type 0} → Outcome Fault A → Bool
succeeded (ok a) = true
succeeded (err e) = false

-- A key type with an enumerator.
unfoldable pub is_known_key : KeyType → Bool
is_known_key other_key = false
is_known_key key = true

unfoldable pub is_known_alteration : AlterType → Bool
is_known_alteration no_alteration = false
is_known_alteration type = true

-- The expression is of a known type, with a count of operands that it takes.
unfoldable pub has_operands : ExpressionType → ℕ → Bool
has_operands type n = elim (template type) [ none ↦ false | some t ↦ accepts t n ]

-- The relation manager knows the table of the path.
unfoldable pub knows_table : Environment → MessagePath → Bool
knows_table env path = elim (env.get_table_path path) [ none ↦ false | some owner ↦ true ]

-- The table of the field is known, if there is a field.
unfoldable pub knows_field : Environment → Option FieldInfo → Bool
unfolding knows_table
knows_field env none = true
knows_field env (some field) = knows_table env field.path

unfoldable pub knows_fields : Environment → List ℕ → Bool
unfolding knows_field
knows_fields env [] = true
knows_fields env (i ∷ is) = knows_field env (env.get_primitive_field i) && knows_fields env is

-- The first operation names a field of a known table.
unfoldable pub names_table : Environment → Clauses → Bool
unfolding knows_table
names_table env (cons (add_column none) cs) = false
names_table env (cons (add_column (some field)) cs) = knows_table env field.path
names_table env (cons (drop_column none) cs) = false
names_table env (cons (drop_column (some field)) cs) = knows_table env field.path
names_table env cs = true

-- Every part of the clause that is printed is printable, and the tables that it names are known.
unfoldable mutual
  unfolding is_known_key is_known_alteration has_operands names_table knows_table knows_field
      knows_fields

  pub is_printable : Environment → Clause → Bool
  is_printable env (expression type operands) =
      has_operands type (operand_count operands) && are_printable env operands
  is_printable env (column table_path field_path key type) = is_known_key key
  is_printable env (join path condition type) = knows_table env path && is_printable env condition
  is_printable env (select selectors from joins wher group having order limit) =
      are_printable env selectors
      && (is_printable env from
          && (are_printable env joins
              && (is_printable env wher
                  && (is_printable env group
                      && (is_printable env having
                          && (is_printable env order && is_printable env limit))))))
  is_printable env (insert path selectors is_values values is_do_update do_update) =
      are_printable env selectors
      && (elim is_values [ true ↦ rows_printable env values | false ↦ true ]
          && (elim is_do_update [ true ↦ updates_printable env do_update | false ↦ true ]))
  is_printable env (update path updates wher) =
      knows_table env path && (updates_printable env updates && is_printable env wher)
  is_printable env (delete path wher) = knows_table env path && is_printable env wher
  is_printable env (alter_table operations) =
      names_table env operations && are_printable env operations
  is_printable env (alter_column table_path field_path type) = is_known_alteration type
  is_printable env (table path) = knows_table env path
  is_printable env (truncate path) = knows_table env path
  is_printable env (create_table path fields) = knows_table env path && knows_fields env fields
  is_printable env (drop_table path) = knows_table env path
  is_printable env (add_column field) = knows_field env field
  is_printable env (drop_column field) = knows_field env field
  is_printable env other = true

  pub are_printable : Environment → Clauses → Bool
  are_printable env nil = true
  are_printable env (cons c cs) = is_printable env c && are_printable env cs

  pub rows_printable : Environment → Rows → Bool
  rows_printable env no_rows = true
  rows_printable env (row r rs) = are_printable env r && rows_printable env rs

  pub updates_printable : Environment → Updates → Bool
  updates_printable env no_updates = true
  updates_printable env (assign c v us) =
      is_printable env c && (is_printable env v && updates_printable env us)
