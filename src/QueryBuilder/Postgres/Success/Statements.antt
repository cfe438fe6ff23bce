-- ===== src/QueryBuilder/Postgres/Success/Statements.antt =====
-- About the exceptions of BuildClause (lib/query_builder) on whole statements.
use my_orm.Prelude.{◌≡◌, refl, none, some, List, ◌∷◌, codes}
use my_orm.QueryBuilder.Clause.{
  Clause, null, string, int, float, bool, expression, all, default, column, table, join, select,
  insert, update, delete, truncate, start_transaction, commit_transaction, rollback_transaction,
  create_table, drop_table, alter_table, add_column, drop_column, alter_column, Clauses, nil, cons,
  Rows, no_rows, row, Updates, no_updates, assign, ClauseType, expression_type, join_type,
  select_type, insert_type, update_type, delete_type, alter_table_type,
}
use my_orm.QueryBuilder.Postgres.Definition.{Environment, table_name, get_field, column_definition}
use my_orm.QueryBuilder.Postgres.Build.{
  operand_count, part_text, definitions, altered_table, build_clause, build_vector, build_rows,
  build_updates,
}
use my_orm.QueryBuilder.Postgres.Success.{
  succeeded, knows_field, is_printable, are_printable, rows_printable, updates_printable,
}
use my_orm.QueryBuilder.Postgres.Success.Parts.{
  chain, last, name_succeeds, field_succeeds, definition_succeeds, definitions_succeed,
  column_succeeds, alteration_succeeds, table_succeeds, part_succeeds, expression_succeeds,
  optional_succeeds,
}

module _ (env : Environment) where
  mutual
    unfolding build_clause is_printable succeeded knows_field

    clause_succeeds :
        (stack : List ClauseType) (c : Clause)
        → succeeded (build_clause env stack c) ≡ is_printable env c
    clause_succeeds stack null = refl
    clause_succeeds stack (string s) = refl
    clause_succeeds stack (int z) = refl
    clause_succeeds stack (float x) = refl
    clause_succeeds stack (bool b) = refl
    clause_succeeds stack (expression type operands) =
        expression_succeeds type (operand_count operands)
          (build_vector env (expression_type ∷ stack) operands) _
          (vector_succeeds (expression_type ∷ stack) operands)
    clause_succeeds stack all = refl
    clause_succeeds stack default = refl
    clause_succeeds stack (column table_path field_path key type) =
        column_succeeds table_path field_path key type
    clause_succeeds stack (table path) = name_succeeds env path
    clause_succeeds stack (join path condition type) =
        chain (table_name env path) _ _ _ (name_succeeds env path) λ name.
          last (part_text (codes "ON ") condition (build_clause env (join_type ∷ stack) condition))
            _ _
            (part_succeeds env (join_type ∷ stack) (codes "ON ") condition _
              (clause_succeeds (join_type ∷ stack) condition))
    clause_succeeds stack (select selectors from joins wher group having order limit) =
        let inner = select_type ∷ stack in
        chain (build_vector env inner selectors) _ _ _ (vector_succeeds inner selectors) λ columns.
          chain (part_text (codes " FROM ") from (build_clause env inner from)) _ _ _
            (part_succeeds env inner (codes " FROM ") from _ (clause_succeeds inner from))
            λ from'.
              chain (build_vector env inner joins) _ _ _ (vector_succeeds inner joins) λ joins'.
                chain (part_text (codes " WHERE ") wher (build_clause env inner wher)) _ _ _
                  (part_succeeds env inner (codes " WHERE ") wher _ (clause_succeeds inner wher))
                  λ wher'.
                    chain (part_text (codes " GROUP BY ") group (build_clause env inner group)) _ _
                      _
                      (part_succeeds env inner (codes " GROUP BY ") group _
                        (clause_succeeds inner group))
                      λ group'.
                        chain (part_text (codes " HAVING ") having (build_clause env inner having))
                          _ _ _
                          (part_succeeds env inner (codes " HAVING ") having _
                            (clause_succeeds inner having))
                          λ having'.
                            chain
                              (part_text (codes " ORDER BY ") order (build_clause env inner order))
                              _ _ _
                              (part_succeeds env inner (codes " ORDER BY ") order _
                                (clause_succeeds inner order))
                              λ order'.
                                last
                                  (part_text (codes " LIMIT ") limit (build_clause env inner limit))
                                  _ _
                                  (part_succeeds env inner (codes " LIMIT ") limit _
                                    (clause_succeeds inner limit))
    clause_succeeds stack (insert path selectors is_values values is_do_update do_update) =
        let inner = insert_type ∷ stack in
        chain (build_vector env inner selectors) _ _ _ (vector_succeeds inner selectors) λ columns.
          chain _ _ _ _
            (optional_succeeds is_values _ (build_rows env inner values) _
              (rows_succeed inner values))
            λ values'. last _ _ _ (
              optional_succeeds is_do_update _ (build_updates env inner do_update) _
                (updates_succeed inner do_update))
    clause_succeeds stack (update path updates wher) =
        let inner = update_type ∷ stack in
        chain (table_name env path) _ _ _ (name_succeeds env path) λ name.
          chain (build_updates env inner updates) _ _ _ (updates_succeed inner updates) λ set.
            last (part_text (codes " WHERE ") wher (build_clause env inner wher)) _ _
              (part_succeeds env inner (codes " WHERE ") wher _ (clause_succeeds inner wher))
    clause_succeeds stack (delete path wher) =
        let inner = delete_type ∷ stack in
        chain (table_name env path) _ _ _ (name_succeeds env path) λ name.
          last (part_text (codes " WHERE ") wher (build_clause env inner wher)) _ _
            (part_succeeds env inner (codes " WHERE ") wher _ (clause_succeeds inner wher))
    clause_succeeds stack (truncate path) = last (table_name env path) _ _ (name_succeeds env path)
    clause_succeeds stack (start_transaction read_only) = refl
    clause_succeeds stack commit_transaction = refl
    clause_succeeds stack rollback_transaction = refl
    clause_succeeds stack (create_table path fields) =
        chain (table_name env path) _ _ _ (name_succeeds env path)
          λ name. last (definitions env fields) _ _ (definitions_succeed env fields)
    clause_succeeds stack (drop_table path) =
        last (table_name env path) _ _ (name_succeeds env path)
    clause_succeeds stack (alter_table operations) =
        chain (altered_table env operations) _ _ _ (table_succeeds env operations) λ name.
          last (build_vector env (alter_table_type ∷ stack) operations) _ _
            (vector_succeeds (alter_table_type ∷ stack) operations)
    clause_succeeds stack (add_column none) = refl
    clause_succeeds stack (add_column (some field)) =
        last (column_definition env (some field)) _ _ (definition_succeeds env (some field))
    clause_succeeds stack (drop_column none) = refl
    clause_succeeds stack (drop_column (some field)) =
        last (get_field env field.path) _ _ (field_succeeds env field.path)
    clause_succeeds stack (alter_column table_path field_path type) =
        alteration_succeeds env field_path type

    vector_succeeds :
        (stack : List ClauseType) (cs : Clauses)
        → succeeded (build_vector env stack cs) ≡ are_printable env cs
    vector_succeeds stack nil = refl
    vector_succeeds stack (cons c cs) =
        chain (build_clause env stack c) _ _ _ (clause_succeeds stack c)
          λ text. last (build_vector env stack cs) _ _ (vector_succeeds stack cs)

    rows_succeed :
        (stack : List ClauseType) (rs : Rows)
        → succeeded (build_rows env stack rs) ≡ rows_printable env rs
    rows_succeed stack no_rows = refl
    rows_succeed stack (row r rs) =
        chain (build_vector env stack r) _ _ _ (vector_succeeds stack r)
          λ cells. last (build_rows env stack rs) _ _ (rows_succeed stack rs)

    updates_succeed :
        (stack : List ClauseType) (us : Updates)
        → succeeded (build_updates env stack us) ≡ updates_printable env us
    updates_succeed stack no_updates = refl
    updates_succeed stack (assign c v us) =
        chain (build_clause env stack c) _ _ _ (clause_succeeds stack c) λ target.
          chain (build_clause env stack v) _ _ _ (clause_succeeds stack v)
            λ value. last (build_updates env stack us) _ _ (updates_succeed stack us)

-- BuildClause returns a text for the clauses whose printed parts are printable and name tables that
-- the relation manager knows, and for no others: these throw, or dereference a field that is null.
pub succeeded-build_clause :
    (env : Environment) (stack : List ClauseType) (c : Clause)
    → succeeded (build_clause env stack c) ≡ is_printable env c
succeeded-build_clause env stack c = clause_succeeds env stack c
