-- ===== src/QueryBuilder/Postgres/Balance/Statements.antt =====
-- About quotes and parentheses in whole statements (lib/query_builder/builders/postgres.cpp).
use mathlib.Core.Path.{subst}
use my_orm.Prelude.{◌≡◌, refl, true, false, none, some, List, ◌∷◌, Bytes, codes, All, ok}
use my_orm.QueryBuilder.Clause.{
  Clause, null, string, int, float, bool, expression, all, default, column, table, join, select,
  insert, update, delete, truncate, start_transaction, commit_transaction, rollback_transaction,
  create_table, drop_table, alter_table, add_column, drop_column, alter_column, Clauses, nil, cons,
  Rows, no_rows, row, Updates, no_updates, assign, ClauseType, expression_type, join_type,
  select_type, insert_type, update_type, delete_type, alter_table_type,
}
use my_orm.QueryBuilder.Postgres.Definition.{Environment, get_field}
use my_orm.QueryBuilder.Postgres.Build.{
  operand_count, build_clause, build_vector, build_rows, build_updates,
}
use my_orm.QueryBuilder.Postgres.Balance.{
  IsNeutral, nil-IsNeutral, ◌&&&◌, signed_decimal-IsNeutral, table_text-IsNeutral,
  simple_field-IsNeutral, escape_string_literal-IsNeutral, parens-IsNeutral, bool_text-IsNeutral,
}
use my_orm.QueryBuilder.Postgres.Balance.Expressions.{list-IsNeutral}
use my_orm.QueryBuilder.Postgres.Balance.Definitions.{
  PrintsPlainly, Yields, always-Yields, definition-Yields, alter_column_text-IsNeutral,
}
use my_orm.QueryBuilder.Postgres.Balance.Parts.{
  then-Yields, name-Yields, column-Yields, join_word-IsNeutral, enclose-IsNeutral,
  selectors-IsNeutral, columns-IsNeutral, joins-IsNeutral, part-Yields, altered_table-Yields,
}
use my_orm.QueryBuilder.Postgres.Balance.Pieces.{
  definitions-Yields, filled-Yields, word, create_table-IsNeutral, inserted-Yields, conflict-Yields,
}

module _ (env : Environment) (plain : PrintsPlainly env) where
  mutual
    unfolding build_clause

    clause-Yields :
        (stack : List ClauseType) (c : Clause) → Yields IsNeutral (build_clause env stack c)
    clause-Yields stack null = nil-IsNeutral
    clause-Yields stack (string s) = escape_string_literal-IsNeutral s
    clause-Yields stack (int z) = signed_decimal-IsNeutral z
    clause-Yields stack (float x) = word _ (plain.plain_to_string64 x)
    clause-Yields stack (bool b) = bool_text-IsNeutral b
    clause-Yields stack (expression type operands) =
        filled-Yields type (operand_count operands)
          (build_vector env (expression_type ∷ stack) operands)
          (vector-Yields (expression_type ∷ stack) operands)
    clause-Yields stack all = word (codes "*") refl
    clause-Yields stack default = word (codes "DEFAULT") refl
    clause-Yields stack (column table_path field_path key type) =
        column-Yields table_path field_path key type
    clause-Yields stack (table path) = name-Yields env path
    clause-Yields stack (join path condition type) =
        then-Yields IsNeutral IsNeutral _ _ (name-Yields env path) λ name hn.
          then-Yields IsNeutral IsNeutral _ _
            (part-Yields (codes "ON ") condition _ (word (codes "ON ") refl)
              (clause-Yields (join_type ∷ stack) condition))
            λ on h. join_word-IsNeutral type &&& hn &&& word (codes " ") refl &&& h
    clause-Yields stack (select selectors from joins wher group having order limit) =
        let inner = select_type ∷ stack in
        then-Yields (All IsNeutral) IsNeutral _ _ (vector-Yields inner selectors) λ columns h1.
          then-Yields IsNeutral IsNeutral _ _
            (part-Yields (codes " FROM ") from _ (word (codes " FROM ") refl)
              (clause-Yields inner from))
            λ from' h2.
              then-Yields (All IsNeutral) IsNeutral _ _ (vector-Yields inner joins) λ joins' h3.
                then-Yields IsNeutral IsNeutral _ _
                  (part-Yields (codes " WHERE ") wher _ (word (codes " WHERE ") refl)
                    (clause-Yields inner wher))
                  λ wher' h4.
                    then-Yields IsNeutral IsNeutral _ _
                      (part-Yields (codes " GROUP BY ") group _ (word (codes " GROUP BY ") refl)
                        (clause-Yields inner group))
                      λ group' h5.
                        then-Yields IsNeutral IsNeutral _ _
                          (part-Yields (codes " HAVING ") having _ (word (codes " HAVING ") refl)
                            (clause-Yields inner having))
                          λ having' h6.
                            then-Yields IsNeutral IsNeutral _ _
                              (part-Yields (codes " ORDER BY ") order _
                                (word (codes " ORDER BY ") refl) (clause-Yields inner order))
                              λ order' h7.
                                then-Yields IsNeutral IsNeutral _ _
                                  (part-Yields (codes " LIMIT ") limit _
                                    (word (codes " LIMIT ") refl) (clause-Yields inner limit))
                                  λ limit' h8. enclose-IsNeutral stack _ (
                                    word (codes "SELECT ") refl
                                    &&& selectors-IsNeutral columns h1
                                    &&& h2
                                    &&& joins-IsNeutral joins' h3
                                    &&& h4
                                    &&& h5
                                    &&& h6
                                    &&& h7
                                    &&& h8)
    clause-Yields stack (insert path selectors is_values values is_do_update do_update) =
        let inner = insert_type ∷ stack in
        then-Yields (All IsNeutral) IsNeutral _ _ (vector-Yields inner selectors) λ columns h1.
          then-Yields IsNeutral IsNeutral _ _
            (inserted-Yields is_values (build_rows env inner values) (rows-Yields inner values))
            λ values' h2.
              then-Yields IsNeutral IsNeutral _ _
                (conflict-Yields is_do_update (build_updates env inner do_update)
                  (updates-Yields inner do_update))
                λ updates h3.
                  word (codes "INSERT INTO ") refl
                  &&& table_text-IsNeutral path
                  &&& word (codes " ") refl
                  &&& columns-IsNeutral columns h1
                  &&& h2
                  &&& h3
    clause-Yields stack (update path updates wher) =
        let inner = update_type ∷ stack in
        then-Yields IsNeutral IsNeutral _ _ (name-Yields env path) λ name hn.
          then-Yields (All IsNeutral) IsNeutral _ _ (updates-Yields inner updates) λ set h1.
            then-Yields IsNeutral IsNeutral _ _
              (part-Yields (codes " WHERE ") wher _ (word (codes " WHERE ") refl)
                (clause-Yields inner wher))
              λ wher' h2.
                word (codes "UPDATE ") refl
                &&& hn
                &&& word (codes " SET ") refl
                &&& list-IsNeutral set h1
                &&& h2
    clause-Yields stack (delete path wher) =
        then-Yields IsNeutral IsNeutral _ _ (name-Yields env path) λ name hn.
          then-Yields IsNeutral IsNeutral _ _
            (part-Yields (codes " WHERE ") wher _ (word (codes " WHERE ") refl)
              (clause-Yields (delete_type ∷ stack) wher))
            λ wher' h. word (codes "DELETE FROM ") refl &&& hn &&& h
    clause-Yields stack (truncate path) =
        then-Yields IsNeutral IsNeutral _ _ (name-Yields env path)
          λ name hn. word (codes "TRUNCATE TABLE ") refl &&& hn
    clause-Yields stack (start_transaction true) = word (codes "BEGIN READ ONLY") refl
    clause-Yields stack (start_transaction false) = word (codes "BEGIN") refl
    clause-Yields stack commit_transaction = word (codes "COMMIT") refl
    clause-Yields stack rollback_transaction = word (codes "ROLLBACK") refl
    clause-Yields stack (create_table path fields) =
        then-Yields IsNeutral IsNeutral _ _ (name-Yields env path) λ name hn.
          then-Yields (All IsNeutral) IsNeutral _ _ (definitions-Yields env plain fields)
            λ texts h. create_table-IsNeutral name texts hn h
    clause-Yields stack (drop_table path) =
        then-Yields IsNeutral IsNeutral _ _ (name-Yields env path)
          λ name hn. word (codes "DROP TABLE ") refl &&& hn
    clause-Yields stack (alter_table operations) =
        then-Yields IsNeutral IsNeutral _ _ (altered_table-Yields env operations) λ name h1.
          then-Yields (All IsNeutral) IsNeutral _ _
            (vector-Yields (alter_table_type ∷ stack) operations)
            λ texts h2. word (codes "ALTER TABLE ") refl &&& h1 &&& list-IsNeutral texts h2
    clause-Yields stack (add_column none) = nil-IsNeutral
    clause-Yields stack (add_column (some field)) =
        then-Yields IsNeutral IsNeutral _ _ (definition-Yields env plain (some field))
          λ text h. word (codes "ADD COLUMN ") refl &&& h
    clause-Yields stack (drop_column none) = nil-IsNeutral
    clause-Yields stack (drop_column (some field)) =
        always-Yields IsNeutral (get_field env field.path) _
          λ name. word (codes "DROP COLUMN ") refl &&& simple_field-IsNeutral name
    clause-Yields stack (alter_column table_path field_path type) =
        alter_column_text-IsNeutral env plain field_path type

    vector-Yields :
        (stack : List ClauseType) (cs : Clauses)
        → Yields (All IsNeutral) (build_vector env stack cs)
    vector-Yields stack nil = tt
    vector-Yields stack (cons c cs) =
        then-Yields IsNeutral (All IsNeutral) _ _ (clause-Yields stack c) λ text h.
          then-Yields (All IsNeutral) (All IsNeutral) _ _ (vector-Yields stack cs) λ texts k. (h, k)

    rows-Yields :
        (stack : List ClauseType) (rs : Rows) → Yields (All IsNeutral) (build_rows env stack rs)
    rows-Yields stack no_rows = tt
    rows-Yields stack (row r rs) =
        then-Yields (All IsNeutral) (All IsNeutral) _ _ (vector-Yields stack r) λ cells h.
          then-Yields (All IsNeutral) (All IsNeutral) _ _ (rows-Yields stack rs)
            λ texts k. (parens-IsNeutral _ (list-IsNeutral cells h), k)

    updates-Yields :
        (stack : List ClauseType) (us : Updates)
        → Yields (All IsNeutral) (build_updates env stack us)
    updates-Yields stack no_updates = tt
    updates-Yields stack (assign c v us) =
        then-Yields IsNeutral (All IsNeutral) _ _ (clause-Yields stack c) λ target h1.
          then-Yields IsNeutral (All IsNeutral) _ _ (clause-Yields stack v) λ value h2.
            then-Yields (All IsNeutral) (All IsNeutral) _ _ (updates-Yields stack us)
              λ texts k. (h1 &&& word (codes " = ") refl &&& h2, k)

  -- Whatever strings, numbers and names a clause holds, its text, where the builder gives one, closes
  -- the literals and the parentheses that it opens, and no others. The standard library prints
  -- floating-point numbers without quotes and parentheses.
  pub build_clause-IsNeutral :
      (stack : List ClauseType) (c : Clause) (text : Bytes)
      → build_clause env stack c ≡ ok text
      → IsNeutral text
  build_clause-IsNeutral stack c text h = subst (Yields IsNeutral) h (clause-Yields stack c)
