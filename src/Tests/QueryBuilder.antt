-- ===== src/Tests/QueryBuilder.antt =====
-- Statements as in tests/query_builder/postgres_query_builder_test.cpp.
use my_orm.Prelude.{◌≡◌, refl, some, none, [], ◌∷◌, ◌++◌, codes, ok, arith}
use my_orm.Requests.ExpressionType.{equals, singular}
use my_orm.QueryBuilder.Clause.{
  Clause, null, string, expression, column, table, select, nil, cons, simple,
}
use my_orm.QueryBuilder.Postgres.Text.{escape_string_literal, field_to_string, table_text, decimal}
use my_orm.QueryBuilder.Postgres.Expression.{template, accepts, fill}
use my_orm.QueryBuilder.Postgres.Definition.{Environment}
use my_orm.QueryBuilder.Postgres.Build.{build_clause, join_queries}
use my_orm.QueryBuilder.Postgres.Literals.{read_literal, stored, read_literal-escape_string_literal}
use my_orm.QueryBuilder.Postgres.Names.{read_field, letter, read_field-field_to_string}
use my_orm.QueryBuilder.Postgres.Success.{succeeded, is_printable}
use my_orm.QueryBuilder.Postgres.Success.Statements.{succeeded-build_clause}
use my_orm.QueryBuilder.Postgres.Balance.{IsNeutral}
use my_orm.QueryBuilder.Postgres.Balance.Definitions.{PrintsPlainly}
use my_orm.QueryBuilder.Postgres.Balance.Statements.{build_clause-IsNeutral}

-- A library that prints every floating-point number as 0.5, tables of one entry, and no fields.
abbrev env : Environment
env = record {
  to_string32 = λ _. codes "0.5";
  to_string64 = λ _. codes "0.5";
  stream32 = λ _. codes "0.5";
  stream64 = λ _. codes "0.5";
  get_table_path = λ _. some (1 ∷ []);
  get_primitive_field = λ _. none;
}

env-PrintsPlainly : PrintsPlainly env
env-PrintsPlainly = record {
  plain_to_string32 = λ _. refl;
  plain_to_string64 = λ _. refl;
  plain_stream32 = λ _. refl;
  plain_stream64 = λ _. refl;
}

-- SELECT * FROM t_1 WHERE (f_2 = 'it''s')
abbrev query : Clause
query =
    select nil (table (1 ∷ [])) nil
      (expression equals
        (cons (column [] (2 ∷ []) simple singular) (cons (string (codes "it's")) nil)))
      null null null null

query_text : build_clause env [] query ≡ ok (codes "SELECT * FROM t_1 WHERE (f_2 = 'it''s')")
unfolding build_clause template accepts field_to_string table_text decimal fill
    escape_string_literal
query_text = refl

-- An absent first query leaves its separator.
empty_first : join_queries ([] ∷ codes "COMMIT" ∷ []) ≡ codes "; COMMIT"
unfolding join_queries
empty_first = refl

-- A backslash is doubled, though the literal keeps it as it is.
backslash : stored (codes "\\") ≡ codes "\\\\"
backslash = unfold stored in refl

build_clause-IsNeutral_example : IsNeutral (codes "SELECT * FROM t_1 WHERE (f_2 = 'it''s')")
build_clause-IsNeutral_example = build_clause-IsNeutral env env-PrintsPlainly [] query _ query_text

succeeded-build_clause_example : succeeded (build_clause env [] query) ≡ is_printable env query
succeeded-build_clause_example = succeeded-build_clause env [] query

read_literal-escape_string_literal_example :
    read_literal 39 (escape_string_literal (codes "it's") ++ codes " OR")
    ≡ some (stored (codes "it's"), codes " OR")
read_literal-escape_string_literal_example =
    read_literal-escape_string_literal (codes "it's") (codes " OR") (λ e. absurd (omega arith))

read_field-field_to_string_example : read_field (codes "f_2_10") ≡ (letter simple, 2 ∷ 10 ∷ [])
read_field-field_to_string_example =
    read_field-field_to_string simple 2 (10 ∷ []) (codes "f_2_10")
      (unfold field_to_string decimal in refl)
