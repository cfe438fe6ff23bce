-- ===== src/Tests/Written.antt =====
-- A condition that a client writes with the operators of lib/requests/query.h.
use my_orm.Prelude.{◌≡◌, refl, some, none, [], ◌∷◌, Bytes, codes, ok, false}
use my_orm.Prelude.Int.{ℤ}
use my_orm.Requests
use my_orm.Requests.ExpressionType.{singular}
use my_orm.Requests.Factories.{col, case_of, else_of, branches, upper_of, equal_to}
use my_orm.Requests.Factories.Written.{Written, WrittenBranches}
use my_orm.QueryBuilder
use my_orm.QueryBuilder.Organizer
use my_orm.QueryBuilder.Organizer.Transform.{Relations, transform_clause}
use my_orm.QueryBuilder.Organizer.Transform.Printable.{written_builds}
use my_orm.QueryBuilder.Organizer.Transform.Fine.{HasTables}
use my_orm.QueryBuilder.Postgres.Definition
use my_orm.QueryBuilder.Postgres.Build.{build_clause}

abbrev organizer_env : Organizer.Environment
organizer_env = record { widen = λ x. x; get_table = λ _. some (1 ∷ []); uninitialised = singular }

abbrev printer : Definition.Environment
printer = record {
  to_string32 = λ _. codes "0.5";
  to_string64 = λ _. codes "0.5";
  stream32 = λ _. codes "0.5";
  stream64 = λ _. codes "0.5";
  get_table_path = λ _. some (1 ∷ []);
  get_primitive_field = λ _. none;
}

abbrev relations : Relations
relations = record {
  primitive_field = λ _. none;
  is_message = λ _. false;
  subtree_fields = λ _. [];
}

relations-HasTables : HasTables organizer_env relations
relations-HasTables = record { primitive = λ path field h. cc; below = λ path. tt }

abbrev name : Requests.Clause.Clause
name = col (1 ∷ 2 ∷ [])

abbrev condition : Requests.Clause.Clause
condition = equal_to (upper_of name) (Requests.Clause.string (codes "A"))

-- CASE WHEN (UPPER(f_2) = 'A') THEN 1 ELSE 0 END
abbrev choice : Requests.Clause.Clause
choice =
    else_of (branches case_of ((condition, Requests.Clause.integer (ℤ.pos 1)) ∷ []))
      (Requests.Clause.integer (ℤ.pos 0))

name-Written : Written organizer_env.get_table name
name-Written = Written.col (1 ∷ 2 ∷ []) (1 ∷ []) refl

condition-Written : Written organizer_env.get_table condition
condition-Written =
    Written.equal_to (upper_of name) (Requests.Clause.string (codes "A"))
      (Written.upper_of name name-Written) (Written.string (codes "A"))

choice-Written : Written organizer_env.get_table choice
choice-Written =
    Written.case_of (condition, Requests.Clause.integer (ℤ.pos 1)) []
      (Requests.Clause.integer (ℤ.pos 0))
      (WrittenBranches.branch condition (Requests.Clause.integer (ℤ.pos 1)) [] condition-Written
        (Written.integer (ℤ.pos 1)) WrittenBranches.no_branch)
      (Written.integer (ℤ.pos 0))

written_builds_example :
    (c' : QueryBuilder.Clause.Clause) × (text : Bytes) × (transform_clause organizer_env relations
        choice
      ≡ ok c')
    × (build_clause printer [] c' ≡ ok text)
written_builds_example =
    written_builds organizer_env relations printer [] choice relations-HasTables (λ path. refl)
      choice-Written
