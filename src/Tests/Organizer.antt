-- ===== src/Tests/Organizer.antt =====
-- Inserts as in tests/query_builder/query_organizer_test.cpp.
use my_orm.Prelude.{◌≡◌, refl, true, false, [], ◌∷◌, codes, length, some, ok, err, arith}
use my_orm.Prelude.Map
use my_orm.Requests.Attribute.{Attribute, Data}
use my_orm.Requests.ExpressionType.{singular, equals}
use my_orm.QueryBuilder.Clause.{
  Clause, string, bool, default, insert, cons, nil, column, simple, row, no_rows, no_updates,
  update, assign, expression, Updates, Clauses,
}
use my_orm.QueryBuilder.Organizer.{
  column_of, Environment, Rejection, State, organize_insert, insert_of, columns_of, add_selector,
  organize_subrequest, place_all, place, value_of,
}
use my_orm.QueryBuilder.Organizer.Alignment.{IsIndexed}
use my_orm.QueryBuilder.Organizer.Update.{
  Tables, organize_attributes, organize_update, insert_key, condition_of,
}
use my_orm.QueryBuilder.Organizer.Update.Keys.{
  HasConjunct, organize_attributes-HasConjunct, organize_update_missing,
}
use my_orm.QueryBuilder.Organizer.Alignment.Insert.{AllFit, organize_insert-AllFit}

-- Every table has a path of one entry.
abbrev env : Environment
env = record { widen = λ x. x; get_table = λ _. some (1 ∷ []); uninitialised = singular }

abbrev name : Attribute
name = record { path = 1 ∷ 2 ∷ []; value = Data.string (codes "a") }

abbrev active : Attribute
active = record { path = 1 ∷ 3 ∷ []; value = Data.bool true }

-- The second row brings a column that the first does not have.
two_rows :
    organize_insert env 1 false ((name ∷ []) ∷ (active ∷ []) ∷ [])
    ≡ ok (
        insert
          (1 ∷ [])
          (cons
            (column (1 ∷ []) (2 ∷ []) simple singular)
            (cons (column (1 ∷ []) (3 ∷ []) simple singular) nil))
          true
          (row
            (cons (string (codes "a")) (cons default nil))
            (row (cons default (cons (bool true) nil)) no_rows))
          false
          no_updates)
unfolding organize_insert add_selector place organize_subrequest place_all value_of Map.lookup
    Map.insert
two_rows = refl

organize_insert-AllFit_example :
    (s : State) × (columns : Clauses) × (organize_insert env 1 false
        ((name ∷ []) ∷ (active ∷ []) ∷ [])
      ≡ ok (insert_of 1 false s.rows columns))
    × (columns_of env s.selectors ≡ ok columns)
    × IsIndexed s
    × AllFit env s s.rows ((name ∷ []) ∷ (active ∷ []) ∷ [])
organize_insert-AllFit_example =
    organize_insert-AllFit env 1 false (name ∷ []) ((active ∷ []) ∷ [])
      (((λ e. cc), tt), (((λ e. cc), tt), tt))

-- Paths of two entries are the primary key of every table.
abbrev tables : Tables
tables = record { get_hash = λ path. length path; get_primary_fields = λ _. some (2 ∷ []) }

abbrev nested : Attribute
nested = record { path = 1 ∷ 3 ∷ 4 ∷ []; value = Data.bool true }

abbrev updated : Clause
updated =
    update (1 ∷ []) (assign (column (1 ∷ []) (3 ∷ 4 ∷ []) simple singular) (bool true) no_updates) (
      expression equals
        (cons (column (1 ∷ []) (2 ∷ []) simple singular) (cons (string (codes "a")) nil)))

organized :
    organize_attributes env tables (1 ∷ []) (2 ∷ []) (name ∷ nested ∷ []) ≡ ok (updated ∷ [])
unfolding organize_attributes insert_key condition_of value_of column_of
organized = refl

organize_attributes-HasConjunct_example :
    (a : Attribute) × (target : Clause) × (vs : Updates) × (w : Clause) × (tables.get_hash a.path
      ≡ 2)
    × (column_of env a.path ≡ ok target)
    × (updated ≡ update (1 ∷ []) vs w)
    × HasConjunct (condition_of env a target) w
organize_attributes-HasConjunct_example =
    organize_attributes-HasConjunct env tables (2 ∷ []) (1 ∷ []) (name ∷ nested ∷ []) updated [] 2
      (refl, tt) organized refl

organize_update_missing_example :
    (thrown : Rejection) × (organize_update env tables 1 ((name ∷ nested ∷ []) ∷ (nested ∷ []) ∷ [])
      ≡ err thrown)
organize_update_missing_example =
    organize_update_missing env tables (2 ∷ []) 1 2 ((name ∷ nested ∷ []) ∷ []) [] nested [] refl
      (refl, tt) refl (λ e. absurd (omega arith), tt)
