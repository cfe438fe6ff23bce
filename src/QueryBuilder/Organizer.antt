-- ===== src/QueryBuilder/Organizer.antt =====
-- OrganizeInsert (lib/query_builder/organizers/sql_organizer.cpp): the subrequests of an insert, each a
-- list of attributes, become the rows of one statement with a common list of columns.
pub mod Alignment
pub mod Transform
pub mod Update
use my_orm.Prelude.{
  ℕ, Bool, true, false, Option, none, some, List, [], ◌∷◌, ◌++◌, bytes_eq, length, set, replicate,
  drop, Outcome, ok, err, ◌>>=◌,
}
use my_orm.Prelude.Int.{ℤ, to_int32}
use my_orm.Prelude.Map
use my_orm.Prelude.Map.{Map}
use my_orm.Relation.Path.{MessagePath}
use my_orm.Requests.Attribute.{Attribute, Data}
use my_orm.Requests.ExpressionType.{ColumnType, excluded}
use my_orm.QueryBuilder.Clause.{
  Clause, string, int, float, bool, default, column, insert, Clauses, nil, cons, Rows, no_rows, row,
  Updates, no_updates, assign, simple,
}
use my_orm.QueryBuilder.Postgres.Text.{decimal, signed_decimal}

-- The conversion from float to double, the path of the table that holds a path, if the relation manager
-- knows one, and what an uninitialised ColumnType_ holds.
pub record Environment : Type 0 where
  pub widen : ℕ → ℕ
  pub get_table : MessagePath → Option (List ℕ)
  pub uninitialised : ColumnType

-- Why there is no statement: "Table for path not found", a null clause that is dereferenced, and
-- "Missing primary keys in UPDATE".
pub data Rejection : Type 0 where
  no_parent_table null_clause missing_primary_keys : Rejection

-- The ladder over attribute.Data.
unfoldable pub value_of : Environment → Data → Clause
value_of env (Data.bool b) = bool b
value_of env (Data.uint32 n) = int (to_int32 n)
value_of env (Data.int32 z) = int z
value_of env (Data.uint64 n) = string (decimal n)
value_of env (Data.int64 z) = string (signed_decimal z)
value_of env (Data.float x) = float (env.widen x)
value_of env (Data.double x) = float x
value_of env (Data.string s) = string s
value_of env (Data.message m) = default

abbrev pub Row : Type 0
Row = List Clause

-- The locals of the function: the path of each selector, pathToIndex, and the rows so far.
pub record State : Type 0 where
  pub selectors : List MessagePath
  pub index : Map MessagePath ℕ
  pub rows : List Row

unfoldable pub extend : List Row → List Row
extend [] = []
extend (r ∷ rs) = (r ++ default ∷ []) ∷ extend rs

unfoldable pub add_selector : State → MessagePath → State
add_selector s path = record {
  selectors = s.selectors ++ path ∷ [];
  index = Map.insert path (length s.selectors) s.index;
  rows = s.rows;
}

-- The loop over the first subrequest, which makes the selectors.
unfoldable pub add_selectors : State → List Attribute → State
add_selectors s [] = s
add_selectors s (a ∷ as') = add_selectors (add_selector s a.path) as'

-- An attribute that has no selector makes one, and a cell in every row.
unfoldable pub place : Environment → State → Row → Attribute → State × Row
unfolding extend
place env s r a = elim (Map.lookup a.path s.index) [
  | some i ↦ (s, set r i (value_of env a.value))
  | none ↦ (
    record (add_selector s a.path) { rows = extend s.rows },
    set (r ++ default ∷ []) (length s.selectors) (value_of env a.value),
  )
]

unfoldable pub place_all : Environment → State → Row → List Attribute → State × Row
place_all env s r [] = (s, r)
place_all env s r (a ∷ as') = let (s', r') = place env s r a in place_all env s' r' as'

unfoldable pub organize_subrequest : Environment → State → List Attribute → State
organize_subrequest env s attributes =
    let (s', r) = place_all env s (replicate (length s.selectors) default) attributes in
    record s' { rows = s'.rows ++ r ∷ [] }

unfoldable pub organize_subrequests : Environment → State → List (List Attribute) → State
organize_subrequests env s [] = s
organize_subrequests env s (attributes ∷ rest) =
    organize_subrequests env (organize_subrequest env s attributes) rest

abbrev pub no_state : State
no_state = record { selectors = []; index = []; rows = [] }

-- TMessagePath::GetTable and GetField, and the TColumn of the two.
unfoldable pub column_of : Environment → MessagePath → Outcome Rejection Clause
column_of env path = elim (env.get_table path) [
  | none ↦ err no_parent_table
  | some table ↦ ok (column table (drop (length table) path) simple env.uninitialised)
]

unfoldable pub columns_of : Environment → List MessagePath → Outcome Rejection Clauses
unfolding column_of
columns_of env [] = ok nil
columns_of env (p ∷ ps) = do c ← column_of env p; cs ← columns_of env ps; ok (cons c cs)

unfoldable pub cells_of : Row → Clauses
cells_of [] = nil
cells_of (c ∷ cs) = cons c (cells_of cs)

unfoldable pub rows_of : List Row → Rows
unfolding cells_of
rows_of [] = no_rows
rows_of (r ∷ rs) = row (cells_of r) (rows_of rs)

-- The loop over the selectors that are columns.
unfoldable pub do_update_of : Clauses → Updates
do_update_of nil = no_updates
do_update_of (cons (column table field key type) cs) =
    assign (column table field key type) (column table field key excluded) (do_update_of cs)
do_update_of (cons c cs) = do_update_of cs

-- The statement of the selectors and the rows.
unfoldable pub insert_of : ℕ → Bool → List Row → Clauses → Clause
unfolding rows_of do_update_of
insert_of table_num update_if_exists rows columns =
    insert (table_num ∷ []) columns true (rows_of rows) update_if_exists
      (elim update_if_exists [ true ↦ do_update_of columns | false ↦ no_updates ])

-- The only exception is that of a column whose table is not known, whenever it is made.
unfoldable pub organize_insert :
    Environment → ℕ → Bool → List (List Attribute) → Outcome Rejection Clause
unfolding add_selectors organize_subrequests columns_of insert_of
organize_insert env table_num update_if_exists [] =
    ok (insert (table_num ∷ []) nil false no_rows false no_updates)
organize_insert env table_num update_if_exists (first ∷ rest) =
    let s = organize_subrequests env (add_selectors no_state first) (first ∷ rest) in
    columns_of env s.selectors >>= λ columns.
    ok (insert_of table_num update_if_exists s.rows columns)
