-- ===== src/Requests/Statements.antt =====
-- The statements of lib/requests/query.h, query.cpp: the factories and the members that set their parts.
-- A member of a class is a function on its clauses; another clause is none of its objects, and stays.
use my_orm.Prelude.{ℕ, Bool, true, false, none, some, List, [], ◌∷◌, ◌++◌, Bytes, Outcome, ok, err}
use my_orm.Prelude.Int.{ℤ}
use my_orm.Relation.Path.{MessagePath, back, front}
use my_orm.Requests.Attribute.{Attribute}
use my_orm.Requests.Clause.{
  Clause, null, string, integer, float, bool, select, insert, update, delete, truncate, nil,
}
use my_orm.Requests.Factories.{append}

unfoldable pub val_string : Bytes → Clause
val_string s = string s

unfoldable pub val_int : ℤ → Clause
val_int z = integer z

unfoldable pub val_float : ℕ → Clause
val_float x = float x

unfoldable pub val_bool : Bool → Clause
val_bool b = bool b

-- TSelect
abbrev new_select : Clause
new_select = select 0 nil null null null null null

unfoldable pub select_table : ℕ → Clause → Clause
select_table n (select t s w g h o l) = select n s w g h o l
select_table n other = other

-- Selectors, of one more argument.
unfoldable pub select_column : Clause → Clause → Clause
unfolding append
select_column c (select t s w g h o l) = select t (append s c) w g h o l
select_column c other = other

unfoldable pub select_columns : List Clause → Clause → Clause
unfolding select_column
select_columns [] statement = statement
select_columns (c ∷ cs) statement = select_columns cs (select_column c statement)

unfoldable pub select_where : Clause → Clause → Clause
select_where c (select t s w g h o l) = select t s c g h o l
select_where c other = other

unfoldable pub group_by : Clause → Clause → Clause
group_by c (select t s w g h o l) = select t s w c h o l
group_by c other = other

unfoldable pub having : Clause → Clause → Clause
having c (select t s w g h o l) = select t s w g c o l
having c other = other

unfoldable pub order_by : Clause → Clause → Clause
order_by c (select t s w g h o l) = select t s w g h c l
order_by c other = other

unfoldable pub limit : Clause → Clause → Clause
limit c (select t s w g h o l) = select t s w g h o c
limit c other = other

-- TInsert
unfoldable pub insert_table : ℕ → Clause → Clause
insert_table n (insert t u rows) = insert n u rows
insert_table n other = other

unfoldable pub add_subrequest : List Attribute → Clause → Clause
add_subrequest row (insert t u rows) = insert t u (rows ++ row ∷ [])
add_subrequest row other = other

unfoldable pub update_if_exists : Clause → Clause
update_if_exists (insert t u rows) = insert t true rows
update_if_exists other = other

-- TUpdate
unfoldable pub update_table : ℕ → Clause → Clause
update_table n (update t sets) = update n sets
update_table n other = other

unfoldable pub add_update : List Attribute → Clause → Clause
add_update set (update t sets) = update t (sets ++ set ∷ [])
add_update set other = other

-- TDelete
unfoldable pub delete_table : ℕ → Clause → Clause
delete_table n (delete t w) = delete n w
delete_table n other = other

unfoldable pub delete_where : Clause → Clause → Clause
delete_where c (delete t w) = delete t c
delete_where c other = other

unfoldable pub truncate_table : ℕ → Clause → Clause
truncate_table n (truncate t) = truncate n
truncate_table n other = other

-- The ASSERT of front and back on an empty path.
pub data Unset : Type 0 where
  empty_path : Unset

-- A factory with the last entry of the path as its table.
abbrev with_table : (ℕ → Clause → Clause) → Clause → MessagePath → Outcome Unset Clause
with_table set statement path = elim (back path) [
  | none ↦ err empty_path
  | some n ↦ ok (set n statement)
]

unfoldable pub insert_at : MessagePath → Outcome Unset Clause
unfolding back insert_table
insert_at path = with_table insert_table (insert 0 false []) path

unfoldable pub update_at : MessagePath → Outcome Unset Clause
unfolding back update_table
update_at path = with_table update_table (update 0 []) path

unfoldable pub delete_at : MessagePath → Outcome Unset Clause
unfolding back delete_table
delete_at path = with_table delete_table (delete 0 null) path

unfoldable pub truncate_at : MessagePath → Outcome Unset Clause
unfolding back truncate_table
truncate_at path = with_table truncate_table (truncate 0) path

-- Select, of the path of the table that holds the path.
unfoldable pub select_at :
    (get_table : MessagePath → MessagePath) → MessagePath → List Clause → Outcome Unset Clause
unfolding front select_table select_columns
select_at get_table path columns = elim (front (get_table path)) [
  | none ↦ err empty_path
  | some n ↦ ok (select_columns columns (select_table n new_select))
]

-- TQuery::AddClause
unfoldable pub add_clause : Clause → List Clause → List Clause
add_clause c clauses = clauses ++ c ∷ []
