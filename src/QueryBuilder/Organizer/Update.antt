-- ===== src/QueryBuilder/Organizer/Update.antt =====
-- OrganizeUpdate (lib/query_builder/organizers/sql_organizer.cpp): each set of attributes becomes an UPDATE
-- of the rows that have its primary keys.
pub mod Keys
pub mod Distinct
use my_orm.Prelude.{
  ℕ, suc, Bool, true, false, ◌||◌, Option, none, some, List, [], ◌∷◌, ◌++◌, length, ◌==◌, nat_eq,
  if◌then◌else◌, Outcome, ok, err, ensure, ◌>>=◌, ◌>>◌,
}
use my_orm.Relation.Path.{MessagePath}
use my_orm.Requests.Attribute.{Attribute}
use my_orm.Requests.ExpressionType.{equals, and_}
use my_orm.QueryBuilder.Clause.{
  Clause, null, expression, update, Clauses, nil, cons, Updates, no_updates, assign,
}
use my_orm.QueryBuilder.Organizer.{
  Environment, Rejection, no_parent_table, missing_primary_keys, value_of, column_of,
}

-- GetHash of a path, and the hashes of the primary fields of the table at a path, if there is one.
pub record Tables : Type 0 where
  pub get_hash : MessagePath → ℕ
  pub get_primary_fields : MessagePath → Option (List ℕ)

-- keys.find(key) != keys.end()
abbrev pub contains_key : ℕ → List ℕ → Bool
contains_key key [] = false
contains_key key (k ∷ ks) = k == key || contains_key key ks

unfoldable pub insert_key : ℕ → List ℕ → List ℕ
insert_key key ks = if contains_key key ks then ks else key ∷ ks

-- foundPrimaryKeys
unfoldable pub found_keys : Tables → List ℕ → List Attribute → List ℕ
unfolding insert_key
found_keys tables keys [] = []
found_keys tables keys (a ∷ as') =
    let rest = found_keys tables keys as' in
    let hash = tables.get_hash a.path in
    if contains_key hash keys then insert_key hash rest else rest

-- The column that the loop over the attributes makes of each.
unfoldable pub with_columns :
    Environment → List Attribute → Outcome Rejection (List (Attribute × Clause))
with_columns env [] = ok []
with_columns env (a ∷ as') = do
  c ← column_of env a.path
  rest ← with_columns env as'
  ok ((a, c) ∷ rest)

-- The equality of a column with the value of its attribute.
unfoldable pub condition_of : Environment → Attribute → Clause → Clause
condition_of env a c = expression equals (cons c (cons (value_of env a.value) nil))

-- The rest of the loop, which parts the attributes: whereConditions, and setValues.
unfoldable pub where_conditions :
    Environment → Tables → List ℕ → List (Attribute × Clause) → List Clause
unfolding condition_of
where_conditions env tables keys [] = []
where_conditions env tables keys ((a, c) ∷ as') =
    let rest = where_conditions env tables keys as' in
    if contains_key (tables.get_hash a.path) keys then condition_of env a c ∷ rest else rest

unfoldable pub set_values : Environment → Tables → List ℕ → List (Attribute × Clause) → Updates
set_values env tables keys [] = no_updates
set_values env tables keys ((a, c) ∷ as') =
    let rest = set_values env tables keys as' in
    if contains_key (tables.get_hash a.path) keys
    then rest
    else assign c (value_of env a.value) rest

unfoldable pub conjunction : Clause → List Clause → Clause
conjunction c [] = c
conjunction c (d ∷ ds) = conjunction (expression and_ (cons c (cons d nil))) ds

unfoldable pub where_clause : List Clause → Clause
unfolding conjunction
where_clause [] = null
where_clause (c ∷ cs) = conjunction c cs

-- `if (!setValues.empty())`
unfoldable pub update_of : MessagePath → Updates → Clause → List Clause
update_of path no_updates c = []
update_of path (assign t v us) c = update path (assign t v us) c ∷ []

-- The statement of a set of attributes, with their columns.
unfoldable pub update_with :
    Environment → Tables → MessagePath → List ℕ → List (Attribute × Clause) → List Clause
unfolding where_conditions set_values where_clause update_of
update_with env tables path keys parts =
    update_of path (set_values env tables keys parts)
      (where_clause (where_conditions env tables keys parts))

-- A set of attributes, for a table with the primary keys `keys`.
unfoldable pub organize_attributes :
    Environment → Tables → MessagePath → List ℕ → List Attribute → Outcome Rejection (List Clause)
unfolding found_keys with_columns update_with
organize_attributes env tables path keys attributes = do
  ensure (length (found_keys tables keys attributes) == length keys) missing_primary_keys
  parts ← with_columns env attributes
  ok (update_with env tables path keys parts)

-- GetParentTable throws if there is no table.
unfoldable pub organize_set :
    Environment → Tables → MessagePath → List Attribute → Outcome Rejection (List Clause)
unfolding organize_attributes
organize_set env tables path [] = ok []
organize_set env tables path (a ∷ as') = elim (tables.get_primary_fields path) [
  | none ↦ err no_parent_table
  | some keys ↦ organize_attributes env tables path keys (a ∷ as')
]

-- The loop over the sets of attributes.
unfoldable pub organize_sets :
    Environment → Tables → MessagePath → List (List Attribute) → Outcome Rejection (List Clause)
unfolding organize_set
organize_sets env tables path [] = ok []
organize_sets env tables path (attributes ∷ rest) = do
  first ← organize_set env tables path attributes
  others ← organize_sets env tables path rest
  ok (first ++ others)

unfoldable pub organize_update :
    Environment → Tables → ℕ → List (List Attribute) → Outcome Rejection (List Clause)
unfolding organize_sets
organize_update env tables table_num sets = organize_sets env tables (table_num ∷ []) sets
