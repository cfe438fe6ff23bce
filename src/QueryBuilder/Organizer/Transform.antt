-- ===== src/QueryBuilder/Organizer/Transform.antt =====
-- TransformClause, ExpandSelector, OrganizeSelect, OrganizeDelete and the transactions of
-- lib/query_builder/organizers/sql_organizer.cpp. What they ask the relation manager is a parameter.
pub mod Fine
pub mod Printable
use my_orm.Prelude.{
  ℕ, Bool, true, false, Option, none, some, List, [], ◌∷◌, if◌then◌else◌, Outcome, ok, err, ◌>>=◌,
  drop, length,
}
use my_orm.Relation.Path.{MessagePath}
use my_orm.Requests
use my_orm.QueryBuilder.Clause.{Clause, Clauses, simple}
use my_orm.QueryBuilder.Organizer.{
  Environment, Rejection, no_parent_table, null_clause, column_of, columns_of,
}

-- What the relation manager knows of a path, besides its table: the path of its primitive field, whether
-- it names a message, and the paths of the primitive fields of the messages below it.
pub record Relations : Type 0 where
  pub primitive_field : MessagePath → Option MessagePath
  pub is_message : MessagePath → Bool
  pub subtree_fields : MessagePath → List MessagePath

-- A column in the table of its path. The field path is that of the primitive field, if there is one.
unfoldable pub transform_column : Environment → Relations → MessagePath → Outcome Rejection Clause
unfolding column_of
transform_column env relations path = elim (env.get_table path) [
  | none ↦ err no_parent_table
  | some table ↦ elim (relations.primitive_field path) [
    | none ↦ column_of env path
    | some field ↦ elim (env.get_table field) [
      | none ↦ err no_parent_table
      | some owner ↦ ok (Clause.column table (drop (length owner) field) simple env.uninitialised)
    ]
  ]
]

unfoldable pub append_clauses : Clauses → Clauses → Clauses
append_clauses Clauses.nil ds = ds
append_clauses (Clauses.cons c cs) ds = Clauses.cons c (append_clauses cs ds)

-- The columns that ExpandSelector makes of a column.
unfoldable pub expand_column : Environment → Relations → MessagePath → Outcome Rejection Clauses
unfolding columns_of
expand_column env relations path =
    columns_of env (if relations.is_message path then relations.subtree_fields path else path ∷ [])

unfoldable mutual
  unfolding transform_column expand_column append_clauses

  pub transform_clause : Environment → Relations → Requests.Clause.Clause → Outcome Rejection Clause
  transform_clause env relations Requests.Clause.null = ok Clause.null
  transform_clause env relations (Requests.Clause.string s) = ok (Clause.string s)
  transform_clause env relations (Requests.Clause.integer z) = ok (Clause.int z)
  transform_clause env relations (Requests.Clause.float x) = ok (Clause.float x)
  transform_clause env relations (Requests.Clause.bool b) = ok (Clause.bool b)
  transform_clause env relations (Requests.Clause.expression type operands) = do
    transformed ← transform_clauses env relations operands
    ok (Clause.expression type transformed)
  transform_clause env relations (Requests.Clause.column path type) =
      transform_column env relations path
  transform_clause env relations Requests.Clause.all = ok Clause.all
  transform_clause env relations Requests.Clause.default = ok Clause.default
  transform_clause env relations
        (Requests.Clause.select table selectors wher group having order limit) =
      do
        selectors' ← expand_selectors env relations selectors
        wher' ← transform_clause env relations wher
        having' ← transform_clause env relations having
        group' ← transform_clause env relations group
        order' ← transform_clause env relations order
        limit' ← transform_clause env relations limit
        ok (
            Clause.select selectors' (Clause.table (table ∷ [])) Clauses.nil wher' group' having'
              order' limit')
  transform_clause env relations (Requests.Clause.insert table exists rows) = ok Clause.null
  transform_clause env relations (Requests.Clause.update table rows) = ok Clause.null
  transform_clause env relations (Requests.Clause.delete table wher) = ok Clause.null
  transform_clause env relations (Requests.Clause.truncate table) = ok Clause.null
  transform_clause env relations Requests.Clause.start_transaction = ok Clause.null
  transform_clause env relations Requests.Clause.commit_transaction = ok Clause.null
  transform_clause env relations Requests.Clause.rollback_transaction = ok Clause.null

  pub transform_clauses :
      Environment → Relations → Requests.Clause.Clauses → Outcome Rejection Clauses
  transform_clauses env relations Requests.Clause.nil = ok Clauses.nil
  transform_clauses env relations (Requests.Clause.cons c cs) = do
    c' ← transform_clause env relations c
    cs' ← transform_clauses env relations cs
    ok (Clauses.cons c' cs')

  -- The loop over the selectors, with ExpandSelector, which asks a null clause for its type.
  pub expand_selectors :
      Environment → Relations → Requests.Clause.Clauses → Outcome Rejection Clauses
  expand_selectors env relations Requests.Clause.nil = ok Clauses.nil
  expand_selectors env relations (Requests.Clause.cons (Requests.Clause.column path type) cs) = do
    columns ← expand_column env relations path
    cs' ← expand_selectors env relations cs
    ok (append_clauses columns cs')
  expand_selectors env relations (Requests.Clause.cons Requests.Clause.null cs) = err null_clause
  expand_selectors env relations (Requests.Clause.cons c cs) = do
    c' ← transform_clause env relations c
    cs' ← expand_selectors env relations cs
    ok (Clauses.cons c' cs')

-- OrganizeDelete: the one clause of the query.
unfoldable pub organize_delete :
    Environment
    → Relations
    → (table : ℕ) → (wher : Requests.Clause.Clause) → Outcome Rejection Clause
unfolding transform_clause
organize_delete env relations table wher =
    transform_clause env relations wher >>= λ wher'. ok (Clause.delete (table ∷ []) wher')

-- StartTransaction, CommitTransaction and RollbackTransaction.
abbrev pub start_transaction_query : Clauses
start_transaction_query = Clauses.cons (Clause.start_transaction false) Clauses.nil

abbrev pub commit_transaction_query : Clauses
commit_transaction_query = Clauses.cons Clause.commit_transaction Clauses.nil

abbrev pub rollback_transaction_query : Clauses
rollback_transaction_query = Clauses.cons Clause.rollback_transaction Clauses.nil
