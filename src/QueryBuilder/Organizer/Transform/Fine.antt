-- ===== src/QueryBuilder/Organizer/Transform/Fine.antt =====
-- What TransformClause (lib/query_builder/organizers/sql_organizer.cpp) makes of expressions, columns
-- and selects whose parts become printable.
use my_orm.Prelude.{
  ℕ, suc, ◌*◌, ◌≡◌, refl, ap, sym, ◌∙◌, Bool, true, false, ◌&&◌, some, List, [], ◌∷◌, inl, inr,
  Option-cases, ok, arith, nat_eq, none, ◌≢◌, All, Bool-cases, drop, length,
}
use mathlib.Core.Path.{subst}
use my_orm.Relation.Path.{MessagePath}
use my_orm.Requests
use my_orm.Requests.ExpressionType
use my_orm.Requests.Factories
use my_orm.Requests.Factories.Folded.{to_clauses, add_operands-expression}
use my_orm.QueryBuilder.Clause.{Clause, Clauses, simple}
use my_orm.QueryBuilder.Postgres.Definition
use my_orm.QueryBuilder.Organizer.{Environment, column_of, columns_of}
use my_orm.QueryBuilder.Organizer.Transform.{
  Relations, transform_column, append_clauses, expand_column, transform_clause, transform_clauses,
  expand_selectors,
}
use my_orm.QueryBuilder.Postgres.Expression.{template, accepts}
use my_orm.QueryBuilder.Postgres.Build.{operand_count}
use my_orm.QueryBuilder.Postgres.Success.{
  has_operands, knows_table, is_known_key, is_printable, are_printable,
}

both_true : {a b : Bool} → a ≡ true → b ≡ true → (a && b) ≡ true
both_true h k = ground arith

pub variadic_accepted :
    (n : ℕ)
    → (has_operands ExpressionType.coalesce (suc n) ≡ true)
      × (has_operands ExpressionType.greatest (suc n) ≡ true)
      × (has_operands ExpressionType.least (suc n) ≡ true)
unfolding has_operands template accepts
variadic_accepted n = (ground arith, ground arith, ground arith)

pub case_accepted : (n : ℕ) → has_operands ExpressionType.case_ (suc (suc n * 2)) ≡ true
unfolding has_operands template accepts
case_accepted n = ground arith

and_weaken : (a b c : Bool) → (a && b) ≡ true → (b ≡ true → c ≡ true) → (a && c) ≡ true
and_weaken true b c h k = k h
and_weaken false b c h k = h

-- The fields that the relation manager finds have a table.
pub record HasTables (env : Environment) (relations : Relations) : Type 0 where
  pub primitive :
      (path field : MessagePath)
      → relations.primitive_field path ≡ some field
      → env.get_table field ≢ none
  pub below :
      (path : MessagePath) → All (λ p. env.get_table p ≢ none) (relations.subtree_fields path)

module _ (env : Environment) (relations : Relations) (printer : Definition.Environment) where
  abbrev pub Fine : Requests.Clause.Clause → Type 0
  Fine c =
      (c' : Clause) × (transform_clause env relations c ≡ ok c') × (is_printable printer c' ≡ true)

  -- Operands that become so many printable ones.
  abbrev pub FineAll : Requests.Clause.Clauses → ℕ → Type 0
  FineAll cs n =
      (cs' : Clauses) × (transform_clauses env relations cs ≡ ok cs')
      × (are_printable printer cs' ≡ true)
      × (operand_count cs' ≡ n)

  pub fine_nil : FineAll Requests.Clause.nil 0
  unfolding transform_clauses are_printable operand_count
  fine_nil = (Clauses.nil, refl, refl, refl)

  pub Fine-cons :
      (c : Requests.Clause.Clause) (cs : Requests.Clause.Clauses) (n : ℕ)
      → Fine c
      → FineAll cs n
      → FineAll (Requests.Clause.cons c cs) (suc n)
  unfolding transform_clauses are_printable operand_count
  Fine-cons c cs n (c', h, p) (cs', hs, ps, count) =
      (Clauses.cons c' cs', ground (arith, h, hs), ground (arith, p, ps), ap suc count)

  pub Fine-expression :
      (type : ExpressionType.ExpressionType) (operands : Requests.Clause.Clauses) (n : ℕ)
      → has_operands type n ≡ true
      → FineAll operands n
      → Fine (Requests.Clause.expression type operands)
  unfolding transform_clause is_printable
  Fine-expression type operands n accepted (cs', hs, ps, count) =
      let counted = ap (has_operands type) count ∙ accepted in
      (Clause.expression type cs', ground (arith, hs), ground (arith, counted, ps))

  pub unary :
      (type : ExpressionType.ExpressionType) (a : Requests.Clause.Clause)
      → has_operands type 1 ≡ true
      → Fine a
      → Fine (Requests.Clause.expression type (Requests.Clause.cons a Requests.Clause.nil))
  unary type a h fa = Fine-expression type _ 1 h (Fine-cons a _ 0 fa fine_nil)

  pub binary :
      (type : ExpressionType.ExpressionType) (a b : Requests.Clause.Clause)
      → has_operands type 2 ≡ true
      → Fine a
      → Fine b
      → Fine (
          Requests.Clause.expression type
            (Requests.Clause.cons a (Requests.Clause.cons b Requests.Clause.nil)))
  binary type a b h fa fb =
      Fine-expression type _ 2 h (Fine-cons a _ 1 fa (Fine-cons b _ 0 fb fine_nil))

  pub ternary :
      (type : ExpressionType.ExpressionType) (a b c : Requests.Clause.Clause)
      → has_operands type 3 ≡ true
      → Fine a
      → Fine b
      → Fine c
      → Fine (
          Requests.Clause.expression type (
            Requests.Clause.cons a
              (Requests.Clause.cons b (Requests.Clause.cons c Requests.Clause.nil))))
  ternary type a b c h fa fb fc =
      Fine-expression type _ 3 h
        (Fine-cons a _ 2 fa (Fine-cons b _ 1 fb (Fine-cons c _ 0 fc fine_nil)))

  columns_fine :
      (paths : List MessagePath)
      → All (λ p. env.get_table p ≢ none) paths
      → (cs : Clauses) × (columns_of env paths ≡ ok cs) × (are_printable printer cs ≡ true)
  unfolding columns_of column_of are_printable is_printable is_known_key
  columns_fine [] h = (Clauses.nil, refl, refl)
  columns_fine (p ∷ ps) (known, h) =
      let (cs, done, fine) = columns_fine ps h in
      elim (Option-cases (env.get_table p)) [
        | inl missing ↦ absurd (known missing)
        | inr (table, there) ↦ (
          Clauses.cons (Clause.column table (drop (length table) p) simple env.uninitialised) cs,
          ground (arith, there, done),
          fine,
        )
      ]

  append_printable :
      (cs ds : Clauses)
      → are_printable printer cs ≡ true
      → are_printable printer ds ≡ true
      → are_printable printer (append_clauses cs ds) ≡ true
  unfolding append_clauses are_printable
  append_printable Clauses.nil ds h k = k
  append_printable (Clauses.cons c cs) ds h k =
      and_weaken (is_printable printer c) (are_printable printer cs)
        (are_printable printer (append_clauses cs ds)) h (λ e. append_printable cs ds e k)

  expand_fine :
      (path : MessagePath)
      → HasTables env relations
      → env.get_table path ≢ none
      → (cs : Clauses) × (expand_column env relations path ≡ ok cs)
        × (are_printable printer cs ≡ true)
  unfolding expand_column
  expand_fine path tables known = elim (Bool-cases (relations.is_message path)) [
    | inl message ↦ rw message (columns_fine (relations.subtree_fields path) (tables.below path))
    | inr other ↦ rw other (columns_fine (path ∷ []) (known, tt))
  ]

  Fine-known :
      (path : MessagePath) (type : ExpressionType.ColumnType)
      → Fine (Requests.Clause.column path type)
      → env.get_table path ≢ none
  unfolding transform_clause transform_column
  Fine-known path type (c', h, p) missing = ground (arith, h, missing)

  pub Fine-column :
      (path : MessagePath) (type : ExpressionType.ColumnType) (table : List ℕ)
      → HasTables env relations
      → env.get_table path ≡ some table
      → Fine (Requests.Clause.column path type)
  unfolding transform_clause transform_column column_of is_printable is_known_key
  Fine-column path type table tables h = elim (Option-cases (relations.primitive_field path)) [
    | inl e ↦ (
      Clause.column table (drop (length table) path) simple env.uninitialised,
      ground (arith, h, e),
      refl,
    )
    | inr (field, e) ↦ elim (Option-cases (env.get_table field)) [
      | inl missing ↦ absurd (tables.primitive path field e missing)
      | inr (owner, there) ↦ (
        Clause.column table (drop (length owner) field) simple env.uninitialised,
        ground (arith, h, e, there),
        refl,
      )
    ]
  ]

  -- Selectors that become printable ones.
  abbrev pub FineSelectors : Requests.Clause.Clauses → Type 0
  FineSelectors cs =
      (cs' : Clauses) × (expand_selectors env relations cs ≡ ok cs')
      × (are_printable printer cs' ≡ true)

  pub Fine-selector :
      (c : Requests.Clause.Clause) (cs : Requests.Clause.Clauses)
      → HasTables env relations
      → c ≢ Requests.Clause.null
      → Fine c
      → FineSelectors cs
      → FineSelectors (Requests.Clause.cons c cs)
  unfolding expand_selectors are_printable
  Fine-selector (Requests.Clause.column path type) cs tables some_clause fc (cs', hs, ps) =
      let (columns, done, fine) = expand_fine path tables (Fine-known path type fc) in
      (append_clauses columns cs', ground (arith, done, hs), append_printable columns cs' fine ps)
  Fine-selector Requests.Clause.null cs tables some_clause fc fs = absurd (some_clause refl)
  Fine-selector (Requests.Clause.string x0) cs tables some_clause (c', h, p) (cs', hs, ps) =
      (Clauses.cons c' cs', ground (arith, h, hs), ground (arith, p, ps))
  Fine-selector (Requests.Clause.integer x0) cs tables some_clause (c', h, p) (cs', hs, ps) =
      (Clauses.cons c' cs', ground (arith, h, hs), ground (arith, p, ps))
  Fine-selector (Requests.Clause.float x0) cs tables some_clause (c', h, p) (cs', hs, ps) =
      (Clauses.cons c' cs', ground (arith, h, hs), ground (arith, p, ps))
  Fine-selector (Requests.Clause.bool x0) cs tables some_clause (c', h, p) (cs', hs, ps) =
      (Clauses.cons c' cs', ground (arith, h, hs), ground (arith, p, ps))
  Fine-selector (Requests.Clause.expression x0 x1) cs tables some_clause (c', h, p) (cs', hs, ps) =
      (Clauses.cons c' cs', ground (arith, h, hs), ground (arith, p, ps))
  Fine-selector Requests.Clause.all cs tables some_clause (c', h, p) (cs', hs, ps) =
      (Clauses.cons c' cs', ground (arith, h, hs), ground (arith, p, ps))
  Fine-selector Requests.Clause.default cs tables some_clause (c', h, p) (cs', hs, ps) =
      (Clauses.cons c' cs', ground (arith, h, hs), ground (arith, p, ps))
  Fine-selector (Requests.Clause.select x0 x1 x2 x3 x4 x5 x6) cs tables some_clause (c', h, p)
        (cs', hs, ps) =
      (Clauses.cons c' cs', ground (arith, h, hs), ground (arith, p, ps))
  Fine-selector (Requests.Clause.insert x0 x1 x2) cs tables some_clause (c', h, p) (cs', hs, ps) =
      (Clauses.cons c' cs', ground (arith, h, hs), ground (arith, p, ps))
  Fine-selector (Requests.Clause.update x0 x1) cs tables some_clause (c', h, p) (cs', hs, ps) =
      (Clauses.cons c' cs', ground (arith, h, hs), ground (arith, p, ps))
  Fine-selector (Requests.Clause.delete x0 x1) cs tables some_clause (c', h, p) (cs', hs, ps) =
      (Clauses.cons c' cs', ground (arith, h, hs), ground (arith, p, ps))
  Fine-selector (Requests.Clause.truncate x0) cs tables some_clause (c', h, p) (cs', hs, ps) =
      (Clauses.cons c' cs', ground (arith, h, hs), ground (arith, p, ps))
  Fine-selector Requests.Clause.start_transaction cs tables some_clause (c', h, p) (cs', hs, ps) =
      (Clauses.cons c' cs', ground (arith, h, hs), ground (arith, p, ps))
  Fine-selector Requests.Clause.commit_transaction cs tables some_clause (c', h, p) (cs', hs, ps) =
      (Clauses.cons c' cs', ground (arith, h, hs), ground (arith, p, ps))
  Fine-selector Requests.Clause.rollback_transaction cs tables some_clause (c', h, p)
        (cs', hs, ps) =
      (Clauses.cons c' cs', ground (arith, h, hs), ground (arith, p, ps))

  pub Fine-fold :
      (type : ExpressionType.ExpressionType) (cs : List Requests.Clause.Clause) (n : ℕ)
      → has_operands type n ≡ true
      → FineAll (to_clauses cs) n
      → Fine (Factories.add_operands (Factories.begin type) cs)
  unfolding to_clauses
  Fine-fold type cs n h f =
      subst Fine (sym (add_operands-expression type [] cs))
        (Fine-expression type (to_clauses cs) n h f)

  pub recount : (cs : Requests.Clause.Clauses) (n m : ℕ) → n ≡ m → FineAll cs n → FineAll cs m
  recount cs n m e (cs', h, p, count) = (cs', h, p, count ∙ e)

  pub Fine-select :
      (table : ℕ) (selectors : Requests.Clause.Clauses)
      (wher group having order limit : Requests.Clause.Clause)
      → knows_table printer (table ∷ []) ≡ true
      → FineSelectors selectors
      → Fine wher
      → Fine group
      → Fine having
      → Fine order
      → Fine limit
      → Fine (Requests.Clause.select table selectors wher group having order limit)
  unfolding transform_clause is_printable are_printable
  Fine-select table selectors wher group having order limit known (s, hs, ps) (w, hw, pw)
        (g, hg, pg) (v, hv, pv) (o, ho, po) (l, hl, pl) =
      (
        Clause.select s (Clause.table (table ∷ [])) Clauses.nil w g v o l,
        ground (arith, hs, hw, hg, hv, ho, hl),
        both_true ps (
            both_true known
              (both_true refl (both_true pw (both_true pg (both_true pv (both_true po pl)))))),
      )
