-- ===== src/QueryBuilder/Organizer/Transform/Printable.antt =====
-- The clauses that clients write with the operators and functions of lib/requests/query.h, through
-- TransformClause and BuildClause.
use my_orm.Prelude.{
  some, suc, ◌*◌, ◌≡◌, refl, sym, ◌∙◌, true, List, [], ◌∷◌, ◌++◌, Bytes, length, Outcome, ok, err,
  arith, nat_eq,
}
use mathlib.Core.Path.{subst}
use my_orm.Relation.Path.{MessagePath}
use my_orm.Requests
use my_orm.Requests.ExpressionType
use my_orm.Requests.Factories
use my_orm.Requests.Factories.Folded.{to_clauses, flatten, branches-add_operands}
use my_orm.Requests.Factories.Written.{Written, WrittenList, WrittenClauses, WrittenBranches}
use my_orm.QueryBuilder.Clause.{Clause, Clauses, ClauseType}
use my_orm.QueryBuilder.Organizer.{Environment}
use my_orm.QueryBuilder.Organizer.Transform.{
  Relations, transform_clause, transform_clauses, expand_selectors,
}
use my_orm.QueryBuilder.Postgres.Expression.{template, accepts}
use my_orm.QueryBuilder.Postgres.Definition
use my_orm.QueryBuilder.Postgres.Text
use my_orm.QueryBuilder.Postgres.Build.{build_clause, operand_count}
use my_orm.QueryBuilder.Postgres.Success.{
  knows_table, succeeded, has_operands, is_printable, are_printable,
}
use my_orm.QueryBuilder.Postgres.Success.Statements.{succeeded-build_clause}
use my_orm.QueryBuilder.Organizer.Transform.Fine.{
  HasTables, Fine, FineAll, FineSelectors, fine_nil, Fine-cons, Fine-expression, unary, binary,
  ternary, Fine-column, Fine-selector, Fine-fold, recount, Fine-select, variadic_accepted,
  case_accepted,
}

-- The builder asks the same relation manager as the organizer.
abbrev pub Agrees : Environment → Definition.Environment → Type 0
Agrees env printer = (path : MessagePath) → printer.get_table_path path ≡ env.get_table path

module _ (env : Environment) (relations : Relations) (printer : Definition.Environment)
    (tables : HasTables env relations) (agrees : Agrees env printer) where
  known-table :
      (path owner : MessagePath) → env.get_table path ≡ some owner → knows_table printer path ≡ true
  unfolding knows_table
  known-table path owner h = ground (arith, agrees path, h)

  mutual
    unfolding Factories.add_operand Factories.append to_clauses flatten has_operands template
        accepts transform_clause is_printable transform_clauses are_printable operand_count
        Factories.col Factories.excluded_of Factories.coalesce_of Factories.greatest_of
        Factories.least_of expand_selectors Factories.plus Factories.minus Factories.times
        Factories.divided_by Factories.remainder Factories.equal_to Factories.unequal_to
        Factories.at_most Factories.at_least Factories.below Factories.above Factories.both
        Factories.either Factories.negation Factories.in_of Factories.exists_of Factories.max_of
        Factories.min_of Factories.sum_of Factories.avg_of Factories.count_of Factories.abs_of
        Factories.round_of Factories.ceil_of Factories.floor_of Factories.sqrt_of Factories.log_of
        Factories.log_base Factories.rand_of Factories.sin_of Factories.cos_of Factories.tan_of
        Factories.pow_of Factories.lower_of Factories.upper_of Factories.substr_of Factories.like_of
        Factories.ilike_of Factories.len_of Factories.replace_of Factories.trim_of Factories.left_of
        Factories.right_of Factories.pos_of Factories.split_part_of

    written-Fine :
        (c : Requests.Clause.Clause) → Written env.get_table c → Fine env relations printer c
    written-Fine _ Written.absent = (Clause.null, refl, refl)
    written-Fine _ (Written.string s) = (Clause.string s, refl, refl)
    written-Fine _ (Written.integer z) = (Clause.int z, refl, refl)
    written-Fine _ (Written.float x) = (Clause.float x, refl, refl)
    written-Fine _ (Written.bool b) = (Clause.bool b, refl, refl)
    written-Fine _ Written.all = (Clause.all, refl, refl)
    written-Fine _ Written.default = (Clause.default, refl, refl)
    written-Fine _ (Written.col path table h) =
        Fine-column env relations printer path ExpressionType.singular table tables h
    written-Fine _ (Written.excluded_of path table h) =
        Fine-column env relations printer path ExpressionType.excluded table tables h
    written-Fine _ (Written.plus a b wa wb) =
        binary env relations printer ExpressionType.add a b refl (written-Fine a wa)
          (written-Fine b wb)
    written-Fine _ (Written.minus a b wa wb) =
        binary env relations printer ExpressionType.subtract a b refl (written-Fine a wa)
          (written-Fine b wb)
    written-Fine _ (Written.times a b wa wb) =
        binary env relations printer ExpressionType.multiply a b refl (written-Fine a wa)
          (written-Fine b wb)
    written-Fine _ (Written.divided_by a b wa wb) =
        binary env relations printer ExpressionType.divide a b refl (written-Fine a wa)
          (written-Fine b wb)
    written-Fine _ (Written.remainder a b wa wb) =
        binary env relations printer ExpressionType.modulo a b refl (written-Fine a wa)
          (written-Fine b wb)
    written-Fine _ (Written.equal_to a b wa wb) =
        binary env relations printer ExpressionType.equals a b refl (written-Fine a wa)
          (written-Fine b wb)
    written-Fine _ (Written.unequal_to a b wa wb) =
        binary env relations printer ExpressionType.not_equals a b refl (written-Fine a wa)
          (written-Fine b wb)
    written-Fine _ (Written.at_most a b wa wb) =
        binary env relations printer ExpressionType.less_than_or_equals a b refl (written-Fine a wa)
          (written-Fine b wb)
    written-Fine _ (Written.at_least a b wa wb) =
        binary env relations printer ExpressionType.greater_than_or_equals a b refl
          (written-Fine a wa) (written-Fine b wb)
    written-Fine _ (Written.below a b wa wb) =
        binary env relations printer ExpressionType.less_than a b refl (written-Fine a wa)
          (written-Fine b wb)
    written-Fine _ (Written.above a b wa wb) =
        binary env relations printer ExpressionType.greater_than a b refl (written-Fine a wa)
          (written-Fine b wb)
    written-Fine _ (Written.both a b wa wb) =
        binary env relations printer ExpressionType.and_ a b refl (written-Fine a wa)
          (written-Fine b wb)
    written-Fine _ (Written.either a b wa wb) =
        binary env relations printer ExpressionType.or_ a b refl (written-Fine a wa)
          (written-Fine b wb)
    written-Fine _ (Written.negation a wa) =
        unary env relations printer ExpressionType.not_ a refl (written-Fine a wa)
    written-Fine _ (Written.in_of a b wa wb) =
        binary env relations printer ExpressionType.in_ a b refl (written-Fine a wa)
          (written-Fine b wb)
    written-Fine _ (Written.exists_of a wa) =
        unary env relations printer ExpressionType.exists a refl (written-Fine a wa)
    written-Fine _ (Written.max_of a wa) =
        unary env relations printer ExpressionType.max a refl (written-Fine a wa)
    written-Fine _ (Written.min_of a wa) =
        unary env relations printer ExpressionType.min a refl (written-Fine a wa)
    written-Fine _ (Written.sum_of a wa) =
        unary env relations printer ExpressionType.sum a refl (written-Fine a wa)
    written-Fine _ (Written.avg_of a wa) =
        unary env relations printer ExpressionType.avg a refl (written-Fine a wa)
    written-Fine _ (Written.count_of a wa) =
        unary env relations printer ExpressionType.count a refl (written-Fine a wa)
    written-Fine _ (Written.abs_of a wa) =
        unary env relations printer ExpressionType.abs a refl (written-Fine a wa)
    written-Fine _ (Written.round_of a wa) =
        unary env relations printer ExpressionType.round a refl (written-Fine a wa)
    written-Fine _ (Written.ceil_of a wa) =
        unary env relations printer ExpressionType.ceil a refl (written-Fine a wa)
    written-Fine _ (Written.floor_of a wa) =
        unary env relations printer ExpressionType.floor a refl (written-Fine a wa)
    written-Fine _ (Written.sqrt_of a wa) =
        unary env relations printer ExpressionType.sqrt a refl (written-Fine a wa)
    written-Fine _ (Written.log_of a wa) =
        unary env relations printer ExpressionType.log a refl (written-Fine a wa)
    written-Fine _ (Written.log_base a b wa wb) =
        binary env relations printer ExpressionType.log a b refl (written-Fine a wa)
          (written-Fine b wb)
    written-Fine _ Written.rand_of =
        Fine-expression env relations printer ExpressionType.random Requests.Clause.nil 0 refl
          (fine_nil env relations printer)
    written-Fine _ (Written.sin_of a wa) =
        unary env relations printer ExpressionType.sin a refl (written-Fine a wa)
    written-Fine _ (Written.cos_of a wa) =
        unary env relations printer ExpressionType.cos a refl (written-Fine a wa)
    written-Fine _ (Written.tan_of a wa) =
        unary env relations printer ExpressionType.tan a refl (written-Fine a wa)
    written-Fine _ (Written.pow_of a b wa wb) =
        binary env relations printer ExpressionType.power a b refl (written-Fine a wa)
          (written-Fine b wb)
    written-Fine _ (Written.lower_of a wa) =
        unary env relations printer ExpressionType.lower a refl (written-Fine a wa)
    written-Fine _ (Written.upper_of a wa) =
        unary env relations printer ExpressionType.upper a refl (written-Fine a wa)
    written-Fine _ (Written.substr_of a b c wa wb wc) =
        ternary env relations printer ExpressionType.substring a b c refl (written-Fine a wa)
          (written-Fine b wb) (written-Fine c wc)
    written-Fine _ (Written.like_of a b wa wb) =
        binary env relations printer ExpressionType.like a b refl (written-Fine a wa)
          (written-Fine b wb)
    written-Fine _ (Written.ilike_of a b wa wb) =
        binary env relations printer ExpressionType.ilike a b refl (written-Fine a wa)
          (written-Fine b wb)
    written-Fine _ (Written.len_of a wa) =
        unary env relations printer ExpressionType.length a refl (written-Fine a wa)
    written-Fine _ (Written.replace_of a b c wa wb wc) =
        ternary env relations printer ExpressionType.replace a b c refl (written-Fine a wa)
          (written-Fine b wb) (written-Fine c wc)
    written-Fine _ (Written.trim_of a wa) =
        unary env relations printer ExpressionType.trim a refl (written-Fine a wa)
    written-Fine _ (Written.left_of a b wa wb) =
        binary env relations printer ExpressionType.left a b refl (written-Fine a wa)
          (written-Fine b wb)
    written-Fine _ (Written.right_of a b wa wb) =
        binary env relations printer ExpressionType.right a b refl (written-Fine a wa)
          (written-Fine b wb)
    written-Fine _ (Written.pos_of a b wa wb) =
        binary env relations printer ExpressionType.position a b refl (written-Fine a wa)
          (written-Fine b wb)
    written-Fine _ (Written.split_part_of a b c wa wb wc) =
        ternary env relations printer ExpressionType.split_part a b c refl (written-Fine a wa)
          (written-Fine b wb) (written-Fine c wc)
    written-Fine _ (Written.case_of first rest otherwise wb wo) =
        subst (Fine env relations printer)
          (sym (branches-add_operands Factories.case_of (first ∷ rest) otherwise))
          (Fine-fold env relations printer ExpressionType.case_
            (flatten (first ∷ rest) ++ otherwise ∷ []) (suc (suc (length rest) * 2))
            (case_accepted (length rest))
            (written-FineBranches (first ∷ rest) otherwise wb (written-Fine otherwise wo)))
    written-Fine _ (Written.coalesce_of first rest w) =
        Fine-fold env relations printer ExpressionType.coalesce (first ∷ rest) (suc (length rest))
          (variadic_accepted (length rest)).0 (written-FineList (first ∷ rest) w)
    written-Fine _ (Written.greatest_of first rest w) =
        Fine-fold env relations printer ExpressionType.greatest (first ∷ rest) (suc (length rest))
          (variadic_accepted (length rest)).1 (written-FineList (first ∷ rest) w)
    written-Fine _ (Written.least_of first rest w) =
        Fine-fold env relations printer ExpressionType.least (first ∷ rest) (suc (length rest))
          (variadic_accepted (length rest)).2 (written-FineList (first ∷ rest) w)
    written-Fine _
          (Written.select table owner selectors wher group having order limit known ws ww wg wh wo
            wl) =
        Fine-select env relations printer table selectors wher group having order limit
          (known-table (table ∷ []) owner known) (written-FineSelectors selectors ws)
          (written-Fine wher ww) (written-Fine group wg) (written-Fine having wh)
          (written-Fine order wo) (written-Fine limit wl)

    written-FineList :
        (cs : List Requests.Clause.Clause)
        → WrittenList env.get_table cs
        → FineAll env relations printer (to_clauses cs) (length cs)
    written-FineList _ WrittenList.none_listed = (fine_nil env relations printer)
    written-FineList _ (WrittenList.listed c cs w ws) =
        Fine-cons env relations printer c (to_clauses cs) (length cs) (written-Fine c w)
          (written-FineList cs ws)

    written-FineSelectors :
        (cs : Requests.Clause.Clauses)
        → WrittenClauses env.get_table cs
        → FineSelectors env relations printer cs
    written-FineSelectors _ WrittenClauses.no_selector = (Clauses.nil, refl, refl)
    written-FineSelectors _ (WrittenClauses.selector c cs n w ws) =
        Fine-selector env relations printer c cs tables n (written-Fine c w)
          (written-FineSelectors cs ws)

    written-FineBranches :
        (bs : List (Requests.Clause.Clause × Requests.Clause.Clause))
        (otherwise : Requests.Clause.Clause)
        → WrittenBranches env.get_table bs
        → Fine env relations printer otherwise
        → FineAll env relations printer
            (to_clauses (flatten bs ++ otherwise ∷ []))
            (suc (length bs * 2))
    written-FineBranches _ otherwise WrittenBranches.no_branch fo =
        Fine-cons env relations printer otherwise Requests.Clause.nil 0 fo
          (fine_nil env relations printer)
    written-FineBranches _ otherwise (WrittenBranches.branch c r rest wc wr wb) fo =
        recount env relations printer
          (Requests.Clause.cons c
            (Requests.Clause.cons r (to_clauses (flatten rest ++ otherwise ∷ []))))
          (suc (suc (suc (length rest * 2)))) (suc (suc (length rest) * 2)) (omega arith)
          (Fine-cons env relations printer c
            (Requests.Clause.cons r (to_clauses (flatten rest ++ otherwise ∷ [])))
            (suc (suc (length rest * 2))) (written-Fine c wc)
            (Fine-cons env relations printer r (to_clauses (flatten rest ++ otherwise ∷ []))
              (suc (length rest * 2)) (written-Fine r wr)
              (written-FineBranches rest otherwise wb fo)))

succeeded-ok : {A : Type 0} (m : Outcome Text.Fault A) → succeeded m ≡ true → (a : A) × (m ≡ ok a)
unfolding succeeded
succeeded-ok (ok a) h = (a, refl)
succeeded-ok (err e) h = cc

-- A clause that a client writes with values, columns of tables that the relation manager knows, the
-- operators and functions on clauses, Case with a branch and an Else, Coalesce, Greatest and Least
-- with an argument, and Select from a known table of such clauses, none of the selected ones null, is
-- transformed by TransformClause, and BuildClause gives a text for the result, in whatever clauses it
-- stands. The builder asks the same relation manager, which knows the tables of the fields that it
-- finds.
pub written_builds :
    (env : Environment) (relations : Relations) (printer : Definition.Environment)
    (stack : List ClauseType) (c : Requests.Clause.Clause)
    → HasTables env relations
    → Agrees env printer
    → Written env.get_table c
    → (c' : Clause) × (text : Bytes) × (transform_clause env relations c ≡ ok c')
      × (build_clause printer stack c' ≡ ok text)
written_builds env relations printer stack c tables agrees w =
    let (c', h, p) = written-Fine env relations printer tables agrees c w in
    let (text, e) =
      succeeded-ok (build_clause printer stack c') (succeeded-build_clause printer stack c' ∙ p) in
    (c', text, h, e)
