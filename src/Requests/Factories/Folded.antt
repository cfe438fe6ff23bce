-- ===== src/Requests/Factories/Folded.antt =====
-- What AddOperands and the chain of WhenCase and ThenCase (lib/requests/query.h) put together.
use my_orm.Prelude.{◌≡◌, refl, ap, sym, ◌∙◌, List, [], ◌∷◌, ◌++◌, append-nil, append_assoc}
use my_orm.Requests
use my_orm.Requests.ExpressionType
use my_orm.Requests.Factories

-- The clauses in a list, as the operands that they become.
unfoldable pub to_clauses : List Requests.Clause.Clause → Requests.Clause.Clauses
to_clauses [] = Requests.Clause.nil
to_clauses (c ∷ cs) = Requests.Clause.cons c (to_clauses cs)

append-to_clauses :
    (done : List Requests.Clause.Clause) (c : Requests.Clause.Clause)
    → Factories.append (to_clauses done) c ≡ to_clauses (done ++ c ∷ [])
unfolding Factories.append to_clauses
append-to_clauses [] c = refl
append-to_clauses (d ∷ done) c = ap (Requests.Clause.cons d) (append-to_clauses done c)

pub add_operands-expression :
    (type : ExpressionType.ExpressionType) (done cs : List Requests.Clause.Clause)
    → Factories.add_operands (Requests.Clause.expression type (to_clauses done)) cs
      ≡ Requests.Clause.expression type (to_clauses (done ++ cs))
unfolding Factories.add_operands Factories.add_operand
add_operands-expression type done [] =
    ap (λ l. Requests.Clause.expression type (to_clauses l)) (sym (append-nil done))
add_operands-expression type done (c ∷ cs) =
    ap (λ l. Factories.add_operands (Requests.Clause.expression type l) cs)
      (append-to_clauses done c)
    ∙ add_operands-expression type (done ++ c ∷ []) cs
    ∙ ap (λ l. Requests.Clause.expression type (to_clauses l)) (append_assoc done (c ∷ []) cs)

-- The operands of a chain of branches.
unfoldable pub flatten :
    List (Requests.Clause.Clause × Requests.Clause.Clause) → List Requests.Clause.Clause
flatten [] = []
flatten (b ∷ rest) = b.0 ∷ b.1 ∷ flatten rest

pub branches-add_operands :
    (w : Factories.WhenCase) (bs : List (Requests.Clause.Clause × Requests.Clause.Clause))
    (otherwise : Requests.Clause.Clause)
    → Factories.else_of (Factories.branches w bs) otherwise
      ≡ Factories.add_operands w.case_expression (flatten bs ++ otherwise ∷ [])
unfolding Factories.else_of Factories.branches Factories.when_of Factories.then_of
    Factories.add_operands flatten
branches-add_operands w [] otherwise = refl
branches-add_operands w (b ∷ rest) otherwise =
    branches-add_operands (Factories.then_of (Factories.when_of w b.0) b.1) rest otherwise
