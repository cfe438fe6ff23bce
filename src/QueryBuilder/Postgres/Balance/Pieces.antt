-- ===== src/QueryBuilder/Postgres/Balance/Pieces.antt =====
-- About quotes and parentheses in the pieces of statements (lib/query_builder/builders/postgres.cpp).
use mathlib.Core.Path.{subst}
use my_orm.Prelude.{
  ℕ, ◌≡◌, refl, sym, ◌∙◌, Bool, true, false, none, some, Option-cases, inl, inr, List, [], ◌∷◌,
  ◌++◌, Bytes, codes, All, Outcome, ok, err, ensure, ◌>>=◌, ◌>>◌, append_assoc,
}
use my_orm.Requests.ExpressionType.{ExpressionType}
use my_orm.QueryBuilder.Postgres.Text
use my_orm.QueryBuilder.Postgres.Text.{
  Fault, invalid_operands, unknown_expression, field_to_string, simple_field, table_text,
}
use my_orm.QueryBuilder.Postgres.Expression.{template, accepts, fill}
use my_orm.QueryBuilder.Postgres.Definition.{Environment}
use my_orm.QueryBuilder.Postgres.Build.{values_text, definitions}
use my_orm.QueryBuilder.Postgres.Balance.{
  IsNeutral, nil-IsNeutral, ◌&&&◌, is_plain, plain-IsNeutral, parens-IsNeutral,
}
use my_orm.QueryBuilder.Postgres.Balance.Expressions.{word_plain, list-IsNeutral, fill-IsNeutral}
use my_orm.QueryBuilder.Postgres.Balance.Definitions.{PrintsPlainly, Yields, definition-Yields}
use my_orm.QueryBuilder.Postgres.Balance.Parts.{then-Yields, values-IsNeutral}

pub definitions-Yields :
    (env : Environment) (plain : PrintsPlainly env) (fields : List ℕ)
    → Yields (All IsNeutral) (definitions env fields)
unfolding definitions
definitions-Yields env plain [] = tt
definitions-Yields env plain (i ∷ is) =
    then-Yields IsNeutral (All IsNeutral) _ _
      (definition-Yields env plain (env.get_primitive_field i))
      λ text h.
        then-Yields (All IsNeutral) (All IsNeutral) _ _ (definitions-Yields env plain is)
          λ texts k. (h, k)

pub filled-Yields :
    (type : ExpressionType) (n : ℕ) (built : Outcome Fault (List Bytes))
    → Yields (All IsNeutral) built
    → Yields IsNeutral (elim (template type) [
      | none ↦ err unknown_expression
      | some t ↦ ensure (accepts t n) invalid_operands >> (built >>= λ texts. ok (fill t texts))
    ])
filled-Yields type n built h = elim (Option-cases (template type)) [
  | inl e ↦ rw e tt
  | inr (t, e) ↦ rw e (
      then-Yields (λ _. Unit) IsNeutral (ensure (accepts t n) invalid_operands) _
        (checked (accepts t n))
        λ _ _.
          then-Yields (All IsNeutral) IsNeutral built _ h
            λ texts p. fill-IsNeutral t texts (word_plain type t e) p)
]
  where
    checked : (b : Bool) → Yields (λ (_ : Unit {0}). Unit {0}) (ensure b invalid_operands)
    checked true = tt
    checked false = tt

pub word : (s : Bytes) → is_plain s ≡ true → IsNeutral s
word s h = plain-IsNeutral s h

pub create_table-IsNeutral :
    (name : Bytes) (ts : List Bytes)
    → IsNeutral name
    → All IsNeutral ts
    → IsNeutral
        (codes "CREATE TABLE " ++ name ++ codes " (" ++ Text.join (codes ", ") ts ++ codes ")")
create_table-IsNeutral name ts k h =
    let start = codes "CREATE TABLE " ++ name in
    let fields = Text.join (codes ", ") ts in
    subst IsNeutral
      (sym (
        append_assoc (start ++ codes " (") fields (codes ")")
        ∙ append_assoc start (codes " (") (fields ++ codes ")")))
      (word (codes "CREATE TABLE ") refl
        &&& k
        &&& (word (codes " ") refl &&& parens-IsNeutral fields (list-IsNeutral ts h)))

pub inserted-Yields :
    (is_values : Bool) (built : Outcome Fault (List Bytes))
    → Yields (All IsNeutral) built
    → Yields IsNeutral
        (elim is_values [ true ↦ built >>= λ rows. ok (values_text rows) | false ↦ ok [] ])
inserted-Yields true built h =
    then-Yields (All IsNeutral) IsNeutral built _ h λ rows k. values-IsNeutral rows k
inserted-Yields false built h = nil-IsNeutral

pub conflict-Yields :
    (is_do_update : Bool) (built : Outcome Fault (List Bytes))
    → Yields (All IsNeutral) built
    → Yields IsNeutral (elim is_do_update [
      | true ↦
          built >>= λ set. ok (codes " ON CONFLICT DO UPDATE SET " ++ Text.join (codes ", ") set)
      | false ↦ ok []
    ])
conflict-Yields true built h =
    then-Yields (All IsNeutral) IsNeutral built _ h
      λ set k. word (codes " ON CONFLICT DO UPDATE SET ") refl &&& list-IsNeutral set k
conflict-Yields false built h = nil-IsNeutral
