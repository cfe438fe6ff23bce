-- ===== src/QueryBuilder/Postgres/Balance/Parts.antt =====
-- About quotes and parentheses around the parts of a statement
-- (lib/query_builder/builders/postgres.cpp).
use mathlib.Core.Path.{subst}
use my_orm.Prelude.{
  ℕ, refl, true, false, Option, none, some, List, [], ◌∷◌, ◌++◌, Bytes, codes, All, if◌then◌else◌,
  Outcome, ok, err, ◌>>=◌, append_assoc,
}
use my_orm.Relation.Path.{MessagePath}
use my_orm.Requests.ExpressionType.{ColumnType, singular, excluded}
use my_orm.QueryBuilder.Clause.{
  FieldInfo, KeyType, simple, primary, index, other_key, JoinType, left_join, inner_join,
  exclusive_left_join, Clause, null, add_column, drop_column, alter_column, Clauses, cons,
  ClauseType,
}
use my_orm.QueryBuilder.Postgres.Text
use my_orm.QueryBuilder.Postgres.Text.{
  Fault, invalid_operands, field_to_string, simple_field, table_text,
}
use my_orm.QueryBuilder.Postgres.Expression.{parens}
use my_orm.QueryBuilder.Postgres.Definition.{Environment, get_table, table_name}
use my_orm.QueryBuilder.Postgres.Build.{
  build_column, join_word, with_braces, enclose, part_text, selectors_text, columns_text,
  values_text, joins_text, altered_table, table_of,
}
use my_orm.QueryBuilder.Postgres.Balance.{
  IsNeutral, nil-IsNeutral, ◌&&&◌, plain-IsNeutral, name-IsNeutral, table_text-IsNeutral,
  parens-IsNeutral,
}
use my_orm.QueryBuilder.Postgres.Balance.Expressions.{list-IsNeutral}
use my_orm.QueryBuilder.Postgres.Balance.Definitions.{Yields, always-Yields}

pub then-Yields :
    {A B : Type 0} (P : A → Type 0) (Q : B → Type 0) (m : Outcome Fault A) (f : A → Outcome Fault B)
    → Yields P m
    → ((a : A) → P a → Yields Q (f a))
    → Yields Q (m >>= f)
then-Yields P Q (ok a) f h k = k a h
then-Yields P Q (err e) f h k = tt

field_to_string-Yields :
    (path : List ℕ) (key : KeyType) → Yields IsNeutral (field_to_string path key)
unfolding field_to_string
field_to_string-Yields path simple = name-IsNeutral (codes "f_") refl path
field_to_string-Yields path primary = name-IsNeutral (codes "p_") refl path
field_to_string-Yields path index = name-IsNeutral (codes "i_") refl path
field_to_string-Yields path other_key = tt

pub column-Yields :
    (table_path field_path : List ℕ) (key : KeyType) (type : ColumnType)
    → Yields IsNeutral (build_column table_path field_path key type)
unfolding build_column
column-Yields table_path field_path key excluded =
    then-Yields IsNeutral IsNeutral (field_to_string field_path key) _
      (field_to_string-Yields field_path key)
      λ name h. plain-IsNeutral (codes "EXCLUDED.") refl &&& h
column-Yields [] field_path key singular = field_to_string-Yields field_path key
column-Yields (t ∷ ts) field_path key singular =
    then-Yields IsNeutral IsNeutral (field_to_string field_path key) _
      (field_to_string-Yields field_path key)
      λ name h. table_text-IsNeutral (t ∷ ts) &&& plain-IsNeutral (codes ".") refl &&& h

pub join_word-IsNeutral : (type : JoinType) → IsNeutral (join_word type)
unfolding join_word
join_word-IsNeutral left_join = plain-IsNeutral (codes "LEFT JOIN ") refl
join_word-IsNeutral inner_join = plain-IsNeutral (codes "INNER JOIN ") refl
join_word-IsNeutral exclusive_left_join = plain-IsNeutral (codes "LEFT OUTER JOIN ") refl

pub enclose-IsNeutral :
    (stack : List ClauseType) (text : Bytes) → IsNeutral text → IsNeutral (enclose stack text)
unfolding enclose
enclose-IsNeutral [] text h = h
enclose-IsNeutral (parent ∷ stack) text h =
    elim (with_braces parent) as (λ b. IsNeutral (if b then parens text else text)) [
      | true ↦ parens-IsNeutral text h
      | false ↦ h
    ]

pub selectors-IsNeutral : (ts : List Bytes) → All IsNeutral ts → IsNeutral (selectors_text ts)
unfolding selectors_text
selectors-IsNeutral [] h = plain-IsNeutral (codes "*") refl
selectors-IsNeutral (t ∷ ts) h = list-IsNeutral (t ∷ ts) h

pub columns-IsNeutral : (ts : List Bytes) → All IsNeutral ts → IsNeutral (columns_text ts)
unfolding columns_text
columns-IsNeutral [] h = nil-IsNeutral
columns-IsNeutral (t ∷ ts) h =
    enclosed_list
      (parens-IsNeutral _ (list-IsNeutral (t ∷ ts) h) &&& plain-IsNeutral (codes " ") refl)
  where
    enclosed_list :
        IsNeutral (parens (Text.join (codes ", ") (t ∷ ts)) ++ codes " ")
        → IsNeutral (codes "(" ++ Text.join (codes ", ") (t ∷ ts) ++ codes ") ")
    enclosed_list k =
        subst IsNeutral
          (append_assoc (codes "(" ++ Text.join (codes ", ") (t ∷ ts)) (codes ")") (codes " ")) k

pub values-IsNeutral : (ts : List Bytes) → All IsNeutral ts → IsNeutral (values_text ts)
unfolding values_text
values-IsNeutral [] h = plain-IsNeutral (codes "DEFAULT VALUES") refl
values-IsNeutral (t ∷ ts) h = plain-IsNeutral (codes "VALUES ") refl &&& list-IsNeutral (t ∷ ts) h

pub joins-IsNeutral : (ts : List Bytes) → All IsNeutral ts → IsNeutral (joins_text ts)
unfolding joins_text
joins-IsNeutral [] h = nil-IsNeutral
joins-IsNeutral (t ∷ ts) (p, h) = plain-IsNeutral (codes " ") refl &&& p &&& joins-IsNeutral ts h

pub part-Yields :
    (word : Bytes) (c : Clause) (built : Outcome Fault Bytes)
    → IsNeutral word
    → Yields IsNeutral built
    → Yields IsNeutral (part_text word c built)
unfolding part_text
part-Yields word null built h k = nil-IsNeutral
part-Yields word c built h k = then-Yields IsNeutral IsNeutral built _ k λ text p. h &&& p

pub name-Yields : (env : Environment) (path : MessagePath) → Yields IsNeutral (table_name env path)
unfolding table_name
name-Yields env path = always-Yields IsNeutral (get_table env path) table_text table_text-IsNeutral

table_of-Yields :
    (env : Environment) (field : Option FieldInfo) → Yields IsNeutral (table_of env field)
unfolding table_of
table_of-Yields env none = tt
table_of-Yields env (some field) = name-Yields env field.path

pub altered_table-Yields :
    (env : Environment) (cs : Clauses) → Yields IsNeutral (altered_table env cs)
unfolding altered_table
altered_table-Yields env (cons (add_column field) cs) = table_of-Yields env field
altered_table-Yields env (cons (drop_column field) cs) = table_of-Yields env field
altered_table-Yields env (cons (alter_column table_path field_path type) cs) =
    table_text-IsNeutral table_path
altered_table-Yields env other = nil-IsNeutral
