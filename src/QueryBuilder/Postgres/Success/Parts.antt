-- ===== src/QueryBuilder/Postgres/Success/Parts.antt =====
-- About the exceptions of BuildClause (lib/query_builder) on the parts of clauses.
use my_orm.Prelude.{
  ℕ, ◌≡◌, refl, Bool, true, false, ◌&&◌, Option, none, some, Option-cases, inl, inr, List, [], ◌∷◌,
  ◌++◌, Bytes, Outcome, ok, err, ensure, ◌>>=◌, ◌>>◌, arith,
}
use my_orm.Relation.Path.{MessagePath}
use my_orm.Requests.ExpressionType.{ExpressionType, ColumnType, singular, excluded}
use my_orm.QueryBuilder.Clause.{
  FieldInfo, KeyType, simple, primary, index, other_key, AlterType, set_default, set_type,
  no_alteration, drop_default, set_required, drop_required, Clause, null, add_column, drop_column,
  Clauses, cons, ClauseType,
}
use my_orm.QueryBuilder.Postgres.Text.{
  Fault, invalid_operands, unknown_expression, unknown_table, field_to_string,
}
use my_orm.QueryBuilder.Postgres.Expression.{template, accepts, fill}
use my_orm.QueryBuilder.Postgres.Definition.{
  Environment, get_table, get_field, table_name, column_definition, alter_column_text,
}
use my_orm.QueryBuilder.Postgres.Build.{
  build_column, definitions, part_text, altered_table, table_of, build_clause,
}
use my_orm.QueryBuilder.Postgres.Success.{
  succeeded, is_known_key, is_known_alteration, has_operands, knows_table, knows_field,
  knows_fields, names_table,
}

-- A chain succeeds if its first step does and the rest does, whatever the first returned.
pub chain :
    {A B : Type 0} (m : Outcome Fault A) (f : A → Outcome Fault B) (b c : Bool)
    → succeeded m ≡ b
    → ((a : A) → succeeded (f a) ≡ c)
    → succeeded (m >>= f) ≡ (b && c)
unfolding succeeded
chain (ok a) f b c h k = ground (arith, k a)
chain (err e) f b c h k = ground arith

-- A last step, which only returns.
pub last :
    {A B : Type 0} (m : Outcome Fault A) (f : A → B) (b : Bool)
    → succeeded m ≡ b
    → succeeded (m >>= λ a. ok (f a)) ≡ b
unfolding succeeded
last (ok a) f b h = h
last (err e) f b h = h

key_succeeds :
    (path : List ℕ) (key : KeyType) → succeeded (field_to_string path key) ≡ is_known_key key
unfolding succeeded field_to_string is_known_key
key_succeeds path simple = refl
key_succeeds path primary = refl
key_succeeds path index = refl
key_succeeds path other_key = refl

pub column_succeeds :
    (table_path field_path : List ℕ) (key : KeyType) (type : ColumnType)
    → succeeded (build_column table_path field_path key type) ≡ is_known_key key
unfolding build_column
column_succeeds table_path field_path key excluded =
    last (field_to_string field_path key) _ _ (key_succeeds field_path key)
column_succeeds [] field_path key singular = key_succeeds field_path key
column_succeeds (t ∷ ts) field_path key singular =
    last (field_to_string field_path key) _ _ (key_succeeds field_path key)

pub alteration_succeeds :
    (env : Environment) (path : List ℕ) (type : AlterType)
    → succeeded (alter_column_text env path type) ≡ is_known_alteration type
unfolding succeeded alter_column_text is_known_alteration
alteration_succeeds env path (set_default info) = refl
alteration_succeeds env path (set_type info) = refl
alteration_succeeds env path no_alteration = refl
alteration_succeeds env path drop_default = refl
alteration_succeeds env path set_required = refl
alteration_succeeds env path drop_required = refl

get_table_succeeds :
    (env : Environment) (path : MessagePath) → succeeded (get_table env path) ≡ knows_table env path
unfolding succeeded get_table knows_table
get_table_succeeds env path =
    elim (env.get_table_path path)
      as (λ found.
        succeeded (elim found [ none ↦ err unknown_table | some owner ↦ ok owner ])
        ≡ (elim found [ none ↦ false | some owner ↦ true ])) [ none ↦ refl | some owner ↦ refl ]

pub name_succeeds :
    (env : Environment) (path : MessagePath)
    → succeeded (table_name env path) ≡ knows_table env path
unfolding table_name
name_succeeds env path = last (get_table env path) _ _ (get_table_succeeds env path)

pub field_succeeds :
    (env : Environment) (path : MessagePath) → succeeded (get_field env path) ≡ knows_table env path
unfolding get_field
field_succeeds env path = last (get_table env path) _ _ (get_table_succeeds env path)

pub definition_succeeds :
    (env : Environment) (field : Option FieldInfo)
    → succeeded (column_definition env field) ≡ knows_field env field
unfolding succeeded column_definition knows_field
definition_succeeds env none = refl
definition_succeeds env (some field) =
    last (get_field env field.path) _ _ (field_succeeds env field.path)

pub definitions_succeed :
    (env : Environment) (fields : List ℕ)
    → succeeded (definitions env fields) ≡ knows_fields env fields
unfolding succeeded definitions knows_fields
definitions_succeed env [] = refl
definitions_succeed env (i ∷ is) =
    chain (column_definition env (env.get_primitive_field i)) _ _ _
      (definition_succeeds env (env.get_primitive_field i))
      λ text. last (definitions env is) _ _ (definitions_succeed env is)

pub table_succeeds :
    (env : Environment) (cs : Clauses) → succeeded (altered_table env cs) ≡ names_table env cs
unfolding succeeded altered_table table_of names_table
table_succeeds env (cons (add_column none) cs) = refl
table_succeeds env (cons (add_column (some field)) cs) = name_succeeds env field.path
table_succeeds env (cons (drop_column none) cs) = refl
table_succeeds env (cons (drop_column (some field)) cs) = name_succeeds env field.path
table_succeeds env other = refl

-- BuildClause itself prints a part that is absent as nothing.
pub part_succeeds :
    (env : Environment) (stack : List ClauseType) (word : Bytes) (c : Clause) (b : Bool)
    → succeeded (build_clause env stack c) ≡ b
    → succeeded (part_text word c (build_clause env stack c)) ≡ b
unfolding succeeded part_text build_clause
part_succeeds env stack word null b h = h
part_succeeds env stack word c b h = last (build_clause env stack c) (λ text. word ++ text) b h

pub expression_succeeds :
    (type : ExpressionType) (n : ℕ) (built : Outcome Fault (List Bytes)) (b : Bool)
    → succeeded built ≡ b
    → succeeded (elim (template type) [
      | none ↦ err unknown_expression
      | some t ↦ ensure (accepts t n) invalid_operands >> (built >>= λ texts. ok (fill t texts))
    ])
      ≡ (has_operands type n && b)
unfolding succeeded has_operands
expression_succeeds type n built b h = elim (Option-cases (template type)) [
  | inl e ↦ rw (e, has_operands) refl
  | inr (t, e) ↦
      rw (e, has_operands)
        (chain (ensure (accepts t n) invalid_operands) _ (accepts t n) b (checked (accepts t n))
          λ _. last built (fill t) b h)
]
  where
    checked : (a : Bool) → succeeded (ensure a invalid_operands) ≡ a
    checked true = refl
    checked false = refl

pub optional_succeeds :
    (wanted b : Bool) (built : Outcome Fault (List Bytes)) (f : List Bytes → Bytes)
    → succeeded built ≡ b
    → succeeded (elim wanted [ true ↦ built >>= λ texts. ok (f texts) | false ↦ ok [] ])
      ≡ (elim wanted [ true ↦ b | false ↦ true ])
unfolding succeeded
optional_succeeds true b built f h = last built f b h
optional_succeeds false b built f h = refl
