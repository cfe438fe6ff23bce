-- ===== src/QueryBuilder/Postgres/Text.antt =====
-- The leaves of a statement (lib/query_builder/builders/postgres.cpp): literals, numbers, the names
-- of tables and columns.
use my_orm.Prelude.{
  ℕ, zero, suc, ◌+◌, ◌/◌, ◌%◌, Bool, List, [], ◌∷◌, ◌++◌, Bytes, codes, ltb, ◌==◌, nat_eq,
  if◌then◌else◌, Outcome, ok, err,
}
use my_orm.Prelude.Int.{ℤ, pos, negsuc}
use my_orm.QueryBuilder.Clause.{KeyType, simple, primary, index, other_key}

-- What the builder throws: a key type with no enumerator, a wrong count of operands, an expression
-- or an alteration of no known kind, and a field that is dereferenced where there is none.
pub data Fault : Type 0 where
  invalid_field_type invalid_operands unknown_expression unknown_alteration : Fault
  unknown_table null_field : Fault

-- std::to_string of an unsigned number. The first argument bounds the digits.
unfoldable pub digits : ℕ → ℕ → Bytes
digits zero n = []
digits (suc fuel) n =
    let rest = digits fuel (n / 10) in
    if ltb n 10 then (48 + n) ∷ [] else rest ++ (48 + n % 10) ∷ []

unfoldable pub decimal : ℕ → Bytes
unfolding digits
decimal n = digits (suc n) n

unfoldable pub signed_decimal : ℤ → Bytes
unfolding decimal
signed_decimal (pos n) = decimal n
signed_decimal (negsuc n) = b'-' ∷ decimal (suc n)

-- Texts with a separator between them.
unfoldable pub join : Bytes → List Bytes → Bytes
join separator [] = []
join separator (t ∷ []) = t
join separator (t ∷ u ∷ ts) = t ++ separator ++ join separator (u ∷ ts)

unfoldable pub decimals : List ℕ → List Bytes
decimals [] = []
decimals (n ∷ ns) = decimal n ∷ decimals ns

-- Format("{onlydelim,delimiter='_'}", path)
unfoldable pub path_text : List ℕ → Bytes
unfolding join decimals
path_text path = join (codes "_") (decimals path)

unfoldable pub field_to_string : List ℕ → KeyType → Outcome Fault Bytes
unfolding path_text
field_to_string path simple = ok (codes "f_" ++ path_text path)
field_to_string path primary = ok (codes "p_" ++ path_text path)
field_to_string path index = ok (codes "i_" ++ path_text path)
field_to_string path other_key = err invalid_field_type

-- FieldToString(path, EKeyType::Simple), which does not throw.
unfoldable pub simple_field : List ℕ → Bytes
unfolding path_text
simple_field path = codes "f_" ++ path_text path

unfoldable pub table_text : List ℕ → Bytes
unfolding path_text
table_text path = codes "t_" ++ path_text path

-- The loop body of EscapeStringLiteral, which BuildString repeats.
unfoldable pub escape_char : ℕ → Bytes
escape_char c =
    if c == b'\''
    then codes "''"
    else if c == b'\\'
    then codes "\\\\"
    else if c == 10
    then codes "\\n"
    else if c == 13
    then codes "\\r"
    else if c == 9
    then codes "\\t"
    else c ∷ []

unfoldable pub escape_chars : Bytes → Bytes
unfolding escape_char
escape_chars [] = []
escape_chars (c ∷ s) = escape_char c ++ escape_chars s

unfoldable pub escape_string_literal : Bytes → Bytes
unfolding escape_chars
escape_string_literal s = codes "'" ++ escape_chars s ++ codes "'"

-- The loop body and the whole of EscapeIdentifier.
unfoldable pub identifier_chars : Bytes → Bytes
identifier_chars [] = []
identifier_chars (c ∷ s) = (if c == b'"' then codes "\"\"" else c ∷ []) ++ identifier_chars s

unfoldable pub escape_identifier : Bytes → Bytes
unfolding identifier_chars
escape_identifier s = codes "\"" ++ identifier_chars s ++ codes "\""

unfoldable pub bool_text : Bool → Bytes
bool_text b = if b then codes "TRUE" else codes "FALSE"
