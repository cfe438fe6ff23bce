-- ===== src/QueryBuilder/Postgres/Literals.antt =====
-- What PostgreSQL reads where EscapeStringLiteral (lib/query_builder/builders/postgres.cpp) wrote a
-- literal. With standard_conforming_strings, its default, a backslash in '...' stands for itself.
use my_orm.Prelude.{
  ℕ, ◌≡◌, ◌≢◌, refl, sym, ap, ◌∙◌, Option, none, some, [], ◌∷◌, ◌++◌, append_assoc, Bytes, codes,
  ◌==◌, nat_eq, if◌then◌else◌, arith,
}
use mathlib.Core.Option.{some-injective}
use my_orm.QueryBuilder.Postgres.Text.{
  escape_char, escape_chars, escape_string_literal, identifier_chars, escape_identifier,
}

abbrev push : ℕ → Option (Bytes × Bytes) → Option (Bytes × Bytes)
push c none = none
push c (some (value, rest)) = some (c ∷ value, rest)

-- The value of a quoted text from behind its opening quote, and what stands behind it: a doubled
-- quote is a quote of the value, and any other ends it.
pub read_quoted : ℕ → Bytes → Option (Bytes × Bytes)
read_quoted quote [] = none
read_quoted quote (c ∷ []) = if c == quote then some ([], []) else none
read_quoted quote (c ∷ d ∷ s) =
    let behind = read_quoted quote s in
    let next = read_quoted quote (d ∷ s) in
    if c == quote then (if d == quote then push quote behind else some ([], d ∷ s)) else push c next

pub read_literal : ℕ → Bytes → Option (Bytes × Bytes)
read_literal quote [] = none
read_literal quote (c ∷ s) = if c == quote then read_quoted quote s else none

-- The characters that the builder replaces, beside the quote.
unfoldable pub stored_char : ℕ → Bytes
stored_char c =
    if c == b'\\'
    then codes "\\\\"
    else if c == 10
    then codes "\\n"
    else if c == 13
    then codes "\\r"
    else if c == 9
    then codes "\\t"
    else c ∷ []

unfoldable pub stored : Bytes → Bytes
unfolding stored_char
stored [] = []
stored (c ∷ s) = stored_char c ++ stored s

abbrev pub StartsOther : ℕ → Bytes → Type 0
StartsOther quote [] = Unit
StartsOther quote (c ∷ s) = c ≢ quote

read_end :
    (quote : ℕ) (rest : Bytes)
    → StartsOther quote rest
    → read_quoted quote (quote ∷ rest) ≡ some ([], rest)
unfolding read_quoted
read_end quote [] h = ground arith
read_end quote (c ∷ s) h = ground arith

read_pair :
    (quote : ℕ) (s : Bytes)
    → read_quoted quote (quote ∷ quote ∷ s) ≡ push quote (read_quoted quote s)
unfolding read_quoted
read_pair quote s = ground arith

read_other :
    (quote c : ℕ) (t : Bytes) → c ≢ quote → read_quoted quote (c ∷ t) ≡ push c (read_quoted quote t)
unfolding read_quoted
read_other quote c [] h = ground arith
read_other quote c (d ∷ t) h = ground arith

abbrev push_all : Bytes → Option (Bytes × Bytes) → Option (Bytes × Bytes)
push_all [] r = r
push_all (c ∷ s) r = push c (push_all s r)

push_all-some : (s value rest : Bytes) → push_all s (some (value, rest)) ≡ some (s ++ value, rest)
push_all-some [] value rest = refl
push_all-some (c ∷ s) value rest = ap (push c) (push_all-some s value rest)

read_escaped :
    (c : ℕ) (t : Bytes)
    → read_quoted 39 (escape_char c ++ t) ≡ push_all (stored_char c) (read_quoted 39 t)
unfolding escape_char stored_char
read_escaped c t = ground (
  arith,
  read_pair 39 t,
  read_other 39 c t,
  read_other 39 92 (92 ∷ t),
  read_other 39 92 (110 ∷ t),
  read_other 39 92 (114 ∷ t),
  read_other 39 92 (116 ∷ t),
  read_other 39 92 t,
  read_other 39 110 t,
  read_other 39 114 t,
  read_other 39 116 t,
)

read_chars :
    (s rest : Bytes)
    → StartsOther 39 rest
    → read_quoted 39 (escape_chars s ++ 39 ∷ rest) ≡ some (stored s, rest)
unfolding escape_chars stored
read_chars [] rest h = read_end 39 rest h
read_chars (c ∷ s) rest h =
    rw
      (
        append_assoc (escape_char c) (escape_chars s) (39 ∷ rest),
        read_escaped c (escape_chars s ++ 39 ∷ rest),
        read_chars s rest h,
      )
      (push_all-some (stored_char c) (stored s) rest)

-- A literal that the builder wrote is read to its closing quote whatever the string holds, and its
-- value is the string with `\`, line feed, carriage return and tab replaced. Behind it stands no quote.
pub read_literal-escape_string_literal :
    (s rest : Bytes)
    → StartsOther 39 rest
    → read_literal 39 (escape_string_literal s ++ rest) ≡ some (stored s, rest)
unfolding read_literal escape_string_literal
read_literal-escape_string_literal s rest h =
    rw (append_assoc (escape_chars s) (39 ∷ []) rest) (read_chars s rest h)

-- What the replacements leave to tell strings apart.
restore : Bytes → Bytes
restore [] = []
restore (c ∷ []) = c ∷ []
restore (c ∷ d ∷ s) =
    let behind = restore s in
    let next = restore (d ∷ s) in
    if c == 92
    then (if d == 92 then 92 else if d == 110 then 10 else if d == 114 then 13 else 9) ∷ behind
    else c ∷ next

restore_other : (c : ℕ) (t : Bytes) → c ≢ 92 → restore (c ∷ t) ≡ c ∷ restore t
unfolding restore
restore_other c [] h = refl
restore_other c (d ∷ t) h = ground arith

restore-stored_char : (c : ℕ) (t : Bytes) → restore (stored_char c ++ t) ≡ c ∷ restore t
unfolding stored_char restore
restore-stored_char c t = ground (arith, restore_other c t)

restore-stored : (s : Bytes) → restore (stored s) ≡ s
unfolding stored
restore-stored [] = unfold restore in refl
restore-stored (c ∷ s) =
    restore-stored_char c (stored s) ∙ ap (λ (t : Bytes). c ∷ t) (restore-stored s)

-- Strings with the same literal are the same.
pub escape_string_literal-injective :
    (s t : Bytes) → escape_string_literal s ≡ escape_string_literal t → s ≡ t
escape_string_literal-injective s t h =
    let read = λ (u : Bytes). read_literal-escape_string_literal u [] tt in
    sym (restore-stored s)
    ∙ ap (λ (r : Bytes). restore r)
        (ap (λ (r : Bytes × Bytes). r.0)
          (some-injective _ _
            (sym (read s) ∙ ap (λ (u : Bytes). read_literal 39 (u ++ [])) h ∙ read t)))
    ∙ restore-stored t

read_identifier_char :
    (c : ℕ) (t : Bytes)
    → read_quoted 34 ((if c == 34 then 34 ∷ 34 ∷ [] else c ∷ []) ++ t) ≡ push c (read_quoted 34 t)
read_identifier_char c t = ground (arith, read_pair 34 t, read_other 34 c t)

read_identifier_chars :
    (s rest : Bytes)
    → StartsOther 34 rest
    → read_quoted 34 (identifier_chars s ++ 34 ∷ rest) ≡ some (s, rest)
unfolding identifier_chars
read_identifier_chars [] rest h = read_end 34 rest h
read_identifier_chars (c ∷ s) rest h =
    rw (append_assoc (if c == 34 then 34 ∷ 34 ∷ [] else c ∷ []) (identifier_chars s) (34 ∷ rest)) (
      read_identifier_char c (identifier_chars s ++ 34 ∷ rest)
      ∙ ap (push c) (read_identifier_chars s rest h))

-- A quoted identifier that the builder wrote is read to its closing quote, and is the identifier.
-- Behind it stands no double quote.
pub read_literal-escape_identifier :
    (s rest : Bytes)
    → StartsOther 34 rest
    → read_literal 34 (escape_identifier s ++ rest) ≡ some (s, rest)
unfolding read_literal escape_identifier
read_literal-escape_identifier s rest h =
    rw (append_assoc (identifier_chars s) (34 ∷ []) rest) (read_identifier_chars s rest h)
